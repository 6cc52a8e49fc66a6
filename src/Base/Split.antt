-- ===== src/Base/Split.antt =====
-- std::string::find and its relatives as the parsers of src/lua/http_library.cc and the line reader
-- of src/lua/async_io_library.cc use them: they cut a string where something is first found.
use bernardx.Base.{
  ℕ, ◌≡◌, refl, Bool, true, false, not, ◌&&◌, [], ◌∷◌, ◌++◌, Bytes, codes, if◌then◌else◌, ◌==◌,
  arith,
}

-- The string before the first byte that satisfies the test, and the rest from it on.
unfoldable pub break_at : (ℕ → Bool) → Bytes → Bytes × Bytes
break_at p [] = ([], [])
break_at p (c ∷ s) = let rest = break_at p s in if p c then ([], c ∷ s) else (c ∷ rest.0, rest.1)

-- s.starts_with("://")
unfoldable pub scheme_mark : Bytes → Bool
scheme_mark (a ∷ b ∷ c ∷ s) = a == b':' && (b == b'/' && c == b'/')
scheme_mark _ = false

-- s.find("://"): the string before it, and the rest from it on.
unfoldable pub break_scheme : Bytes → Bytes × Bytes
break_scheme [] = ([], [])
break_scheme (c ∷ s) =
    let rest = break_scheme s in if scheme_mark (c ∷ s) then ([], c ∷ s) else (c ∷ rest.0, rest.1)

unfoldable pub all_bytes : (ℕ → Bool) → Bytes → Bool
all_bytes p [] = true
all_bytes p (c ∷ s) = p c && all_bytes p s

abbrev pub none_of : (ℕ → Bool) → Bytes → Bool
none_of p s = all_bytes (λ c. not (p c)) s

pub break_at-append :
    (p : ℕ → Bool) (c : ℕ) (s t : Bytes)
    → none_of p s ≡ true
    → p c ≡ true
    → break_at p (s ++ (c ∷ t)) ≡ (s, c ∷ t)
unfolding break_at all_bytes
break_at-append p c [] t n e = rw e refl
break_at-append p c (d ∷ s) t n e = ground (arith, break_at-append p c s t)

pub break_at_none : (p : ℕ → Bool) (s : Bytes) → none_of p s ≡ true → break_at p s ≡ (s, [])
unfolding break_at all_bytes
break_at_none p [] n = refl
break_at_none p (d ∷ s) n = ground (arith, break_at_none p s)

scheme_mark_other : (d : ℕ) (s : Bytes) → (d == b':') ≡ false → scheme_mark (d ∷ s) ≡ false
unfolding scheme_mark
scheme_mark_other d [] e = refl
scheme_mark_other d (a ∷ []) e = refl
scheme_mark_other d (a ∷ b ∷ s) e = rw e refl

-- A scheme without a colon.
pub break_scheme-append :
    (s t : Bytes)
    → none_of (λ c. c == b':') s ≡ true
    → break_scheme (s ++ (codes "://" ++ t)) ≡ (s, codes "://" ++ t)
unfolding break_scheme scheme_mark all_bytes
break_scheme-append [] t n = refl
break_scheme-append (d ∷ s) t n =
    ground (arith, scheme_mark_other d (s ++ (codes "://" ++ t)), break_scheme-append s t)

pub all_bytes-append :
    (p : ℕ → Bool) (s t : Bytes)
    → all_bytes p s ≡ true
    → all_bytes p t ≡ true
    → all_bytes p (s ++ t) ≡ true
unfolding all_bytes
all_bytes-append p [] t a b = b
all_bytes-append p (c ∷ s) t a b = ground (arith, all_bytes-append p s t)

pub all_bytes-weaken :
    (p q : ℕ → Bool) (s : Bytes)
    → ((c : ℕ) → p c ≡ true → q c ≡ true)
    → all_bytes p s ≡ true
    → all_bytes q s ≡ true
unfolding all_bytes
all_bytes-weaken p q [] h a = refl
all_bytes-weaken p q (c ∷ s) h a = ground (arith, h c, all_bytes-weaken p q s h)
