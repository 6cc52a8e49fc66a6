-- ===== src/Http/Component.antt =====
-- What the URL normalization of src/lua/http_library.cc writes: the grammar of a component.
use bernardx.Base.{
  ℕ, ◌/◌, ◌%◌, ◌<◌, ◌≡◌, refl, ap, sym, Bool, true, false, not, ◌&&◌, [], ◌∷◌, ◌++◌, Bytes, codes,
  ◌==◌, arith, Bool-cases, inl, inr,
}
use mathlib.Core.List.{append_assoc}
use bernardx.Base.Split.{
  all_bytes-append, all_bytes-weaken, none_of, all_bytes, break_at-append, break_scheme-append,
}
use bernardx.Http.Url.{
  is_hex_digit, one_of, is_url_component_char_legal, hex_digit, is_escaped, append_byte,
  append_from, append_url_component, starts_component, append_query, append_components,
  after_scheme, normalize_url,
}

-- The grammar of a component: legal bytes and percent escapes.
pub data Component (in_query : Bool) : Bytes → Type 0 where
  ended : Component in_query []
  plain :
      {c : ℕ} {s : Bytes}
      → is_url_component_char_legal c in_query ≡ true
      → Component in_query s
      → Component in_query (c ∷ s)
  escape :
      {a b : ℕ} {s : Bytes}
      → is_hex_digit a ≡ true
      → is_hex_digit b ≡ true
      → Component in_query s
      → Component in_query (b'%' ∷ a ∷ b ∷ s)

abbrev AreBytes : Bytes → Type 0
AreBytes [] = Unit {0}
AreBytes (c ∷ s) = (c < 256) × AreBytes s

hex_digit-hex : (n : ℕ) → n < 16 → is_hex_digit (hex_digit n) ≡ true
unfolding is_hex_digit hex_digit
hex_digit-hex n b = ground arith

∧-false : (b : Bool) → (b && false) ≡ false
∧-false true = refl
∧-false false = refl

escaped_byte :
    {q : Bool} (c : ℕ) {s : Bytes}
    → c < 256
    → Component q s
    → Component q (b'%' ∷ hex_digit (c / 16) ∷ hex_digit (c % 16) ∷ s)
escaped_byte c b x =
    escape (hex_digit-hex (c / 16) (omega arith)) (hex_digit-hex (c % 16) (omega arith)) x

append_byte-Component :
    (q escaped : Bool) (c : ℕ) (s : Bytes)
    → c < 256
    → (c == b'%' && escaped) ≡ false
    → Component q s
    → Component q (append_byte q escaped c s)
unfolding append_byte is_hex_digit
append_byte-Component q escaped c s b n x = elim (Bool-cases (c == b'%')) [
  | inl e ↦ let f : escaped ≡ false = ground (arith, e, n) in rw (e, f) (escape refl refl x)
  | inr e ↦ elim (Bool-cases (is_url_component_char_legal c q)) [
    | inl l ↦ rw (e, l) (plain l x)
    | inr l ↦ rw (e, l) (escaped_byte c b x)
  ]
]

-- append_url_component writes a component of RFC 3986 whatever bytes, below 256, it is given: every
-- byte is legal there or belongs to a percent escape.
pub append_url_component-Component :
    (q : Bool) (s : Bytes) → AreBytes s → Component q (append_url_component q s)
unfolding append_from is_escaped append_byte
append_url_component-Component q [] b = ended
append_url_component-Component q (c ∷ []) b =
    append_byte-Component q false c [] b.0 (ground arith) ended
append_url_component-Component q (c ∷ d ∷ []) b = rw (∧-false (c == b'%')) (
    append_byte-Component q false c _ b.0 (∧-false (c == b'%'))
      (append_url_component-Component q (d ∷ []) b.1))
append_url_component-Component q (c ∷ d ∷ e ∷ s) b =
    elim (Bool-cases (c == b'%' && (is_hex_digit d && is_hex_digit e))) [
      | inl y ↦
          let c_is : c ≡ b'%' = ground (arith, y) in
          let both : (is_hex_digit d && is_hex_digit e) ≡ true = ground (arith, y) in
          let hd : is_hex_digit d ≡ true = ground (arith, both) in
          let he : is_hex_digit e ≡ true = ground (arith, both) in
          rw (c_is, hd, he) (escape hd he (append_url_component-Component q s b.1.1.1))
      | inr n ↦
          rw n
            (append_byte-Component q _ c _ b.0 n (append_url_component-Component q (d ∷ e ∷ s) b.1))
    ]

percent_illegal : (q : Bool) → is_url_component_char_legal b'%' q ≡ false
unfolding is_url_component_char_legal
percent_illegal true = refl
percent_illegal false = refl

legal_not_percent :
    (c : ℕ) (q : Bool) → is_url_component_char_legal c q ≡ true → (c == b'%') ≡ false
legal_not_percent c q l = elim (Bool-cases (c == b'%')) [
  | inl e ↦ let f : c ≡ b'%' = ground (arith, e) in cc (percent_illegal q, rw f at l)
  | inr e ↦ e
]

-- append_url_component leaves a component as it is, so one that it has written is not encoded a second
-- time.
pub append_url_component-idempotent :
    (q : Bool) (s : Bytes) → Component q s → append_url_component q s ≡ s
unfolding append_from is_escaped append_byte
append_url_component-idempotent q s ended = refl
append_url_component-idempotent q (c ∷ s) (plain l x) =
    let n = legal_not_percent c q l in
    rw (n, l) (ap (λ r. c ∷ r) (append_url_component-idempotent q s x))
append_url_component-idempotent q (_ ∷ a ∷ b ∷ s) (escape f g x) =
    rw (f, g) (ap (λ r. b'%' ∷ a ∷ b ∷ r) (append_url_component-idempotent q s x))

append_components-parts :
    (path query fragment : Bytes)
    → none_of (one_of (codes "?#")) path ≡ true
    → none_of (λ c. c == b'#') query ≡ true
    → append_components (path ++ (codes "?" ++ (query ++ (codes "#" ++ fragment))))
      ≡ append_url_component false path
        ++ (codes "?" ++ (append_url_component true query ++ (codes "#" ++ fragment)))
unfolding append_components append_query
append_components-parts path query fragment p q =
    let no_hash =
      all_bytes-weaken (λ c. not (one_of (codes "?#") c)) (λ c. not (c == b'#')) path
        (λ c e. ground arith) p in
    let no_mark =
      all_bytes-weaken (λ c. not (one_of (codes "?#") c)) (λ c. not (c == b'?')) path
        (λ c e. ground arith) p in
    let body =
      break_at-append (λ c. c == b'#') b'#' (path ++ (codes "?" ++ query)) fragment
        (all_bytes-append (λ c. not (c == b'#')) path (codes "?" ++ query) no_hash
          (unfold all_bytes in q))
        refl in
    let cut = break_at-append (λ c. c == b'?') b'?' path query no_mark refl in
    rw (sym (append_assoc path (codes "?" ++ query) (codes "#" ++ fragment)), body, cut) refl

-- A URL with all its parts (a scheme without a colon, an authority without a delimiter, a path
-- without question mark and hash, a query without hash) keeps the scheme, the authority and the
-- fragment byte for byte, and has its path and its query encoded, each by its own rule.
pub normalize_url-parts :
    (scheme authority path query fragment : Bytes)
    → none_of (λ c. c == b':') scheme ≡ true
    → none_of starts_component authority ≡ true
    → none_of (one_of (codes "?#")) path ≡ true
    → none_of (λ c. c == b'#') query ≡ true
    → let rest : Bytes → Bytes → Bytes = λ p q.
      scheme
      ++ (codes "://"
          ++ (authority ++ (codes "/" ++ (p ++ (codes "?" ++ (q ++ (codes "#" ++ fragment))))))) in
      normalize_url (rest path query)
      ≡ rest (append_url_component false path) (append_url_component true query)
unfolding normalize_url after_scheme
normalize_url-parts scheme authority path query fragment s a p q =
    let rest = path ++ (codes "?" ++ (query ++ (codes "#" ++ fragment))) in
    let cut = break_scheme-append scheme (authority ++ (codes "/" ++ rest)) s in
    let cut' = break_at-append starts_component b'/' authority rest a refl in
    let parts = append_components-parts (b'/' ∷ path) query fragment (unfold all_bytes in p) q in
    rw (cut, cut', parts)
      (unfold append_from is_escaped append_byte is_url_component_char_legal in refl)
