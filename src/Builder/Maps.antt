-- ===== src/Builder/Maps.antt =====
-- What a name stands for after registration and inheritance: Register, RegisterLibrary and
-- InheritFrom of src/lua/lua_runtime.cc.
use bernardx.Base.{
  ℕ, ◌≡◌, refl, sym, ◌∙◌, true, ◌&&◌, ==_refl, List, [], ◌∷◌, ◌++◌, Option, none, some, Bytes,
  bytes_eq, if◌then◌else◌, Bool-cases, inl, inr, arith,
}
use mathlib.Core.Path.{subst}
use bernardx.Builder.{Builder, find, assign, assign_all, inherit_from}

bytes_eq_refl : (s : Bytes) → bytes_eq s s ≡ true
unfolding bytes_eq
bytes_eq_refl [] = refl
bytes_eq_refl (c ∷ s) = rw (==_refl c, bytes_eq_refl s) refl

bytes_eq-path : (s t : Bytes) → bytes_eq s t ≡ true → s ≡ t
unfolding bytes_eq
bytes_eq-path [] [] e = refl
bytes_eq-path [] (d ∷ t) e = cc
bytes_eq-path (c ∷ s) [] e = cc
bytes_eq-path (c ∷ s) (d ∷ t) e =
    let head : c ≡ d = ground (arith, e) in
    let tail : bytes_eq s t ≡ true = ground (arith, e) in cc (head, bytes_eq-path s t tail)

both_eq :
    (n name other : Bytes)
    → (bytes_eq n other && bytes_eq name other) ≡ true
    → bytes_eq n name ≡ true
both_eq n name other e =
    let p = bytes_eq-path n other (ground (arith, e)) in
    let q = bytes_eq-path name other (ground (arith, e)) in
    subst (λ k. bytes_eq n k ≡ true) (p ∙ sym q) (bytes_eq_refl n)

find-assign :
    (name other : Bytes) (f : ℕ) (m : List (Bytes × ℕ))
    → find other (assign name f m) ≡ (if bytes_eq name other then some f else find other m)
unfolding find assign
find-assign name other f [] = refl
find-assign name other f ((n, g) ∷ m) = elim (Bool-cases (bytes_eq n name)) [
  | inl e ↦ rw (e, bytes_eq-path n name e) (ground arith)
  | inr e ↦ rw (e, find-assign name other f m) (ground (arith, e, both_eq n name other))
]

-- No name twice, as in a hash map.
abbrev pub Distinct : List (Bytes × ℕ) → Type 0
Distinct [] = Unit {0}
Distinct ((n, f) ∷ m) = (find n m ≡ none) × Distinct m

abbrev pub or_else : Option ℕ → Option ℕ → Option ℕ
or_else none d = d
or_else (some f) d = some f

find-assign_all :
    (name : Bytes) (parent m : List (Bytes × ℕ))
    → Distinct parent
    → find name (assign_all parent m) ≡ or_else (find name parent) (find name m)
unfolding find assign_all
find-assign_all name [] m d = refl
find-assign_all name ((n, f) ∷ parent) m d = elim (Bool-cases (bytes_eq n name)) [
  | inl e ↦
      let q : find name parent ≡ none =
        subst (λ k. find k parent ≡ none) (bytes_eq-path n name e) d.0 in
      rw (find-assign_all name parent (assign n f m) d.1, find-assign n name f m, e, q) refl
  | inr e ↦ rw (find-assign_all name parent (assign n f m) d.1, find-assign n name f m, e) refl
]

-- InheritFrom: a name that the parent knows stands for what it stands for there, any other name for
-- what it stood for; and the parent's extensions come after those registered before.
pub inherit_from-find :
    (c_modules libraries : List (Bytes × ℕ)) (extensions : List ℕ) (b : Builder) (name : Bytes)
    → Distinct c_modules
    → Distinct libraries
    → let b' = inherit_from (some (c_modules, libraries, extensions)) b in
      (find name b'.c_modules ≡ or_else (find name c_modules) (find name b.c_modules))
      × (find name b'.libraries ≡ or_else (find name libraries) (find name b.libraries))
      × (b'.extensions ≡ b.extensions ++ extensions)
unfolding inherit_from
inherit_from-find c_modules libraries extensions b name d e = (
  find-assign_all name c_modules b.c_modules d,
  find-assign_all name libraries b.libraries e,
  refl,
)
