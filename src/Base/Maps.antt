-- ===== src/Base/Maps.antt =====
-- std::unordered_map with number keys (handles, coroutines) as an association list. The program
-- never relies on the order of iteration, so one order stands for all.
use Prim.Native.Nat.{ℕ, zero, suc, ◌+◌}
use mathlib.Core.Path.{◌≡◌, refl}
use mathlib.Core.Bool.{Bool, true, false, ◌||◌}
use mathlib.Core.Logic.{inl, inr}
use mathlib.Core.Option.{Option, none, some}
use mathlib.Core.List.{List, [], ◌∷◌, ◌++◌}
use native.Mathlib.Omega.{arith}
use bernardx.Base.Tests.{◌==◌, if◌then◌else◌, Bool-cases}

module _ {ℓ} {V : Type ℓ} where
  -- m.find(k)
  unfoldable pub lookup : ℕ → List (ℕ × V) → Option V
  lookup key [] = none
  lookup key ((i, x) ∷ rest) = if i == key then some x else lookup key rest

  -- m.find(k) != m.end()
  unfoldable pub has : ℕ → List (ℕ × V) → Bool
  has k [] = false
  has k ((j, v) ∷ m) = j == k || has k m

  -- m[k] = v
  unfoldable pub insert : ℕ → V → List (ℕ × V) → List (ℕ × V)
  insert key x [] = (key, x) ∷ []
  insert key x ((i, old) ∷ rest) =
      if i == key then (key, x) ∷ rest else (i, old) ∷ insert key x rest

  -- m.erase(k)
  unfoldable pub erase : ℕ → List (ℕ × V) → List (ℕ × V)
  erase k [] = []
  erase k ((j, v) ∷ m) = let rest = erase k m in if j == k then rest else (j, v) ∷ rest

  pub lookup-insert :
      (key i : ℕ) (x : V) (table : List (ℕ × V))
      → lookup i (insert key x table) ≡ (if key == i then some x else lookup i table)
  unfolding lookup insert
  lookup-insert key i x [] = refl
  lookup-insert key i x ((n, old) ∷ rest) = ground (arith, lookup-insert key i x rest)

  pub lookup-erase :
      (k j : ℕ) (m : List (ℕ × V)) → lookup j (erase k m) ≡ (if k == j then none else lookup j m)
  unfolding lookup erase
  lookup-erase k j [] = ground arith
  lookup-erase k j ((i, v) ∷ m) = ground (arith, lookup-erase k j m)

  pub has-insert : (k j : ℕ) (v : V) (m : List (ℕ × V)) → has j (insert k v m) ≡ (k == j || has j m)
  unfolding has insert
  has-insert k j v [] = ground arith
  has-insert k j v ((i, w) ∷ m) = ground (arith, has-insert k j v m)

  pub has-erase :
      (k j : ℕ) (m : List (ℕ × V)) → has j (erase k m) ≡ (if k == j then false else has j m)
  unfolding has erase
  has-erase k j [] = ground arith
  has-erase k j ((i, v) ∷ m) = ground (arith, has-erase k j m)

  pub erase_absent : (k : ℕ) (m : List (ℕ × V)) → has k m ≡ false → erase k m ≡ m
  unfolding has erase
  erase_absent k [] h = refl
  erase_absent k ((j, v) ∷ m) h = ground (arith, erase_absent k m)

  pub has-lookup : (k : ℕ) (m : List (ℕ × V)) → lookup k m ≡ none → has k m ≡ false
  unfolding has lookup
  has-lookup k [] h = refl
  has-lookup k ((j, v) ∷ m) h = ground (arith, has-lookup k m)

module _ {ℓ} {V : Type ℓ} where
  pub lookup_of_has : (k : ℕ) (m : List (ℕ × V)) → has k m ≡ true → (v : V) × (lookup k m ≡ some v)
  unfolding has lookup
  lookup_of_has k [] h = cc
  lookup_of_has k ((j, v) ∷ m) h = elim (Bool-cases (j == k)) [
    | inl e ↦ (v, rw e)
    | inr e ↦ let (u, q) = lookup_of_has k m (ground arith) in (u, rw e q)
  ]

-- Iterating over a map of coroutines by handle and erasing each entry of one coroutine.
unfoldable pub erase_value : ℕ → List (ℕ × ℕ) → List (ℕ × ℕ)
erase_value v [] = []
erase_value v ((k, w) ∷ m) = let rest = erase_value v m in if w == v then rest else (k, w) ∷ rest

unfoldable pub has_value : ℕ → List (ℕ × ℕ) → Bool
has_value v [] = false
has_value v ((k, w) ∷ m) = w == v || has_value v m

pub has_value-erase_value :
    (v w : ℕ) (m : List (ℕ × ℕ))
    → has_value w (erase_value v m) ≡ (if v == w then false else has_value w m)
unfolding has_value erase_value
has_value-erase_value v w [] = ground arith
has_value-erase_value v w ((k, u) ∷ m) = ground (arith, has_value-erase_value v w m)

-- How often a number stands in a list.
unfoldable pub count : ℕ → List ℕ → ℕ
count n [] = 0
count n (m ∷ rest) = (if m == n then 1 else 0) + count n rest

pub count-append :
    (n : ℕ) (before after : List ℕ) → count n (before ++ after) ≡ count n before + count n after
unfolding count
count-append n [] after = omega arith
count-append n (m ∷ rest) after = omega (arith, count-append n rest after)

unfoldable pub keys {ℓ} : {V : Type ℓ} → List (ℕ × V) → List ℕ
keys [] = []
keys ((k, v) ∷ m) = k ∷ keys m

module _ {ℓ} {A : Type ℓ} where
  abbrev pub length : List A → ℕ
  length [] = 0
  length (x ∷ xs) = suc (length xs)

  abbrev pub get_elem? : List A → ℕ → Option A
  get_elem? [] i = none
  get_elem? (x ∷ xs) zero = some x
  get_elem? (x ∷ xs) (suc i) = get_elem? xs i

  pub length-append : (xs ys : List A) → length (xs ++ ys) ≡ length xs + length ys
  length-append [] ys = omega arith
  length-append (x ∷ xs) ys = omega (arith, length-append xs ys)
