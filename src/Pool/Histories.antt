-- ===== src/Pool/Histories.antt =====
-- Histories of CoroutinePool (src/lua/coroutine_pool.cc): the coroutines that it made, each in one place.
use bernardx.Base.{
  Bool, Bool-cases, ◌⊎◌, inl, inr, ℕ, ◌+◌, ◌≤◌, ◌≡◌, ◌∙◌, true, false, List, [], ◌∷◌, count, keys,
  arith,
}
use bernardx.Machine.{Lua}
use bernardx.Pool.{CoroutinePool, empty, owns, acquire, release, release_all}
use bernardx.Pool.Ownership.{
  IsWell, places, created, acquire-IsWell, release-IsWell, release_all-IsWell,
}

owned_or : {b : Bool} {P : Type 0} → (b ≡ true) ⊎ (b ≡ false) → (b ≡ false → P) → (b ≡ true) ⊎ P
owned_or (inl e) f = inl e
owned_or (inr e) f = inr (f e)

module _ {S : Type 0} (lua : Lua S) where
  -- The threads that were made until then, with the one that Acquire makes where none is idle.
  abbrev pub made_by : List (ℕ × ℕ) → S → List ℕ → List ℕ
  made_by [] s made = (lua.new_thread s).0 ∷ made
  made_by (c ∷ idle) s made = made

  -- Calls of the pool in any order, each in some state of Lua, whose new threads are new.
  pub data PoolHistory : CoroutinePool → List ℕ → Type 0 where
    start : PoolHistory empty []
    acquires :
        {p : CoroutinePool} {made : List ℕ} (s : S)
        → count (lua.new_thread s).0 made ≡ 0
        → PoolHistory p made
        → PoolHistory (acquire lua p s).1 (made_by p.co_pool s made)
    releases :
        {p : CoroutinePool} {made : List ℕ} (co : ℕ) (s : S)
        → PoolHistory p made
        → PoolHistory (release lua co p s).0 made
    releases_all :
        {p : CoroutinePool} {made : List ℕ} (s : S)
        → PoolHistory p made
        → PoolHistory (release_all lua p s).0 made

  -- The pool has exactly the threads that it made, each in one place.
  abbrev pub HasMade : CoroutinePool → List ℕ → Type 0
  HasMade p made = IsWell p × ((x : ℕ) → places x p ≡ count x made)

  count-made_by :
      (idle : List (ℕ × ℕ)) (s : S) (made : List ℕ) (x : ℕ)
      → count x (made_by idle s made) ≡ count x made + created lua idle s x
  unfolding count
  count-made_by [] s made x = omega arith
  count-made_by (c ∷ idle) s made x = omega arith

  acquire-HasMade :
      (p : CoroutinePool) (made : List ℕ) (s : S)
      → count (lua.new_thread s).0 made ≡ 0
      → HasMade p made
      → HasMade (acquire lua p s).1 (made_by p.co_pool s made)
  acquire-HasMade p made s new h =
      let a = acquire-IsWell lua p s h.0 (h.1 (lua.new_thread s).0 ∙ new) in
      (a.2, λ x. omega (arith, a.3 x, h.1 x, count-made_by p.co_pool s made x))

  history-HasMade : {p : CoroutinePool} {made : List ℕ} → PoolHistory p made → HasMade p made
  unfolding places count keys
  history-HasMade start = (λ co. omega arith, λ x. omega arith)
  history-HasMade (acquires {p} {made} s new h) = acquire-HasMade p made s new (history-HasMade h)
  history-HasMade (releases {p} {made} co s h) =
      let k = history-HasMade h in
      let a = release-IsWell lua co p s k.0 in (a.1, λ x. a.2 x ∙ k.1 x)
  history-HasMade (releases_all {p} {made} s h) =
      let k = history-HasMade h in
      let a = release_all-IsWell lua p s k.0 in (a.1, λ x. a.2 x ∙ k.1 x)

  -- Over any history of Acquire, Release and ReleaseAll from an empty pool, if Lua's new threads are
  -- new, the pool has exactly the threads that were made, none of them twice. The next Acquire then
  -- hands out a coroutine that nobody has checked out, and checks it out; after a Release the
  -- coroutine is not checked out, and a release of a foreign one leaves the pool as it is.
  pub PoolHistory-HasMade :
      {p : CoroutinePool} {made : List ℕ} (s : S) (x : ℕ)
      → PoolHistory p made
      → count (lua.new_thread s).0 made ≡ 0
      → (places x p ≡ count x made)
        × (places x p ≤ 1)
        × (owns (acquire lua p s).0 p ≡ false)
        × (owns (acquire lua p s).0 (acquire lua p s).1 ≡ true)
        × (owns x (release lua x p s).0 ≡ false)
        × ((owns x p ≡ true) ⊎ ((release lua x p s).0 ≡ p))
  PoolHistory-HasMade {p} {made} s x h new =
      let k = history-HasMade h in
      let a = acquire-IsWell lua p s k.0 (k.1 (lua.new_thread s).0 ∙ new) in
      let b = release-IsWell lua x p s k.0 in
      (k.1 x, k.0 x, a.0, a.1, b.0, owned_or (Bool-cases (owns x p)) (λ foreign. (b.3 foreign).0))
