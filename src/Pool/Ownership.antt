-- ===== src/Pool/Ownership.antt =====
-- Every coroutine is in the pool at most once, active or idle: src/lua/coroutine_pool.cc.
use bernardx.Base.{
  ℕ, ◌+◌, ◌≤◌, ◌≡◌, refl, inl, inr, true, false, List, [], ◌∷◌, some, lookup, has, insert, erase,
  has-insert, has-erase, has-lookup, count, keys, if◌then◌else◌, ◌==◌, ==_iff, arith, Option-cases,
}
use bernardx.Machine.{Lua}
use bernardx.Pool.{
  CoroutinePool, owns, acquire, acquire_from, release, release_found, release_all, close_each,
}

-- How many places of the pool a coroutine has.
unfoldable pub places : ℕ → CoroutinePool → ℕ
unfolding count keys
places co p = count co (keys p.active_co_refs) + count co (keys p.co_pool)

-- No coroutine is in the pool twice.
abbrev pub IsWell : CoroutinePool → Type 0
IsWell p = (co : ℕ) → places co p ≤ 1

count-keys-insert :
    (x k v : ℕ) (m : List (ℕ × ℕ))
    → count x (keys (insert k v m))
      ≡ (if has k m then count x (keys m) else (if k == x then 1 else 0) + count x (keys m))
unfolding count keys insert has
count-keys-insert x k v [] = ground arith
count-keys-insert x k v ((j, w) ∷ m) = ground (arith, count-keys-insert x k v m)

count-keys_absent : (k : ℕ) (m : List (ℕ × ℕ)) → count k (keys m) ≡ 0 → has k m ≡ false
unfolding count keys has
count-keys_absent k [] h = refl
count-keys_absent k ((j, w) ∷ m) h = ground (arith, count-keys_absent k m)

count-keys-has : (k : ℕ) (m : List (ℕ × ℕ)) → has k m ≡ false → count k (keys m) ≡ 0
unfolding count keys has
count-keys-has k [] h = refl
count-keys-has k ((j, w) ∷ m) h = ground (arith, count-keys-has k m)

count-keys-erase :
    (x k : ℕ) (m : List (ℕ × ℕ))
    → count x (keys (erase k m)) ≡ (if k == x then 0 else count x (keys m))
unfolding count keys erase
count-keys-erase x k [] = ground arith
count-keys-erase x k ((j, w) ∷ m) = ground (arith, count-keys-erase x k m)

count-keys-lookup : (k r : ℕ) (m : List (ℕ × ℕ)) → lookup k m ≡ some r → 1 ≤ count k (keys m)
unfolding count keys lookup
count-keys-lookup k r [] e = cc
count-keys-lookup k r ((j, w) ∷ m) e = ground (arith, count-keys-lookup k r m)

module _ {S : Type 0} (lua : Lua S) where
  close_each-count :
      (x : ℕ) (m idle : List (ℕ × ℕ)) (s : S)
      → count x (keys (close_each lua m idle s).0) ≡ count x (keys m) + count x (keys idle)
  unfolding close_each keys count
  close_each-count x [] idle s = omega arith
  close_each-count x ((co, r) ∷ m) idle s =
      omega
        (arith, close_each-count x m ((co, r) ∷ idle) (lua.settop_zero co (lua.close_thread co s)))

  -- Whether a place of the coroutine `x` is new: 1 for a thread that was created.
  abbrev pub created : List (ℕ × ℕ) → S → ℕ → ℕ
  created [] s x = if (lua.new_thread s).0 == x then 1 else 0
  created (c ∷ idle) s x = 0

  pool_of : List (ℕ × ℕ) → List (ℕ × ℕ) → CoroutinePool
  pool_of m idle = record { active_co_refs = m; co_pool = idle }

  acquire_from-IsWell :
      (m idle : List (ℕ × ℕ)) (s : S)
      → IsWell (pool_of m idle)
      → places (lua.new_thread s).0 (pool_of m idle) ≡ 0
      → let (co, q, t) = acquire_from lua idle (pool_of m idle) s in
        (owns co (pool_of m idle) ≡ false)
        × (owns co q ≡ true)
        × IsWell q
        × ((x : ℕ) → places x q ≡ places x (pool_of m idle) + created idle s x)
  unfolding acquire_from places owns pool_of
  acquire_from-IsWell m [] s w fresh =
      let co = (lua.new_thread s).0 in
      let r = (lua.new_thread s).1 in
      let old : has co m ≡ false = count-keys_absent co m (omega arith) in
      (
        old,
        ground (arith, has-insert co co r m),
        λ x. ground (arith, w x, fresh, count-keys-insert x co r m, ==_iff co x),
        λ x. ground (arith, count-keys-insert x co r m),
      )
  acquire_from-IsWell m ((co, r) ∷ rest) s w fresh =
      let old : has co m ≡ false =
        count-keys_absent co m (unfold keys count in ground (arith, w co)) in
      (
        old,
        ground (arith, has-insert co co r m),
        λ x. unfold keys count in ground (arith, w x, count-keys-insert x co r m),
        λ x. unfold keys count in ground (arith, count-keys-insert x co r m),
      )

  -- What Acquire promises: a coroutine that nobody had checked out, now checked out, in a pool that
  -- has no coroutine twice and has lost none. It is a new thread only if no idle one was there.
  pub acquire-IsWell :
      (p : CoroutinePool) (s : S)
      → IsWell p
      → places (lua.new_thread s).0 p ≡ 0
      → let (co, q, t) = acquire lua p s in
        (owns co p ≡ false)
        × (owns co q ≡ true)
        × IsWell q
        × ((x : ℕ) → places x q ≡ places x p + created p.co_pool s x)
  unfolding acquire pool_of
  acquire-IsWell p s w fresh = acquire_from-IsWell p.active_co_refs p.co_pool s w fresh

  -- Nobody has a coroutine checked out once it was released.
  pub owns-release : (co : ℕ) (p : CoroutinePool) (s : S) → owns co (release lua co p s).0 ≡ false
  unfolding release release_found owns
  owns-release co p s = elim (Option-cases (lookup co p.active_co_refs)) [
    | inl e ↦ rw e (has-lookup co p.active_co_refs e)
    | inr (r, e) ↦ ground (arith, e, has-erase co co p.active_co_refs)
  ]

  pub owns-release_all :
      (co : ℕ) (p : CoroutinePool) (s : S) → owns co (release_all lua p s).0 ≡ false
  unfolding release_all owns has
  owns-release_all co p s = refl

  -- Release keeps every coroutine in the pool once, gives back the one named, and passes over a
  -- coroutine that is not checked out.
  pub release-IsWell :
      (co : ℕ) (p : CoroutinePool) (s : S)
      → IsWell p
      → let (q, t) = release lua co p s in
        (owns co q ≡ false)
        × IsWell q
        × ((x : ℕ) → places x q ≡ places x p)
        × (owns co p ≡ false → (q ≡ p) × (t ≡ s))
  unfolding release release_found places owns
  release-IsWell co p s w = elim (Option-cases (lookup co p.active_co_refs)) [
    | inl e ↦ rw e (has-lookup co p.active_co_refs e, w, λ x. refl, λ _. (refl, refl))
    | inr (r, e) ↦
        let moved : (x : ℕ) → places x (release lua co p s).0 ≡ places x p = λ x.
          let one : 1 ≤ count co (keys p.active_co_refs) =
            count-keys-lookup co r p.active_co_refs e in
          unfold keys count in
          ground (arith, w co, e, one, count-keys-erase x co p.active_co_refs, ==_iff co x) in
        (
          ground (arith, e, has-erase co co p.active_co_refs),
          λ x. rw moved (w x),
          moved,
          λ no.
              let one = count-keys-lookup co r p.active_co_refs e in
              ground (arith, one, count-keys-has co p.active_co_refs),
        )
  ]

  -- ReleaseAll leaves nothing checked out and loses no coroutine.
  pub release_all-IsWell :
      (p : CoroutinePool) (s : S)
      → IsWell p
      → let (q, t) = release_all lua p s in
        ((co : ℕ) → owns co q ≡ false) × IsWell q × ((x : ℕ) → places x q ≡ places x p)
  unfolding release_all places owns has keys count
  release_all-IsWell p s w = (
    λ co. refl,
    λ co. omega (arith, w co, close_each-count co p.active_co_refs p.co_pool s),
    λ x. omega (arith, close_each-count x p.active_co_refs p.co_pool s),
  )
