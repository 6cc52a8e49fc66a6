-- ===== src/Tests/Pools.antt =====
-- The pool of coroutines.
use bernardx.Base.{◌⊎◌, ℕ, ◌≤◌, ◌≡◌, refl, [], ◌∷◌, true, false, count, lookup, insert}
use bernardx.Value.{lua_ok, lua_yield}
use bernardx.Machine.{Lua, done}
use bernardx.Pool.{CoroutinePool, empty, owns, acquire, release}
use bernardx.Pool.Ownership.{places}
use bernardx.Pool.Histories.{PoolHistory-HasMade, start, acquires, releases}
use bernardx.Tests.Toy.{toy}

abbrev lua : Lua ℕ
lua = toy lua_yield (λ co n s. done lua_ok 0 s)

-- Threads 3 and 4 are checked out, and thread 3 is given back.
abbrev one : CoroutinePool
one = (acquire lua empty 3).1

abbrev two : CoroutinePool
two = (acquire lua one 4).1

abbrev given_back : CoroutinePool
given_back = (release lua 3 two 5).0

PoolHistory-HasMade_example :
    (places 4 given_back ≡ count 4 (4 ∷ 3 ∷ []))
    × (places 4 given_back ≤ 1)
    × (owns (acquire lua given_back 5).0 given_back ≡ false)
    × (owns (acquire lua given_back 5).0 (acquire lua given_back 5).1 ≡ true)
    × (owns 4 (release lua 4 given_back 5).0 ≡ false)
    × ((owns 4 given_back ≡ true) ⊎ ((release lua 4 given_back 5).0 ≡ given_back))
unfolding acquire count
PoolHistory-HasMade_example =
    PoolHistory-HasMade lua 5 4 (releases 3 5 (acquires 4 refl (acquires 3 refl start))) refl

reuse_test : (acquire lua given_back 5).0 ≡ 3
unfolding acquire release lookup insert
reuse_test = refl
