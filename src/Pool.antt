-- ===== src/Pool.antt =====
-- src/lua/coroutine_pool.cc over the Lua interface of `Machine`. Coroutines and registry slots are
-- numbers. `co_pool` is the vector co_pool_, its back at the head of the list.
pub mod Ownership
pub mod Histories
use bernardx.Base.{ℕ, Bool, List, [], ◌∷◌, ◌++◌, Option, none, some, lookup, has, insert, erase}
use bernardx.Machine.{Lua}

pub record CoroutinePool : Type 0 where
  pub active_co_refs : List (ℕ × ℕ)
  pub co_pool : List (ℕ × ℕ)

abbrev pub empty : CoroutinePool
empty = record { active_co_refs = []; co_pool = [] }

-- Owns
unfoldable pub owns : ℕ → CoroutinePool → Bool
owns co p = has co p.active_co_refs

module _ {S : Type 0} (lua : Lua S) where
  acquire_from : List (ℕ × ℕ) → CoroutinePool → S → ℕ × CoroutinePool × S
  acquire_from ((co, r) ∷ rest) p s =
      (co, record { active_co_refs = insert co r p.active_co_refs; co_pool = rest }, s)
  acquire_from [] p s =
      let (co, r, s') = lua.new_thread s in
      (co, record p { active_co_refs = insert co r p.active_co_refs }, lua.set_extraspace co s')

  -- Acquire, whose on_created_ is the one of LuaRuntime::Builder::Create.
  unfoldable pub acquire : CoroutinePool → S → ℕ × CoroutinePool × S
  unfolding acquire_from
  acquire p s = acquire_from p.co_pool p s

  release_found : Option ℕ → ℕ → CoroutinePool → S → CoroutinePool × S
  release_found none co p s = (p, s)
  release_found (some r) co p s = (
    record { active_co_refs = erase co p.active_co_refs; co_pool = (co, r) ∷ p.co_pool },
    lua.settop_zero co (lua.close_thread co s),
  )

  -- Release
  unfoldable pub release : ℕ → CoroutinePool → S → CoroutinePool × S
  unfolding release_found
  release co p s = release_found (lookup co p.active_co_refs) co p s

  close_each : List (ℕ × ℕ) → List (ℕ × ℕ) → S → List (ℕ × ℕ) × S
  close_each [] idle s = (idle, s)
  close_each ((co, r) ∷ m) idle s =
      close_each m ((co, r) ∷ idle) (lua.settop_zero co (lua.close_thread co s))

  -- ReleaseAll
  unfoldable pub release_all : CoroutinePool → S → CoroutinePool × S
  unfolding close_each
  release_all p s =
      let (idle, s') = close_each p.active_co_refs p.co_pool s in
      (record { active_co_refs = []; co_pool = idle }, s')

  pub unref_each : List (ℕ × ℕ) → S → S
  unref_each [] s = s
  unref_each ((co, r) ∷ m) s = unref_each m (lua.unref r s)

  -- Shutdown
  unfoldable pub shutdown : CoroutinePool → S → CoroutinePool × S
  unfolding unref_each
  shutdown p s = (empty, unref_each p.co_pool (unref_each p.active_co_refs s))
