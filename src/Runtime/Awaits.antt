-- ===== src/Runtime/Awaits.antt =====
-- An await is settled once: builtin_await_resolve and builtin_await_reject of
-- src/lua/lua_runtime.cc share one done table.
use bernardx.Base.{
  ℕ, ◌≡◌, refl, ap, true, ◌||◌, List, [], ◌∷◌, Option, Bytes, ==_refl, if_both, if_cases, if_yes,
}
use bernardx.Value.{LuaValue}
use bernardx.Machine.{Lua, Reply, returns}
use bernardx.Runtime.{Runtime, push_resume, schedule}
use bernardx.Runtime.Builtins.{
  is_done, settle_await, builtin_await_resolve, builtin_await_reject, rejection,
}

module _ {S : Type 0} (lua : Lua S) where
  pub settled-is_done :
      (h : ℕ) (args : List LuaValue) (rt : Runtime S)
      → is_done h (settle_await lua h args rt).1.done_awaits ≡ true
  unfolding settle_await push_resume schedule is_done
  settled-is_done h args rt =
      if_cases (λ (x : Reply × Runtime S). is_done h x.1.done_awaits ≡ true)
        (is_done h rt.done_awaits) (returns [], rt)
        (returns [], push_resume h args (record rt { done_awaits = h ∷ rt.done_awaits })) (λ e. e)
        (λ e.
          if_both (λ (ru : Runtime S). is_done h ru.done_awaits ≡ true) rt.shutting_down
            (ap (λ b. b || is_done h rt.done_awaits) (==_refl h))
            (ap (λ b. b || is_done h rt.done_awaits) (==_refl h)))

  pub done-settle_await :
      (h : ℕ) (args : List LuaValue) (rt : Runtime S)
      → is_done h rt.done_awaits ≡ true
      → settle_await lua h args rt ≡ (returns [], rt)
  unfolding settle_await
  done-settle_await h args rt e =
      if_yes (λ x. x ≡ (returns [], rt)) (is_done h rt.done_awaits) _ _ e refl

  -- Once resolve or reject was called for an await, whatever with and whatever the state, another call
  -- of either returns nothing and changes nothing.
  pub await-settles_once :
      (h : ℕ) (args args' : List LuaValue) (message message' : Option Bytes) (rt : Runtime S)
      → let resolved = (builtin_await_resolve lua h args rt).1 in
        let rejected = (builtin_await_reject lua h message rt).1 in
        (builtin_await_resolve lua h args' resolved ≡ (returns [], resolved))
        × (builtin_await_reject lua h message' resolved ≡ (returns [], resolved))
        × (builtin_await_resolve lua h args' rejected ≡ (returns [], rejected))
        × (builtin_await_reject lua h message' rejected ≡ (returns [], rejected))
  unfolding builtin_await_resolve builtin_await_reject
  await-settles_once h args args' message message' rt =
      let a = settled-is_done h args rt in
      let b = settled-is_done h (rejection message) rt in
      (
        done-settle_await h args' (settle_await lua h args rt).1 a,
        done-settle_await h (rejection message') (settle_await lua h args rt).1 a,
        done-settle_await h args' (settle_await lua h (rejection message) rt).1 b,
        done-settle_await h (rejection message') (settle_await lua h (rejection message) rt).1 b,
      )
