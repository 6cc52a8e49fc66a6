-- ===== src/Runtime/Bodies.antt =====
-- The body of an await and the two functions that it is given (finish_await_body,
-- await_body_trampoline, builtin_await_resolve and builtin_await_reject of src/lua/lua_runtime.cc):
-- in whatever order they are used, one resumption is submitted, by the first of them.
use bernardx.Base.{
  ℕ, ◌≡◌, refl, ap, ◌∙◌, true, false, List, [], ◌∷◌, Option, none, some, Bytes, if_not,
}
use bernardx.Value.{
  LuaValue, nil, string, Status, lua_ok, lua_yield, lua_error, ErrorObject, error_message,
}
use bernardx.Machine.{Lua, Reply, returns}
use bernardx.Runtime.{Runtime, push_resume, schedule}
use bernardx.Runtime.Builtins.{
  is_done, settle_await, builtin_await_resolve, builtin_await_reject, rejection,
}
use bernardx.Runtime.Awaits.{settled-is_done, done-settle_await}

module _ {S : Type 0} (lua : Lua S) where
  -- finish_await_body, by the status and the error object.
  unfoldable pub finish_await_body : ℕ → Status → ErrorObject → Runtime S → Reply × Runtime S
  unfolding builtin_await_reject error_message
  finish_await_body h lua_ok e rt = (returns [], rt)
  finish_await_body h lua_yield e rt = (returns [], rt)
  finish_await_body h (lua_error code) e rt =
      (returns [], (builtin_await_reject lua h (some (error_message e)) rt).1)

  -- await_body_trampoline: the body runs under lua_pcallk and ends with a status.
  unfoldable pub await_body_trampoline :
      ℕ → (Runtime S → Status × ErrorObject × Runtime S) → Runtime S → Reply × Runtime S
  unfolding finish_await_body
  await_body_trampoline h body rt =
      let (status, e, rt') = body rt in finish_await_body h status e rt'

-- One use of an await: its body or anybody else calls resolve or reject, or the body ends.
pub data AwaitUse : Type 0 where
  resolves : List LuaValue → AwaitUse
  rejects : Option Bytes → AwaitUse
  body_ends : Status → ErrorObject → AwaitUse

-- What the caller of await is resumed with, if the use decides it.
abbrev pub decided : AwaitUse → Option (List LuaValue)
decided (resolves args) = some args
decided (rejects message) = some (rejection message)
decided (body_ends lua_ok e) = none
decided (body_ends lua_yield e) = none
decided (body_ends (lua_error code) e) = some (nil ∷ string (error_message e) ∷ [])

abbrev first_of : Option (List LuaValue) → Option (List LuaValue) → Option (List LuaValue)
first_of none later = later
first_of (some args) later = some args

abbrev pub first_decided : List AwaitUse → Option (List LuaValue)
first_decided [] = none
first_decided (u ∷ us) = first_of (decided u) (first_decided us)

module _ {S : Type 0} (lua : Lua S) (h : ℕ) where
  abbrev pub use_await : AwaitUse → Runtime S → Runtime S
  use_await (resolves args) rt = (builtin_await_resolve lua h args rt).1
  use_await (rejects message) rt = (builtin_await_reject lua h message rt).1
  use_await (body_ends status e) rt = (finish_await_body lua h status e rt).1

  abbrev pub use_all : List AwaitUse → Runtime S → Runtime S
  use_all [] rt = rt
  use_all (u ∷ us) rt = use_all us (use_await u rt)

  -- The await is marked as done and one PushResume is made.
  abbrev pub resumed_with : Option (List LuaValue) → Runtime S → Runtime S
  resumed_with none rt = rt
  resumed_with (some args) rt = push_resume h args (record rt { done_awaits = h ∷ rt.done_awaits })

  settles_new :
      (args : List LuaValue) (rt : Runtime S)
      → is_done h rt.done_awaits ≡ false
      → (settle_await lua h args rt).1 ≡ resumed_with (some args) rt
  unfolding settle_await push_resume schedule
  settles_new args rt e =
      if_not (λ (x : Reply × Runtime S). x.1 ≡ resumed_with (some args) rt)
        (is_done h rt.done_awaits) _ _ e refl

  settled_again :
      (args : List LuaValue) (rt : Runtime S)
      → is_done h rt.done_awaits ≡ true
      → (settle_await lua h args rt).1 ≡ rt
  settled_again args rt e = ap (λ (x : Reply × Runtime S). x.1) (done-settle_await lua h args rt e)

  use_await-done :
      (u : AwaitUse) (rt : Runtime S) → is_done h rt.done_awaits ≡ true → use_await u rt ≡ rt
  unfolding finish_await_body builtin_await_resolve builtin_await_reject
  use_await-done (resolves args) rt e = settled_again args rt e
  use_await-done (rejects message) rt e = settled_again (rejection message) rt e
  use_await-done (body_ends lua_ok x) rt e = refl
  use_await-done (body_ends lua_yield x) rt e = refl
  use_await-done (body_ends (lua_error code) x) rt e =
      settled_again (rejection (some (error_message x))) rt e

  use_all-done :
      (us : List AwaitUse) (rt : Runtime S) → is_done h rt.done_awaits ≡ true → use_all us rt ≡ rt
  use_all-done [] rt e = refl
  use_all-done (u ∷ us) rt e = ap (use_all us) (use_await-done u rt e) ∙ use_all-done us rt e

  settle_then :
      (args : List LuaValue) (us : List AwaitUse) (rt : Runtime S)
      → is_done h rt.done_awaits ≡ false
      → use_all us (settle_await lua h args rt).1 ≡ resumed_with (some args) rt
  settle_then args us rt e =
      use_all-done us (settle_await lua h args rt).1 (settled-is_done lua h args rt)
      ∙ settles_new args rt e

  -- For an await that is not done, however often and in whatever order its body and others call
  -- resolve and reject and the body ends, the runtime is as after one PushResume: with what the
  -- first call of either gave, where an error of the body counts as a reject with its text, and a
  -- body that ends without one as nothing. Without a call or an error nothing changes.
  pub await-first_decides :
      (us : List AwaitUse) (rt : Runtime S)
      → is_done h rt.done_awaits ≡ false
      → use_all us rt ≡ resumed_with (first_decided us) rt
  unfolding finish_await_body builtin_await_resolve builtin_await_reject rejection
  await-first_decides [] rt e = refl
  await-first_decides (resolves args ∷ us) rt e = settle_then args us rt e
  await-first_decides (rejects message ∷ us) rt e = settle_then (rejection message) us rt e
  await-first_decides (body_ends lua_ok x ∷ us) rt e = await-first_decides us rt e
  await-first_decides (body_ends lua_yield x ∷ us) rt e = await-first_decides us rt e
  await-first_decides (body_ends (lua_error code) x ∷ us) rt e =
      settle_then (rejection (some (error_message x))) us rt e
