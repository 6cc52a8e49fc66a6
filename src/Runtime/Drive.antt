-- ===== src/Runtime/Drive.antt =====
-- lua_resume as the runtime sees it: the script's calls reach the builtins, other threads' calls
-- fall between them, and the count hook (InterruptHook of src/lua/lua_runtime.cc) may yield.
use bernardx.Base.{ℕ, true, false}
use bernardx.Value.{Status, lua_yield}
use bernardx.Machine.{Lua, Run, done, calls, hook, meanwhile}
use bernardx.Runtime.{Runtime, gated, host_call}
use bernardx.Runtime.Builtins.{builtin}

module _ {S : Type 0} (lua : Lua S) where
  unfoldable pub drive : Run S → Runtime S → Status × ℕ × Runtime S
  drive (done st n s) rt = (st, n, record rt { state = s })
  drive (calls c s k) rt =
      let (r, rt') = builtin lua c (record rt { state = s }) in drive (k r rt'.state) rt'
  drive (hook s k) rt = elim (gated rt) [
    | true ↦ (lua_yield, 0, record rt { state = s })
    | false ↦ drive k rt
  ]
  drive (meanwhile c k) rt = drive k (host_call c rt)

  -- lua_resume(co, main_L_, nargs, &nresults)
  unfoldable pub resume_run : ℕ → ℕ → Runtime S → Status × ℕ × Runtime S
  unfolding drive
  resume_run co nargs rt = drive (lua.lua_resume co nargs rt.state) rt
