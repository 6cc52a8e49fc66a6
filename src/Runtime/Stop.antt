-- ===== src/Runtime/Stop.antt =====
-- Interrupt's completion pass, Shutdown and CancelCall (src/lua/lua_runtime.cc).
use bernardx.Base.{
  ℕ, Bool, true, List, [], ◌∷◌, Option, none, some, Bytes, codes, erase, if◌then◌else◌,
}
use bernardx.Value.{ScriptResult, lua_errrun, capture_suspension_detail}
use bernardx.Machine.{Lua, Handler}
use bernardx.Pool
use bernardx.Runtime.{Runtime, push_release}
use bernardx.Runtime.Pending.{
  release_coroutine, clear_pending, cancel_all_timers, cleanup_stale_pendings,
}
use bernardx.Runtime.Resume.{settle}

module _ {S : Type 0} (lua : Lua S) where
  -- The result of a coroutine that is settled where it is parked.
  unfoldable pub suspension_result : Bytes → ℕ → S → ScriptResult
  suspension_result message co s = record {
    status = lua_errrun;
    values = [];
    error = message;
    error_detail = capture_suspension_detail (lua.frames co s) message;
  }

  -- The results of the saved handlers, all captured in one state.
  unfoldable pub suspension_results : Bytes → List (ℕ × Handler) → S → List (Handler × ScriptResult)
  unfolding suspension_result
  suspension_results message [] s = []
  suspension_results message ((co, k) ∷ m) s =
      (k, suspension_result message co s) ∷ suspension_results message m s

  unfoldable pub settle_each : List (Handler × ScriptResult) → Runtime S → Runtime S
  settle_each [] rt = rt
  settle_each ((k, r) ∷ m) rt = settle_each m (settle lua k r rt)

  -- co_pool_->ReleaseAll()
  unfoldable pub release_all_coroutines : Runtime S → Runtime S
  release_all_coroutines rt =
      let (p, s) = Pool.release_all lua rt.pool rt.state in record rt { pool = p; state = s }

  -- The closure that Interrupt schedules.
  unfoldable pub interrupt_pass : Runtime S → Runtime S
  interrupt_pass rt =
      if rt.shutting_down
      then rt
      else let saved = rt.completions in
        let rt₁ = clear_pending (record rt { completions = [] }) in
        let rt₂ = cancel_all_timers lua rt₁ in
        let results = suspension_results (codes "interrupted") saved rt₂.state in
        settle_each results (release_all_coroutines rt₂)

  -- Shutdown's loop: each result is captured when its turn comes.
  unfoldable pub settle_shutdown : List (ℕ × Handler) → Runtime S → Runtime S
  settle_shutdown [] rt = rt
  settle_shutdown ((co, k) ∷ m) rt =
      settle_shutdown m (settle lua k (suspension_result (codes "runtime shutdown") co rt.state) rt)

  -- luaL_unref of the pin table's slot frees the table.
  unfoldable pub free_slot : Option ℕ → Runtime S → Runtime S
  free_slot none rt = rt
  free_slot (some r) rt = record rt { pins = []; pin_table = none; state = lua.unref r rt.state }

  unfoldable pub free_pin_table : Runtime S → Runtime S
  unfolding free_slot
  free_pin_table rt = free_slot rt.pin_table rt

  -- Shutdown
  unfoldable pub shutdown : Runtime S → Runtime S
  shutdown rt =
      if rt.shutting_down
      then rt
      else let saved = rt.completions in
        let rt₁ =
          free_pin_table (clear_pending (record rt { shutting_down = true; completions = [] })) in
        let rt₂ = settle_shutdown saved (record rt₁ { state = lua.close_libraries rt₁.state }) in
        let rt₃ = cancel_all_timers lua rt₂ in
        let (p, s) = Pool.shutdown lua rt₃.pool rt₃.state in
        record rt₃ { pool = p; state = lua.clear_runtime s }

  -- CancelCall
  unfoldable pub cancel_call : ℕ → Runtime S → Runtime S
  cancel_call co rt =
      release_coroutine lua co
        (cleanup_stale_pendings lua co (record rt { completions = erase co rt.completions }))

  -- ~LuaRuntime; the executor that the runtime owns goes after it.
  unfoldable pub destroy_runtime : Runtime S → Runtime S
  unfolding shutdown
  destroy_runtime rt = shutdown rt

module _ {S : Type 0} where
  -- ~LuaRefImpl, the last copy of a LuaRef: its slot, where it is not LUA_NOREF, is given back if
  -- the runtime is still there.
  unfoldable pub destroy_ref : Bool → Option ℕ → Runtime S → Runtime S
  unfolding push_release
  destroy_ref alive none rt = rt
  destroy_ref alive (some r) rt = if alive then push_release (r ∷ []) rt else rt
