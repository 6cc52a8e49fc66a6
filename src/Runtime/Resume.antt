-- ===== src/Runtime/Resume.antt =====
-- The end of a coroutine and the resumption of a parked one (src/lua/lua_runtime.cc): MaybeRecycleCo,
-- CheckResumable, DoResume, the closure of PushResumeDirect, and the settling of handlers.
use bernardx.Base.{
  ℕ, pos, true, List, [], ◌∷◌, ◌++◌, Option, none, some, Bytes, codes, to_string, lookup, erase,
  length, is_empty, if◌then◌else◌,
}
use bernardx.Value.{
  LuaValue, nil, boolean, string, Status, lua_ok, lua_yield, lua_error, status_code,
  ScriptErrorDetail, ScriptResult, no_detail, capture_error_detail,
}
use bernardx.Machine.{Lua, Handler, require_callback, push_values, peek_values}
use bernardx.Runtime.{Runtime, deliver, push_resume, record_unhandled_error}
use bernardx.Runtime.Pending.{unpin_pending_co, release_coroutine, cleanup_stale_pendings}
use bernardx.Runtime.Drive.{resume_run}

-- `values = {LuaValue{true}}` for a module without a result.
unfoldable pub module_values : List LuaValue → List LuaValue
module_values [] = boolean true ∷ []
module_values (nil ∷ vs) = boolean true ∷ []
module_values (v ∷ vs) = v ∷ vs

abbrev pub error_pair : Bytes → List LuaValue
error_pair message = nil ∷ string message ∷ []

abbrev pub failure : Status → ScriptErrorDetail → ScriptResult
failure st d = record { status = st; values = []; error = d.message; error_detail = d }

abbrev pub success : List LuaValue → ScriptResult
success vs = record { status = lua_ok; values = vs; error = []; error_detail = no_detail }

-- The error that CheckResumable records.
unfoldable pub not_suspended : ℕ → Status → ScriptErrorDetail
not_suspended h st = record no_detail {
  message =
      codes "async completion for handle "
      ++ (to_string (pos h)
          ++ (codes " found its coroutine no longer suspended (status "
              ++ (to_string (pos (status_code st))
                  ++ (codes "); the coroutine finished, errored, or was resumed/closed by the "
                      ++ codes "script while the operation was pending"))));
}

module _ {S : Type 0} (lua : Lua S) where
  unfoldable pub set_below_top : Bytes → LuaValue → LuaValue → List LuaValue → S → S
  set_below_top name v w [] s = lua.set_field v name w s
  set_below_top name v w (x ∷ vs) s = set_below_top name w x vs s

  -- CacheModuleValues: lua_setfield(L, -2, name) after all the values are pushed writes the last
  -- of them into what lies under it, which is package.loaded only if the value is the only one.
  unfoldable pub cache_module_values : Bytes → List LuaValue → S → S
  unfolding set_below_top
  cache_module_values name [] s = lua.set_loaded name (boolean true) s
  cache_module_values name (nil ∷ vs) s = lua.set_loaded name (boolean true) s
  cache_module_values name (v ∷ []) s = lua.set_loaded name v s
  cache_module_values name (v ∷ w ∷ vs) s = set_below_top name v w vs s

  -- The callback that ProcessRequireRun sets.
  unfoldable pub finish_require : ℕ → Bytes → Status → ScriptResult → Runtime S → Runtime S
  finish_require h name lua_ok r rt =
      let vs = module_values r.values in
      push_resume h vs (record rt { state = cache_module_values name vs rt.state })
  finish_require h name _ r rt =
      push_resume h (error_pair (if is_empty r.error then codes "unknown error" else r.error)) rt

  -- A handler receives its result.
  unfoldable pub settle : Handler → ScriptResult → Runtime S → Runtime S
  unfolding finish_require
  settle (require_callback h name) r rt =
      finish_require h name r.status r (deliver (require_callback h name) r rt)
  settle k r rt = deliver k r rt

  -- CaptureErrorDetail, lua_pop
  unfoldable pub take_error : ℕ → Runtime S → ScriptErrorDetail × Runtime S
  take_error co rt = (
    capture_error_detail (lua.frames co rt.state) (lua.error_object co rt.state),
    record rt { state = lua.pop co rt.state },
  )

  -- PeekValues
  unfoldable pub take_values : ℕ → ℕ → Runtime S → List LuaValue × Runtime S
  take_values co n rt = let (vs, s) = peek_values lua co n rt.state in (vs, record rt { state = s })

  unfoldable pub settle_found : Option Handler → ℕ → ScriptResult → Runtime S → Runtime S
  settle_found none co r rt = release_coroutine lua co rt
  settle_found (some k) co r rt =
      settle k r (release_coroutine lua co (record rt { completions = erase co rt.completions }))

  unfoldable pub fail_found :
      Option Handler → ℕ → Status → ScriptErrorDetail → Runtime S → Runtime S
  unfolding settle_found
  fail_found none co st d rt = record_unhandled_error d (release_coroutine lua co rt)
  fail_found (some k) co st d rt = settle_found (some k) co (failure st d) rt

  -- The two terminal parts of MaybeRecycleCo.
  unfoldable pub recycle_failed : ℕ → Status → Runtime S → Runtime S
  unfolding fail_found
  recycle_failed co st rt =
      let (d, rt₁) = take_error co rt in
      let rt₂ = cleanup_stale_pendings lua co rt₁ in
      fail_found (lookup co rt₂.completions) co st d rt₂

  unfoldable pub recycle_finished : ℕ → ℕ → Runtime S → Runtime S
  unfolding settle_found
  recycle_finished co n rt =
      let (vs, rt₁) = take_values co n (cleanup_stale_pendings lua co rt) in
      settle_found (lookup co rt₁.completions) co (success vs) rt₁

  -- MaybeRecycleCo
  unfoldable pub maybe_recycle_co : ℕ → Status → ℕ → Runtime S → Runtime S
  unfolding recycle_failed recycle_finished
  maybe_recycle_co co (lua_error c) n rt = recycle_failed co (lua_error c) rt
  maybe_recycle_co co lua_ok n rt = recycle_finished co n rt
  maybe_recycle_co co lua_yield n rt = rt

  -- CheckResumable, for a coroutine whose status is not LUA_YIELD.
  unfoldable pub refuse_resume : ℕ → ℕ → Status → Runtime S → Runtime S
  unfolding not_suspended
  refuse_resume co h st rt =
      release_coroutine lua co
        (cleanup_stale_pendings lua co (record_unhandled_error (not_suspended h st) rt))

  unfoldable pub resume_checked : Status → ℕ → ℕ → (S → ℕ × S) → Runtime S → Runtime S
  resume_checked lua_yield co h prepare rt =
      let (nargs, s) = prepare rt.state in
      let (st, n, rt') = resume_run lua co nargs (record rt { state = s }) in
      maybe_recycle_co co st n rt'
  resume_checked st co h prepare rt = refuse_resume co h st rt

  unfoldable pub resume_found : Option ℕ → ℕ → (ℕ → S → ℕ × S) → Runtime S → Runtime S
  unfolding resume_checked
  resume_found none h prepare rt = rt
  resume_found (some co) h prepare rt =
      let rt₁ = unpin_pending_co h rt in
      let rt₂ = record rt₁ { pending = erase h rt₁.pending } in
      resume_checked (lua.status co rt₂.state) co h (prepare co) rt₂

  -- The closure of PushResumeDirect, once its gate is passed: `prepare` fills the stack.
  unfoldable pub resume_direct : ℕ → (ℕ → S → ℕ × S) → Runtime S → Runtime S
  unfolding resume_found
  resume_direct h prepare rt = resume_found (lookup h rt.pending) h prepare rt

  -- DoResume
  unfoldable pub do_resume : ℕ → List LuaValue → Runtime S → Runtime S
  unfolding resume_direct
  do_resume h args rt = resume_direct h (λ co s. (length args, push_values lua co args s)) rt
