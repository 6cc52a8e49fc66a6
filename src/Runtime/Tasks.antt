-- ===== src/Runtime/Tasks.antt =====
-- Work that starts a coroutine (src/lua/lua_runtime.cc): ProcessTask, ProcessRequireRun,
-- ProcessLoadFileRun, the callback API and the awaited API. A caller that awaits a Lazy is a
-- handler, which receives the result of the Lazy.
use bernardx.Base.{ℕ, Bool, true, false, List, [], ◌∷◌, Bytes, codes, insert, length, if◌then◌else◌}
use bernardx.Value.{
  LuaValue, nil, ref, Status, lua_ok, lua_yield, lua_error, ErrorObject, text, object, no_detail,
}
use bernardx.Machine.{
  Lua, Handler, detached, require_callback, TaskKind, load_script, call_ref, TaskRequest,
  push_values,
}
use bernardx.Runtime.{Runtime, deliver, push_resume, push_task}
use bernardx.Runtime.Pending.{acquire_coroutine, release_coroutine, cleanup_stale_pendings}
use bernardx.Runtime.Drive.{resume_run}
use bernardx.Runtime.Resume.{
  maybe_recycle_co, take_error, take_values, failure, success, error_pair, module_values,
  cache_module_values,
}

-- RunScript, RunFile, CallFunction: the tasks that they push.
abbrev pub script_task : Bytes → Handler → TaskRequest
script_task source k = record { kind = load_script source (codes "=script"); on_end = k }

abbrev pub file_task : Bytes → Handler → TaskRequest
file_task name k = record { kind = load_script [] name; on_end = k }

abbrev pub call_task : ℕ → List LuaValue → Handler → TaskRequest
call_task f args k = record { kind = call_ref f args false; on_end = k }

-- `err ? err : "unknown error"` for lua_tostring of the error object.
unfoldable pub error_text : ErrorObject → Bytes
error_text (text s) = s
error_text (object type_name) = codes "unknown error"

-- status == LUA_YIELD
abbrev pub has_yielded : Status → Bool
has_yielded lua_yield = true
has_yielded _ = false

module _ {S : Type 0} where
  -- CallLuaFunction, whose promise nobody holds.
  unfoldable pub call_lua_function : ℕ → List LuaValue → Runtime S → Runtime S
  call_lua_function f args rt = push_task (call_task f args detached) rt

module _ {S : Type 0} (lua : Lua S) where
  unfoldable pub run_script : Bytes → Handler → Runtime S → Runtime S
  run_script source k rt = push_task (script_task source k) rt

  unfoldable pub run_file : Bytes → Handler → Runtime S → Runtime S
  run_file name k rt = push_task (file_task name k) rt

  unfoldable pub call_function : ℕ → List LuaValue → Handler → Runtime S → Runtime S
  call_function f args k rt = push_task (call_task f args k) rt

  -- The end of ProcessTask: the handler is registered after the first resume.
  unfoldable pub start_task : ℕ → ℕ → Handler → Runtime S → Runtime S
  start_task co nargs k rt =
      let (st, n, rt₁) = resume_run lua co nargs rt in
      maybe_recycle_co lua co st n (record rt₁ { completions = insert co k rt₁.completions })

  -- A chunk that does not load.
  unfoldable pub fail_load : ℕ → Status → Handler → Runtime S → Runtime S
  fail_load co st k rt =
      let (d, rt') = take_error lua co rt in deliver k (failure st d) (release_coroutine lua co rt')

  unfoldable pub start_loaded : Status → ℕ → Handler → Runtime S → Runtime S
  unfolding start_task fail_load
  start_loaded lua_ok co k rt = start_task co 0 k rt
  start_loaded st co k rt = fail_load co st k rt

  unfoldable pub load_chunk : Bytes → Bytes → ℕ → S → Status × S
  load_chunk [] name co s = lua.load_file co name s
  load_chunk (c ∷ chunk) name co s = lua.load_buffer co (c ∷ chunk) name s

  unfoldable pub push_call : ℕ → ℕ → List LuaValue → Bool → S → S
  push_call co f args auto_unref s =
      let s' = lua.push_ref co f s in
      push_values lua co args (if auto_unref then lua.unref f s' else s')

  unfoldable pub process_kind : TaskKind → ℕ → Handler → Runtime S → Runtime S
  unfolding start_loaded load_chunk push_call
  process_kind (load_script chunk name) co k rt =
      let (st, s) = load_chunk chunk name co rt.state in
      start_loaded st co k (record rt { state = s })
  process_kind (call_ref f args auto_unref) co k rt =
      start_task co (length args) k (record rt { state = push_call co f args auto_unref rt.state })

  -- ProcessTask
  unfoldable pub process_task : TaskRequest → Runtime S → Runtime S
  unfolding process_kind
  process_task t rt =
      let (co, rt₁) = acquire_coroutine lua rt in process_kind t.kind co t.on_end rt₁

  -- ProcessRequireRun, after the module's chunk has loaded and run.
  unfoldable pub require_ended : Status → ℕ → ℕ → ℕ → Bytes → Runtime S → Runtime S
  require_ended lua_ok n co h name rt =
      let (vs, rt₁) = take_values lua co n rt in
      let vs' = module_values vs in
      release_coroutine lua co
        (push_resume h vs' (record rt₁ { state = cache_module_values lua name vs' rt₁.state }))
  require_ended lua_yield n co h name rt = record rt {
    completions = insert co (require_callback h name) rt.completions;
  }
  require_ended (lua_error c) n co h name rt =
      let message = error_text (lua.error_object co rt.state) in
      release_coroutine lua co
        (push_resume h (error_pair message) (record rt { state = lua.pop co rt.state }))

  unfoldable pub require_loaded : Status → ℕ → ℕ → Bytes → Runtime S → Runtime S
  unfolding require_ended
  require_loaded lua_ok co h name rt =
      let (st, n, rt₁) =
        resume_run lua co 1 (record rt { state = lua.push_string co name rt.state }) in
      require_ended st n co h name rt₁
  require_loaded st co h name rt =
      let message = error_text (lua.error_object co rt.state) in
      push_resume h (error_pair message)
        (release_coroutine lua co (record rt { state = lua.pop co rt.state }))

  -- ProcessRequireRun
  unfoldable pub process_require_run : ℕ → Bytes → Bytes → Runtime S → Runtime S
  unfolding require_loaded
  process_require_run h source name rt =
      let (co, rt₁) = acquire_coroutine lua rt in
      let (st, s) = lua.load_buffer co source name rt₁.state in
      require_loaded st co h name (record rt₁ { state = s })

  unfoldable pub load_file_loaded : Status → ℕ → ℕ → Runtime S → Runtime S
  load_file_loaded lua_ok co h rt =
      let (r, s) = lua.ref_top co (lua.push_value co 1 rt.state) in
      release_coroutine lua co (push_resume h (ref r 6 ∷ []) (record rt { state = s }))
  load_file_loaded st co h rt =
      push_resume h (nil ∷ [])
        (release_coroutine lua co (record rt { state = lua.pop co rt.state }))

  -- ProcessLoadFileRun; 6 is LUA_TFUNCTION, the type of a loaded chunk.
  unfoldable pub process_load_file_run : ℕ → Bytes → Bytes → Runtime S → Runtime S
  unfolding load_file_loaded
  process_load_file_run h source name rt =
      let (co, rt₁) = acquire_coroutine lua rt in
      let (st, s) = lua.load_buffer co source name rt₁.state in
      load_file_loaded st co h (record rt₁ { state = s })

  -- AwaitCoroutine, and the synchronous half of CallWithCallback: a coroutine that ended before
  -- anybody waited for it. The order of release and delivery is the source's.
  unfoldable pub end_awaited : Status → ℕ → ℕ → Handler → Runtime S → Runtime S
  end_awaited lua_ok n co k rt =
      let (vs, rt₁) = take_values lua co n (cleanup_stale_pendings lua co rt) in
      deliver k (success vs) (release_coroutine lua co rt₁)
  end_awaited lua_yield n co k rt = record rt { completions = insert co k rt.completions }
  end_awaited (lua_error c) n co k rt =
      let (d, rt₁) = take_error lua co (cleanup_stale_pendings lua co rt) in
      deliver k (failure (lua_error c) d) (release_coroutine lua co rt₁)

  -- AwaitCoroutine
  unfoldable pub await_coroutine : ℕ → Status → ℕ → Handler → Runtime S → Runtime S
  unfolding end_awaited
  await_coroutine co st n k rt = end_awaited st n co k rt

  -- CallWithCallback, with whether the coroutine yielded.
  unfoldable pub call_with_callback : ℕ → ℕ → Handler → Runtime S → Bool × Runtime S
  unfolding end_awaited
  call_with_callback co nargs k rt =
      let (st, n, rt₁) = resume_run lua co nargs rt in (has_yielded st, end_awaited st n co k rt₁)

  -- CallAsync
  unfoldable pub call_async : ℕ → List LuaValue → Handler → Runtime S → Runtime S
  unfolding await_coroutine
  call_async f args k rt =
      let (co, rt₁) = acquire_coroutine lua rt in
      let s = push_values lua co args (lua.push_ref co f rt₁.state) in
      let (st, n, rt₂) = resume_run lua co (length args) (record rt₁ { state = s }) in
      await_coroutine co st n k rt₂

  unfoldable pub await_loaded : Status → ℕ → Handler → Runtime S → Runtime S
  unfolding await_coroutine
  await_loaded lua_ok co k rt =
      let (st, n, rt₁) = resume_run lua co 0 rt in await_coroutine co st n k rt₁
  await_loaded st co k rt = fail_load co st k rt

  -- DoFileAsync
  unfoldable pub do_file_async : Bytes → Handler → Runtime S → Runtime S
  unfolding await_loaded
  do_file_async path k rt =
      let (co, rt₁) = acquire_coroutine lua rt in
      let (st, s) = lua.load_file co path rt₁.state in
      await_loaded st co k (record rt₁ { state = s })

  unfoldable pub await_loaded_buffer : Status → ℕ → Handler → Runtime S → Runtime S
  unfolding await_loaded
  await_loaded_buffer lua_ok co k rt = await_loaded lua_ok co k rt
  await_loaded_buffer st co k rt =
      let message = error_text (lua.error_object co rt.state) in
      deliver k (record { status = st; values = []; error = message; error_detail = no_detail })
        (release_coroutine lua co (record rt { state = lua.pop co rt.state }))

  -- DoBufferAsync, whose result has no detail if the chunk does not load.
  unfoldable pub do_buffer_async : Bytes → Bytes → Handler → Runtime S → Runtime S
  unfolding await_loaded_buffer
  do_buffer_async name source k rt =
      let (co, rt₁) = acquire_coroutine lua rt in
      let (st, s) = lua.load_buffer co source name rt₁.state in
      await_loaded_buffer st co k (record rt₁ { state = s })

  -- on_timeout of the TimerManager: run the callback; nobody awaits it.
  unfoldable pub run_timeout : ℕ → Runtime S → Runtime S
  run_timeout f rt =
      let (co, rt₁) = acquire_coroutine lua rt in
      let s = lua.unref f (lua.push_ref co f rt₁.state) in
      let (st, n, rt₂) = resume_run lua co 0 (record rt₁ { state = s }) in
      maybe_recycle_co lua co st n rt₂
