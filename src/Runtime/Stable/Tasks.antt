-- ===== src/Runtime/Stable/Tasks.antt =====
-- Starting coroutines keeps a stable predicate.
use bernardx.Base.{ℕ, List, Bytes, insert, length}
use bernardx.Value.{LuaValue, Status, lua_ok, lua_yield, lua_error}
use bernardx.Machine.{Lua, Handler, TaskKind, load_script, call_ref, TaskRequest, push_values}
use bernardx.Runtime.{Runtime, push_resume}
use bernardx.Runtime.Pending.{acquire_coroutine, release_coroutine}
use bernardx.Runtime.Drive.{resume_run}
use bernardx.Runtime.Resume.{take_error, take_values, module_values}
use bernardx.Runtime.Tasks.{
  start_task, fail_load, start_loaded, load_chunk, push_call, process_kind, process_task,
  require_ended, require_loaded, process_require_run, load_file_loaded, process_load_file_run,
  end_awaited, call_with_callback, call_async, await_loaded, do_file_async, await_loaded_buffer,
  do_buffer_async, run_timeout,
}
use bernardx.Runtime.Stable.{Stable}
use bernardx.Runtime.Stable.Submit.{
  deliver-stable, push_resume-stable, acquire_coroutine-stable, release_coroutine-stable,
  cleanup_stale_pendings-stable,
}
use bernardx.Runtime.Stable.Builtins.{resume_run-stable}
use bernardx.Runtime.Stable.Resume.{maybe_recycle_co-stable}

module _ {S : Type 0} (lua : Lua S) {P : Runtime S → Type 0} (stable : Stable P) where
  start_task-stable :
      (co n : ℕ) (k : Handler) (rt : Runtime S) → P rt → P (start_task lua co n k rt)
  unfolding start_task
  start_task-stable co n k rt h =
      let (st, m, rt₁) = resume_run lua co n rt in
      maybe_recycle_co-stable lua stable co st m _ (
        stable.on_completions rt₁ (insert co k rt₁.completions)
          (resume_run-stable lua stable co n rt h))

  fail_load-stable :
      (co : ℕ) (st : Status) (k : Handler) (rt : Runtime S) → P rt → P (fail_load lua co st k rt)
  unfolding fail_load take_error
  fail_load-stable co st k rt h =
      deliver-stable stable k _ _
        (release_coroutine-stable lua stable co _ (stable.on_state rt _ h))

  start_loaded-stable :
      (st : Status) (co : ℕ) (k : Handler) (rt : Runtime S) → P rt → P (start_loaded lua st co k rt)
  unfolding start_loaded
  start_loaded-stable lua_ok co k rt h = start_task-stable co 0 k rt h
  start_loaded-stable lua_yield co k rt h = fail_load-stable co lua_yield k rt h
  start_loaded-stable (lua_error c) co k rt h = fail_load-stable co (lua_error c) k rt h

  process_kind-stable :
      (t : TaskKind) (co : ℕ) (k : Handler) (rt : Runtime S) → P rt → P (process_kind lua t co k rt)
  unfolding process_kind
  process_kind-stable (load_script chunk name) co k rt h =
      let (st, s) = load_chunk lua chunk name co rt.state in
      start_loaded-stable st co k (record rt { state = s }) (stable.on_state rt s h)
  process_kind-stable (call_ref f args b) co k rt h =
      start_task-stable co (length args) k _
        (stable.on_state rt (push_call lua co f args b rt.state) h)

  pub process_task-stable : (t : TaskRequest) (rt : Runtime S) → P rt → P (process_task lua t rt)
  unfolding process_task
  process_task-stable t rt h =
      let (co, rt₁) = acquire_coroutine lua rt in
      process_kind-stable t.kind co t.on_end rt₁ (acquire_coroutine-stable lua stable rt h)

  require_ended-stable :
      (st : Status) (n co m : ℕ) (name : Bytes) (rt : Runtime S)
      → P rt
      → P (require_ended lua st n co m name rt)
  unfolding require_ended take_values
  require_ended-stable lua_ok n co m name rt h =
      let (vs, rt₁) = take_values lua co n rt in
      release_coroutine-stable lua stable co _ (
        push_resume-stable stable m (module_values vs) _
          (stable.on_state rt₁ _ (stable.on_state rt _ h)))
  require_ended-stable lua_yield n co m name rt h = stable.on_completions rt _ h
  require_ended-stable (lua_error c) n co m name rt h =
      release_coroutine-stable lua stable co _
        (push_resume-stable stable m _ _ (stable.on_state rt _ h))

  require_unloaded-stable :
      (co m : ℕ) (args : List LuaValue) (rt : Runtime S)
      → P rt
      → P (
          push_resume m args (release_coroutine lua co (record rt { state = lua.pop co rt.state })))
  require_unloaded-stable co m args rt h =
      push_resume-stable stable m args _
        (release_coroutine-stable lua stable co _ (stable.on_state rt _ h))

  require_loaded-stable :
      (st : Status) (co m : ℕ) (name : Bytes) (rt : Runtime S)
      → P rt
      → P (require_loaded lua st co m name rt)
  unfolding require_loaded
  require_loaded-stable lua_ok co m name rt h =
      let rt₀ = record rt { state = lua.push_string co name rt.state } in
      let (st, n, rt₁) = resume_run lua co 1 rt₀ in
      require_ended-stable st n co m name rt₁
        (resume_run-stable lua stable co 1 rt₀ (stable.on_state rt _ h))
  require_loaded-stable lua_yield co m name rt h = require_unloaded-stable co m _ rt h
  require_loaded-stable (lua_error c) co m name rt h = require_unloaded-stable co m _ rt h

  pub process_require_run-stable :
      (m : ℕ) (source name : Bytes) (rt : Runtime S)
      → P rt
      → P (process_require_run lua m source name rt)
  unfolding process_require_run
  process_require_run-stable m source name rt h =
      let (co, rt₁) = acquire_coroutine lua rt in
      let (st, s) = lua.load_buffer co source name rt₁.state in
      require_loaded-stable st co m name (record rt₁ { state = s })
        (stable.on_state rt₁ s (acquire_coroutine-stable lua stable rt h))

  load_file_loaded-stable :
      (st : Status) (co m : ℕ) (rt : Runtime S) → P rt → P (load_file_loaded lua st co m rt)
  unfolding load_file_loaded
  load_file_loaded-stable lua_ok co m rt h =
      release_coroutine-stable lua stable co _
        (push_resume-stable stable m _ _ (stable.on_state rt _ h))
  load_file_loaded-stable lua_yield co m rt h = require_unloaded-stable co m _ rt h
  load_file_loaded-stable (lua_error c) co m rt h = require_unloaded-stable co m _ rt h

  pub process_load_file_run-stable :
      (m : ℕ) (source name : Bytes) (rt : Runtime S)
      → P rt
      → P (process_load_file_run lua m source name rt)
  unfolding process_load_file_run
  process_load_file_run-stable m source name rt h =
      let (co, rt₁) = acquire_coroutine lua rt in
      let (st, s) = lua.load_buffer co source name rt₁.state in
      load_file_loaded-stable st co m (record rt₁ { state = s })
        (stable.on_state rt₁ s (acquire_coroutine-stable lua stable rt h))

  pub end_awaited-stable :
      (st : Status) (n co : ℕ) (k : Handler) (rt : Runtime S)
      → P rt
      → P (end_awaited lua st n co k rt)
  unfolding end_awaited take_values take_error
  end_awaited-stable lua_ok n co k rt h = deliver-stable stable k _ _ (
      release_coroutine-stable lua stable co _
        (stable.on_state _ _ (cleanup_stale_pendings-stable lua stable co rt h)))
  end_awaited-stable lua_yield n co k rt h = stable.on_completions rt _ h
  end_awaited-stable (lua_error c) n co k rt h = deliver-stable stable k _ _ (
      release_coroutine-stable lua stable co _
        (stable.on_state _ _ (cleanup_stale_pendings-stable lua stable co rt h)))

  pub call_with_callback-stable :
      (co n : ℕ) (k : Handler) (rt : Runtime S) → P rt → P (call_with_callback lua co n k rt).1
  unfolding call_with_callback
  call_with_callback-stable co n k rt h =
      let (st, m, rt₁) = resume_run lua co n rt in
      end_awaited-stable st m co k rt₁ (resume_run-stable lua stable co n rt h)

  pub call_async-stable :
      (f : ℕ) (args : List LuaValue) (k : Handler) (rt : Runtime S)
      → P rt
      → P (call_async lua f args k rt)
  unfolding call_async
  call_async-stable f args k rt h =
      let (co, rt₁) = acquire_coroutine lua rt in
      let s = push_values lua co args (lua.push_ref co f rt₁.state) in
      let rt₂ = record rt₁ { state = s } in
      let (st, n, rt₃) = resume_run lua co (length args) rt₂ in
      end_awaited-stable st n co k rt₃ (
        resume_run-stable lua stable co (length args) rt₂
          (stable.on_state rt₁ s (acquire_coroutine-stable lua stable rt h)))

  await_loaded-stable :
      (st : Status) (co : ℕ) (k : Handler) (rt : Runtime S) → P rt → P (await_loaded lua st co k rt)
  unfolding await_loaded
  await_loaded-stable lua_ok co k rt h =
      let (st, n, rt₁) = resume_run lua co 0 rt in
      end_awaited-stable st n co k rt₁ (resume_run-stable lua stable co 0 rt h)
  await_loaded-stable lua_yield co k rt h = fail_load-stable co lua_yield k rt h
  await_loaded-stable (lua_error c) co k rt h = fail_load-stable co (lua_error c) k rt h

  pub do_file_async-stable :
      (path : Bytes) (k : Handler) (rt : Runtime S) → P rt → P (do_file_async lua path k rt)
  unfolding do_file_async
  do_file_async-stable path k rt h =
      let (co, rt₁) = acquire_coroutine lua rt in
      let (st, s) = lua.load_file co path rt₁.state in
      await_loaded-stable st co k (record rt₁ { state = s })
        (stable.on_state rt₁ s (acquire_coroutine-stable lua stable rt h))

  await_loaded_buffer-stable :
      (st : Status) (co : ℕ) (k : Handler) (rt : Runtime S)
      → P rt
      → P (await_loaded_buffer lua st co k rt)
  unfolding await_loaded_buffer
  await_loaded_buffer-stable lua_ok co k rt h = await_loaded-stable lua_ok co k rt h
  await_loaded_buffer-stable _ co k rt h =
      deliver-stable stable k _ _
        (release_coroutine-stable lua stable co _ (stable.on_state rt _ h))

  pub do_buffer_async-stable :
      (name source : Bytes) (k : Handler) (rt : Runtime S)
      → P rt
      → P (do_buffer_async lua name source k rt)
  unfolding do_buffer_async
  do_buffer_async-stable name source k rt h =
      let (co, rt₁) = acquire_coroutine lua rt in
      let (st, s) = lua.load_buffer co source name rt₁.state in
      await_loaded_buffer-stable st co k (record rt₁ { state = s })
        (stable.on_state rt₁ s (acquire_coroutine-stable lua stable rt h))

  pub run_timeout-stable : (f : ℕ) (rt : Runtime S) → P rt → P (run_timeout lua f rt)
  unfolding run_timeout
  run_timeout-stable f rt h =
      let (co, rt₁) = acquire_coroutine lua rt in
      let s = lua.unref f (lua.push_ref co f rt₁.state) in
      let rt₂ = record rt₁ { state = s } in
      let (st, n, rt₃) = resume_run lua co 0 rt₂ in
      maybe_recycle_co-stable lua stable co st n rt₃ (
        resume_run-stable lua stable co 0 rt₂
          (stable.on_state rt₁ s (acquire_coroutine-stable lua stable rt h)))
