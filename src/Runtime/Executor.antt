-- ===== src/Runtime/Executor.antt =====
-- The executor thread: the body of each closure that the runtime schedules, with the checks at its
-- head (src/lua/lua_runtime.cc), and the histories of a runtime.
use bernardx.Base.{
  ℕ, ◌+◌, ◌≤◌, pos, ◌≡◌, List, [], ◌∷◌, ◌++◌, Option, none, some, Bytes, codes, if◌then◌else◌,
}
use bernardx.Value.{LuaValue, nil}
use bernardx.Machine.{Lua, Handler, Host}
use bernardx.Timer
use bernardx.Timer.{Callback, on_sleep, on_timeout}
use bernardx.Runtime.{
  Runtime, Job, task_job, resume_job, resume_direct_job, release_job, require_job, load_file_job,
  load_module_flow, load_file_flow, interrupt_job, timer_job, gated, deliver, stopped, push_resume,
  push_require_run, push_load_file_run, host_call, clear_interrupt, take_unhandled_error,
  set_co_complete_callback, remove_co_complete_callback,
}
use bernardx.Runtime.Pending.{add_sleep_timer, unref_all}
use bernardx.Runtime.Resume.{do_resume, resume_direct}
use bernardx.Runtime.Tasks.{
  process_task, process_require_run, process_load_file_run, call_async, do_file_async,
  do_buffer_async, call_with_callback, run_timeout,
}
use bernardx.Runtime.Stop.{interrupt_pass, shutdown, cancel_call}

-- The CodeProvider, which answers for a module and for a file.
pub record CodeProvider : Type 0 where
  pub load_module : Bytes → Option Bytes
  pub load_file : Bytes → Option Bytes

module _ {S : Type 0} (lua : Lua S) (provider : CodeProvider) where
  -- on_sleep of the TimerManager: a paused runtime looks again in 20 ms.
  unfoldable pub sleep_expired : ℕ → Runtime S → Runtime S
  sleep_expired h rt =
      if rt.paused then add_sleep_timer (pos (rt.clock + 20)) h rt else do_resume lua h [] rt

  unfoldable pub run_callback : Option Callback → Runtime S → Runtime S
  unfolding sleep_expired
  run_callback none rt = rt
  run_callback (some (on_sleep h)) rt = sleep_expired h rt
  run_callback (some (on_timeout f)) rt = run_timeout lua f rt

  -- The closures of AddSleepTimer and AddTimeoutTimer.
  unfoldable pub run_timer : Timer.Job → Runtime S → Runtime S
  unfolding run_callback
  run_timer j rt =
      let (c, tm) = Timer.fire j rt.timers in run_callback c (record rt { timers = tm })

  -- ResumeModuleLoad and ResumeFileLoad, from the provider's answer.
  unfoldable pub module_loaded : Option Bytes → ℕ → Bytes → Runtime S → Runtime S
  module_loaded (some source) h name rt = push_require_run h source name rt
  module_loaded none h name rt = push_resume h (nil ∷ []) rt

  unfoldable pub file_loaded : Option Bytes → ℕ → Bytes → Runtime S → Runtime S
  file_loaded (some source) h path rt = push_load_file_run h source path rt
  file_loaded none h path rt = push_resume h (nil ∷ []) rt

  -- The body of a closure.
  unfoldable pub run_job : Job S → Runtime S → Runtime S
  unfolding run_timer module_loaded file_loaded
  run_job (task_job t) rt =
      if gated rt
      then deliver t.on_end (stopped (codes "runtime shutdown")) rt
      else process_task lua t rt
  run_job (resume_job h args) rt = if rt.shutting_down then rt else do_resume lua h args rt
  run_job (resume_direct_job h f) rt = if rt.shutting_down then rt else resume_direct lua h f rt
  run_job (release_job refs) rt = unref_all lua refs rt
  run_job (require_job h source name) rt =
      if gated rt then rt else process_require_run lua h source name rt
  run_job (load_file_job h source name) rt =
      if gated rt then rt else process_load_file_run lua h source name rt
  run_job (load_module_flow h name) rt = module_loaded (provider.load_module name) h name rt
  run_job (load_file_flow h path) rt = file_loaded (provider.load_file path) h path rt
  run_job interrupt_job rt = interrupt_pass lua rt
  run_job (timer_job j) rt = run_timer j rt

  -- What may happen next. A closure that is due runs, whichever the executor picks; another thread
  -- calls a thread-safe member; time passes; the host calls a member on the executor thread.
  pub data Step (rt : Runtime S) : Runtime S → Type 0 where
    runs :
        (before after : List (ℕ × Job S)) (due : ℕ) (j : Job S)
        → rt.queue ≡ before ++ ((due, j) ∷ after)
        → due ≤ rt.clock
        → Step rt (run_job j (record rt { queue = before ++ after }))
    hosts : (c : Host S) → Step rt (host_call c rt)
    waits : (ms : ℕ) → Step rt (record rt { clock = rt.clock + ms })
    clears : Step rt (clear_interrupt rt)
    takes_error : Step rt (take_unhandled_error rt).1
    calls_async :
        (f : ℕ) (args : List LuaValue) (k : Handler) → Step rt (call_async lua f args k rt)
    does_file : (path : Bytes) (k : Handler) → Step rt (do_file_async lua path k rt)
    does_buffer :
        (name source : Bytes) (k : Handler) → Step rt (do_buffer_async lua name source k rt)
    calls_back : (co nargs : ℕ) (k : Handler) → Step rt (call_with_callback lua co nargs k rt).1
    cancels_call : (co : ℕ) → Step rt (cancel_call lua co rt)
    sets_callback : (co : ℕ) (k : Handler) → Step rt (set_co_complete_callback co k rt)
    removes_callback : (co : ℕ) → Step rt (remove_co_complete_callback co rt)
    shuts_down : Step rt (shutdown lua rt)

  pub data Reach (rt : Runtime S) : Runtime S → Type 0 where
    here : Reach rt rt
    next : {u v : Runtime S} → Reach rt u → Step u v → Reach rt v
