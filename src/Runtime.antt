-- ===== src/Runtime.antt =====
-- The state of LuaRuntime (src/lua/lua_runtime.h) and its thread-safe submission
-- (src/lua/lua_runtime.cc). The executor is a list of closures with the time from which each may
-- run; results that handlers have received are kept in the order of delivery.
pub mod Pending
pub mod Builtins
pub mod Drive
pub mod Resume
pub mod Tasks
pub mod Stop
pub mod Executor
pub mod Stable
pub mod Invariants
pub mod Frames
pub mod Deliveries
pub mod Recycle
pub mod Endings
pub mod Answers
pub mod Waits
pub mod Late
pub mod Awaits
pub mod Bodies
pub mod Wakes
use bernardx.Base.{
  ℕ, ◌+◌, Bool, true, false, ◌||◌, List, [], ◌∷◌, ◌++◌, Option, none, some, Bytes, codes, insert,
  erase, if◌then◌else◌,
}
use bernardx.Value.{LuaValue, ScriptErrorDetail, ScriptResult, no_detail, lua_errrun}
use bernardx.Machine.{
  Handler, TaskRequest, Host, interrupts, begins_shutdown, pauses, resumes, pushes_task,
  pushes_resume, pushes_resume_direct, pushes_release,
}
use bernardx.Timer
use bernardx.Timer.{TimerManager}
use bernardx.Pool.{CoroutinePool}

-- The closures that the runtime schedules, and the two coroutines that load for require and loadfile.
pub data Job (S : Type 0) : Type 0 where
  task_job : TaskRequest → Job S
  resume_job : ℕ → List LuaValue → Job S
  resume_direct_job : ℕ → (ℕ → S → ℕ × S) → Job S
  release_job : List ℕ → Job S
  require_job : ℕ → Bytes → Bytes → Job S
  load_file_job : ℕ → Bytes → Bytes → Job S
  load_module_flow : ℕ → Bytes → Job S
  load_file_flow : ℕ → Bytes → Job S
  interrupt_job : Job S
  timer_job : Timer.Job → Job S

-- What the Builder sets once.
pub record Config : Type 0 where
  pub has_code_provider : Bool
  pub has_executor : Bool
  pub c_modules : List Bytes
  pub libraries : List Bytes

pub record Runtime (S : Type 0) : Type 0 where
  pub config : Config
  -- The Lua state, with the registry and all stacks.
  pub state : S
  pub timers : TimerManager
  pub pool : CoroutinePool
  pub pending : List (ℕ × ℕ)
  -- The pin table of PinPendingCo in the registry, and its slot (`none` is LUA_NOREF).
  pub pins : List (ℕ × ℕ)
  pub pin_table : Option ℕ
  pub completions : List (ℕ × Handler)
  -- The done tables of await that are set, by the handle of the await.
  pub done_awaits : List ℕ
  pub unhandled_error : Option ScriptErrorDetail
  pub shutting_down : Bool
  pub interrupted : Bool
  pub paused : Bool
  pub queue : List (ℕ × Job S)
  pub clock : ℕ
  pub settled : List (Handler × ScriptResult)

-- A result with LUA_ERRRUN and a message.
abbrev pub stopped : Bytes → ScriptResult
stopped message = record {
  status = lua_errrun;
  values = [];
  error = message;
  error_detail = no_detail;
}

module _ {S : Type 0} where
  -- executor_->schedule(f, delay)
  unfoldable pub schedule : ℕ → Job S → Runtime S → Runtime S
  schedule delay j rt = record rt { queue = rt.queue ++ ((rt.clock + delay, j) ∷ []) }

  -- promise.setValue(result)
  unfoldable pub deliver : Handler → ScriptResult → Runtime S → Runtime S
  deliver h r rt = record rt { settled = rt.settled ++ ((h, r) ∷ []) }

  abbrev pub gated : Runtime S → Bool
  gated rt = rt.shutting_down || rt.interrupted

  -- PushTask
  unfoldable pub push_task : TaskRequest → Runtime S → Runtime S
  unfolding deliver schedule
  push_task t rt =
      if gated rt
      then deliver t.on_end (stopped (codes "runtime shutdown")) rt
      else schedule 0 (task_job t) rt

  -- PushResume
  unfoldable pub push_resume : ℕ → List LuaValue → Runtime S → Runtime S
  unfolding schedule
  push_resume h args rt = if rt.shutting_down then rt else schedule 0 (resume_job h args) rt

  -- PushResumeDirect
  unfoldable pub push_resume_direct : ℕ → (ℕ → S → ℕ × S) → Runtime S → Runtime S
  unfolding schedule
  push_resume_direct h f rt = if rt.shutting_down then rt else schedule 0 (resume_direct_job h f) rt

  -- PushRelease
  unfoldable pub push_release : List ℕ → Runtime S → Runtime S
  unfolding schedule
  push_release refs rt = if rt.shutting_down then rt else schedule 0 (release_job refs) rt

  -- PushRequireRun
  unfoldable pub push_require_run : ℕ → Bytes → Bytes → Runtime S → Runtime S
  unfolding schedule
  push_require_run h source name rt =
      if gated rt then rt else schedule 0 (require_job h source name) rt

  -- PushLoadFileRun
  unfoldable pub push_load_file_run : ℕ → Bytes → Bytes → Runtime S → Runtime S
  unfolding schedule
  push_load_file_run h source name rt =
      if gated rt then rt else schedule 0 (load_file_job h source name) rt

  -- Interrupt, up to the closure that it schedules.
  unfoldable pub interrupt : Runtime S → Runtime S
  unfolding schedule
  interrupt rt =
      if gated rt then rt else schedule 0 interrupt_job (record rt { interrupted = true })

  -- BeginShutdown
  unfoldable pub begin_shutdown : Runtime S → Runtime S
  begin_shutdown rt = record rt { shutting_down = true }

  -- Pause and Resume
  unfoldable pub pause : Runtime S → Runtime S
  pause rt = record rt { paused = true }

  unfoldable pub resume : Runtime S → Runtime S
  resume rt = record rt { paused = false }

  -- ClearInterrupt
  unfoldable pub clear_interrupt : Runtime S → Runtime S
  clear_interrupt rt = record rt { interrupted = false }

  -- A call from another thread.
  unfoldable pub host_call : Host S → Runtime S → Runtime S
  unfolding interrupt begin_shutdown pause resume push_task push_resume push_resume_direct
      push_release
  host_call interrupts rt = interrupt rt
  host_call begins_shutdown rt = begin_shutdown rt
  host_call pauses rt = pause rt
  host_call resumes rt = resume rt
  host_call (pushes_task t) rt = push_task t rt
  host_call (pushes_resume h args) rt = push_resume h args rt
  host_call (pushes_resume_direct h f) rt = push_resume_direct h f rt
  host_call (pushes_release refs) rt = push_release refs rt

  -- SetCoCompleteCallback, RemoveCoCompleteCallback
  unfoldable pub set_co_complete_callback : ℕ → Handler → Runtime S → Runtime S
  set_co_complete_callback co k rt = record rt { completions = insert co k rt.completions }

  unfoldable pub remove_co_complete_callback : ℕ → Runtime S → Runtime S
  remove_co_complete_callback co rt = record rt { completions = erase co rt.completions }

  -- RecordUnhandledError keeps the first error.
  unfoldable pub record_unhandled_error : ScriptErrorDetail → Runtime S → Runtime S
  record_unhandled_error d rt = elim rt.unhandled_error [
    | none ↦ record rt { unhandled_error = some d }
    | some _ ↦ rt
  ]

  -- TakeUnhandledError
  unfoldable pub take_unhandled_error : Runtime S → Option ScriptErrorDetail × Runtime S
  take_unhandled_error rt = (rt.unhandled_error, record rt { unhandled_error = none })
