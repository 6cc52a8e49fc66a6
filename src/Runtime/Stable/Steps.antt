-- ===== src/Runtime/Stable/Steps.antt =====
-- A stable predicate holds after every closure, every step and every history.
use bernardx.Base.{
  ℕ, ◌+◌, pos, ◌≡◌, refl, true, false, List, [], ◌∷◌, Option, none, some, Bytes, codes,
}
use bernardx.Value.{ScriptResult}
use bernardx.Machine.{Lua, Handler}
use bernardx.Timer
use bernardx.Timer.{Callback, on_sleep, on_timeout}
use bernardx.Runtime.{
  Runtime, Job, task_job, resume_job, resume_direct_job, release_job, require_job, load_file_job,
  load_module_flow, load_file_flow, interrupt_job, timer_job, gated, clear_interrupt,
  take_unhandled_error, set_co_complete_callback, remove_co_complete_callback,
}
use bernardx.Runtime.Pending.{clear_pending, cancel_all_timers}
use bernardx.Runtime.Stop.{
  suspension_results, settle_each, release_all_coroutines, interrupt_pass, settle_shutdown,
  free_slot, free_pin_table, shutdown, cancel_call,
}
use bernardx.Runtime.Executor.{
  CodeProvider, sleep_expired, run_callback, run_timer, module_loaded, file_loaded, run_job, Step,
  runs, hosts, waits, clears, takes_error, calls_async, does_file, does_buffer, calls_back,
  cancels_call, sets_callback, removes_callback, shuts_down, Reach, here, next,
}
use bernardx.Runtime.Stable.{Stable}
use bernardx.Runtime.Stable.Submit.{
  if-stable, deliver-stable, push_resume-stable, push_require_run-stable, push_load_file_run-stable,
  host_call-stable, add_sleep_timer-stable, unref_all-stable, cancel_all_timers-stable,
  cleanup_stale_pendings-stable, release_coroutine-stable,
}
use bernardx.Runtime.Stable.Resume.{settle-stable, do_resume-stable, resume_direct-stable}
use bernardx.Runtime.Stable.Tasks.{
  process_task-stable, process_require_run-stable, process_load_file_run-stable, call_async-stable,
  do_file_async-stable, do_buffer_async-stable, call_with_callback-stable, run_timeout-stable,
}

module _ {S : Type 0} (lua : Lua S) {P : Runtime S → Type 0} (stable : Stable P) where
  settle_each-stable :
      (m : List (Handler × ScriptResult)) (rt : Runtime S) → P rt → P (settle_each lua m rt)
  unfolding settle_each
  settle_each-stable [] rt h = h
  settle_each-stable ((k, r) ∷ m) rt h = settle_each-stable m _ (settle-stable lua stable k r rt h)

  interrupt_pass-stable : (rt : Runtime S) → P rt → P (interrupt_pass lua rt)
  unfolding interrupt_pass release_all_coroutines
  interrupt_pass-stable rt h =
      let rt₁ = clear_pending (record rt { completions = [] }) in
      let rt₂ = cancel_all_timers lua rt₁ in
      let cleared : P rt₂ =
        cancel_all_timers-stable lua stable rt₁
          (stable.on_clear _ (stable.on_completions rt [] h)) in
      if-stable P rt.shutting_down _ _ h (
        settle_each-stable (suspension_results lua (codes "interrupted") rt.completions rt₂.state) _
          (stable.on_state _ _ (stable.on_pool rt₂ _ cleared)))

  settle_shutdown-stable :
      (m : List (ℕ × Handler)) (rt : Runtime S) → P rt → P (settle_shutdown lua m rt)
  unfolding settle_shutdown
  settle_shutdown-stable [] rt h = h
  settle_shutdown-stable ((co, k) ∷ m) rt h =
      settle_shutdown-stable m _ (settle-stable lua stable k _ rt h)

  free_slot-stable :
      (o : Option ℕ) (rt : Runtime S) → rt.pending ≡ [] → P rt → P (free_slot lua o rt)
  unfolding free_slot
  free_slot-stable none rt e h = h
  free_slot-stable (some r) rt e h = stable.on_state _ _ (stable.on_free rt e h)

  shutdown-stable : (rt : Runtime S) → P rt → P (shutdown lua rt)
  unfolding shutdown free_pin_table
  shutdown-stable rt h =
      let rt₀ = record rt { shutting_down = true; completions = [] } in
      let rt₁ = free_pin_table lua (clear_pending rt₀) in
      let freed : P rt₁ =
        free_slot-stable (clear_pending rt₀).pin_table (clear_pending rt₀)
          (unfold clear_pending in refl)
          (stable.on_clear rt₀ (stable.on_completions _ [] (stable.on_shutdown rt h))) in
      let rt₂ =
        settle_shutdown lua rt.completions (record rt₁ { state = lua.close_libraries rt₁.state }) in
      let settled : P rt₂ = settle_shutdown-stable rt.completions _ (stable.on_state rt₁ _ freed) in
      if-stable P rt.shutting_down _ _ h
        (stable.on_state _ _ (stable.on_pool _ _ (cancel_all_timers-stable lua stable rt₂ settled)))

  cancel_call-stable : (co : ℕ) (rt : Runtime S) → P rt → P (cancel_call lua co rt)
  unfolding cancel_call
  cancel_call-stable co rt h =
      release_coroutine-stable lua stable co _
        (cleanup_stale_pendings-stable lua stable co _ (stable.on_completions rt _ h))

  module _ (provider : CodeProvider) where
    run_callback-stable :
        (c : Option Callback) (rt : Runtime S) → P rt → P (run_callback lua provider c rt)
    unfolding run_callback sleep_expired
    run_callback-stable none rt h = h
    run_callback-stable (some (on_sleep n)) rt h =
        if-stable P rt.paused _ _ (add_sleep_timer-stable stable (pos (rt.clock + 20)) n rt h)
          (do_resume-stable lua stable n [] rt h)
    run_callback-stable (some (on_timeout f)) rt h = run_timeout-stable lua stable f rt h

    run_timer-stable : (j : Timer.Job) (rt : Runtime S) → P rt → P (run_timer lua provider j rt)
    unfolding run_timer
    run_timer-stable j rt h =
        let (c, tm) = Timer.fire j rt.timers in
        run_callback-stable c (record rt { timers = tm }) (stable.on_timers rt tm h)

    module_loaded-stable :
        (o : Option Bytes) (n : ℕ) (name : Bytes) (rt : Runtime S)
        → P rt
        → P (module_loaded lua provider o n name rt)
    unfolding module_loaded
    module_loaded-stable (some source) n name rt h =
        push_require_run-stable stable n source name rt h
    module_loaded-stable none n name rt h = push_resume-stable stable n _ rt h

    file_loaded-stable :
        (o : Option Bytes) (n : ℕ) (path : Bytes) (rt : Runtime S)
        → P rt
        → P (file_loaded lua provider o n path rt)
    unfolding file_loaded
    file_loaded-stable (some source) n path rt h =
        push_load_file_run-stable stable n source path rt h
    file_loaded-stable none n path rt h = push_resume-stable stable n _ rt h

    run_job-stable : (j : Job S) (rt : Runtime S) → P rt → P (run_job lua provider j rt)
    unfolding run_job
    run_job-stable (task_job t) rt h =
        if-stable P (gated rt) _ _ (deliver-stable stable t.on_end _ rt h)
          (process_task-stable lua stable t rt h)
    run_job-stable (resume_job n args) rt h =
        if-stable P rt.shutting_down _ _ h (do_resume-stable lua stable n args rt h)
    run_job-stable (resume_direct_job n f) rt h =
        if-stable P rt.shutting_down _ _ h (resume_direct-stable lua stable n f rt h)
    run_job-stable (release_job refs) rt h = unref_all-stable lua stable refs rt h
    run_job-stable (require_job n source name) rt h =
        if-stable P (gated rt) _ _ h (process_require_run-stable lua stable n source name rt h)
    run_job-stable (load_file_job n source name) rt h =
        if-stable P (gated rt) _ _ h (process_load_file_run-stable lua stable n source name rt h)
    run_job-stable (load_module_flow n name) rt h =
        module_loaded-stable (provider.load_module name) n name rt h
    run_job-stable (load_file_flow n path) rt h =
        file_loaded-stable (provider.load_file path) n path rt h
    run_job-stable interrupt_job rt h = interrupt_pass-stable rt h
    run_job-stable (timer_job j) rt h = run_timer-stable j rt h

    pub Step-stable : {rt ru : Runtime S} → Step lua provider rt ru → P rt → P ru
    unfolding clear_interrupt take_unhandled_error set_co_complete_callback
        remove_co_complete_callback
    Step-stable {rt} (runs before after due j e le) h = run_job-stable j _ (stable.on_queue rt _ h)
    Step-stable {rt} (hosts c) h = host_call-stable stable c rt h
    Step-stable {rt} (waits ms) h = stable.on_clock rt _ h
    Step-stable {rt} clears h = stable.on_interrupted rt false h
    Step-stable {rt} takes_error h = stable.on_error rt none h
    Step-stable {rt} (calls_async f args k) h = call_async-stable lua stable f args k rt h
    Step-stable {rt} (does_file path k) h = do_file_async-stable lua stable path k rt h
    Step-stable {rt} (does_buffer name source k) h =
        do_buffer_async-stable lua stable name source k rt h
    Step-stable {rt} (calls_back co n k) h = call_with_callback-stable lua stable co n k rt h
    Step-stable {rt} (cancels_call co) h = cancel_call-stable co rt h
    Step-stable {rt} (sets_callback co k) h = stable.on_completions rt _ h
    Step-stable {rt} (removes_callback co) h = stable.on_completions rt _ h
    Step-stable {rt} shuts_down h = shutdown-stable rt h

    pub Reach-stable : {rt ru : Runtime S} → P rt → Reach lua provider rt ru → P ru
    Reach-stable h here = h
    Reach-stable h (next r st) = Step-stable st (Reach-stable h r)
