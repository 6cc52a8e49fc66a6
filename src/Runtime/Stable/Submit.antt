-- ===== src/Runtime/Stable/Submit.antt =====
-- Submission and the parking of coroutines keep a stable predicate.
use bernardx.Base.{ℕ, ℤ, Bool, true, false, List, [], ◌∷◌, none, some, Bytes, if◌then◌else◌}
use bernardx.Value.{LuaValue, ScriptErrorDetail, ScriptResult}
use bernardx.Machine.{
  Lua, Handler, TaskRequest, Host, interrupts, begins_shutdown, pauses, resumes, pushes_task,
  pushes_resume, pushes_resume_direct, pushes_release,
}
use bernardx.Timer
use bernardx.Runtime.{
  Runtime, Job, schedule, deliver, gated, push_task, push_resume, push_resume_direct, push_release,
  push_require_run, push_load_file_run, interrupt, begin_shutdown, pause, resume, host_call,
  record_unhandled_error,
}
use bernardx.Runtime.Pending.{
  pre_yield, add_sleep_timer, add_timeout_timer, acquire_coroutine, release_coroutine, unref_all,
  cancel_timer, cancel_all_timers, drop_pendings, cleanup_stale_pendings, option_list, handles_of,
}
use bernardx.Runtime.Stable.{Stable}

pub if-stable {ℓ} :
    {A : Type 0} (P : A → Type ℓ) (b : Bool) (x y : A) → P x → P y → P (if b then x else y)
if-stable P true x y p q = p
if-stable P false x y p q = q

module _ {S : Type 0} {P : Runtime S → Type 0} (stable : Stable P) where
  pub schedule-stable : (d : ℕ) (j : Job S) (rt : Runtime S) → P rt → P (schedule d j rt)
  unfolding schedule
  schedule-stable d j rt h = stable.on_queue rt _ h

  pub deliver-stable : (k : Handler) (r : ScriptResult) (rt : Runtime S) → P rt → P (deliver k r rt)
  unfolding deliver
  deliver-stable k r rt h = stable.on_deliver rt k r h

  pub push_task-stable : (t : TaskRequest) (rt : Runtime S) → P rt → P (push_task t rt)
  unfolding push_task
  push_task-stable t rt h =
      if-stable P (gated rt) _ _ (deliver-stable t.on_end _ rt h) (schedule-stable 0 _ rt h)

  pub push_resume-stable :
      (n : ℕ) (args : List LuaValue) (rt : Runtime S) → P rt → P (push_resume n args rt)
  unfolding push_resume
  push_resume-stable n args rt h = if-stable P rt.shutting_down _ _ h (schedule-stable 0 _ rt h)

  pub push_resume_direct-stable :
      (n : ℕ) (f : ℕ → S → ℕ × S) (rt : Runtime S) → P rt → P (push_resume_direct n f rt)
  unfolding push_resume_direct
  push_resume_direct-stable n f rt h = if-stable P rt.shutting_down _ _ h (schedule-stable 0 _ rt h)

  pub push_release-stable : (refs : List ℕ) (rt : Runtime S) → P rt → P (push_release refs rt)
  unfolding push_release
  push_release-stable refs rt h = if-stable P rt.shutting_down _ _ h (schedule-stable 0 _ rt h)

  pub push_require_run-stable :
      (n : ℕ) (source name : Bytes) (rt : Runtime S) → P rt → P (push_require_run n source name rt)
  unfolding push_require_run
  push_require_run-stable n source name rt h =
      if-stable P (gated rt) _ _ h (schedule-stable 0 _ rt h)

  pub push_load_file_run-stable :
      (n : ℕ) (source name : Bytes) (rt : Runtime S)
      → P rt
      → P (push_load_file_run n source name rt)
  unfolding push_load_file_run
  push_load_file_run-stable n source name rt h =
      if-stable P (gated rt) _ _ h (schedule-stable 0 _ rt h)

  interrupt-stable : (rt : Runtime S) → P rt → P (interrupt rt)
  unfolding interrupt
  interrupt-stable rt h =
      if-stable P (gated rt) _ _ h (schedule-stable 0 _ _ (stable.on_interrupted rt true h))

  pub host_call-stable : (c : Host S) (rt : Runtime S) → P rt → P (host_call c rt)
  unfolding host_call begin_shutdown pause resume
  host_call-stable interrupts rt h = interrupt-stable rt h
  host_call-stable begins_shutdown rt h = stable.on_shutdown rt h
  host_call-stable pauses rt h = stable.on_paused rt true h
  host_call-stable resumes rt h = stable.on_paused rt false h
  host_call-stable (pushes_task t) rt h = push_task-stable t rt h
  host_call-stable (pushes_resume n args) rt h = push_resume-stable n args rt h
  host_call-stable (pushes_resume_direct n f) rt h = push_resume_direct-stable n f rt h
  host_call-stable (pushes_release refs) rt h = push_release-stable refs rt h

  pub record_unhandled_error-stable :
      (d : ScriptErrorDetail) (rt : Runtime S) → P rt → P (record_unhandled_error d rt)
  unfolding record_unhandled_error
  record_unhandled_error-stable d rt h =
      elim rt.unhandled_error
        as (λ o. P (elim o [ none ↦ record rt { unhandled_error = some d } | some _ ↦ rt ])) [
          | none ↦ stable.on_error rt (some d) h
          | some _ ↦ h
        ]

  pub pre_yield-stable : (co : ℕ) (rt : Runtime S) → P rt → P (pre_yield co rt).1
  unfolding pre_yield
  pre_yield-stable co rt h =
      let (n, tm) = Timer.next_handle rt.timers in stable.on_park _ n co (stable.on_timers rt tm h)

  pub add_sleep_timer-stable :
      (deadline : ℤ) (n : ℕ) (rt : Runtime S) → P rt → P (add_sleep_timer deadline n rt)
  unfolding add_sleep_timer
  add_sleep_timer-stable deadline n rt h = schedule-stable _ _ _ (stable.on_timers rt _ h)

  pub add_timeout_timer-stable :
      (deadline : ℤ) (f : ℕ) (rt : Runtime S) → P rt → P (add_timeout_timer deadline f rt).1
  unfolding add_timeout_timer
  add_timeout_timer-stable deadline f rt h = schedule-stable _ _ _ (stable.on_timers rt _ h)

module _ {S : Type 0} (lua : Lua S) {P : Runtime S → Type 0} (stable : Stable P) where
  pub acquire_coroutine-stable : (rt : Runtime S) → P rt → P (acquire_coroutine lua rt).1
  unfolding acquire_coroutine
  acquire_coroutine-stable rt h = stable.on_state _ _ (stable.on_pool rt _ h)

  pub release_coroutine-stable : (co : ℕ) (rt : Runtime S) → P rt → P (release_coroutine lua co rt)
  unfolding release_coroutine
  release_coroutine-stable co rt h = stable.on_state _ _ (stable.on_pool rt _ h)

  pub unref_all-stable : (rs : List ℕ) (rt : Runtime S) → P rt → P (unref_all lua rs rt)
  unfolding unref_all
  unref_all-stable [] rt h = h
  unref_all-stable (r ∷ rs) rt h = unref_all-stable rs _ (stable.on_state rt _ h)

  pub cancel_timer-stable : (n : ℕ) (rt : Runtime S) → P rt → P (cancel_timer lua n rt)
  unfolding cancel_timer
  cancel_timer-stable n rt h =
      let (r, tm) = Timer.cancel_timer n rt.timers in
      unref_all-stable (option_list r) (record rt { timers = tm }) (stable.on_timers rt tm h)

  pub cancel_all_timers-stable : (rt : Runtime S) → P rt → P (cancel_all_timers lua rt)
  unfolding cancel_all_timers
  cancel_all_timers-stable rt h =
      let (rs, tm) = Timer.cancel_all rt.timers in
      unref_all-stable rs (record rt { timers = tm }) (stable.on_timers rt tm h)

  drop_pendings-stable : (hs : List ℕ) (rt : Runtime S) → P rt → P (drop_pendings lua hs rt)
  unfolding drop_pendings
  drop_pendings-stable [] rt h = h
  drop_pendings-stable (n ∷ hs) rt h =
      drop_pendings-stable hs _ (stable.on_unpark _ n (cancel_timer-stable n rt h))

  pub cleanup_stale_pendings-stable :
      (co : ℕ) (rt : Runtime S) → P rt → P (cleanup_stale_pendings lua co rt)
  unfolding cleanup_stale_pendings
  cleanup_stale_pendings-stable co rt h = drop_pendings-stable (handles_of co rt.pending) rt h
