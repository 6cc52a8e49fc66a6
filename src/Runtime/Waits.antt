-- ===== src/Runtime/Waits.antt =====
-- Sleeping, awaiting and late completions: builtin_sleep, builtin_await, on_sleep, CheckResumable and
-- DoResume of src/lua/lua_runtime.cc, from the call to the resumption.
use bernardx.Base.{
  ℕ, ◌+◌, ℤ, pos, negsuc, pos_part, ◌+ℤ◌, ◌-ℤ◌, to_int32, ◌≡◌, refl, ap, ◌∙◌, true, false, ◌||◌,
  List, [], ◌∷◌, ◌++◌, none, some, lookup, has, erase, lookup-insert, has-insert, has-lookup,
  has-erase, Option-cases, if_yes, if_not, ==_refl, arith, inl, inr,
}
use mathlib.Core.Path.{subst, subst⁻¹}
use bernardx.Machine.{Lua, yields}
use bernardx.Timer
use bernardx.Timer.{TimerManager, sleep_job, timeout_job, on_sleep}
use bernardx.Runtime.{Runtime, Job, timer_job, schedule}
use bernardx.Runtime.Pending.{pre_yield, pin_pending_co, cancel_timer, option_list, add_sleep_timer}
use bernardx.Runtime.Builtins.{builtin_sleep}
use bernardx.Runtime.Resume.{do_resume}
use bernardx.Runtime.Executor.{CodeProvider, run_timer, run_callback, sleep_expired}
use bernardx.Runtime.Frames.{unref_all_lem}

due_lem : (ms : ℤ) (now : ℕ) → now + pos_part ((pos now +ℤ ms) -ℤ pos now) ≡ now + pos_part ms
unfolding ◌+ℤ◌ ◌-ℤ◌
due_lem (pos n) now = ground arith
due_lem (negsuc n) now = ground arith

due_20 : (now : ℕ) → now + pos_part (pos (now + 20) -ℤ pos now) ≡ now + 20
unfolding ◌-ℤ◌
due_20 now = ground arith

fire_armed :
    (h : ℕ) (tm : TimerManager)
    → has h tm.active_timers ≡ true
    → Timer.fire (sleep_job h) tm
      ≡ (some (on_sleep h), record tm { active_timers = erase h tm.active_timers })
unfolding Timer.fire
fire_armed h tm e = rw e refl

fire_gone :
    (h f : ℕ) (tm : TimerManager)
    → has h tm.active_timers ≡ false
    → (Timer.fire (sleep_job h) tm ≡ (none, tm)) × (Timer.fire (timeout_job h f) tm ≡ (none, tm))
unfolding Timer.fire
fire_gone h f tm e = rw e (refl, refl)

cancelled : (h : ℕ) (tm : TimerManager) → has h (Timer.cancel_timer h tm).1.active_timers ≡ false
unfolding Timer.cancel_timer Timer.cancel_found
cancelled h tm = elim (Option-cases (lookup h tm.active_timers)) [
  | inl e ↦ rw e (has-lookup h tm.active_timers e)
  | inr (t, e) ↦ rw e (ground (arith, has-erase h h tm.active_timers))
]

module _ {S : Type 0} where
  -- The coroutine is parked under the handle, pinned, with an active timer, and the closure of the
  -- timer is last in the queue and due at `due`.
  pub record Sleeps (co h due : ℕ) (rt : Runtime S) : Type 0 where
    pub parked : lookup h rt.pending ≡ some co
    pub pinned : lookup h rt.pins ≡ some co
    pub armed : has h rt.timers.active_timers ≡ true
    pub queued : (q : List (ℕ × Job S)) × (rt.queue ≡ q ++ ((due, timer_job (sleep_job h)) ∷ []))

  add_sleep_timer-Sleeps :
      (deadline : ℤ) (co h : ℕ) (rt : Runtime S)
      → lookup h rt.pending ≡ some co
      → lookup h rt.pins ≡ some co
      → Sleeps co h (rt.clock + pos_part (deadline -ℤ pos rt.clock)) (add_sleep_timer deadline h rt)
  unfolding add_sleep_timer schedule Timer.add_sleep_timer Timer.delay
  add_sleep_timer-Sleeps deadline co h rt p q = record {
    parked = p;
    pinned = q;
    armed =
        has-insert h h _ rt.timers.active_timers
        ∙ ap (λ b. b || has h rt.timers.active_timers) (==_refl h);
    queued = (rt.queue, refl);
  }

module _ {S : Type 0} (lua : Lua S) where
  -- sleep(ms), of an argument that the cast to int keeps or wraps: the script yields, its coroutine is
  -- parked and pinned under the next handle, and the closure that wakes it is last in the queue, due
  -- that many milliseconds from now, or now if the number is negative.
  pub builtin_sleep-Sleeps :
      (co : ℕ) (ms : ℤ) (rt : Runtime S)
      → let (r, ru) = builtin_sleep lua co ms rt in
        (r ≡ yields) × Sleeps co rt.timers.handle_counter (rt.clock + pos_part (to_int32 ms)) ru
  unfolding builtin_sleep pre_yield pin_pending_co Timer.next_handle
  builtin_sleep-Sleeps co ms rt =
      let h = rt.timers.handle_counter in
      let (_, rt') = pre_yield co rt in
      (
        refl,
        subst (λ n. Sleeps co h n (add_sleep_timer (pos rt.clock +ℤ to_int32 ms) h rt'))
            (due_lem (to_int32 ms) rt.clock)
            (add_sleep_timer-Sleeps (pos rt.clock +ℤ to_int32 ms) co h rt'
              (ground (arith, lookup-insert h h co rt.pending))
              (ground (arith, lookup-insert h h co rt.pins))),
      )

module _ {S : Type 0} (lua : Lua S) (provider : CodeProvider) where
  -- The closure of a sleeping coroutine's timer, while the timer is active. In a paused runtime the
  -- coroutine stays parked and the closure comes again in 20 ms; otherwise the coroutine is resumed
  -- without arguments, the timer being spent.
  pub run_timer-Sleeps :
      (co h : ℕ) (rt : Runtime S)
      → lookup h rt.pending ≡ some co
      → lookup h rt.pins ≡ some co
      → has h rt.timers.active_timers ≡ true
      → let ru = run_timer lua provider (sleep_job h) rt in
        (rt.paused ≡ true → Sleeps co h (rt.clock + 20) ru)
        × (rt.paused ≡ false
            → ru
              ≡ do_resume lua h [] (record rt {
                timers = record rt.timers { active_timers = erase h rt.timers.active_timers };
              }))
  unfolding run_timer Timer.fire run_callback sleep_expired
  run_timer-Sleeps co h rt p q a =
      let tm = record rt.timers { active_timers = erase h rt.timers.active_timers } in
      let rt' = record rt { timers = tm } in
      let fired : run_timer lua provider (sleep_job h) rt ≡ sleep_expired lua provider h rt' =
        ap (λ x. run_callback lua provider x.0 (record rt { timers = x.1 }))
          (fire_armed h rt.timers a) in
      (
        λ e. subst⁻¹ (Sleeps co h (rt.clock + 20)) fired (
            if_yes (Sleeps co h (rt.clock + 20)) rt.paused _ _ e (
              subst (λ n. Sleeps co h n (add_sleep_timer (pos (rt.clock + 20)) h rt'))
                (due_20 rt.clock) (add_sleep_timer-Sleeps (pos (rt.clock + 20)) co h rt' p q))),
        λ e. fired ∙ if_not (λ r. r ≡ do_resume lua h [] rt') rt.paused _ _ e refl,
      )

  -- A timer that was cancelled does nothing when its closure runs, be it a sleep's or a timeout's.
  pub cancel_timer-run_timer :
      (h f : ℕ) (rt : Runtime S)
      → let ru = cancel_timer lua h rt in
        (run_timer lua provider (sleep_job h) ru ≡ ru)
        × (run_timer lua provider (timeout_job h f) ru ≡ ru)
  unfolding run_timer Timer.fire run_callback cancel_timer
  cancel_timer-run_timer h f rt =
      let (r, tm) = Timer.cancel_timer h rt.timers in
      let ru = cancel_timer lua h rt in
      let t : ru.timers ≡ tm =
        ap (λ (x : Runtime S). x.timers)
          (unref_all_lem lua (option_list r) (record rt { timers = tm })) in
      let (a, b) =
        fire_gone h f ru.timers
          (ap (λ (x : TimerManager). has h x.active_timers) t ∙ cancelled h rt.timers) in
      (
        ap (λ x. run_callback lua provider x.0 (record ru { timers = x.1 })) a,
        ap (λ x. run_callback lua provider x.0 (record ru { timers = x.1 })) b,
      )
