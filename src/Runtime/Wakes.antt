-- ===== src/Runtime/Wakes.antt =====
-- From sleep to the resumption of the coroutine, over the queue of the executor: builtin_sleep, the
-- closure of AddSleepTimer and DoResume of src/lua/lua_runtime.cc.
use bernardx.Base.{
  ℕ, ◌+◌, ℤ, pos_part, to_int32, ◌≡◌, refl, sym, false, [], ◌++◌, some, lookup, erase, List, if_not,
  arith,
}
use mathlib.Core.Path.{subst}
use bernardx.Value.{LuaValue}
use bernardx.Machine.{Lua}
use bernardx.Timer
use bernardx.Timer.{sleep_job}
use bernardx.Runtime.{Runtime, timer_job, resume_job, push_resume, schedule}
use bernardx.Runtime.Pending.{pre_yield, pin_pending_co, add_sleep_timer}
use bernardx.Runtime.Builtins.{builtin_sleep}
use bernardx.Runtime.Resume.{do_resume}
use bernardx.Runtime.Executor.{CodeProvider, Reach, here, next, runs, waits, run_job}
use bernardx.Runtime.Waits.{Sleeps, builtin_sleep-Sleeps, run_timer-Sleeps}

module _ {S : Type 0} (lua : Lua S) (provider : CodeProvider) where
  -- The runtime right before the coroutine is resumed, at a time, from a history.
  pub record Wakes (co h time : ℕ) (ru : Runtime S) : Type 0 where
    pub woken : Runtime S
    pub history : Reach lua provider ru (do_resume lua h [] woken)
    pub parked : lookup h woken.pending ≡ some co
    pub pinned : lookup h woken.pins ≡ some co
    pub on_time : woken.clock ≡ time

  sleeping-Wakes :
      (co h ms : ℕ) (rt : Runtime S)
      → Sleeps co h (rt.clock + ms) rt
      → rt.paused ≡ false
      → Wakes co h (rt.clock + ms) rt
  unfolding run_job
  sleeping-Wakes co h ms rt s e =
      let later = record rt { clock = rt.clock + ms } in
      let due = record later { queue = s.queued.0 ++ [] } in
      let timers = record rt.timers { active_timers = erase h rt.timers.active_timers } in
      record {
        woken = record due { timers = timers };
        history =
            subst (Reach lua provider rt)
              ((run_timer-Sleeps lua provider co h due s.parked s.pinned s.armed).1 e)
              (next (next here (waits ms)) (
                runs s.queued.0 [] (rt.clock + ms) (timer_job (sleep_job h)) s.queued.1
                  (omega arith)));
        parked = s.parked;
        pinned = s.pinned;
        on_time = refl;
      }

  -- A history to the resumption of a coroutine with some values.
  pub record Resumes (co h : ℕ) (args : List LuaValue) (ru : Runtime S) : Type 0 where
    pub woken : Runtime S
    pub history : Reach lua provider ru (do_resume lua h args woken)
    pub parked : lookup h woken.pending ≡ some co

  -- A resumption that was submitted can run.
  pub push_resume-Resumes :
      (co h : ℕ) (args : List LuaValue) (rt : Runtime S)
      → lookup h rt.pending ≡ some co
      → rt.shutting_down ≡ false
      → Resumes co h args (push_resume h args rt)
  unfolding push_resume schedule run_job
  push_resume-Resumes co h args rt p e =
      let due = record rt { queue = rt.queue ++ [] } in
      let scheduled = schedule 0 (resume_job h args) rt in
      record {
        woken = due;
        history =
            subst (λ x. Reach lua provider x (do_resume lua h args due))
              (sym (if_not (λ x. x ≡ scheduled) rt.shutting_down _ _ e refl))
              (subst (Reach lua provider scheduled)
                (if_not (λ x. x ≡ do_resume lua h args due) rt.shutting_down _ _ e refl)
                (next here
                  (runs rt.queue [] (rt.clock + 0) (resume_job h args) refl (omega arith))));
        parked = p;
      }

  -- In a runtime that is not paused, after sleep(ms) the executor can let the time pass and run the
  -- closure of the timer: then, exactly that many milliseconds later, or at once if the number is
  -- negative, DoResume is called without values for the handle under which the coroutine is still
  -- parked and pinned.
  pub builtin_sleep-Wakes :
      (co : ℕ) (ms : ℤ) (rt : Runtime S)
      → rt.paused ≡ false
      → Wakes co rt.timers.handle_counter
          (rt.clock + pos_part (to_int32 ms))
          (builtin_sleep lua co ms rt).1
  unfolding builtin_sleep pre_yield pin_pending_co add_sleep_timer schedule Timer.add_sleep_timer
      Timer.next_handle
  builtin_sleep-Wakes co ms rt e =
      sleeping-Wakes co rt.timers.handle_counter (pos_part (to_int32 ms))
        (builtin_sleep lua co ms rt).1 (builtin_sleep-Sleeps lua co ms rt).1 e
