-- ===== src/Tests/Scripts.antt =====
-- Scripts: a task that sleeps, from its submission on.
use bernardx.Base.{
  ℕ, ◌+◌, ◌≡◌, refl, [], ◌∷◌, none, some, true, false, arith, codes, pos, pos_part, to_int32,
  lookup, erase, has,
}
use bernardx.Value.{lua_ok, lua_yield, lua_error, capture_error_detail}
use bernardx.Machine.{
  Lua, done, calls, sleep, TaskRequest, promise, callback, load_script, pushes_task,
}
use bernardx.Timer.{k_sleep, sleep_job}
use bernardx.Runtime.{Runtime, task_job, host_call, push_task, schedule}
use bernardx.Runtime.Builtins.{builtin_sleep}
use bernardx.Runtime.Pending.{cleanup_stale_pendings}
use bernardx.Runtime.Resume.{
  maybe_recycle_co, failure, success, take_values, do_resume, not_suspended,
}
use bernardx.Runtime.Tasks.{has_yielded}
use bernardx.Runtime.Executor.{run_job, run_timer, Reach, here, next, runs, hosts}
use bernardx.Runtime.Recycle.{Ended, maybe_recycle_co-failed, maybe_recycle_co-finished}
use bernardx.Runtime.Late.{Refused, do_resume-guards}
use bernardx.Runtime.Wakes.{Wakes, builtin_sleep-Wakes}
use bernardx.Runtime.Waits.{Sleeps, run_timer-Sleeps}
use bernardx.Tests.Toy.{toy, fresh, no_provider}

-- Each script sleeps for 5 ms; no coroutine is suspended.
abbrev pub sleepy : Lua ℕ
sleepy = toy lua_ok (λ co n s. calls (sleep co (pos 5)) s (λ r s'. done lua_yield 0 s'))

abbrev task : TaskRequest
task = record { kind = load_script (codes "sleep(5)") (codes "=t"); on_end = promise 1 }

-- The task was submitted; it ran and sleeps.
abbrev submitted : Runtime ℕ
submitted = host_call (pushes_task task) fresh

abbrev started : Runtime ℕ
started = run_job sleepy no_provider (task_job task) (record submitted { queue = [] })

-- Coroutine 0 is parked under handle 1, with a handler and a timer; it is checked out.
abbrev pub asleep : Runtime ℕ
asleep = record fresh {
  pending = (1, 0) ∷ [];
  pins = (1, 0) ∷ [];
  completions = (0, promise 1) ∷ (6, callback 2) ∷ [];
  pool = record { active_co_refs = (0, 100) ∷ []; co_pool = [] };
  timers = record {
    handle_counter = 2;
    active_timers = (1, record { kind = k_sleep; fn_ref = none }) ∷ [];
  };
}

submitted-Reach : Reach sleepy no_provider fresh submitted
submitted-Reach = next here (hosts (pushes_task task))

started-Reach : Reach sleepy no_provider fresh started
unfolding host_call push_task schedule
started-Reach = next submitted-Reach (runs [] [] 0 (task_job task) refl (omega arith))

maybe_recycle_co-failed_example :
    let d = capture_error_detail (sleepy.frames 0 0) (sleepy.error_object 0 0) in
    let ru = maybe_recycle_co sleepy 0 (lua_error 2) 0 asleep in
    Ended sleepy (some (promise 1)) (failure (lua_error 2) d) 0 asleep ru
    × (ru.unhandled_error ≡ none)
unfolding lookup
maybe_recycle_co-failed_example = maybe_recycle_co-failed sleepy 0 2 0 asleep

maybe_recycle_co-finished_example :
    let vs = (take_values sleepy 0 1 (cleanup_stale_pendings sleepy 0 asleep)).0 in
    let ru = maybe_recycle_co sleepy 0 lua_ok 1 asleep in
    Ended sleepy (some (promise 1)) (success vs) 0 asleep ru × (ru.unhandled_error ≡ none)
unfolding lookup
maybe_recycle_co-finished_example = maybe_recycle_co-finished sleepy 0 1 asleep

builtin_sleep-Wakes_example :
    Wakes sleepy no_provider 0 1
      (0 + pos_part (to_int32 (pos 5)))
      (builtin_sleep sleepy 0 (pos 5) fresh).1
builtin_sleep-Wakes_example = builtin_sleep-Wakes sleepy no_provider 0 (pos 5) fresh refl

run_timer-Sleeps_example :
    let ru = run_timer sleepy no_provider (sleep_job 1) asleep in
    (asleep.paused ≡ true → Sleeps 0 1 20 ru)
    × (asleep.paused ≡ false
        → ru
          ≡ do_resume sleepy 1 [] (record asleep {
            timers = record asleep.timers { active_timers = erase 1 asleep.timers.active_timers };
          }))
run_timer-Sleeps_example =
    run_timer-Sleeps sleepy no_provider 0 1 asleep (unfold lookup in refl) (unfold lookup in refl)
      (unfold has in refl)

-- Coroutine 0 is parked under handle 1, but its status is not LUA_YIELD; nothing is under handle 9.
do_resume-guards_example :
    (lookup 1 asleep.pending ≡ none → do_resume sleepy 1 [] asleep ≡ asleep)
    × ((co : ℕ)
        → lookup 1 asleep.pending ≡ some co
        → has_yielded lua_ok ≡ false
        → Refused sleepy co (not_suspended 1 lua_ok) asleep (do_resume sleepy 1 [] asleep))
do_resume-guards_example = do_resume-guards sleepy 1 [] asleep
