-- ===== src/Timer.antt =====
-- src/lua/timer_manager.cc. A callback of the manager (on_sleep_, on_timeout_, on_cancelled_) and
-- each luaL_unref is a result of the operation that makes the call; a scheduled closure is a `Job`,
-- with the delay that it is scheduled with. The clock is an argument.
pub mod Table
pub mod Refs
use bernardx.Base.{
  ℕ, suc, ◌+◌, ◌%◌, ◌^◌, ℤ, pos, pos_part, ◌-ℤ◌, Bool, List, [], ◌∷◌, Option, none, some, lookup,
  has, insert, erase, if◌then◌else◌,
}

pub data TimerType : Type 0 where
  k_sleep k_set_timeout : TimerType

-- `none` is LUA_NOREF.
pub record ActiveTimer : Type 0 where
  pub kind : TimerType
  pub fn_ref : Option ℕ

pub record TimerManager : Type 0 where
  pub handle_counter : ℕ
  pub active_timers : List (ℕ × ActiveTimer)

-- next_handle_{1}
abbrev pub empty : TimerManager
empty = record { handle_counter = 1; active_timers = [] }

pub data Job : Type 0 where
  sleep_job : ℕ → Job
  timeout_job : ℕ → ℕ → Job

pub data Callback : Type 0 where
  on_sleep : ℕ → Callback
  on_timeout : ℕ → Callback

-- max(0, deadline_ms - NowMs())
unfoldable pub delay : ℤ → ℕ → ℕ
unfolding ◌-ℤ◌
delay deadline now = pos_part (deadline -ℤ pos now)

-- NextHandle: a 64-bit counter.
unfoldable pub next_handle : TimerManager → ℕ × TimerManager
next_handle tm =
    (tm.handle_counter, record tm { handle_counter = (tm.handle_counter + 1) % 2 ^ 64 })

unfoldable pub add_sleep_timer : ℤ → ℕ → ℕ → TimerManager → TimerManager × ℕ × Job
unfolding delay
add_sleep_timer deadline now handle tm =
    let timer : ActiveTimer = record { kind = k_sleep; fn_ref = none } in
    (
      record tm { active_timers = insert handle timer tm.active_timers },
      delay deadline now,
      sleep_job handle,
    )

unfoldable pub add_timeout_timer : ℤ → ℕ → ℕ → TimerManager → ℕ × TimerManager × ℕ × Job
unfolding delay next_handle
add_timeout_timer deadline now fn_ref tm =
    let (handle, tm') = next_handle tm in
    let timer : ActiveTimer = record { kind = k_set_timeout; fn_ref = some fn_ref } in
    (
      handle,
      record tm' { active_timers = insert handle timer tm'.active_timers },
      delay deadline now,
      timeout_job handle fn_ref,
    )

-- The closures that AddSleepTimer and AddTimeoutTimer schedule.
unfoldable pub fire : Job → TimerManager → Option Callback × TimerManager
fire (sleep_job handle) tm =
    if has handle tm.active_timers
    then (some (on_sleep handle), record tm { active_timers = erase handle tm.active_timers })
    else (none, tm)
fire (timeout_job handle fn_ref) tm =
    if has handle tm.active_timers
    then (some (on_timeout fn_ref), record tm { active_timers = erase handle tm.active_timers })
    else (none, tm)

-- The reference handed to on_cancelled_, if any.
unfoldable pub cancel_found : Option ActiveTimer → ℕ → TimerManager → Option ℕ × TimerManager
cancel_found none handle tm = (none, tm)
cancel_found (some t) handle tm =
    (t.fn_ref, record tm { active_timers = erase handle tm.active_timers })

unfoldable pub cancel_timer : ℕ → TimerManager → Option ℕ × TimerManager
unfolding cancel_found
cancel_timer handle tm = cancel_found (lookup handle tm.active_timers) handle tm

abbrev pub cons_some : Option ℕ → List ℕ → List ℕ
cons_some none rs = rs
cons_some (some r) rs = r ∷ rs

-- The callback references of a table of timers.
unfoldable pub fn_refs : List (ℕ × ActiveTimer) → List ℕ
fn_refs [] = []
fn_refs ((h, t) ∷ m) = cons_some t.fn_ref (fn_refs m)

-- CancelAll, with the references that it passes to luaL_unref.
unfoldable pub cancel_all : TimerManager → List ℕ × TimerManager
unfolding fn_refs
cancel_all tm = (fn_refs tm.active_timers, record tm { active_timers = [] })
