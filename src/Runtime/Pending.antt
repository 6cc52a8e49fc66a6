-- ===== src/Runtime/Pending.antt =====
-- Parked coroutines: PreYield, PinPendingCo, UnpinPendingCo, CleanupStalePendings, and the pool and
-- the timers as the runtime calls them (src/lua/lua_runtime.cc, src/lua/lua_runtime.h).
use bernardx.Base.{ℕ, ℤ, List, [], ◌∷◌, Option, none, some, insert, erase, if◌then◌else◌, ◌==◌}
use bernardx.Machine.{Lua}
use bernardx.Timer
use bernardx.Timer.{TimerManager}
use bernardx.Pool
use bernardx.Pool.{CoroutinePool}
use bernardx.Runtime.{Runtime, schedule, timer_job}

module _ {S : Type 0} where
  -- PinPendingCo, UnpinPendingCo
  unfoldable pub pin_pending_co : ℕ → ℕ → Runtime S → Runtime S
  pin_pending_co h co rt = record rt { pins = insert h co rt.pins }

  unfoldable pub unpin_pending_co : ℕ → Runtime S → Runtime S
  unpin_pending_co h rt = record rt { pins = erase h rt.pins }

  -- PreYield
  unfoldable pub pre_yield : ℕ → Runtime S → ℕ × Runtime S
  unfolding pin_pending_co
  pre_yield co rt =
      let (h, tm) = Timer.next_handle rt.timers in
      let rt' = pin_pending_co h co (record rt { timers = tm }) in
      (h, record rt' { pending = insert h co rt'.pending })

  -- AddSleepTimer, AddTimeoutTimer: the closure goes to the executor.
  unfoldable pub add_sleep_timer : ℤ → ℕ → Runtime S → Runtime S
  unfolding schedule
  add_sleep_timer deadline h rt =
      let (tm, d, j) = Timer.add_sleep_timer deadline rt.clock h rt.timers in
      schedule d (timer_job j) (record rt { timers = tm })

  unfoldable pub add_timeout_timer : ℤ → ℕ → Runtime S → ℕ × Runtime S
  unfolding schedule
  add_timeout_timer deadline f rt =
      let (h, tm, d, j) = Timer.add_timeout_timer deadline rt.clock f rt.timers in
      (h, schedule d (timer_job j) (record rt { timers = tm }))

  -- The loop of Interrupt and Shutdown that unpins every entry, and pending_.clear().
  unfoldable pub unpin_each : List (ℕ × ℕ) → Runtime S → Runtime S
  unfolding unpin_pending_co
  unpin_each [] rt = rt
  unpin_each ((h, co) ∷ m) rt = unpin_each m (unpin_pending_co h rt)

  unfoldable pub clear_pending : Runtime S → Runtime S
  unfolding unpin_each
  clear_pending rt = let rt' = unpin_each rt.pending rt in record rt' { pending = [] }

abbrev pub option_list : Option ℕ → List ℕ
option_list none = []
option_list (some r) = r ∷ []

-- The handles of a coroutine's entries, in the order of iteration.
unfoldable pub handles_of : ℕ → List (ℕ × ℕ) → List ℕ
handles_of co [] = []
handles_of co ((h, c) ∷ m) = let rest = handles_of co m in if c == co then h ∷ rest else rest

module _ {S : Type 0} (lua : Lua S) where
  -- AcquireCoroutine, ReleaseCoroutine
  unfoldable pub acquire_coroutine : Runtime S → ℕ × Runtime S
  acquire_coroutine rt =
      let (co, p, s) = Pool.acquire lua rt.pool rt.state in (co, record rt { pool = p; state = s })

  unfoldable pub release_coroutine : ℕ → Runtime S → Runtime S
  release_coroutine co rt =
      let (p, s) = Pool.release lua co rt.pool rt.state in record rt { pool = p; state = s }

  -- luaL_unref of some slots; on_cancelled_ of the Builder's TimerManager is the case of one.
  unfoldable pub unref_all : List ℕ → Runtime S → Runtime S
  unref_all [] rt = rt
  unref_all (r ∷ rs) rt = unref_all rs (record rt { state = lua.unref r rt.state })

  -- CancelTimer
  unfoldable pub cancel_timer : ℕ → Runtime S → Runtime S
  unfolding unref_all
  cancel_timer h rt =
      let (r, tm) = Timer.cancel_timer h rt.timers in
      unref_all (option_list r) (record rt { timers = tm })

  -- TimerManager::CancelAll
  unfoldable pub cancel_all_timers : Runtime S → Runtime S
  unfolding unref_all
  cancel_all_timers rt =
      let (rs, tm) = Timer.cancel_all rt.timers in unref_all rs (record rt { timers = tm })

  -- The loop of CleanupStalePendings and of CancelCall over those handles: the timer, the pin and
  -- the entry go.
  unfoldable pub drop_pendings : List ℕ → Runtime S → Runtime S
  unfolding cancel_timer unpin_pending_co
  drop_pendings [] rt = rt
  drop_pendings (h ∷ hs) rt =
      let rt' = unpin_pending_co h (cancel_timer h rt) in
      drop_pendings hs (record rt' { pending = erase h rt'.pending })

  -- CleanupStalePendings
  unfoldable pub cleanup_stale_pendings : ℕ → Runtime S → Runtime S
  unfolding drop_pendings handles_of
  cleanup_stale_pendings co rt = drop_pendings (handles_of co rt.pending) rt
