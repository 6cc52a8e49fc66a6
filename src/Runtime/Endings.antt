-- ===== src/Runtime/Endings.antt =====
-- What the ends of all work leave behind: Interrupt's pass, Shutdown and CancelCall of
-- src/lua/lua_runtime.cc.
use bernardx.Base.{
  has, ℕ, ◌≡◌, refl, ap, ◌∙◌, true, false, List, [], ◌∷◌, ◌++◌, map, Option, none, some, lookup,
  erase, has_value, lookup-erase, if◌then◌else◌, if_not, ◌==◌, Bytes, codes,
}
use bernardx.Value.{Status, ScriptResult, lua_errrun}
use bernardx.Machine.{Lua, Handler}
use bernardx.Pool
use bernardx.Pool.{owns, empty, CoroutinePool}
use bernardx.Pool.Ownership.{owns-release, owns-release_all}
use bernardx.Timer
use bernardx.Timer.{TimerManager}
use bernardx.Runtime.{Runtime}
use bernardx.Runtime.Pending.{
  unpin_each, unpin_pending_co, clear_pending, cancel_all_timers, release_coroutine,
  cleanup_stale_pendings,
}
use bernardx.Runtime.Resume.{settle}
use bernardx.Runtime.Stop.{
  suspension_result, suspension_results, release_all_coroutines, interrupt_pass, settle_shutdown,
  free_slot, free_pin_table, shutdown, cancel_call,
}
use bernardx.Runtime.Frames.{unref_all_lem}
use bernardx.Runtime.Recycle.{cleaned_lem}
use bernardx.Runtime.Deliveries.{
  Delivered, Delivered-after, Delivered-nothing, settle_lem, settle_each_lem,
}

-- A delivery without its detail.
abbrev pub told : Handler × ScriptResult → Handler × Status × Bytes
told d = (d.0, d.1.status, d.1.error)

-- A handler that is told of an error with a message.
abbrev pub stopped_with : Bytes → ℕ × Handler → Handler × Status × Bytes
stopped_with message c = (c.1, lua_errrun, message)

module _ {S : Type 0} where
  -- Every handler that waited in `rt` has been told of one error, once and in the table's order, and
  -- nobody else has been told anything.
  abbrev pub HaveHeard : Bytes → Runtime S → Runtime S → Type 0
  HaveHeard message rt ru =
      (l : List (Handler × ScriptResult)) × (ru.settled ≡ rt.settled ++ l)
      × (map told l ≡ map (stopped_with message) rt.completions)

  unpin_each_lem :
      (m : List (ℕ × ℕ)) (rt : Runtime S)
      → unpin_each m rt ≡ record rt { pins = (unpin_each m rt).pins }
  unfolding unpin_each unpin_pending_co
  unpin_each_lem [] rt = refl
  unpin_each_lem ((h, co) ∷ m) rt = unpin_each_lem m (unpin_pending_co h rt)

  clear_pending_lem :
      (rt : Runtime S)
      → clear_pending rt ≡ record rt { pins = (clear_pending rt).pins; pending = [] }
  unfolding clear_pending
  clear_pending_lem rt =
      ap (λ (r : Runtime S). record r { pending = [] }) (unpin_each_lem rt.pending rt)

module _ {S : Type 0} (lua : Lua S) where
  cancel_all_timers_lem :
      (rt : Runtime S)
      → cancel_all_timers lua rt ≡ record rt {
        timers = (Timer.cancel_all rt.timers).1;
        state = (cancel_all_timers lua rt).state;
      }
  unfolding cancel_all_timers
  cancel_all_timers_lem rt =
      let (rs, tm) = Timer.cancel_all rt.timers in unref_all_lem lua rs (record rt { timers = tm })

  told_of_suspension :
      (message : Bytes) (m : List (ℕ × Handler)) (s : S)
      → map told (suspension_results lua message m s) ≡ map (stopped_with message) m
  unfolding suspension_results suspension_result
  told_of_suspension message [] s = refl
  told_of_suspension message ((co, k) ∷ m) s =
      ap (λ l. (k, lua_errrun, message) ∷ l) (told_of_suspension message m s)

  settle_shutdown_lem :
      (m : List (ℕ × Handler)) (rt : Runtime S)
      → (l : List (Handler × ScriptResult)) × Delivered l rt (settle_shutdown lua m rt)
        × (map told l ≡ map (stopped_with (codes "runtime shutdown")) m)
  unfolding settle_shutdown suspension_result
  settle_shutdown_lem [] rt = ([], Delivered-nothing rt, refl)
  settle_shutdown_lem ((co, k) ∷ m) rt =
      let r = suspension_result lua (codes "runtime shutdown") co rt.state in
      let (l, d, t) = settle_shutdown_lem m (settle lua k r rt) in
      (
        (k, r) ∷ l,
        Delivered-after (settle_lem lua k r rt) d,
        ap (λ x. (k, lua_errrun, codes "runtime shutdown") ∷ x) t,
      )

  -- The tables of parked and awaited work are empty, and nobody has a coroutine checked out.
  pub record IsIdle (rt : Runtime S) : Type 0 where
    pub no_pending : rt.pending ≡ []
    pub no_completions : rt.completions ≡ []
    pub no_timers : rt.timers.active_timers ≡ []
    pub no_owned : (co : ℕ) → owns co rt.pool ≡ false

  -- A runtime with its tables cleared, as Interrupt's pass has it when it starts to settle.
  cleared : Runtime S → Runtime S
  cleared rt = cancel_all_timers lua (clear_pending (record rt { completions = [] }))

  cleared_lem :
      (rt : Runtime S)
      → ((cleared rt).settled ≡ rt.settled)
        × ((cleared rt).pending ≡ [])
        × ((cleared rt).completions ≡ [])
        × ((cleared rt).timers.active_timers ≡ [])
  unfolding cleared Timer.cancel_all
  cleared_lem rt =
      let rt₁ = record rt { completions = [] } in
      let p = clear_pending_lem rt₁ in
      let q = cancel_all_timers_lem (clear_pending rt₁) in
      (
        ap (λ (r : Runtime S). r.settled) q ∙ ap (λ (r : Runtime S). r.settled) p,
        ap (λ (r : Runtime S). r.pending) q ∙ ap (λ (r : Runtime S). r.pending) p,
        ap (λ (r : Runtime S). r.completions) q ∙ ap (λ (r : Runtime S). r.completions) p,
        ap (λ (r : Runtime S). r.timers.active_timers) q,
      )

  -- Interrupt's pass over a runtime that is not shutting down settles every handler that awaited a
  -- coroutine, exactly once and in the order of the table, with LUA_ERRRUN and "interrupted", and
  -- leaves no parked coroutine, no handler, no timer and no coroutine checked out.
  pub interrupt_pass-settles :
      (rt : Runtime S)
      → rt.shutting_down ≡ false
      → let ru = interrupt_pass lua rt in HaveHeard (codes "interrupted") rt ru × IsIdle ru
  unfolding interrupt_pass release_all_coroutines cleared
  interrupt_pass-settles rt e =
      let (t, p, c, tm) = cleared_lem rt in
      let rt₂ = cleared rt in
      let l = suspension_results lua (codes "interrupted") rt.completions rt₂.state in
      let d = settle_each_lem lua l (release_all_coroutines lua rt₂) in
      if_not (λ ru. HaveHeard (codes "interrupted") rt ru × IsIdle ru) rt.shutting_down rt _ e
        (
          (
            l,
            d.settled ∙ ap (λ o. o ++ l) t,
            told_of_suspension (codes "interrupted") rt.completions rt₂.state,
          ),
          record {
            no_pending = d.pending ∙ p;
            no_completions = d.completions ∙ c;
            no_timers = ap (λ (x : TimerManager). x.active_timers) d.timers ∙ tm;
            no_owned = λ co. ap (owns co) d.pool ∙ owns-release_all lua co rt₂.pool rt₂.state;
          },
        )

  free_slot_lem :
      (r : Option ℕ) (rt : Runtime S)
      → free_slot lua r rt ≡ record rt {
        pins = (free_slot lua r rt).pins;
        pin_table = (free_slot lua r rt).pin_table;
        state = (free_slot lua r rt).state;
      }
  unfolding free_slot
  free_slot_lem none rt = refl
  free_slot_lem (some r) rt = refl

  -- Shutdown's state when it starts to settle.
  closing : Runtime S → Runtime S
  closing rt =
      let rt₁ =
        free_pin_table lua (clear_pending (record rt { shutting_down = true; completions = [] })) in
      record rt₁ { state = lua.close_libraries rt₁.state }

  closing_lem :
      (rt : Runtime S)
      → ((closing rt).settled ≡ rt.settled)
        × ((closing rt).pending ≡ [])
        × ((closing rt).completions ≡ [])
  unfolding closing free_pin_table
  closing_lem rt =
      let rt₁ = record rt { shutting_down = true; completions = [] } in
      let p = clear_pending_lem rt₁ in
      let q = free_slot_lem (clear_pending rt₁).pin_table (clear_pending rt₁) in
      (
        ap (λ (r : Runtime S). r.settled) q ∙ ap (λ (r : Runtime S). r.settled) p,
        ap (λ (r : Runtime S). r.pending) q ∙ ap (λ (r : Runtime S). r.pending) p,
        ap (λ (r : Runtime S). r.completions) q ∙ ap (λ (r : Runtime S). r.completions) p,
      )

  -- Shutdown of a runtime that is not shutting down settles every handler that awaited a coroutine,
  -- exactly once and in the order of the table, with LUA_ERRRUN and "runtime shutdown", and leaves no
  -- parked coroutine, no handler, no timer and an empty pool.
  pub shutdown-settles :
      (rt : Runtime S)
      → rt.shutting_down ≡ false
      → let ru = shutdown lua rt in
        HaveHeard (codes "runtime shutdown") rt ru × IsIdle ru × (ru.pool ≡ empty)
  unfolding shutdown closing Pool.shutdown Timer.cancel_all owns has
  shutdown-settles rt e =
      let (t, p, c) = closing_lem rt in
      let (l, d, v) = settle_shutdown_lem rt.completions (closing rt) in
      let q = cancel_all_timers_lem (settle_shutdown lua rt.completions (closing rt)) in
      if_not (λ ru. HaveHeard (codes "runtime shutdown") rt ru × IsIdle ru × (ru.pool ≡ empty))
        rt.shutting_down rt _ e
        (
          (l, ap (λ (r : Runtime S). r.settled) q ∙ (d.settled ∙ ap (λ o. o ++ l) t), v),
          record {
            no_pending = ap (λ (r : Runtime S). r.pending) q ∙ (d.pending ∙ p);
            no_completions = ap (λ (r : Runtime S). r.completions) q ∙ (d.completions ∙ c);
            no_timers = ap (λ (r : Runtime S). r.timers.active_timers) q;
            no_owned = λ co. refl;
          },
          refl,
        )

  -- CancelCall of a coroutine, whatever it waits for: it is forgotten, given back to the pool and
  -- nobody is told, and no other coroutine's handler is touched.
  pub cancel_call-forgets :
      (co : ℕ) (rt : Runtime S)
      → let ru = cancel_call lua co rt in
        (has_value co ru.pending ≡ false)
        × (owns co ru.pool ≡ false)
        × (ru.settled ≡ rt.settled)
        × ((c : ℕ) → lookup c ru.completions ≡ (if co == c then none else lookup c rt.completions))
  unfolding cancel_call release_coroutine
  cancel_call-forgets co rt =
      let rt₁ = record rt { completions = erase co rt.completions } in
      let (p, c, t, u) = cleaned_lem lua co rt₁ in
      let ru = cleanup_stale_pendings lua co rt₁ in
      (
        p,
        owns-release lua co ru.pool ru.state,
        t,
        λ k. ap (lookup k) c ∙ lookup-erase co k rt.completions,
      )
