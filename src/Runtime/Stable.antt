-- ===== src/Runtime/Stable.antt =====
-- What every operation of the runtime keeps. A predicate that survives each elementary change of
-- the state survives every operation, every script, and every history; so an invariant is proved
-- by the changes alone.
pub mod Submit
pub mod Builtins
pub mod Resume
pub mod Tasks
pub mod Steps
use bernardx.Base.{
  ℕ, ◌≡◌, refl, Bool, true, false, List, [], ◌∷◌, ◌++◌, Option, none, some, Bytes, insert, erase,
  if◌then◌else◌, Bool-cases, Option-cases, inl, inr,
}
use bernardx.Value.{LuaValue, ScriptErrorDetail, ScriptResult}
use bernardx.Machine.{Lua, Handler}
use bernardx.Timer.{TimerManager}
use bernardx.Pool.{CoroutinePool}
use bernardx.Runtime.{Runtime, Job}
use bernardx.Runtime.Pending.{clear_pending}

pub record Stable {S : Type 0} (P : Runtime S → Type 0) : Type 0 where
  pub on_state : (rt : Runtime S) (s : S) → P rt → P (record rt { state = s })
  pub on_timers : (rt : Runtime S) (tm : TimerManager) → P rt → P (record rt { timers = tm })
  pub on_pool : (rt : Runtime S) (p : CoroutinePool) → P rt → P (record rt { pool = p })
  pub on_completions :
      (rt : Runtime S) (m : List (ℕ × Handler)) → P rt → P (record rt { completions = m })
  pub on_done : (rt : Runtime S) (hs : List ℕ) → P rt → P (record rt { done_awaits = hs })
  pub on_error :
      (rt : Runtime S) (e : Option ScriptErrorDetail) → P rt → P (record rt { unhandled_error = e })
  pub on_shutdown : (rt : Runtime S) → P rt → P (record rt { shutting_down = true })
  pub on_interrupted : (rt : Runtime S) (b : Bool) → P rt → P (record rt { interrupted = b })
  pub on_paused : (rt : Runtime S) (b : Bool) → P rt → P (record rt { paused = b })
  pub on_queue : (rt : Runtime S) (q : List (ℕ × Job S)) → P rt → P (record rt { queue = q })
  pub on_clock : (rt : Runtime S) (t : ℕ) → P rt → P (record rt { clock = t })
  pub on_deliver :
      (rt : Runtime S) (k : Handler) (r : ScriptResult)
      → P rt
      → P (record rt { settled = rt.settled ++ ((k, r) ∷ []) })
  pub on_park :
      (rt : Runtime S) (h co : ℕ)
      → P rt
      → P (record rt { pins = insert h co rt.pins; pending = insert h co rt.pending })
  pub on_unpark :
      (rt : Runtime S) (h : ℕ)
      → P rt
      → P (record rt { pins = erase h rt.pins; pending = erase h rt.pending })
  pub on_clear : (rt : Runtime S) → P rt → P (clear_pending rt)
  pub on_free :
      (rt : Runtime S) → rt.pending ≡ [] → P rt → P (record rt { pins = []; pin_table = none })
