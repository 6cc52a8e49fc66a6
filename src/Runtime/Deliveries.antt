-- ===== src/Runtime/Deliveries.antt =====
-- What the delivery of results does to a runtime: the handlers of src/lua/lua_runtime.cc.
use bernardx.Base.{ℕ, ◌≡◌, refl, sym, ap, ◌∙◌, List, [], ◌∷◌, ◌++◌, if_both, Bytes}
use bernardx.Value.{LuaValue, Status, lua_ok, lua_yield, lua_error, ScriptResult}
use mathlib.Core.List.{append-nil}
use bernardx.Machine.{Lua, Handler, promise, detached, callback, require_callback}
use bernardx.Runtime.{Runtime, deliver, push_resume, schedule}
use bernardx.Runtime.Resume.{settle, finish_require, module_values, cache_module_values}
use mathlib.Core.List.{append_assoc}
use bernardx.Runtime.Stop.{settle_each}

-- A runtime after the delivery of some results: whatever else a handler does is to schedule a
-- resumption and to write package.loaded.
pub record Delivered {S : Type 0} (l : List (Handler × ScriptResult)) (rt ru : Runtime S)
    : Type 0 where
  pub settled : ru.settled ≡ rt.settled ++ l
  pub pending : ru.pending ≡ rt.pending
  pub completions : ru.completions ≡ rt.completions
  pub pool : ru.pool ≡ rt.pool
  pub timers : ru.timers ≡ rt.timers
  pub unhandled_error : ru.unhandled_error ≡ rt.unhandled_error

module _ {S : Type 0} (lua : Lua S) where
  -- One of the two cases of PushResume.
  push_resume_lem :
      {l : List (Handler × ScriptResult)} (h : ℕ) (vs : List LuaValue) (rt ru : Runtime S)
      → Delivered l rt ru
      → Delivered l rt (push_resume h vs ru)
  unfolding push_resume schedule
  push_resume_lem {l} h vs rt ru d = if_both (Delivered l rt) ru.shutting_down d (record {
    settled = d.settled;
    pending = d.pending;
    completions = d.completions;
    pool = d.pool;
    timers = d.timers;
    unhandled_error = d.unhandled_error;
  })

  finish_require_lem :
      (l : List (Handler × ScriptResult)) (h : ℕ) (name : Bytes) (st : Status) (r : ScriptResult)
      (rt ru : Runtime S)
      → Delivered l rt ru
      → Delivered l rt (finish_require lua h name st r ru)
  unfolding finish_require
  finish_require_lem l h name lua_ok r rt ru d =
      let vs = module_values r.values in
      push_resume_lem h vs rt (record ru { state = cache_module_values lua name vs ru.state })
        (record {
          settled = d.settled;
          pending = d.pending;
          completions = d.completions;
          pool = d.pool;
          timers = d.timers;
          unhandled_error = d.unhandled_error;
        })
  finish_require_lem l h name lua_yield r rt ru d = push_resume_lem h _ rt ru d
  finish_require_lem l h name (lua_error c) r rt ru d = push_resume_lem h _ rt ru d

  delivered_lem :
      (k : Handler) (r : ScriptResult) (rt : Runtime S)
      → Delivered ((k, r) ∷ []) rt (deliver k r rt)
  unfolding deliver
  delivered_lem k r rt = record {
    settled = refl;
    pending = refl;
    completions = refl;
    pool = refl;
    timers = refl;
    unhandled_error = refl;
  }

  pub settle_lem :
      (k : Handler) (r : ScriptResult) (rt : Runtime S)
      → Delivered ((k, r) ∷ []) rt (settle lua k r rt)
  unfolding settle
  settle_lem (promise p) r rt = delivered_lem (promise p) r rt
  settle_lem detached r rt = delivered_lem detached r rt
  settle_lem (callback p) r rt = delivered_lem (callback p) r rt
  settle_lem (require_callback h name) r rt =
      finish_require_lem ((require_callback h name, r) ∷ []) h name r.status r rt _
        (delivered_lem (require_callback h name) r rt)

module _ {S : Type 0} where
  pub Delivered-after :
      {l l' : List (Handler × ScriptResult)} {rt ru rv : Runtime S}
      → Delivered l rt ru
      → Delivered l' ru rv
      → Delivered (l ++ l') rt rv
  Delivered-after {l} {l'} {rt} d e = record {
    settled = e.settled ∙ (ap (λ o. o ++ l') d.settled ∙ append_assoc rt.settled l l');
    pending = e.pending ∙ d.pending;
    completions = e.completions ∙ d.completions;
    pool = e.pool ∙ d.pool;
    timers = e.timers ∙ d.timers;
    unhandled_error = e.unhandled_error ∙ d.unhandled_error;
  }

  pub Delivered-nothing : (rt : Runtime S) → Delivered [] rt rt
  Delivered-nothing rt = record {
    settled = sym (append-nil rt.settled);
    pending = refl;
    completions = refl;
    pool = refl;
    timers = refl;
    unhandled_error = refl;
  }

module _ {S : Type 0} (lua : Lua S) where
  pub settle_each_lem :
      (l : List (Handler × ScriptResult)) (rt : Runtime S) → Delivered l rt (settle_each lua l rt)
  unfolding settle_each
  settle_each_lem [] rt = Delivered-nothing rt
  settle_each_lem ((k, r) ∷ l) rt =
      Delivered-after (settle_lem lua k r rt) (settle_each_lem l (settle lua k r rt))
