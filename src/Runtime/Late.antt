-- ===== src/Runtime/Late.antt =====
-- Completions that come too late and modules that end with parked entries: CheckResumable, DoResume
-- and ProcessRequireRun of src/lua/lua_runtime.cc.
use bernardx.Base.{
  ℕ, ◌≡◌, refl, ap, ◌∙◌, false, List, none, some, length, lookup, erase, has_value, if_both, Bytes,
}
use mathlib.Core.Path.{subst⁻¹}
use bernardx.Value.{LuaValue, Status, lua_ok, lua_yield, lua_error, ScriptErrorDetail}
use bernardx.Machine.{Lua, push_values}
use bernardx.Pool.{owns}
use bernardx.Pool.Ownership.{owns-release}
use bernardx.Runtime.{Runtime, schedule, record_unhandled_error, push_resume}
use bernardx.Runtime.Pending.{unpin_pending_co, release_coroutine, cleanup_stale_pendings}
use bernardx.Runtime.Resume.{
  take_values, module_values, cache_module_values, error_pair, do_resume, resume_direct,
  resume_found, resume_checked, refuse_resume, not_suspended,
}
use bernardx.Runtime.Tasks.{has_yielded, error_text, require_ended}
use bernardx.Runtime.Recycle.{cleaned_lem, unheard, record_unhandled_lem}

module _ {S : Type 0} where
  pending-push_resume :
      (h : ℕ) (vs : List LuaValue) (rt : Runtime S) → (push_resume h vs rt).pending ≡ rt.pending
  unfolding push_resume schedule
  pending-push_resume h vs rt =
      if_both (λ (ru : Runtime S). ru.pending ≡ rt.pending) rt.shutting_down refl refl

module _ {S : Type 0} (lua : Lua S) where
  -- What CheckResumable leaves of a runtime whose coroutine is not suspended.
  pub record Refused (co : ℕ) (d : ScriptErrorDetail) (rt ru : Runtime S) : Type 0 where
    pub no_pending : has_value co ru.pending ≡ false
    pub not_owned : owns co ru.pool ≡ false
    pub settled : ru.settled ≡ rt.settled
    pub completions : ru.completions ≡ rt.completions
    pub unhandled_error : ru.unhandled_error ≡ unheard none rt.unhandled_error d

  refuse_resume-Refused :
      (co h : ℕ) (st : Status) (rt : Runtime S)
      → Refused co (not_suspended h st) rt (refuse_resume lua co h st rt)
  unfolding refuse_resume release_coroutine
  refuse_resume-Refused co h st rt =
      let rt₁ = record_unhandled_error (not_suspended h st) rt in
      let q = record_unhandled_lem lua (not_suspended h st) rt.unhandled_error rt in
      let (p, c, t, u) = cleaned_lem lua co rt₁ in
      let ru = cleanup_stale_pendings lua co rt₁ in
      record {
        no_pending = p;
        not_owned = owns-release lua co ru.pool ru.state;
        settled = t ∙ ap (λ (x : Runtime S). x.settled) q;
        completions = c ∙ ap (λ (x : Runtime S). x.completions) q;
        unhandled_error = u ∙ ap (λ (x : Runtime S). x.unhandled_error) q;
      }

  resume_checked-Refused :
      (st : Status) (co h : ℕ) (prepare : S → ℕ × S) (rt : Runtime S)
      → has_yielded st ≡ false
      → Refused co (not_suspended h st) rt (resume_checked lua st co h prepare rt)
  unfolding resume_checked
  resume_checked-Refused lua_ok co h prepare rt e = refuse_resume-Refused co h lua_ok rt
  resume_checked-Refused lua_yield co h prepare rt e = cc
  resume_checked-Refused (lua_error c) co h prepare rt e =
      refuse_resume-Refused co h (lua_error c) rt

  -- A completion that comes too late. Under a handle that is not parked it changes nothing; if the
  -- coroutine is no longer suspended it is not resumed: it is forgotten and given back, its error is
  -- recorded unless an earlier one is, and no handler is told or removed.
  pub do_resume-guards :
      (h : ℕ) (args : List LuaValue) (rt : Runtime S)
      → (lookup h rt.pending ≡ none → do_resume lua h args rt ≡ rt)
        × ((co : ℕ)
            → lookup h rt.pending ≡ some co
            → has_yielded (lua.status co rt.state) ≡ false
            → Refused co (not_suspended h (lua.status co rt.state)) rt (do_resume lua h args rt))
  unfolding do_resume resume_direct resume_found unpin_pending_co
  do_resume-guards h args rt =
      let prepare : ℕ → S → ℕ × S = λ co s. (length args, push_values lua co args s) in
      (
        λ e. ap (λ o. resume_found lua o h prepare rt) e,
        λ co e y.
            let rt₁ = record rt { pins = erase h rt.pins; pending = erase h rt.pending } in
            let x = resume_checked-Refused (lua.status co rt.state) co h (prepare co) rt₁ y in
            subst⁻¹
              (λ o.
                Refused co (not_suspended h (lua.status co rt.state)) rt
                  (resume_found lua o h prepare rt))
              e
              (record {
                no_pending = x.no_pending;
                not_owned = x.not_owned;
                settled = x.settled;
                completions = x.completions;
                unhandled_error = x.unhandled_error;
              }),
      )

  -- The end of a module's coroutine in ProcessRequireRun: the coroutine is given back to the pool
  -- with its parked entries, if it has any, still there.
  pub require_ended-keeps :
      (st : Status) (n co h : ℕ) (name : Bytes) (rt : Runtime S)
      → has_yielded st ≡ false
      → let ru = require_ended lua st n co h name rt in
        (owns co ru.pool ≡ false) × (ru.pending ≡ rt.pending)
  unfolding require_ended release_coroutine take_values
  require_ended-keeps lua_ok n co h name rt e =
      let (vs, rt₁) = take_values lua co n rt in
      let ru =
        push_resume h (module_values vs)
          (record rt₁ { state = cache_module_values lua name (module_values vs) rt₁.state }) in
      (
        owns-release lua co ru.pool ru.state,
        pending-push_resume h (module_values vs)
            (record rt₁ { state = cache_module_values lua name (module_values vs) rt₁.state }),
      )
  require_ended-keeps lua_yield n co h name rt e = cc
  require_ended-keeps (lua_error c) n co h name rt e =
      let vs = error_pair (error_text (lua.error_object co rt.state)) in
      let ru = push_resume h vs (record rt { state = lua.pop co rt.state }) in
      (
        owns-release lua co ru.pool ru.state,
        pending-push_resume h vs (record rt { state = lua.pop co rt.state }),
      )
