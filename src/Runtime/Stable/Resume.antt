-- ===== src/Runtime/Stable/Resume.antt =====
-- Settling, resuming and recycling keep a stable predicate.
use bernardx.Base.{ℕ, List, Option, none, some, Bytes, erase, lookup, length}
use bernardx.Value.{LuaValue, Status, lua_ok, lua_yield, lua_error, ScriptErrorDetail, ScriptResult}
use bernardx.Machine.{Lua, Handler, promise, detached, callback, require_callback, push_values}
use bernardx.Runtime.{Runtime}
use bernardx.Runtime.Pending.{cleanup_stale_pendings, unpin_pending_co}
use bernardx.Runtime.Drive.{resume_run}
use bernardx.Runtime.Resume.{
  module_values, failure, success, finish_require, settle, take_error, take_values, settle_found,
  fail_found, recycle_failed, recycle_finished, maybe_recycle_co, not_suspended, refuse_resume,
  resume_checked, resume_found, resume_direct, do_resume,
}
use bernardx.Runtime.Stable.{Stable}
use bernardx.Runtime.Stable.Submit.{
  deliver-stable, push_resume-stable, record_unhandled_error-stable, release_coroutine-stable,
  cleanup_stale_pendings-stable,
}
use bernardx.Runtime.Stable.Builtins.{resume_run-stable}

module _ {S : Type 0} (lua : Lua S) {P : Runtime S → Type 0} (stable : Stable P) where
  finish_require-stable :
      (n : ℕ) (name : Bytes) (st : Status) (r : ScriptResult) (rt : Runtime S)
      → P rt
      → P (finish_require lua n name st r rt)
  unfolding finish_require
  finish_require-stable n name lua_ok r rt h =
      push_resume-stable stable n (module_values r.values) _ (stable.on_state rt _ h)
  finish_require-stable n name _ r rt h = push_resume-stable stable n _ rt h

  pub settle-stable :
      (k : Handler) (r : ScriptResult) (rt : Runtime S) → P rt → P (settle lua k r rt)
  unfolding settle
  settle-stable (require_callback n name) r rt h =
      finish_require-stable n name r.status r _ (deliver-stable stable _ r rt h)
  settle-stable (promise n) r rt h = deliver-stable stable _ r rt h
  settle-stable detached r rt h = deliver-stable stable _ r rt h
  settle-stable (callback n) r rt h = deliver-stable stable _ r rt h

  settle_found-stable :
      (o : Option Handler) (co : ℕ) (r : ScriptResult) (rt : Runtime S)
      → P rt
      → P (settle_found lua o co r rt)
  unfolding settle_found
  settle_found-stable none co r rt h = release_coroutine-stable lua stable co rt h
  settle_found-stable (some k) co r rt h = settle-stable k r _ (
      release_coroutine-stable lua stable co _
        (stable.on_completions rt (erase co rt.completions) h))

  fail_found-stable :
      (o : Option Handler) (co : ℕ) (st : Status) (d : ScriptErrorDetail) (rt : Runtime S)
      → P rt
      → P (fail_found lua o co st d rt)
  unfolding fail_found
  fail_found-stable none co st d rt h =
      record_unhandled_error-stable stable d _ (release_coroutine-stable lua stable co rt h)
  fail_found-stable (some k) co st d rt h = settle_found-stable (some k) co (failure st d) rt h

  recycle_failed-stable :
      (co : ℕ) (st : Status) (rt : Runtime S) → P rt → P (recycle_failed lua co st rt)
  unfolding recycle_failed take_error
  recycle_failed-stable co st rt h =
      let (d, rt₁) = take_error lua co rt in
      let rt₂ = cleanup_stale_pendings lua co rt₁ in
      fail_found-stable (lookup co rt₂.completions) co st d rt₂
        (cleanup_stale_pendings-stable lua stable co rt₁ (stable.on_state rt _ h))

  recycle_finished-stable : (co n : ℕ) (rt : Runtime S) → P rt → P (recycle_finished lua co n rt)
  unfolding recycle_finished take_values
  recycle_finished-stable co n rt h =
      let (vs, rt₁) = take_values lua co n (cleanup_stale_pendings lua co rt) in
      settle_found-stable (lookup co rt₁.completions) co (success vs) rt₁
        (stable.on_state _ _ (cleanup_stale_pendings-stable lua stable co rt h))

  pub maybe_recycle_co-stable :
      (co : ℕ) (st : Status) (n : ℕ) (rt : Runtime S) → P rt → P (maybe_recycle_co lua co st n rt)
  unfolding maybe_recycle_co
  maybe_recycle_co-stable co (lua_error c) n rt h = recycle_failed-stable co (lua_error c) rt h
  maybe_recycle_co-stable co lua_ok n rt h = recycle_finished-stable co n rt h
  maybe_recycle_co-stable co lua_yield n rt h = h

  refuse_resume-stable :
      (co n : ℕ) (st : Status) (rt : Runtime S) → P rt → P (refuse_resume lua co n st rt)
  unfolding refuse_resume
  refuse_resume-stable co n st rt h = release_coroutine-stable lua stable co _ (
      cleanup_stale_pendings-stable lua stable co _
        (record_unhandled_error-stable stable (not_suspended n st) rt h))

  resume_checked-stable :
      (st : Status) (co n : ℕ) (f : S → ℕ × S) (rt : Runtime S)
      → P rt
      → P (resume_checked lua st co n f rt)
  unfolding resume_checked
  resume_checked-stable lua_yield co n f rt h =
      let (nargs, s) = f rt.state in
      let (st, m, rt') = resume_run lua co nargs (record rt { state = s }) in
      maybe_recycle_co-stable co st m rt'
        (resume_run-stable lua stable co nargs _ (stable.on_state rt s h))
  resume_checked-stable lua_ok co n f rt h = refuse_resume-stable co n lua_ok rt h
  resume_checked-stable (lua_error c) co n f rt h = refuse_resume-stable co n (lua_error c) rt h

  resume_found-stable :
      (o : Option ℕ) (n : ℕ) (f : ℕ → S → ℕ × S) (rt : Runtime S)
      → P rt
      → P (resume_found lua o n f rt)
  unfolding resume_found unpin_pending_co
  resume_found-stable none n f rt h = h
  resume_found-stable (some co) n f rt h =
      resume_checked-stable (lua.status co rt.state) co n (f co) _ (stable.on_unpark rt n h)

  pub resume_direct-stable :
      (n : ℕ) (f : ℕ → S → ℕ × S) (rt : Runtime S) → P rt → P (resume_direct lua n f rt)
  unfolding resume_direct
  resume_direct-stable n f rt h = resume_found-stable (lookup n rt.pending) n f rt h

  pub do_resume-stable :
      (n : ℕ) (args : List LuaValue) (rt : Runtime S) → P rt → P (do_resume lua n args rt)
  unfolding do_resume
  do_resume-stable n args rt h =
      resume_direct-stable n (λ co s. (length args, push_values lua co args s)) rt h
