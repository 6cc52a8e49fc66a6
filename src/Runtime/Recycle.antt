-- ===== src/Runtime/Recycle.antt =====
-- What the end of a coroutine does to the runtime: MaybeRecycleCo of src/lua/lua_runtime.cc.
use bernardx.Base.{
  ℕ, ◌≡◌, refl, sym, ap, ◌∙◌, false, List, [], ◌∷◌, ◌++◌, Option, none, some, lookup, erase,
  has_value, lookup-erase, arith,
}
use bernardx.Value.{
  Status, lua_ok, lua_error, ScriptErrorDetail, ScriptResult, capture_error_detail,
}
use mathlib.Core.List.{append-nil}
use bernardx.Pool.{owns}
use bernardx.Pool.Ownership.{owns-release}
use bernardx.Machine.{peek_values, Lua, Handler}
use bernardx.Runtime.{Runtime, record_unhandled_error}
use bernardx.Runtime.Pending.{cleanup_stale_pendings, release_coroutine, handles_of}
use bernardx.Runtime.Resume.{
  settle_found, fail_found, recycle_failed, recycle_finished, maybe_recycle_co, take_error,
  take_values, failure, success,
}
use bernardx.Runtime.Frames.{drop_pendings_lem, erase_all-Listed, handles_of-Listed}
use bernardx.Runtime.Deliveries.{settle_lem}

-- What a coroutine's handler, if it has one, receives.
abbrev pub heard : Option Handler → ScriptResult → List (Handler × ScriptResult)
heard none r = []
heard (some k) r = (k, r) ∷ []

-- The unhandled error after another one: only a coroutine without a handler leaves one, and an
-- earlier one stays.
abbrev pub unheard :
    Option Handler → Option ScriptErrorDetail → ScriptErrorDetail → Option ScriptErrorDetail
unheard (some k) e d = e
unheard none (some e) d = some e
unheard none none d = some d

module _ {S : Type 0} (lua : Lua S) where
  -- A coroutine has ended: the handler that was `k` has heard of it, and nothing else has.
  pub record Ended (k : Option Handler) (r : ScriptResult) (co : ℕ) (rt ru : Runtime S)
      : Type 0 where
    pub settled : ru.settled ≡ rt.settled ++ heard k r
    pub no_pending : has_value co ru.pending ≡ false
    pub no_handler : lookup co ru.completions ≡ none
    pub not_owned : owns co ru.pool ≡ false

  Ended-from :
      {k k' : Option Handler} {r : ScriptResult} {co : ℕ} {rt rt' ru : Runtime S}
      → k ≡ k'
      → rt.settled ≡ rt'.settled
      → Ended k r co rt ru
      → Ended k' r co rt' ru
  Ended-from {k} {r = r} {rt' = rt'} e t x = record {
    settled = x.settled ∙ (ap (λ o. o ++ heard k r) t ∙ ap (λ o. rt'.settled ++ heard o r) e);
    no_pending = x.no_pending;
    no_handler = x.no_handler;
    not_owned = x.not_owned;
  }

  settle_found_lem :
      (k : Option Handler) (co : ℕ) (r : ScriptResult) (rt : Runtime S)
      → lookup co rt.completions ≡ k
      → has_value co rt.pending ≡ false
      → Ended k r co rt (settle_found lua k co r rt)
        × ((settle_found lua k co r rt).unhandled_error ≡ rt.unhandled_error)
  unfolding settle_found release_coroutine
  settle_found_lem none co r rt e p = (
    record {
      settled = sym (append-nil rt.settled);
      no_pending = p;
      no_handler = e;
      not_owned = owns-release lua co rt.pool rt.state;
    },
    refl,
  )
  settle_found_lem (some k) co r rt e p =
      let rt' = release_coroutine lua co (record rt { completions = erase co rt.completions }) in
      let d = settle_lem lua k r rt' in
      (
        record {
          settled = d.settled;
          no_pending = rw d.pending p;
          no_handler = rw d.completions (ground (arith, lookup-erase co co rt.completions));
          not_owned = rw d.pool (owns-release lua co rt.pool rt.state);
        },
        d.unhandled_error,
      )

  -- What stays of a runtime when stale entries are cleaned.
  pub cleaned_lem :
      (co : ℕ) (rt : Runtime S)
      → let ru = cleanup_stale_pendings lua co rt in
        (has_value co ru.pending ≡ false)
        × (ru.completions ≡ rt.completions)
        × (ru.settled ≡ rt.settled)
        × (ru.unhandled_error ≡ rt.unhandled_error)
  unfolding cleanup_stale_pendings
  cleaned_lem co rt =
      let hs = handles_of co rt.pending in
      let (s, tm, q) = drop_pendings_lem lua hs rt in
      rw q (erase_all-Listed co hs rt.pending (handles_of-Listed co rt.pending), refl, refl, refl)

  pub record_unhandled_lem :
      (d : ScriptErrorDetail) (e : Option ScriptErrorDetail) (rt : Runtime S)
      → record_unhandled_error d (record rt { unhandled_error = e })
        ≡ record rt { unhandled_error = unheard none e d }
  unfolding record_unhandled_error
  record_unhandled_lem d none rt = refl
  record_unhandled_lem d (some x) rt = refl

  fail_found_lem :
      (k : Option Handler) (co : ℕ) (st : Status) (d : ScriptErrorDetail) (rt : Runtime S)
      → lookup co rt.completions ≡ k
      → has_value co rt.pending ≡ false
      → Ended k (failure st d) co rt (fail_found lua k co st d rt)
        × ((fail_found lua k co st d rt).unhandled_error ≡ unheard k rt.unhandled_error d)
  unfolding fail_found record_unhandled_error release_coroutine
  fail_found_lem none co st d rt e p =
      let (x, u) = settle_found_lem none co (failure st d) rt e p in
      let q = record_unhandled_lem d rt.unhandled_error (release_coroutine lua co rt) in
      rw q (
        record {
          settled = x.settled;
          no_pending = x.no_pending;
          no_handler = x.no_handler;
          not_owned = x.not_owned;
        },
        refl,
      )
  fail_found_lem (some k) co st d rt e p = settle_found_lem (some k) co (failure st d) rt e p

  -- A coroutine that fails is forgotten by the runtime and goes back to the pool. Its handler, if it
  -- has one, is given the status and the error as they stood on its stack, once and last of all;
  -- without a handler the error is recorded, unless an earlier one is.
  pub maybe_recycle_co-failed :
      (co c n : ℕ) (rt : Runtime S)
      → let k = lookup co rt.completions in
        let d = capture_error_detail (lua.frames co rt.state) (lua.error_object co rt.state) in
        let ru = maybe_recycle_co lua co (lua_error c) n rt in
        Ended k (failure (lua_error c) d) co rt ru
        × (ru.unhandled_error ≡ unheard k rt.unhandled_error d)
  unfolding maybe_recycle_co recycle_failed take_error
  maybe_recycle_co-failed co c n rt =
      let d = capture_error_detail (lua.frames co rt.state) (lua.error_object co rt.state) in
      let rt₁ = record rt { state = lua.pop co rt.state } in
      let (p, e, t, u) = cleaned_lem co rt₁ in
      let ru = cleanup_stale_pendings lua co rt₁ in
      let x = fail_found_lem (lookup co ru.completions) co (lua_error c) d ru refl p in
      (
        Ended-from (ap (lookup co) e) t x.0,
        x.1
            ∙ (ap (λ o. unheard (lookup co o) ru.unhandled_error d) e
                ∙ ap (λ o. unheard (lookup co rt.completions) o d) u),
      )

  -- A coroutine that returns is forgotten by the runtime and goes back to the pool. Its handler, if it
  -- has one, is given the values on its stack, once and last of all; no error is recorded.
  pub maybe_recycle_co-finished :
      (co n : ℕ) (rt : Runtime S)
      → let k = lookup co rt.completions in
        let vs = (take_values lua co n (cleanup_stale_pendings lua co rt)).0 in
        let ru = maybe_recycle_co lua co lua_ok n rt in
        Ended k (success vs) co rt ru × (ru.unhandled_error ≡ rt.unhandled_error)
  unfolding maybe_recycle_co recycle_finished take_values
  maybe_recycle_co-finished co n rt =
      let (p, c, t, u) = cleaned_lem co rt in
      let (vs, s) = peek_values lua co n (cleanup_stale_pendings lua co rt).state in
      let ru = record (cleanup_stale_pendings lua co rt) { state = s } in
      let x = settle_found_lem (lookup co ru.completions) co (success vs) ru refl p in
      (Ended-from (ap (lookup co) c) t x.0, x.1 ∙ u)
