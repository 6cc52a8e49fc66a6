-- ===== src/Runtime/Invariants.antt =====
-- Invariants of every history of a runtime (src/lua/lua_runtime.cc), by their elementary changes.
use bernardx.Base.{
  ℕ, ◌≡◌, refl, sym, ap, ◌∙◌, true, false, List, [], ◌∷◌, ◌++◌, insert, erase, has, has-erase,
  arith,
}
use mathlib.Core.List.{append-nil, append_assoc}
use bernardx.Value.{ScriptResult}
use bernardx.Machine.{Lua, Handler}
use bernardx.Runtime.{Runtime}
use bernardx.Runtime.Pending.{unpin_each, unpin_pending_co, clear_pending}
use bernardx.Runtime.Executor.{CodeProvider, Reach}
use bernardx.Runtime.Stable.{Stable}
use bernardx.Runtime.Stable.Steps.{Reach-stable}

-- Erasing the keys of one table from another.
unfoldable pub erase_keys : List (ℕ × ℕ) → List (ℕ × ℕ) → List (ℕ × ℕ)
erase_keys [] x = x
erase_keys ((k, v) ∷ m) x = erase_keys m (erase k x)

abbrev Covers : List (ℕ × ℕ) → List (ℕ × ℕ) → Type 0
Covers m x = (k : ℕ) → has k x ≡ true → has k m ≡ true

nil_of_none : (x : List (ℕ × ℕ)) → ((k : ℕ) → has k x ≡ true → false ≡ true) → x ≡ []
unfolding has
nil_of_none [] h = refl
nil_of_none ((k, v) ∷ x) h = cc (h k (ground arith))

erase_keys_covered : (m x : List (ℕ × ℕ)) → Covers m x → erase_keys m x ≡ []
unfolding erase_keys has
erase_keys_covered [] x c = nil_of_none x c
erase_keys_covered ((k, v) ∷ m) x c =
    erase_keys_covered m (erase k x) (λ j e. ground (arith, c j, has-erase k j x))

module _ {S : Type 0} where
  pins-unpin_each :
      (m : List (ℕ × ℕ)) (rt : Runtime S) → (unpin_each m rt).pins ≡ erase_keys m rt.pins
  unfolding unpin_each unpin_pending_co erase_keys
  pins-unpin_each [] rt = refl
  pins-unpin_each ((h, co) ∷ m) rt = pins-unpin_each m (unpin_pending_co h rt)

  settled-unpin_each : (m : List (ℕ × ℕ)) (rt : Runtime S) → (unpin_each m rt).settled ≡ rt.settled
  unfolding unpin_each unpin_pending_co
  settled-unpin_each [] rt = refl
  settled-unpin_each ((h, co) ∷ m) rt = settled-unpin_each m (unpin_pending_co h rt)

  shutting_down-unpin_each :
      (m : List (ℕ × ℕ)) (rt : Runtime S) → (unpin_each m rt).shutting_down ≡ rt.shutting_down
  unfolding unpin_each unpin_pending_co
  shutting_down-unpin_each [] rt = refl
  shutting_down-unpin_each ((h, co) ∷ m) rt = shutting_down-unpin_each m (unpin_pending_co h rt)

  -- The pin table of the registry has an entry for exactly the parked coroutines.
  abbrev pub PinsMatch : Runtime S → Type 0
  PinsMatch rt = rt.pins ≡ rt.pending

  PinsMatch-stable : Stable PinsMatch
  unfolding clear_pending
  PinsMatch-stable = record {
    on_state = λ rt s h. h;
    on_timers = λ rt s h. h;
    on_pool = λ rt s h. h;
    on_completions = λ rt s h. h;
    on_done = λ rt s h. h;
    on_error = λ rt s h. h;
    on_shutdown = λ rt h. h;
    on_interrupted = λ rt s h. h;
    on_paused = λ rt s h. h;
    on_queue = λ rt s h. h;
    on_clock = λ rt s h. h;
    on_deliver = λ rt k r h. h;
    on_park = λ rt n co h. ap (insert n co) h;
    on_unpark = λ rt n h. ap (erase n) h;
    on_clear = λ rt h.
        pins-unpin_each rt.pending rt ∙ erase_keys_covered rt.pending rt.pins (λ k e. rw h at e);
    on_free = λ rt e h. sym e;
  }

  -- The table `before` of deliveries is still there, at the front.
  abbrev pub Extends : List (Handler × ScriptResult) → Runtime S → Type 0
  Extends before rt = (later : List (Handler × ScriptResult)) × (rt.settled ≡ before ++ later)

  Extends-stable : (before : List (Handler × ScriptResult)) → Stable (Extends before)
  unfolding clear_pending
  Extends-stable before = record {
    on_state = λ rt s h. h;
    on_timers = λ rt s h. h;
    on_pool = λ rt s h. h;
    on_completions = λ rt s h. h;
    on_done = λ rt s h. h;
    on_error = λ rt s h. h;
    on_shutdown = λ rt h. h;
    on_interrupted = λ rt s h. h;
    on_paused = λ rt s h. h;
    on_queue = λ rt s h. h;
    on_clock = λ rt s h. h;
    on_deliver = λ rt k r h. (
      h.0 ++ ((k, r) ∷ []),
      ap (λ (l : List (Handler × ScriptResult)). l ++ ((k, r) ∷ [])) h.1
          ∙ append_assoc before h.0 ((k, r) ∷ []),
    );
    on_park = λ rt n co h. h;
    on_unpark = λ rt n h. h;
    on_clear = λ rt h. (h.0, settled-unpin_each rt.pending rt ∙ h.1);
    on_free = λ rt e h. h;
  }

  abbrev pub IsShuttingDown : Runtime S → Type 0
  IsShuttingDown rt = rt.shutting_down ≡ true

  IsShuttingDown-stable : Stable IsShuttingDown
  unfolding clear_pending
  IsShuttingDown-stable = record {
    on_state = λ rt s h. h;
    on_timers = λ rt s h. h;
    on_pool = λ rt s h. h;
    on_completions = λ rt s h. h;
    on_done = λ rt s h. h;
    on_error = λ rt s h. h;
    on_shutdown = λ rt h. refl;
    on_interrupted = λ rt s h. h;
    on_paused = λ rt s h. h;
    on_queue = λ rt s h. h;
    on_clock = λ rt s h. h;
    on_deliver = λ rt k r h. h;
    on_park = λ rt n co h. h;
    on_unpark = λ rt n h. h;
    on_clear = λ rt h. shutting_down-unpin_each rt.pending rt ∙ h;
    on_free = λ rt e h. h;
  }

module _ {S : Type 0} (lua : Lua S) (provider : CodeProvider) where
  -- If the registry's pin table and pending_ agree at the start, they do in every history, whatever
  -- scripts, closures and other threads do and in whatever order: the pin table holds exactly the
  -- parked coroutines, under the same handles.
  pub Reach-PinsMatch : {rt ru : Runtime S} → PinsMatch rt → Reach lua provider rt ru → PinsMatch ru
  Reach-PinsMatch h r = Reach-stable lua PinsMatch-stable provider h r

  -- In every history results are only ever added to those delivered: no handler's result is
  -- withdrawn or replaced.
  pub Reach-Extends : {rt ru : Runtime S} → Reach lua provider rt ru → Extends rt.settled ru
  Reach-Extends {rt} r =
      Reach-stable lua (Extends-stable rt.settled) provider ([], sym (append-nil rt.settled)) r

  -- Once a runtime is shutting down it is so for ever; ClearInterrupt does not bring it back.
  pub Reach-IsShuttingDown :
      {rt ru : Runtime S} → IsShuttingDown rt → Reach lua provider rt ru → IsShuttingDown ru
  Reach-IsShuttingDown h r = Reach-stable lua IsShuttingDown-stable provider h r
