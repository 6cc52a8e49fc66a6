-- ===== src/Timer/Refs.antt =====
-- Who owns the callback references: src/lua/timer_manager.cc.
use bernardx.Base.{
  ℕ, ◌+◌, ◌%◌, ◌^◌, ◌<◌, ◌≤◌, ℤ, ◌≡◌, refl, inl, inr, List, [], ◌∷◌, ◌++◌, none, some, lookup, has,
  erase, lookup-insert, count, count-append, get_elem?, arith, Option-cases, length, lookup_of_has,
  Bool-cases, Option-cases, length, lookup_of_has,
}
use bernardx.Timer.{
  k_sleep, k_set_timeout, ActiveTimer, Job, sleep_job, timeout_job, fn_refs, empty, next_handle,
  add_timeout_timer, add_sleep_timer, fire, cancel_timer, cancel_all,
}
use bernardx.Timer.Table.{
  of_option, held, insert-Distinct, erase-Distinct, count-insert, count-erase, Op, History,
  fire_found, step, history, JobAgrees, Inv, Below-absent, Below-mono, insert-Below, erase-Below,
  insert-AllAgree, erase-AllAgree, clear-AllAgree, AllAgree-get_elem?, sleeps, timeouts, fires,
  cancels, cancels_all,
}

sleeps-Inv :
    (w : History) (deadline : ℤ) (now : ℕ)
    → w.manager.handle_counter + 1 < 2 ^ 64
    → Inv w
    → Inv (step (sleeps deadline now) w)
unfolding next_handle add_sleep_timer
sleeps-Inv w deadline now b v =
    let n = w.manager.handle_counter in
    let m = w.manager.active_timers in
    let t : ActiveTimer = record { kind = k_sleep; fn_ref = none } in
    let e : (n + 1) % 2 ^ 64 ≡ n + 1 = omega arith in
    rw e (record {
      distinct = insert-Distinct n t m v.distinct;
      below =
          insert-Below (n + 1) n t m (Below-mono n (n + 1) m v.below (omega arith)) (omega arith);
      agree = (
        (omega arith, λ u q. ground (arith, lookup-insert n n t m)),
        insert-AllAgree w.manager t w.scheduled v.agree,
      );
      balance = λ r.
          unfold count in
          omega
            (arith, v.balance r, count-insert r n t m (Below-absent n n m v.below (omega arith)));
    })

timeouts-Inv :
    (w : History) (deadline : ℤ) (now f : ℕ)
    → w.manager.handle_counter + 1 < 2 ^ 64
    → Inv w
    → Inv (step (timeouts deadline now f) w)
unfolding next_handle add_timeout_timer
timeouts-Inv w deadline now f b v =
    let n = w.manager.handle_counter in
    let m = w.manager.active_timers in
    let t : ActiveTimer = record { kind = k_set_timeout; fn_ref = some f } in
    let e : (n + 1) % 2 ^ 64 ≡ n + 1 = omega arith in
    rw e (record {
      distinct = insert-Distinct n t m v.distinct;
      below =
          insert-Below (n + 1) n t m (Below-mono n (n + 1) m v.below (omega arith)) (omega arith);
      agree = (
        (omega arith, λ u q. ground (arith, lookup-insert n n t m)),
        insert-AllAgree w.manager t w.scheduled v.agree,
      );
      balance = λ r.
          unfold count in
          omega
            (arith, v.balance r, count-insert r n t m (Below-absent n n m v.below (omega arith)));
    })

-- Taking a timer out and consuming its reference keeps the balance.
removal-Inv :
    (w : History) (h : ℕ) (t : ActiveTimer)
    → lookup h w.manager.active_timers ≡ some t
    → Inv w
    → Inv (record w {
      manager = record w.manager { active_timers = erase h w.manager.active_timers };
      consumed = of_option t.fn_ref ++ w.consumed;
    })
removal-Inv w h t e v = record {
  distinct = erase-Distinct h w.manager.active_timers v.distinct;
  below = erase-Below w.manager.handle_counter h w.manager.active_timers v.below;
  agree = erase-AllAgree w.manager h w.scheduled v.agree;
  balance = λ r. omega (
    arith,
    v.balance r,
    count-append r (of_option t.fn_ref) w.consumed,
    count-erase r h t w.manager.active_timers v.distinct e,
  );
}

fire-Inv : (w : History) (j : Job) → JobAgrees w.manager j → Inv w → Inv (fire_found (some j) w)
unfolding fire
fire-Inv w (sleep_job h) a v = elim (Bool-cases (has h w.manager.active_timers)) [
  | inr no_timer ↦ rw no_timer v
  | inl found ↦
      let (t, e) = lookup_of_has h w.manager.active_timers found in
      rw found (rw (a.1 t e) at (removal-Inv w h t e v))
]
fire-Inv w (timeout_job h f) a v = elim (Bool-cases (has h w.manager.active_timers)) [
  | inr no_timer ↦ rw no_timer v
  | inl found ↦
      let (t, e) = lookup_of_has h w.manager.active_timers found in
      rw found (rw (a.1 t e) at (removal-Inv w h t e v))
]

fires-Inv : (w : History) (i : ℕ) → Inv w → Inv (step (fires i) w)
fires-Inv w i v = elim (Option-cases (get_elem? w.scheduled i)) [
  | inl e ↦ rw e v
  | inr (j, e) ↦ rw e (fire-Inv w j (AllAgree-get_elem? w.manager w.scheduled i j v.agree e) v)
]

cancels-Inv : (w : History) (h : ℕ) → Inv w → Inv (step (cancels h) w)
unfolding cancel_timer
cancels-Inv w h v = elim (Option-cases (lookup h w.manager.active_timers)) [
  | inl e ↦ rw e v
  | inr (t, e) ↦ rw e (removal-Inv w h t e v)
]

cancels_all-Inv : (w : History) → Inv w → Inv (step cancels_all w)
unfolding cancel_all
cancels_all-Inv w v = record {
  distinct = tt;
  below = tt;
  agree = clear-AllAgree w.manager w.scheduled v.agree;
  balance = λ r.
      unfold fn_refs count in
      omega (arith, v.balance r, count-append r (held w.manager) w.consumed);
}

counter-step :
    (op : Op) (w : History) → (step op w).manager.handle_counter ≤ w.manager.handle_counter + 1
unfolding fire cancel_timer cancel_all add_sleep_timer add_timeout_timer next_handle
counter-step (sleeps deadline now) w = omega arith
counter-step (timeouts deadline now f) w = omega arith
counter-step (fires i) w = ground arith
counter-step (cancels h) w = ground arith
counter-step cancels_all w = omega arith

step-Inv : (op : Op) (w : History) → w.manager.handle_counter + 1 < 2 ^ 64 → Inv w → Inv (step op w)
step-Inv (sleeps deadline now) w b v = sleeps-Inv w deadline now b v
step-Inv (timeouts deadline now f) w b v = timeouts-Inv w deadline now f b v
step-Inv (fires i) w b v = fires-Inv w i v
step-Inv (cancels h) w b v = cancels-Inv w h v
step-Inv cancels_all w b v = cancels_all-Inv w v

history-Inv :
    (ops : List Op) (w : History)
    → w.manager.handle_counter + length ops < 2 ^ 64
    → Inv w
    → Inv (history ops w)
unfolding history
history-Inv [] w b v = v
history-Inv (op ∷ ops) w b v =
    history-Inv ops (step op w) (omega (arith, counter-step op w)) (step-Inv op w (omega arith) v)

abbrev pub start : History
start = record { manager = empty; scheduled = []; added = []; consumed = [] }

start-Inv : Inv start
unfolding fn_refs count
start-Inv = record { distinct = tt; below = tt; agree = tt; balance = λ r. refl }

-- Over any history from an empty manager that makes fewer than 2 ^ 64 - 1 calls, each callback
-- reference given to setTimeout is either still held by its timer, or was consumed exactly once:
-- called, handed to the cancellation, or released by CancelAll. So none leaks and none is released
-- twice, in whatever order the closures run, and even if one runs again.
pub count-history :
    (ops : List Op) (r : ℕ)
    → 1 + length ops < 2 ^ 64
    → let w = history ops start in count r w.consumed + count r (held w.manager) ≡ count r w.added
count-history ops r b = (history-Inv ops start b start-Inv).balance r
