-- ===== src/Timer/Table.antt =====
-- Histories of a TimerManager and their invariant: src/lua/timer_manager.cc.
use mathlib.Core.Path.{subst}
use mathlib.Core.Option.{some-injective}
use bernardx.Base.{
  ℕ, ◌+◌, zero, suc, ◌<◌, ◌≤◌, ℤ, ◌≡◌, refl, false, List, [], ◌∷◌, ◌++◌, Option, none, some, lookup,
  has, insert, erase, has-insert, has-erase, erase_absent, lookup-erase, lookup-insert, count,
  get_elem?, arith,
}
use bernardx.Timer.{
  ActiveTimer, TimerManager, Job, sleep_job, timeout_job, Callback, on_timeout, fn_refs,
  next_handle, add_timeout_timer, add_sleep_timer, fire, cancel_timer, cancel_all,
}

-- No handle has two timers, as in a hash map.
abbrev pub Distinct : List (ℕ × ActiveTimer) → Type 0
Distinct [] = Unit {0}
Distinct ((h, t) ∷ m) = (has h m ≡ false) × Distinct m

abbrev pub of_option : Option ℕ → List ℕ
of_option none = []
of_option (some r) = r ∷ []

-- The references held by the manager.
abbrev pub held : TimerManager → List ℕ
held tm = fn_refs tm.active_timers

pub insert-Distinct :
    (h : ℕ) (t : ActiveTimer) (m : List (ℕ × ActiveTimer)) → Distinct m → Distinct (insert h t m)
unfolding insert has
insert-Distinct h t [] d = (refl, tt)
insert-Distinct h t ((j, u) ∷ m) d = ground (arith, insert-Distinct h t m d.1, has-insert h j t m)

pub erase-Distinct : (h : ℕ) (m : List (ℕ × ActiveTimer)) → Distinct m → Distinct (erase h m)
unfolding erase
erase-Distinct h [] d = tt
erase-Distinct h ((j, u) ∷ m) d = ground (arith, erase-Distinct h m d.1, has-erase h j m)

pub count-insert :
    (r h : ℕ) (t : ActiveTimer) (m : List (ℕ × ActiveTimer))
    → has h m ≡ false
    → count r (fn_refs (insert h t m)) ≡ count r (of_option t.fn_ref) + count r (fn_refs m)
unfolding insert has fn_refs count
count-insert r h t [] e = ground arith
count-insert r h t ((j, u) ∷ m) e = ground (arith, count-insert r h t m)

pub count-erase :
    (r h : ℕ) (t : ActiveTimer) (m : List (ℕ × ActiveTimer))
    → Distinct m
    → lookup h m ≡ some t
    → count r (of_option t.fn_ref) + count r (fn_refs (erase h m)) ≡ count r (fn_refs m)
unfolding lookup erase has fn_refs count
count-erase r h t [] d e = ground arith
count-erase r h t ((j, u) ∷ m) d e = ground (arith, count-erase r h t m d.1, erase_absent h m)

-- A history of calls: sleep and setTimeout as their callers make them, the closures that the
-- executor runs (in any order, even twice), and cancellations.
pub data Op : Type 0 where
  sleeps : ℤ → ℕ → Op
  timeouts : ℤ → ℕ → ℕ → Op
  fires : ℕ → Op
  cancels : ℕ → Op
  cancels_all : Op

pub record History : Type 0 where
  pub manager : TimerManager
  pub scheduled : List Job
  pub added : List ℕ
  pub consumed : List ℕ

-- The reference that a callback receives.
abbrev pub callback_refs : Option Callback → List ℕ
callback_refs (some (on_timeout r)) = r ∷ []
callback_refs _ = []

abbrev pub fire_found : Option Job → History → History
fire_found none w = w
fire_found (some j) w =
    let (c, tm) = fire j w.manager in
    record w { manager = tm; consumed = callback_refs c ++ w.consumed }

abbrev pub step : Op → History → History
step (sleeps deadline now) w =
    let (h, tm) = next_handle w.manager in
    let (tm', d, j) = add_sleep_timer deadline now h tm in
    record w { manager = tm'; scheduled = j ∷ w.scheduled }
step (timeouts deadline now r) w =
    let (h, tm, d, j) = add_timeout_timer deadline now r w.manager in
    record w { manager = tm; scheduled = j ∷ w.scheduled; added = r ∷ w.added }
step (fires i) w = fire_found (get_elem? w.scheduled i) w
step (cancels h) w =
    let (r, tm) = cancel_timer h w.manager in
    record w { manager = tm; consumed = of_option r ++ w.consumed }
step cancels_all w =
    let (rs, tm) = cancel_all w.manager in record w { manager = tm; consumed = rs ++ w.consumed }

unfoldable pub history : List Op → History → History
history [] w = w
history (op ∷ ops) w = history ops (step op w)

-- Every handle in use is below the counter.
abbrev pub Below : ℕ → List (ℕ × ActiveTimer) → Type 0
Below n [] = Unit {0}
Below n ((h, t) ∷ m) = (h < n) × Below n m

-- A scheduled closure agrees with the timer that it was scheduled for, if that is still there.
abbrev pub JobAgrees : TimerManager → Job → Type 0
JobAgrees tm (sleep_job h) =
    (h < tm.handle_counter)
    × ((t : ActiveTimer) → lookup h tm.active_timers ≡ some t → t.fn_ref ≡ none)
JobAgrees tm (timeout_job h r) =
    (h < tm.handle_counter)
    × ((t : ActiveTimer) → lookup h tm.active_timers ≡ some t → t.fn_ref ≡ some r)

abbrev pub AllAgree : TimerManager → List Job → Type 0
AllAgree tm [] = Unit {0}
AllAgree tm (j ∷ js) = JobAgrees tm j × AllAgree tm js

pub record Inv (w : History) : Type 0 where
  pub distinct : Distinct w.manager.active_timers
  pub below : Below w.manager.handle_counter w.manager.active_timers
  pub agree : AllAgree w.manager w.scheduled
  pub balance : (r : ℕ) → count r w.consumed + count r (held w.manager) ≡ count r w.added

pub Below-absent : (n k : ℕ) (m : List (ℕ × ActiveTimer)) → Below n m → n ≤ k → has k m ≡ false
unfolding has
Below-absent n k [] b h = refl
Below-absent n k ((j, t) ∷ m) b h = ground (arith, Below-absent n k m b.1)

pub Below-mono : (n k : ℕ) (m : List (ℕ × ActiveTimer)) → Below n m → n ≤ k → Below k m
Below-mono n k [] b h = tt
Below-mono n k ((j, t) ∷ m) b h = (omega arith, Below-mono n k m b.1 h)

pub insert-Below :
    (n h : ℕ) (t : ActiveTimer) (m : List (ℕ × ActiveTimer))
    → Below n m
    → h < n
    → Below n (insert h t m)
unfolding insert
insert-Below n h t [] b l = (l, tt)
insert-Below n h t ((j, u) ∷ m) b l = ground (arith, insert-Below n h t m b.1)

pub erase-Below : (n h : ℕ) (m : List (ℕ × ActiveTimer)) → Below n m → Below n (erase h m)
unfolding erase
erase-Below n h [] b = tt
erase-Below n h ((j, u) ∷ m) b = ground (arith, erase-Below n h m b.1)

pub insert-AllAgree :
    (tm : TimerManager) (t : ActiveTimer) (js : List Job)
    → AllAgree tm js
    → AllAgree
        (record {
          handle_counter = tm.handle_counter + 1;
          active_timers = insert tm.handle_counter t tm.active_timers;
        })
        js
insert-AllAgree tm t [] a = tt
insert-AllAgree tm t (sleep_job h ∷ js) a = (
  (
    omega (arith, a.0.0),
    λ u e. a.0.1 u (ground (arith, a.0.0, lookup-insert tm.handle_counter h t tm.active_timers)),
  ),
  insert-AllAgree tm t js a.1,
)
insert-AllAgree tm t (timeout_job h r ∷ js) a = (
  (
    omega (arith, a.0.0),
    λ u e. a.0.1 u (ground (arith, a.0.0, lookup-insert tm.handle_counter h t tm.active_timers)),
  ),
  insert-AllAgree tm t js a.1,
)

pub erase-AllAgree :
    (tm : TimerManager) (k : ℕ) (js : List Job)
    → AllAgree tm js
    → AllAgree (record tm { active_timers = erase k tm.active_timers }) js
erase-AllAgree tm k [] a = tt
erase-AllAgree tm k (sleep_job h ∷ js) a = (
  (a.0.0, λ u e. a.0.1 u (ground (arith, lookup-erase k h tm.active_timers))),
  erase-AllAgree tm k js a.1,
)
erase-AllAgree tm k (timeout_job h r ∷ js) a = (
  (a.0.0, λ u e. a.0.1 u (ground (arith, lookup-erase k h tm.active_timers))),
  erase-AllAgree tm k js a.1,
)

pub clear-AllAgree :
    (tm : TimerManager) (js : List Job)
    → AllAgree tm js
    → AllAgree (record tm { active_timers = [] }) js
unfolding lookup
clear-AllAgree tm [] a = tt
clear-AllAgree tm (sleep_job h ∷ js) a = ((a.0.0, λ u e. cc), clear-AllAgree tm js a.1)
clear-AllAgree tm (timeout_job h r ∷ js) a = ((a.0.0, λ u e. cc), clear-AllAgree tm js a.1)

pub AllAgree-get_elem? :
    (tm : TimerManager) (js : List Job) (i : ℕ) (j : Job)
    → AllAgree tm js
    → get_elem? js i ≡ some j
    → JobAgrees tm j
AllAgree-get_elem? tm [] i j a e = cc
AllAgree-get_elem? tm (x ∷ js) zero j a e = subst (JobAgrees tm) (some-injective x j e) a.0
AllAgree-get_elem? tm (x ∷ js) (suc i) j a e = AllAgree-get_elem? tm js i j a.1 e
