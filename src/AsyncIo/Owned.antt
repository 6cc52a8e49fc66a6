-- ===== src/AsyncIo/Owned.antt =====
-- What a process handle of src/lua/async_io_library.cc has done to the system after any calls of its
-- methods, in any order, by any coroutines.
use bernardx.Base.{
  ℕ, ◌+◌, ◌≡◌, ◌≢◌, refl, ◌⊎◌, ℤ, true, false, ◌==◌, List, [], ◌∷◌, Option, none, some,
  if◌then◌else◌, arith,
}
use bernardx.AsyncIo.Files.{SystemCall, closes_fd, signals, reaps, close_sd}
use bernardx.AsyncIo.Processes.{ProcessHandle}

unfoldable pub closings : ℕ → List SystemCall → ℕ
closings fd [] = 0
closings fd (closes_fd n ∷ log) = (if n == fd then 1 else 0) + closings fd log
closings fd (signals q s ∷ log) = closings fd log
closings fd (reaps q ∷ log) = closings fd log

unfoldable pub reapings : List SystemCall → ℕ
reapings [] = 0
reapings (closes_fd n ∷ log) = reapings log
reapings (signals q s ∷ log) = reapings log
reapings (reaps q ∷ log) = 1 + reapings log

-- Signals and waits go to the process `pid`, and none of them comes after a wait; the last event
-- stands first.
unfoldable pub OnlyBefore : ℤ → List SystemCall → Type 0
unfolding reapings
OnlyBefore pid [] = Unit {0}
OnlyBefore pid (closes_fd n ∷ log) = OnlyBefore pid log
OnlyBefore pid (signals q s ∷ log) = (q ≡ pid) × (reapings log ≡ 0) × OnlyBefore pid log
OnlyBefore pid (reaps q ∷ log) = (q ≡ pid) × (reapings log ≡ 0) × OnlyBefore pid log

-- A descriptor that is open and was never closed, or was closed once.
abbrev pub ClosedOnce : ℕ → Option ℕ → List SystemCall → Type 0
ClosedOnce fd sd log =
    ((sd ≡ some fd) × (closings fd log ≡ 0)) ⊎ ((sd ≡ none) × (closings fd log ≡ 1))

pub close_sd-closings :
    (fd : ℕ) (sd : Option ℕ) (log : List SystemCall)
    → ClosedOnce fd sd log
    → closings fd (close_sd sd log) ≡ 1
unfolding closings close_sd
close_sd-closings fd none log h = ground arith
close_sd-closings fd (some n) log h = ground arith

pub close_sd_other :
    (fd other : ℕ) (sd : Option ℕ) (log : List SystemCall)
    → (sd ≡ some other) ⊎ (sd ≡ none)
    → fd ≢ other
    → closings fd (close_sd sd log) ≡ closings fd log
unfolding closings close_sd
close_sd_other fd other none log h d = refl
close_sd_other fd other (some n) log h d = ground arith

pub close_sd-OnlyBefore :
    (pid : ℤ) (sd : Option ℕ) (log : List SystemCall)
    → OnlyBefore pid log
    → OnlyBefore pid (close_sd sd log)
unfolding OnlyBefore close_sd
close_sd-OnlyBefore pid none log h = h
close_sd-OnlyBefore pid (some n) log h = h

pub close_sd-reapings :
    (sd : Option ℕ) (log : List SystemCall) → reapings (close_sd sd log) ≡ reapings log
unfolding reapings close_sd
close_sd-reapings none log = refl
close_sd-reapings (some n) log = refl

-- Before close; with the closure of close posted; after it or after collection.
pub data Phase (pid : ℤ) (p : ProcessHandle) (log : List SystemCall) : Type 0 where
  live : p.closed ≡ false → p.posted ≡ [] → p.pid ≡ pid → reapings log ≡ 0 → Phase pid p log
  closing :
      (h : ℕ)
      → p.closed ≡ true
      → p.posted ≡ h ∷ []
      → p.pid ≡ pid
      → reapings log ≡ 0
      → Phase pid p log
  ended : p.closed ≡ true → p.posted ≡ [] → Phase pid p log

pub record IsOwned (pid : ℤ) (stdin stdout : ℕ) (p : ProcessHandle) (log : List SystemCall)
    : Type 0 where
  pub phase : Phase pid p log
  pub order : OnlyBefore pid log
  pub stdin_once : ClosedOnce stdin p.stdin_sd log
  pub stdout_once : ClosedOnce stdout p.stdout_sd log
  pub gone : p.closed ≡ true → (p.stdin_sd ≡ none) × (p.stdout_sd ≡ none)
