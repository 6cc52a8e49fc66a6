-- ===== src/AsyncIo/Windows/Balance.antt =====
-- The HANDLEs that the process handle of src/lua/async_io_library.cc has closed and those that it has
-- still, on Windows, under each of its methods.
use bernardx.Base.{
  ℕ, ◌+◌, ◌≡◌, ◌<◌, refl, ap, List, [], ◌∷◌, Option, none, some, Bytes, ==_refl, if_both, arith,
}
use bernardx.AsyncIo.Files.{Outcome}
use bernardx.AsyncIo.Windows.{WindowsProcess}
use bernardx.AsyncIo.Windows.Process.{
  WindowsCall, closes_handle, terminates, waits_for, close_some, windows_kill, windows_shutdown,
  windows_gc, kill_proc, collect_proc,
}
use bernardx.AsyncIo.Windows.Handles.{one, one_of}

-- How often a HANDLE was closed, and how often the process handle has it.
unfoldable pub closed_times : ℕ → List WindowsCall → ℕ
closed_times n [] = 0
closed_times n (closes_handle h ∷ log) = one h n + closed_times n log
closed_times n (terminates h ∷ log) = closed_times n log
closed_times n (waits_for h ∷ log) = closed_times n log

-- A process was terminated or waited for by a HANDLE that was closed less often until then than it
-- was given.
abbrev pub UsedOpen : (ℕ → ℕ) → List WindowsCall → Type 0
UsedOpen given [] = Unit {0}
UsedOpen given (closes_handle h ∷ log) = UsedOpen given log
UsedOpen given (terminates h ∷ log) = (closed_times h log < given h) × UsedOpen given log
UsedOpen given (waits_for h ∷ log) = (closed_times h log < given h) × UsedOpen given log

-- Every HANDLE that was given is closed, or is the process's, or is one of the rest.
abbrev pub Balance : (ℕ → ℕ) → Option ℕ → (ℕ → ℕ) → List WindowsCall → Type 0
Balance given proc rest log =
    ((n : ℕ) → closed_times n log + (one_of proc n + rest n) ≡ given n) × UsedOpen given log

-- How often a process handle has a HANDLE as a stream.
abbrev pub streams : WindowsProcess → ℕ → ℕ
streams p n = one_of p.stdin_sd n + one_of p.stdout_sd n

abbrev pub Keeps : (ℕ → ℕ) → WindowsProcess → List WindowsCall → Type 0
Keeps given p log = Balance given p.proc (streams p) log

one_self : (h : ℕ) → one h h ≡ 1
unfolding one
one_self h = rw (==_refl h) refl

closed_times-close_some :
    (n : ℕ) (o : Option ℕ) (log : List WindowsCall)
    → closed_times n (close_some o log) ≡ one_of o n + closed_times n log
unfolding close_some closed_times one_of
closed_times-close_some n none log = omega arith
closed_times-close_some n (some h) log = refl

module _ (given : ℕ → ℕ) where
  close_some-UsedOpen :
      (o : Option ℕ) (log : List WindowsCall)
      → UsedOpen given log
      → UsedOpen given (close_some o log)
  unfolding close_some
  close_some-UsedOpen none log u = u
  close_some-UsedOpen (some h) log u = u

  -- The streams of a process are closed.
  abbrev pub streams_closed : WindowsProcess → List WindowsCall → List WindowsCall
  streams_closed p log = close_some p.stdout_sd (close_some p.stdin_sd log)

  closed_times-streams :
      (n : ℕ) (p : WindowsProcess) (log : List WindowsCall)
      → closed_times n (streams_closed p log)
        ≡ one_of p.stdout_sd n + (one_of p.stdin_sd n + closed_times n log)
  closed_times-streams n p log =
      rw (closed_times-close_some n p.stdout_sd (close_some p.stdin_sd log))
        (ap (λ k. one_of p.stdout_sd n + k) (closed_times-close_some n p.stdin_sd log))

  pub is_open :
      (h : ℕ) (rest : ℕ → ℕ) (log : List WindowsCall)
      → Balance given (some h) rest log
      → closed_times h log < given h
  unfolding one_of
  is_open h rest log b = omega (arith, b.0 h, one_self h)

  kill_proc-Balance :
      (terminate : ℕ → Option Bytes) (proc : Option ℕ) (rest : ℕ → ℕ) (log : List WindowsCall)
      → Balance given proc rest log
      → Balance given proc rest (kill_proc terminate proc log).1
  unfolding closed_times
  kill_proc-Balance terminate none rest log b = b
  kill_proc-Balance terminate (some h) rest log b = (b.0, (is_open h rest log b, b.1))

  collect_proc-Balance :
      (proc : Option ℕ) (rest : ℕ → ℕ) (log : List WindowsCall)
      → Balance given proc rest log
      → Balance given none rest (collect_proc proc log)
  unfolding closed_times one_of
  collect_proc-Balance none rest log b = b
  collect_proc-Balance (some h) rest log b =
      (λ n. omega (arith, b.0 n), (is_open h rest log b, b.1))

  pub streams_closed-Balance :
      (p : WindowsProcess) (log : List WindowsCall)
      → Keeps given p log
      → Balance given p.proc (λ n. 0) (streams_closed p log)
  streams_closed-Balance p log b = (
    λ n. omega (arith, b.0 n, closed_times-streams n p log),
    close_some-UsedOpen p.stdout_sd (close_some p.stdin_sd log)
        (close_some-UsedOpen p.stdin_sd log b.1),
  )

  pub shutdown-Keeps :
      (p : WindowsProcess) (log : List WindowsCall)
      → Keeps given p log
      → let (outcome, p', log') = windows_shutdown p log in Keeps given p' log'
  unfolding windows_shutdown one_of
  shutdown-Keeps p log b = (
    λ n. omega (arith, b.0 n, closed_times-close_some n p.stdin_sd log),
    close_some-UsedOpen p.stdin_sd log b.1,
  )

  pub kill-Keeps :
      (terminate : ℕ → Option Bytes) (p : WindowsProcess) (log : List WindowsCall)
      → Keeps given p log
      → Keeps given p (windows_kill terminate p log).1
  unfolding windows_kill
  kill-Keeps terminate p log b =
      if_both (λ (r : Outcome × List WindowsCall). Keeps given p r.1) p.closed b
        (kill_proc-Balance terminate p.proc (streams p) log b)

  pub no_streams :
      (proc : Option ℕ) (log : List WindowsCall)
      → Balance given proc (λ n. 0) log
      → Balance given proc (λ n. one_of none n + one_of none n) log
  unfolding one_of
  no_streams proc log b = (λ n. omega (arith, b.0 n), b.1)

  pub gc-Keeps :
      (p : WindowsProcess) (log : List WindowsCall)
      → Keeps given p log
      → let (p', log') = windows_gc p log in Keeps given p' log'
  unfolding windows_gc
  gc-Keeps p log b =
      if_both (λ (r : WindowsProcess × List WindowsCall). Keeps given r.0 r.1) p.closed b
        (no_streams none (collect_proc p.proc (streams_closed p log)) (
          collect_proc-Balance p.proc (λ n. 0) (streams_closed p log)
            (streams_closed-Balance p log b)))
