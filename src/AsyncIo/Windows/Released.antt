-- ===== src/AsyncIo/Windows/Released.antt =====
-- What the process handle of src/lua/async_io_library.cc does on Windows with the HANDLEs that exec
-- gave it, over any history of its methods, its collection and the closure of close.
use bernardx.Base.{ℕ, ◌+◌, ◌≡◌, true, List, [], ◌∷◌, Option, none, some, Bytes, if_both, arith}
use bernardx.Runtime.{Runtime}
use bernardx.AsyncIo.Files.{Outcome}
use bernardx.AsyncIo.Windows.{WindowsProcess}
use bernardx.AsyncIo.Windows.Process.{
  WindowsCall, windows_kill, windows_shutdown, windows_gc, windows_close, windows_wait, close_proc,
  wait_proc, wait_posted,
}
use bernardx.AsyncIo.Windows.Handles.{one_of}
use bernardx.AsyncIo.Windows.Balance.{
  closed_times, UsedOpen, Balance, streams, Keeps, streams_closed, is_open, kill-Keeps,
  shutdown-Keeps, gc-Keeps, no_streams, streams_closed-Balance,
}

-- A process handle in use.
pub record InUse (S : Type 0) : Type 0 where
  pub process : WindowsProcess
  pub log : List WindowsCall
  pub runtime : Runtime S

-- A call of a method of a script on some coroutine, the collection, or the closure that close posted.
pub data Use : Type 0 where
  kills : (ℕ → Option Bytes) → Use
  shuts : Use
  closes : ℕ → Use
  collects : Use
  ends : (ℕ → Option ℕ) → Use

module _ {S : Type 0} where
  abbrev pub use_process : Use → InUse S → InUse S
  use_process (kills terminate) u = record u { log = (windows_kill terminate u.process u.log).1 }
  use_process shuts u =
      let (outcome, p, log) = windows_shutdown u.process u.log in
      record u { process = p; log = log }
  use_process (closes co) u =
      let (outcome, p, log, rt) = windows_close co u.process u.log u.runtime in
      record { process = p; log = log; runtime = rt }
  use_process collects u =
      let (p, log) = windows_gc u.process u.log in record u { process = p; log = log }
  use_process (ends exits) u =
      let (p, log, rt) = windows_wait exits u.process u.log u.runtime in
      record { process = p; log = log; runtime = rt }

  abbrev pub use_each : List Use → InUse S → InUse S
  use_each [] u = u
  use_each (x ∷ xs) u = use_each xs (use_process x u)

module _ {S : Type 0} (given : ℕ → ℕ) where
  abbrev Leaves : WindowsProcess × List WindowsCall × Runtime S → Type 0
  Leaves (p, log, rt) = Keeps given p log

  abbrev LeavesAfter : Outcome × WindowsProcess × List WindowsCall × Runtime S → Type 0
  LeavesAfter (outcome, p, log, rt) = Keeps given p log

  close_proc-Keeps :
      (co : ℕ) (proc : Option ℕ) (p : WindowsProcess) (log : List WindowsCall) (rt : Runtime S)
      → Keeps given p log
      → LeavesAfter (close_proc co proc p log rt)
  close_proc-Keeps co none p log rt b = b
  close_proc-Keeps co (some h) p log rt b = b

  close-Keeps :
      (co : ℕ) (p : WindowsProcess) (log : List WindowsCall) (rt : Runtime S)
      → Keeps given p log
      → LeavesAfter (windows_close co p log rt)
  unfolding windows_close
  close-Keeps co p log rt b = if_both LeavesAfter p.closed b (
      close_proc-Keeps co p.proc
        (record p { closed = true; stdin_sd = none; stdout_sd = none; read_buffer = [] })
        (streams_closed given p log) rt
        (no_streams given p.proc (streams_closed given p log)
          (streams_closed-Balance given p log b)))

  wait_proc-Keeps :
      (exits : ℕ → Option ℕ) (h : ℕ) (hs : List ℕ) (proc : Option ℕ) (p : WindowsProcess)
      (log : List WindowsCall) (rt : Runtime S)
      → Balance given proc (streams p) log
      → Leaves (wait_proc exits h proc (record p { proc = none; posted = hs }) log rt)
  unfolding closed_times one_of
  wait_proc-Keeps exits h hs none p log rt b = b
  wait_proc-Keeps exits h hs (some proc) p log rt b =
      (λ n. omega (arith, b.0 n), (is_open given proc (streams p) log b, b.1))

  wait_posted-Keeps :
      (exits : ℕ → Option ℕ) (hs : List ℕ) (p : WindowsProcess) (log : List WindowsCall)
      (rt : Runtime S)
      → Keeps given p log
      → Leaves (wait_posted exits hs p log rt)
  wait_posted-Keeps exits [] p log rt b = b
  wait_posted-Keeps exits (h ∷ hs) p log rt b = wait_proc-Keeps exits h hs p.proc p log rt b

  use_process-Keeps :
      (x : Use) (u : InUse S)
      → Keeps given u.process u.log
      → Keeps given (use_process x u).process (use_process x u).log
  unfolding windows_wait
  use_process-Keeps (kills terminate) u b = kill-Keeps given terminate u.process u.log b
  use_process-Keeps shuts u b = shutdown-Keeps given u.process u.log b
  use_process-Keeps (closes co) u b = close-Keeps co u.process u.log u.runtime b
  use_process-Keeps collects u b = gc-Keeps given u.process u.log b
  use_process-Keeps (ends exits) u b =
      wait_posted-Keeps exits u.process.posted u.process u.log u.runtime b

  use_each-Keeps :
      (xs : List Use) (u : InUse S)
      → Keeps given u.process u.log
      → Keeps given (use_each xs u).process (use_each xs u).log
  use_each-Keeps [] u b = b
  use_each-Keeps (x ∷ xs) u b = use_each-Keeps xs (use_process x u) (use_process-Keeps x u b)

-- How often a process handle has a HANDLE.
abbrev pub held : WindowsProcess → ℕ → ℕ
held p n = one_of p.proc n + streams p n

-- From a handle that has made no call, over any history of kill, shutdown, close, collection and the
-- closures that close posted, in any order: each HANDLE was closed exactly as often as the handle
-- had it and has it no more, and a process was terminated or waited for only by a HANDLE that was
-- closed less often than it was given.
pub use_each-closes :
    {S : Type 0} (xs : List Use) (p : WindowsProcess) (rt : Runtime S)
    → let u = use_each xs (record { process = p; log = []; runtime = rt }) in
      ((n : ℕ) → closed_times n u.log + held u.process n ≡ held p n) × UsedOpen (held p) u.log
unfolding closed_times
use_each-closes xs p rt =
    use_each-Keeps (held p) xs (record { process = p; log = []; runtime = rt })
      (λ n. omega arith, tt)
