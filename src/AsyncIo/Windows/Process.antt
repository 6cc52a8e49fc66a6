-- ===== src/AsyncIo/Windows/Process.antt =====
-- The methods of the process handle of src/lua/async_io_library.cc on Windows, with their calls of the
-- system, the last one first.
use bernardx.Base.{
  ℕ, ℤ, pos, negsuc, to_int32, true, false, List, [], ◌∷◌, ◌++◌, Option, none, some, Bytes, codes,
  if◌then◌else◌,
}
use bernardx.Value.{LuaValue, boolean, integer, string}
use bernardx.Runtime.{Runtime, push_resume}
use bernardx.Runtime.Pending.{pre_yield}
use bernardx.AsyncIo.Files.{Outcome, returns, yields_wait}
use bernardx.AsyncIo.Windows.{WindowsProcess}

-- The calls of the system that a process handle makes.
pub data WindowsCall : Type 0 where
  closes_handle : ℕ → WindowsCall
  terminates : ℕ → WindowsCall
  waits_for : ℕ → WindowsCall

-- sd->close() and sd.reset() where there is a stream, or CloseHandle of a HANDLE that is not null.
unfoldable pub close_some : Option ℕ → List WindowsCall → List WindowsCall
close_some none log = log
close_some (some h) log = closes_handle h ∷ log

abbrev killed : Option Bytes → List LuaValue
killed none = boolean true ∷ []
killed (some error) = boolean false ∷ string (codes "kill failed: " ++ error) ∷ []

abbrev pub kill_proc : (ℕ → Option Bytes) → Option ℕ → List WindowsCall → Outcome × List WindowsCall
kill_proc terminate none log =
    (returns (boolean false ∷ string (codes "no process to kill") ∷ []), log)
kill_proc terminate (some h) log = (returns (killed (terminate h)), terminates h ∷ log)

-- process_kill: `terminate` answers for TerminateProcess with a message or none.
unfoldable pub windows_kill :
    (ℕ → Option Bytes) → WindowsProcess → List WindowsCall → Outcome × List WindowsCall
windows_kill terminate p log =
    if p.closed
    then (returns (boolean false ∷ string (codes "process is closed") ∷ []), log)
    else kill_proc terminate p.proc log

-- process_shutdown
unfoldable pub windows_shutdown :
    WindowsProcess → List WindowsCall → Outcome × WindowsProcess × List WindowsCall
unfolding close_some
windows_shutdown p log =
    (returns (boolean true ∷ []), record p { stdin_sd = none }, close_some p.stdin_sd log)

abbrev pub collect_proc : Option ℕ → List WindowsCall → List WindowsCall
collect_proc none log = log
collect_proc (some h) log = closes_handle h ∷ terminates h ∷ log

-- process_gc
unfoldable pub windows_gc : WindowsProcess → List WindowsCall → WindowsProcess × List WindowsCall
unfolding close_some
windows_gc p log = if p.closed then (p, log) else (
  record p { closed = true; stdin_sd = none; stdout_sd = none; proc = none },
  collect_proc p.proc (close_some p.stdout_sd (close_some p.stdin_sd log)),
)

-- The exit code by what GetExitCodeProcess gives.
abbrev exit_code : Option ℕ → ℤ
exit_code none = negsuc 0
exit_code (some code) = to_int32 (pos code)

module _ {S : Type 0} where
  abbrev pub close_proc :
      ℕ
      → Option ℕ
      → WindowsProcess
      → List WindowsCall
      → Runtime S
      → Outcome × WindowsProcess × List WindowsCall × Runtime S
  close_proc co none p log rt = (returns (integer (pos 0) ∷ []), p, log, rt)
  close_proc co (some proc) p log rt =
      let (h, rt') = pre_yield co rt in
      (yields_wait h, record p { posted = p.posted ++ (h ∷ []) }, log, rt')

  -- process_close, up to the closure that it posts.
  unfoldable pub windows_close :
      ℕ
      → WindowsProcess
      → List WindowsCall
      → Runtime S
      → Outcome × WindowsProcess × List WindowsCall × Runtime S
  unfolding close_some pre_yield
  windows_close co p log rt =
      if p.closed
      then (returns (integer (pos 0) ∷ []), p, log, rt)
      else close_proc co p.proc
          (record p { closed = true; stdin_sd = none; stdout_sd = none; read_buffer = [] })
          (close_some p.stdout_sd (close_some p.stdin_sd log)) rt

  abbrev pub wait_proc :
      (ℕ → Option ℕ)
      → ℕ
      → Option ℕ
      → WindowsProcess
      → List WindowsCall
      → Runtime S
      → WindowsProcess × List WindowsCall × Runtime S
  wait_proc exits h none p log rt = (p, log, push_resume h (integer (pos 0) ∷ []) rt)
  wait_proc exits h (some proc) p log rt = (
    p,
    closes_handle proc ∷ waits_for proc ∷ log,
    push_resume h (integer (exit_code (exits proc)) ∷ []) rt,
  )

  abbrev pub wait_posted :
      (ℕ → Option ℕ)
      → List ℕ
      → WindowsProcess
      → List WindowsCall
      → Runtime S
      → WindowsProcess × List WindowsCall × Runtime S
  wait_posted exits [] p log rt = (p, log, rt)
  wait_posted exits (h ∷ hs) p log rt =
      wait_proc exits h p.proc (record p { proc = none; posted = hs }) log rt

  -- The closure: `exits` answers for GetExitCodeProcess.
  unfoldable pub windows_wait :
      (ℕ → Option ℕ)
      → WindowsProcess
      → List WindowsCall
      → Runtime S
      → WindowsProcess × List WindowsCall × Runtime S
  unfolding push_resume
  windows_wait exits p log rt = wait_posted exits p.posted p log rt
