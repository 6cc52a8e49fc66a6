-- ===== src/AsyncIo/Processes.antt =====
-- The process handle of src/lua/async_io_library.cc: ProcessHandle and its methods, with their
-- completions. What kill and waitpid answer is an argument.
use bernardx.Base.{
  ℕ, zero, suc, ℤ, pos, negsuc, Bool, true, false, not, ◌||◌, ltb, List, [], ◌∷◌, ◌++◌, Option,
  none, some, Bytes, codes, if◌then◌else◌,
}
use bernardx.Value.{LuaValue, nil, boolean, integer, string}
use bernardx.Runtime.{Runtime, push_resume}
use bernardx.Runtime.Pending.{pre_yield}
use bernardx.AsyncIo.Reader.{Action, Arrival, complete_read, perform}
use bernardx.AsyncIo.Files.{
  SystemCall, signals, reaps, Outcome, returns, yields_wait, present, start_read, start_write,
  close_sd,
}

-- ProcessHandle. `posted` has the closures that process_close has posted and that have not run.
pub record ProcessHandle : Type 0 where
  pub pid : ℤ
  pub stdin_sd : Option ℕ
  pub stdout_sd : Option ℕ
  pub closed : Bool
  pub cmd : Bytes
  pub read_buffer : Bytes
  pub posted : List ℕ

-- pid > 0
abbrev pub is_positive : ℤ → Bool
is_positive (pos n) = ltb 0 n
is_positive (negsuc n) = false

abbrev pub sigterm : ℤ
sigterm = pos 15

-- How async_write ended.
pub data Written : Type 0 where
  written : Written
  broken_pipe : Written
  write_failed : Bytes → Written

-- What waitpid reports: its error, WIFEXITED with the status, WIFSIGNALED with the signal, or neither.
pub data WaitStatus : Type 0 where
  wait_failed : Bytes → WaitStatus
  exited : ℕ → WaitStatus
  signaled : ℕ → WaitStatus
  changed : WaitStatus

abbrev minus : ℕ → ℤ
minus zero = pos 0
minus (suc n) = negsuc n

-- What the closure of process_close resumes with.
unfoldable pub exit_values : WaitStatus → List LuaValue
exit_values (wait_failed error) =
    integer (negsuc 0) ∷ string (codes "waitpid failed: " ++ error) ∷ []
exit_values (exited code) = integer (pos code) ∷ []
exit_values (signaled sig) = integer (minus sig) ∷ []
exit_values changed = integer (negsuc 0) ∷ []

-- What the completion of process_write resumes with.
abbrev write_values : Written → List LuaValue
write_values written = boolean true ∷ []
write_values broken_pipe = nil ∷ string (codes "broken pipe") ∷ []
write_values (write_failed message) = nil ∷ string (codes "write error: " ++ message) ∷ []

module _ {S : Type 0} where
  -- process_read
  unfoldable pub process_read :
      (ℕ → Option ℤ)
      → (ℕ → Bool)
      → Option LuaValue
      → ℕ
      → ProcessHandle
      → Runtime S
      → Outcome × ProcessHandle × Runtime S
  unfolding start_read present
  process_read to_integer resizable fmt co p rt =
      let (outcome, buffer, rt') =
        start_read to_integer resizable (codes "process is closed")
          (not (p.closed || not (present p.stdout_sd))) fmt co p.read_buffer rt in
      (outcome, record p { read_buffer = buffer }, rt')

  unfoldable pub process_read_arrived :
      ℕ → Action → Arrival → ProcessHandle → Runtime S → Action × ProcessHandle × Runtime S
  unfolding complete_read perform
  process_read_arrived h action a p rt =
      let (action', buffer) = complete_read p.closed action a p.read_buffer in
      (action', record p { read_buffer = buffer }, perform h action' rt)

  -- process_write
  unfoldable pub process_write :
      Option Bytes → ℕ → ProcessHandle → Runtime S → Outcome × ProcessHandle × Runtime S
  unfolding start_write present
  process_write text co p rt =
      let (outcome, rt') =
        start_write (codes "process stdin is closed") (not (p.closed || not (present p.stdin_sd)))
          text co rt in
      (outcome, p, rt')

  unfoldable pub process_written : ℕ → Written → ProcessHandle → Runtime S → Runtime S
  unfolding push_resume
  process_written h w p rt = if p.closed then rt else push_resume h (write_values w) rt

  -- process_close, up to the closure that it posts.
  unfoldable pub process_close :
      ℕ
      → ProcessHandle
      → List SystemCall
      → Runtime S
      → Outcome × ProcessHandle × List SystemCall × Runtime S
  unfolding close_sd pre_yield
  process_close co p log rt =
      let p' = record p { closed = true; stdin_sd = none; stdout_sd = none; read_buffer = [] } in
      let log' = close_sd p.stdout_sd (close_sd p.stdin_sd log) in
      if p.closed
      then (returns (integer (pos 0) ∷ []), p, log, rt)
      else if is_positive p.pid
      then (let (h, rt') = pre_yield co rt in
          (yields_wait h, record p' { posted = p.posted ++ (h ∷ []) }, log', rt'))
      else (returns (integer (pos 0) ∷ []), p', log', rt)

  -- The closure: `waitpid` answers for a process.
  abbrev pub reap :
      (ℤ → WaitStatus)
      → List ℕ
      → ProcessHandle
      → List SystemCall
      → Runtime S
      → ProcessHandle × List SystemCall × Runtime S
  reap waitpid [] p log rt = (p, log, rt)
  reap waitpid (h ∷ hs) p log rt = (
    record p { pid = negsuc 0; posted = hs },
    reaps p.pid ∷ log,
    push_resume h (exit_values (waitpid p.pid)) rt,
  )

  unfoldable pub process_wait :
      (ℤ → WaitStatus)
      → ProcessHandle
      → List SystemCall
      → Runtime S
      → ProcessHandle × List SystemCall × Runtime S
  unfolding push_resume exit_values
  process_wait waitpid p log rt = reap waitpid p.posted p log rt

abbrev kill_values : Option Bytes → List LuaValue
kill_values none = boolean true ∷ []
kill_values (some error) = boolean false ∷ string (codes "kill failed: " ++ error) ∷ []

-- process_kill: `kill` answers with an error message or none.
unfoldable pub process_kill :
    (ℤ → ℤ → Option Bytes) → ℤ → ProcessHandle → List SystemCall → Outcome × List SystemCall
process_kill kill sig p log =
    if p.closed
    then (returns (boolean false ∷ string (codes "process is closed") ∷ []), log)
    else if is_positive p.pid
    then (returns (kill_values (kill p.pid sig)), signals p.pid sig ∷ log)
    else (returns (boolean false ∷ string (codes "no process to kill") ∷ []), log)

-- process_shutdown
unfoldable pub process_shutdown :
    ProcessHandle → List SystemCall → Outcome × ProcessHandle × List SystemCall
unfolding close_sd
process_shutdown p log =
    (returns (boolean true ∷ []), record p { stdin_sd = none }, close_sd p.stdin_sd log)

-- process_gc: SIGTERM, and a waitpid that does not wait.
unfoldable pub process_gc : ProcessHandle → List SystemCall → ProcessHandle × List SystemCall
unfolding close_sd
process_gc p log =
    let p' = record p { closed = true; stdin_sd = none; stdout_sd = none } in
    let log' = close_sd p.stdout_sd (close_sd p.stdin_sd log) in
    if p.closed
    then (p, log)
    else if is_positive p.pid
    then (record p' { pid = negsuc 0 }, reaps p.pid ∷ signals p.pid sigterm ∷ log')
    else (p', log')
