-- ===== src/AsyncIo/Windows.antt =====
-- The Windows branches of src/lua/async_io_library.cc: os_last_error, os_make_pipe, open and exec. The
-- child Process has the methods of the process handle. What the calls of the system answer is an argument, and a table has the open HANDLEs.
pub mod Process
pub mod Handles
pub mod Balance
pub mod Released
pub mod Modes
use bernardx.Base.{
  ℕ, ℤ, pos, negsuc, to_int32, Bool, true, false, not, ◌&&◌, ◌||◌, List, [], ◌∷◌, ◌++◌, Option,
  none, some, Bytes, codes, bytes_eq, is_empty, to_string, insert, erase, if◌then◌else◌, ◌==◌,
}
use bernardx.Value.{LuaValue, nil, boolean, integer, string}
use bernardx.Runtime.{Runtime, push_resume}
use bernardx.Runtime.Pending.{pre_yield}
use bernardx.AsyncIo.Reader.{c_str}
use bernardx.AsyncIo.Files.{Outcome, returns, yields_wait}
use bernardx.AsyncIo.Exec.{
  available, shutting_down_error, mode_or_r, OpenResult, open_raises, open_refused, file_opened,
}

abbrev trimmed : ℕ → Bool
trimmed c = (c == 10 || c == 13) || (c == b' ' || c == b'.')

-- The loop of os_last_error over the end of the message.
unfoldable pub trim_message : Bytes → Bytes
trim_message [] = []
trim_message (c ∷ s) =
    let rest = trim_message s in if trimmed c && is_empty rest then [] else c ∷ rest

-- os_last_error: what FormatMessageA gives for an error code, if anything.
unfoldable pub os_last_error : (ℕ → Option Bytes) → ℕ → Bytes
unfolding trim_message
os_last_error format code = elim (format code) [
  | some message ↦ trim_message message
  | none ↦ codes "error " ++ to_string (pos code)
]

-- A HANDLE that is made, or the error code.
pub data HandleAnswer : Type 0 where
  made : ℕ → HandleAnswer
  handle_refused : ℕ → HandleAnswer

-- OsPipe
pub record OsPipe : Type 0 where
  pub parent : ℕ
  pub child : ℕ

-- What os_make_pipe gives: the pipe, or its err.
pub data PipeAnswer : Type 0 where
  pipe_made : OsPipe → PipeAnswer
  pipe_refused : Bytes → PipeAnswer

-- CloseHandle, of the open HANDLEs.
unfoldable pub close_handle : ℕ → List ℕ → List ℕ
close_handle h [] = []
close_handle h (i ∷ hs) = let rest = close_handle h hs in if i == h then hs else i ∷ rest

-- ProcessHandle on Windows: the HANDLE of the process, and the closures that process_close posted.
pub record WindowsProcess : Type 0 where
  pub proc : Option ℕ
  pub stdin_sd : Option ℕ
  pub stdout_sd : Option ℕ
  pub closed : Bool
  pub cmd : Bytes
  pub read_buffer : Bytes
  pub posted : List ℕ

-- CreateProcessA: the HANDLEs of the process and its thread, or the error code.
pub data ProcessAnswer : Type 0 where
  process_made : ℕ → ℕ → ProcessAnswer
  process_refused : ℕ → ProcessAnswer

-- What exec gives: an error that it raises, nil with a message, or a handle.
pub data WindowsExec : Type 0 where
  exec_raises : Bytes → WindowsExec
  exec_refused : Bytes → WindowsExec
  exec_started : WindowsProcess → WindowsExec

-- CloseHandle of both ends.
abbrev close_ends : OsPipe → List ℕ → List ℕ
close_ends p hs = close_handle p.child (close_handle p.parent hs)

module _ (format : ℕ → Option Bytes) where
  -- os_make_pipe, by the answers of CreateNamedPipeA and CreateFileA.
  unfoldable pub os_make_pipe : HandleAnswer → HandleAnswer → List ℕ → PipeAnswer × List ℕ
  unfolding os_last_error close_handle
  os_make_pipe (handle_refused error) client hs =
      (pipe_refused (codes "CreateNamedPipe: " ++ os_last_error format error), hs)
  os_make_pipe (made server) (handle_refused error) hs = (
    pipe_refused (codes "pipe client: " ++ os_last_error format error),
    close_handle server (server ∷ hs),
  )
  os_make_pipe (made server) (made client) hs =
      (pipe_made (record { parent = server; child = client }), client ∷ server ∷ hs)

  abbrev with_process : Bytes → OsPipe → OsPipe → ProcessAnswer → List ℕ → WindowsExec × List ℕ
  with_process cmd stdin_pipe stdout_pipe (process_refused error) hs = (
    exec_refused (codes "CreateProcess failed: " ++ os_last_error format error),
    close_ends stdout_pipe (close_ends stdin_pipe hs),
  )
  with_process cmd stdin_pipe stdout_pipe (process_made proc thread) hs = (
    exec_started (record {
      proc = some proc;
      stdin_sd = some stdin_pipe.parent;
      stdout_sd = some stdout_pipe.parent;
      closed = false;
      cmd = cmd;
      read_buffer = [];
      posted = [];
    }),
    close_handle thread
        (close_handle stdout_pipe.child (close_handle stdin_pipe.child (thread ∷ proc ∷ hs))),
  )

  abbrev with_stdout_pipe :
      Bytes → OsPipe → ProcessAnswer → PipeAnswer × List ℕ → WindowsExec × List ℕ
  with_stdout_pipe cmd stdin_pipe process (pipe_refused error, hs) =
      (exec_refused (codes "pipe creation failed: " ++ error), close_ends stdin_pipe hs)
  with_stdout_pipe cmd stdin_pipe process (pipe_made stdout_pipe, hs) =
      with_process cmd stdin_pipe stdout_pipe process hs

  abbrev with_stdin_pipe :
      Bytes
      → HandleAnswer
      → HandleAnswer
      → ProcessAnswer
      → PipeAnswer × List ℕ
      → WindowsExec × List ℕ
  with_stdin_pipe cmd server client process (pipe_refused error, hs) =
      (exec_refused (codes "pipe creation failed: " ++ error), hs)
  with_stdin_pipe cmd server client process (pipe_made stdin_pipe, hs) =
      with_stdout_pipe cmd stdin_pipe process (os_make_pipe server client hs)

  -- async_exec: what the calls for the pipe of stdin, for that of stdout and CreateProcessA answer.
  unfoldable pub windows_exec :
      Option Bool
      → Bytes
      → HandleAnswer × HandleAnswer
      → HandleAnswer × HandleAnswer
      → ProcessAnswer
      → List ℕ
      → WindowsExec × List ℕ
  unfolding os_make_pipe c_str
  windows_exec state cmd (server, client) (server', client') process hs =
      if available state
      then with_stdin_pipe (c_str cmd) server' client' process (os_make_pipe server client hs)
      else (exec_raises shutting_down_error, hs)

-- The desired access and the disposition of CreateFileA.
pub data Access : Type 0 where
  generic_read : Access
  generic_write : Access
  file_append_data : Access

pub data Disposition : Type 0 where
  open_existing : Disposition
  create_always : Disposition
  open_always : Disposition

unfoldable pub windows_mode : Bytes → Option (List Access × Disposition)
unfolding bytes_eq
windows_mode mode =
    if bytes_eq mode (codes "r")
    then some (generic_read ∷ [], open_existing)
    else if bytes_eq mode (codes "w")
    then some (generic_write ∷ [], create_always)
    else if bytes_eq mode (codes "a")
    then some (file_append_data ∷ [], open_always)
    else if bytes_eq mode (codes "r+")
    then some (generic_read ∷ generic_write ∷ [], open_existing)
    else if bytes_eq mode (codes "w+")
    then some (generic_read ∷ generic_write ∷ [], create_always)
    else none

module _ (format : ℕ → Option Bytes) where
  abbrev opened_handle : Bytes → HandleAnswer → OpenResult
  opened_handle path (made h) =
      file_opened (record { sd = some h; closed = false; path = path; read_buffer = [] })
  opened_handle path (handle_refused error) =
      open_refused
        (codes "cannot open file '" ++ (path ++ (codes "': " ++ os_last_error format error)))

  abbrev create_file :
      (Bytes → List Access → Disposition → HandleAnswer)
      → Bytes
      → Bytes
      → Option (List Access × Disposition)
      → OpenResult
  create_file creates path mode none = open_raises (codes "invalid mode '" ++ (mode ++ codes "'"))
  create_file creates path mode (some (access, disposition)) =
      opened_handle path (creates path access disposition)

  -- async_open: `creates` answers for CreateFileA, and no mode is none.
  unfoldable pub windows_open :
      (Bytes → List Access → Disposition → HandleAnswer)
      → Option Bool
      → Bytes
      → Option Bytes
      → OpenResult
  unfolding c_str windows_mode os_last_error
  windows_open creates state path mode =
      if available state
      then create_file creates (c_str path) (mode_or_r mode) (windows_mode (mode_or_r mode))
      else open_raises shutting_down_error
