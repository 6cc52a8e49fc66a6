-- ===== src/AsyncIo/Exec.antt =====
-- async.open and async.exec of src/lua/async_io_library.cc, with Open and Close of the library. What
-- open, pipe and fork answer is an argument; a table of descriptors says what each stands for.
use bernardx.Base.{
  ℕ, ℤ, Bool, true, false, List, [], ◌∷◌, ◌++◌, Option, none, some, Bytes, codes, bytes_eq, lookup,
  insert, erase, if◌then◌else◌,
}
use bernardx.AsyncIo.Reader.{c_str}
use bernardx.AsyncIo.Files.{FileHandle}
use bernardx.AsyncIo.Processes.{ProcessHandle}

-- g_async_state, with its flag shutting_down; `none` before Open.
unfoldable pub library_open : Option Bool → Option Bool
library_open state = some false

unfoldable pub library_close : Option Bool → Option Bool
library_close none = none
library_close (some shutting_down) = some true

abbrev pub available : Option Bool → Bool
available (some false) = true
available state = false

-- What open and exec give: an error that they raise, nil with a message, or a handle; and in the
-- child of fork, its table at execl with the command.
pub data OpenResult : Type 0 where
  open_raises : Bytes → OpenResult
  open_refused : Bytes → OpenResult
  file_opened : FileHandle → OpenResult
  process_started : ProcessHandle → OpenResult
  child_runs : List (ℕ × ℕ) → Bytes → OpenResult

pub data OpenFlag : Type 0 where
  o_rdonly : OpenFlag
  o_wronly : OpenFlag
  o_rdwr : OpenFlag
  o_creat : OpenFlag
  o_trunc : OpenFlag
  o_append : OpenFlag

unfoldable pub open_flags : Bytes → Option (List OpenFlag)
unfolding bytes_eq
open_flags mode =
    if bytes_eq mode (codes "r")
    then some (o_rdonly ∷ [])
    else if bytes_eq mode (codes "w")
    then some (o_wronly ∷ o_creat ∷ o_trunc ∷ [])
    else if bytes_eq mode (codes "a")
    then some (o_wronly ∷ o_creat ∷ o_append ∷ [])
    else if bytes_eq mode (codes "r+")
    then some (o_rdwr ∷ [])
    else if bytes_eq mode (codes "w+")
    then some (o_rdwr ∷ o_creat ∷ o_trunc ∷ [])
    else none

abbrev pub shutting_down_error : Bytes
shutting_down_error = codes "async library is shutting down"

-- What open(2) answers: a descriptor, or the text of its error.
pub data OpenAnswer : Type 0 where
  descriptor : ℕ → OpenAnswer
  open_failed : Bytes → OpenAnswer

abbrev opened_as : Bytes → OpenAnswer → OpenResult
opened_as path (open_failed error) =
    open_refused (codes "cannot open file '" ++ (path ++ (codes "': " ++ error)))
opened_as path (descriptor fd) =
    file_opened (record { sd = some fd; closed = false; path = path; read_buffer = [] })

abbrev open_with :
    (Bytes → List OpenFlag → OpenAnswer) → Bytes → Bytes → Option (List OpenFlag) → OpenResult
open_with opens path mode none = open_raises (codes "invalid mode '" ++ (mode ++ codes "'"))
open_with opens path mode (some flags) = opened_as path (opens path flags)

abbrev pub mode_or_r : Option Bytes → Bytes
mode_or_r none = codes "r"
mode_or_r (some mode) = c_str mode

-- async_open: `none` is no mode.
unfoldable pub async_open :
    (Bytes → List OpenFlag → OpenAnswer) → Option Bool → Bytes → Option Bytes → OpenResult
unfolding c_str open_flags
async_open opens state path mode =
    if available state
    then open_with opens (c_str path) (mode_or_r mode) (open_flags (mode_or_r mode))
    else open_raises shutting_down_error

-- A pipe: the descriptors that pipe(2) gives, [0] to read and [1] to write, and what they stand for.
pub record Pipe : Type 0 where
  pub read_fd : ℕ
  pub write_fd : ℕ
  pub read_end : ℕ
  pub write_end : ℕ

abbrev add_pipe : Pipe → List (ℕ × ℕ) → List (ℕ × ℕ)
add_pipe p fds = insert p.write_fd p.write_end (insert p.read_fd p.read_end fds)

abbrev close_pipe : Pipe → List (ℕ × ℕ) → List (ℕ × ℕ)
close_pipe p fds = erase p.write_fd (erase p.read_fd fds)

-- What fork answers: its failure, zero in the child, or the child's number.
pub data Forked : Type 0 where
  fork_failed : Forked
  in_child : Forked
  in_parent : ℤ → Forked

abbrev copied : ℕ → Option ℕ → List (ℕ × ℕ) → List (ℕ × ℕ)
copied target none fds = fds
copied target (some it) fds = insert target it fds

-- dup2(fd, target)
unfoldable pub dup2 : ℕ → ℕ → List (ℕ × ℕ) → List (ℕ × ℕ)
dup2 fd target fds = copied target (lookup fd fds) fds

-- The child of async_exec, up to execl.
unfoldable pub child_table : Pipe → Pipe → List (ℕ × ℕ) → List (ℕ × ℕ)
unfolding dup2
child_table stdin_pipe stdout_pipe fds =
    let ends = erase stdout_pipe.read_fd (erase stdin_pipe.write_fd fds) in
    let copies =
      dup2 stdout_pipe.write_fd 2 (dup2 stdout_pipe.write_fd 1 (dup2 stdin_pipe.read_fd 0 ends)) in
    erase stdout_pipe.write_fd (erase stdin_pipe.read_fd copies)

-- The handle that async_exec makes.
abbrev pub started_process : ℤ → ℕ → ℕ → Bytes → ProcessHandle
started_process pid stdin stdout cmd = record {
  pid = pid;
  stdin_sd = some stdin;
  stdout_sd = some stdout;
  closed = false;
  cmd = cmd;
  read_buffer = [];
  posted = [];
}

abbrev after_fork : Bytes → Pipe → Pipe → List (ℕ × ℕ) → Forked → OpenResult × List (ℕ × ℕ)
after_fork cmd stdin_pipe stdout_pipe fds fork_failed =
    (open_refused (codes "fork failed"), close_pipe stdout_pipe (close_pipe stdin_pipe fds))
after_fork cmd stdin_pipe stdout_pipe fds in_child =
    let fds' = child_table stdin_pipe stdout_pipe fds in (child_runs fds' cmd, fds')
after_fork cmd stdin_pipe stdout_pipe fds (in_parent pid) = (
  process_started (started_process pid stdin_pipe.write_fd stdout_pipe.read_fd cmd),
  erase stdout_pipe.write_fd (erase stdin_pipe.read_fd fds),
)

abbrev with_stdout : Bytes → Pipe → Option Pipe → Forked → List (ℕ × ℕ) → OpenResult × List (ℕ × ℕ)
with_stdout cmd stdin_pipe none fork fds =
    (open_refused (codes "pipe creation failed"), close_pipe stdin_pipe fds)
with_stdout cmd stdin_pipe (some stdout_pipe) fork fds =
    after_fork cmd stdin_pipe stdout_pipe (add_pipe stdout_pipe fds) fork

abbrev with_stdin :
    Bytes → Option Pipe → Option Pipe → Forked → List (ℕ × ℕ) → OpenResult × List (ℕ × ℕ)
with_stdin cmd none pipe' fork fds = (open_refused (codes "pipe creation failed"), fds)
with_stdin cmd (some stdin_pipe) pipe' fork fds =
    with_stdout cmd stdin_pipe pipe' fork (add_pipe stdin_pipe fds)

-- async_exec: what the two calls of pipe and the call of fork answer, and the descriptors.
unfoldable pub async_exec :
    Option Bool
    → Bytes
    → Option Pipe
    → Option Pipe
    → Forked
    → List (ℕ × ℕ)
    → OpenResult × List (ℕ × ℕ)
unfolding c_str child_table
async_exec state cmd stdin_pipe stdout_pipe fork fds =
    if available state
    then with_stdin (c_str cmd) stdin_pipe stdout_pipe fork fds
    else (open_raises shutting_down_error, fds)
