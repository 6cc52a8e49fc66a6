-- ===== src/AsyncIo/Files.antt =====
-- The file handle of src/lua/async_io_library.cc: FileHandle, file_read, file_write, file_close and
-- file_gc, with the completions of the first two, and what is shared with processes: the calls
-- of the system and what a method returns.
use bernardx.Base.{
  ℕ, ℤ, Bool, true, false, not, ◌||◌, List, [], ◌∷◌, ◌++◌, Option, none, some, Bytes, codes,
  if◌then◌else◌,
}
use bernardx.Value.{LuaValue, nil, boolean, string}
use bernardx.Runtime.{Runtime, push_resume}
use bernardx.Runtime.Pending.{pre_yield}
use bernardx.AsyncIo.Reader.{
  Action, throws, Arrival, ParsedFormat, parsed, invalid, bad_argument, parse_read_fmt, begin_read,
  complete_read, perform,
}

-- The calls of the system that a handle makes.
pub data SystemCall : Type 0 where
  closes_fd : ℕ → SystemCall
  signals : ℤ → ℤ → SystemCall
  reaps : ℤ → SystemCall

-- How a method leaves: it returns values, raises an error of its own or of luaL_check*, throws a
-- C++ exception, or yields with what it has started, under the handle of the coroutine.
pub data Outcome : Type 0 where
  returns : List LuaValue → Outcome
  raises : Bytes → Outcome
  raises_argument : Outcome
  escapes : Outcome
  yields_read : ℕ → Action → Outcome
  yields_write : ℕ → Bytes → Outcome
  yields_wait : ℕ → Outcome

abbrev pub refusal : Bytes → Outcome
refusal message = returns (nil ∷ string message ∷ [])

abbrev yielded_read : ℕ → Action → Outcome
yielded_read h throws = escapes
yielded_read h action = yields_read h action

unfoldable pub present {ℓ} : {A : Type ℓ} → Option A → Bool
present none = false
present (some x) = true

-- PreYield was done, then the switch.
abbrev pub begun : {S : Type 0} → ℕ × Runtime S → Action × Bytes → Outcome × Bytes × Runtime S
begun (h, rt) (action, buffer) = (yielded_read h action, buffer, perform h action rt)

-- What file_read and process_read do: `usable` is their guard, `message` what they return else.
module _ {S : Type 0} (resizable : ℕ → Bool) (message : Bytes) where
  abbrev pub read_parsed : ParsedFormat → Bool → ℕ → Bytes → Runtime S → Outcome × Bytes × Runtime S
  read_parsed bad_argument usable co buffer rt = (raises_argument, buffer, rt)
  read_parsed (invalid error) usable co buffer rt = (raises error, buffer, rt)
  read_parsed (parsed spec) usable co buffer rt =
      if usable
      then begun (pre_yield co rt) (begin_read resizable spec buffer)
      else (refusal message, buffer, rt)

module _ {S : Type 0} (to_integer : ℕ → Option ℤ) (resizable : ℕ → Bool) (message : Bytes) where
  unfoldable pub start_read :
      Bool → Option LuaValue → ℕ → Bytes → Runtime S → Outcome × Bytes × Runtime S
  unfolding parse_read_fmt begin_read pre_yield perform
  start_read usable fmt co buffer rt =
      read_parsed resizable message (parse_read_fmt to_integer fmt) usable co buffer rt

module _ {S : Type 0} (message : Bytes) where
  -- file_write and process_write: `none` is an argument that is no string.
  unfoldable pub start_write : Bool → Option Bytes → ℕ → Runtime S → Outcome × Runtime S
  unfolding pre_yield
  start_write usable none co rt = (raises_argument, rt)
  start_write usable (some text) co rt =
      if usable
      then (let (h, rt') = pre_yield co rt in (yields_write h text, rt'))
      else (refusal message, rt)

-- FileHandle. `sd` is the descriptor of the stream.
pub record FileHandle : Type 0 where
  pub sd : Option ℕ
  pub closed : Bool
  pub path : Bytes
  pub read_buffer : Bytes

abbrev pub usable_file : FileHandle → Bool
usable_file f = not (f.closed || not (present f.sd))

module _ {S : Type 0} where
  -- file_read
  unfoldable pub file_read :
      (ℕ → Option ℤ)
      → (ℕ → Bool)
      → Option LuaValue
      → ℕ
      → FileHandle
      → Runtime S
      → Outcome × FileHandle × Runtime S
  unfolding start_read present
  file_read to_integer resizable fmt co f rt =
      let (outcome, buffer, rt') =
        start_read to_integer resizable (codes "file is closed") (usable_file f) fmt co
          f.read_buffer rt in
      (outcome, record f { read_buffer = buffer }, rt')

  -- A completion of what file_read started: what is started next.
  unfoldable pub file_read_arrived :
      ℕ → Action → Arrival → FileHandle → Runtime S → Action × FileHandle × Runtime S
  unfolding complete_read perform
  file_read_arrived h action a f rt =
      let (action', buffer) = complete_read f.closed action a f.read_buffer in
      (action', record f { read_buffer = buffer }, perform h action' rt)

  -- file_write
  unfoldable pub file_write :
      Option Bytes → ℕ → FileHandle → Runtime S → Outcome × FileHandle × Runtime S
  unfolding start_write present
  file_write text co f rt =
      let (outcome, rt') = start_write (codes "file is closed") (usable_file f) text co rt in
      (outcome, f, rt')

  -- The completion of async_write.
  unfoldable pub file_written : ℕ → Bool → FileHandle → Runtime S → Runtime S
  unfolding push_resume
  file_written h failed f rt =
      if f.closed
      then rt
      else if failed
      then push_resume h (nil ∷ string (codes "write error: " ++ f.path) ∷ []) rt
      else push_resume h (boolean true ∷ []) rt

-- sd->close() and sd.reset() where there is a stream: the calls that are made, the last one first.
unfoldable pub close_sd : Option ℕ → List SystemCall → List SystemCall
close_sd none log = log
close_sd (some fd) log = closes_fd fd ∷ log

-- file_close
unfoldable pub file_close : FileHandle → List SystemCall → Outcome × FileHandle × List SystemCall
unfolding close_sd
file_close f log = if f.closed then (returns (boolean true ∷ []), f, log) else (
  returns (boolean true ∷ []),
  record f { closed = true; sd = none; read_buffer = [] },
  close_sd f.sd log,
)

-- file_gc
unfoldable pub file_gc : FileHandle → List SystemCall → FileHandle × List SystemCall
unfolding close_sd
file_gc f log =
    if f.closed then (f, log) else (record f { closed = true; sd = none }, close_sd f.sd log)
