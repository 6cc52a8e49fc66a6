-- ===== src/AsyncIo/Reader.antt =====
-- What a read of a file or a process does: parse_read_fmt, do_read_line and the switch that
-- file_read and process_read share (src/lua/async_io_library.cc).
use bernardx.Base.{
  ℕ, ◌-◌, ℤ, Bool, true, false, ◌||◌, List, [], ◌∷◌, ◌++◌, Option, none, some, Bytes, codes,
  bytes_eq, is_empty, length, leb, ◌==◌, residue, take, drop, if◌then◌else◌,
}
use bernardx.Base.Split.{break_at}
use bernardx.Value.{LuaValue, nil, boolean, integer, number, string, ref}
use bernardx.Runtime.{Runtime, push_resume}

-- ReadMode with the byte_count of ReadSpec.
pub data ReadSpec : Type 0 where
  read_all : ReadSpec
  read_line : ReadSpec
  read_bytes : ℕ → ReadSpec

-- What parse_read_fmt returns, or raises: its own error, or one of luaL_check*.
pub data ParsedFormat : Type 0 where
  parsed : ReadSpec → ParsedFormat
  invalid : Bytes → ParsedFormat
  bad_argument : ParsedFormat

-- What a C++ string passed as a C string is for its reader.
unfoldable pub c_str : Bytes → Bytes
unfolding break_at
c_str s = (break_at (λ c. c == 0) s).0

-- luaL_checkinteger, then static_cast<size_t>.
abbrev counted : Option ℤ → ParsedFormat
counted none = bad_argument
counted (some n) = parsed (read_bytes (residue 64 n))

abbrev named_format : Bytes → ParsedFormat
named_format fmt =
    if bytes_eq fmt (codes "*a")
    then parsed read_all
    else if bytes_eq fmt (codes "*l")
    then parsed read_line
    else invalid (codes "invalid read format '" ++ (fmt ++ codes "'"))

-- parse_read_fmt: `none` is no argument, and `to_integer` reads the bits of a double that Lua
-- takes for an integer.
unfoldable pub parse_read_fmt : (ℕ → Option ℤ) → Option LuaValue → ParsedFormat
unfolding c_str bytes_eq residue
parse_read_fmt to_integer none = parsed read_line
parse_read_fmt to_integer (some nil) = parsed read_line
parse_read_fmt to_integer (some (integer n)) = counted (some n)
parse_read_fmt to_integer (some (number x)) = counted (to_integer x)
parse_read_fmt to_integer (some (string s)) = named_format (c_str s)
parse_read_fmt to_integer (some (boolean b)) = bad_argument
parse_read_fmt to_integer (some (ref r t)) = bad_argument

-- strip_trailing_newline: a byte goes if it is a newline or a return and all after it went.
unfoldable pub strip_trailing_newline : Bytes → Bytes
unfolding is_empty
strip_trailing_newline [] = []
strip_trailing_newline (c ∷ s) =
    let rest = strip_trailing_newline s in
    if is_empty rest then if c == 10 || c == 13 then [] else c ∷ [] else c ∷ rest

-- What a read waits for or does next.
pub data Action : Type 0 where
  -- PushResume with these values.
  resumes : List LuaValue → Action
  -- async_read_some
  reads_some : Action
  -- async_read to the end of the stream, behind these bytes.
  reads_all : Bytes → Action
  -- async_read of so many bytes, behind these bytes.
  reads_rest : Bytes → ℕ → Action
  -- The completion finds the handle closed and returns.
  abandons : Action
  -- buf->resize throws.
  throws : Action

abbrev cut_line : Bytes → Bytes → Option (Bytes × Bytes)
cut_line line [] = none
cut_line line (newline ∷ rest) = some (strip_trailing_newline line, rest)

-- read_buffer.find('\n'): the line before it, stripped, and the buffer after it.
unfoldable pub find_line : Bytes → Option (Bytes × Bytes)
unfolding strip_trailing_newline break_at
find_line buffer = let found = break_at (λ c. c == 10) buffer in cut_line found.0 found.1

-- do_read_line: what is next, and the handle's read_buffer.
unfoldable pub do_read_line : Bytes → Action × Bytes
unfolding find_line
do_read_line buffer = elim (find_line buffer) [
  | some (line, rest) ↦ (resumes (string line ∷ []), rest)
  | none ↦ (reads_some, buffer)
]

-- A string, or nil for an empty one.
abbrev pub text_or_nil : Bytes → List LuaValue
text_or_nil [] = nil ∷ []
text_or_nil (c ∷ s) = string (c ∷ s) ∷ []

-- What a completion is called with: whether `ec` is set, and the bytes that it transferred.
pub record Arrival : Type 0 where
  pub failed : Bool
  pub bytes : Bytes

-- The completion of async_read_some in do_read_line, of an open handle.
unfoldable pub line_arrived : Arrival → Bytes → Action × Bytes
unfolding find_line do_read_line is_empty
line_arrived a buffer =
    if a.failed || is_empty a.bytes
    then (resumes (text_or_nil (strip_trailing_newline buffer)), [])
    else elim (find_line (buffer ++ a.bytes)) [
      | some (line, rest) ↦ (resumes (string line ∷ []), rest)
      | none ↦ do_read_line (buffer ++ a.bytes)
    ]

-- The switch of file_read and process_read: `resizable` says which sizes buf->resize accepts.
unfoldable pub begin_read : (ℕ → Bool) → ReadSpec → Bytes → Action × Bytes
unfolding do_read_line
begin_read resizable read_all buffer = (reads_all buffer, [])
begin_read resizable read_line buffer = do_read_line buffer
begin_read resizable (read_bytes count) buffer =
    if count == 0
    then (resumes (string [] ∷ []), buffer)
    else if leb count (length buffer)
    then (resumes (string (take count buffer) ∷ []), drop count buffer)
    else if resizable count
    then (reads_rest buffer (count - length buffer), [])
    else (throws, [])

-- The completions: `closed` is the handle's flag.
unfoldable pub complete_read : Bool → Action → Arrival → Bytes → Action × Bytes
unfolding line_arrived
complete_read true action a buffer = (abandons, buffer)
complete_read false reads_some a buffer = line_arrived a buffer
complete_read false (reads_all before) a buffer =
    (resumes (text_or_nil (before ++ a.bytes)), buffer)
complete_read false (reads_rest before rest) a buffer =
    (resumes (text_or_nil (before ++ a.bytes)), buffer)
complete_read false action a buffer = (action, buffer)

-- The call of PushResume, for the coroutine that is parked under the handle.
unfoldable pub perform : {S : Type 0} → ℕ → Action → Runtime S → Runtime S
unfolding push_resume
perform h (resumes vs) rt = push_resume h vs rt
perform h action rt = rt
