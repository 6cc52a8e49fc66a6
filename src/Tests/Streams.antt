-- ===== src/Tests/Streams.antt =====
-- Files and processes.
use bernardx.Base.{
  ℕ, ◌≡◌, ◌≤◌, refl, ◌⊎◌, pos, true, false, none, some, [], ◌∷◌, ◌++◌, Bytes, codes, lookup, has,
  ◌||◌, is_empty, arith, List,
}
use bernardx.Base.Split.{all_bytes}
use bernardx.Value.{string}
use bernardx.Runtime.Pending.{pre_yield}
use bernardx.AsyncIo.Reader.{
  resumes, reads_all, Arrival, parse_read_fmt, read_bytes, read_all, begin_read, text_or_nil,
  abandons, strip_trailing_newline,
}
use bernardx.AsyncIo.Runs.{read_lines, delivered, joined}
use bernardx.AsyncIo.Lines.{read_lines-Lines, line_read}
use bernardx.AsyncIo.Counts.{read_bytes-conserves, Reads}
use bernardx.AsyncIo.Files.{
  FileHandle, file_read, file_read_arrived, file_close, present, yields_read,
}
use bernardx.AsyncIo.Parked.{closed_read-parked}
use bernardx.AsyncIo.Owned.{closings, OnlyBefore}
use bernardx.AsyncIo.Processes.{process_kill, process_close}
use bernardx.AsyncIo.Exec.{Pipe, in_child, in_parent, async_exec, started_process}
use bernardx.AsyncIo.Inherited.{
  AreNew, owned_by, async_exec-descriptors, async_exec-inherited, inherited,
}
use bernardx.AsyncIo.Calls.{World, start, next, kills, closes, Calls-OnlyBefore, with_all, rest3}
use bernardx.Tests.Toy.{fresh}

abbrev piece : Bytes → Arrival
piece s = record { failed = false; bytes = s }

abbrev eof : Arrival
eof = record { failed = true; bytes = [] }

-- Two lines and a rest, cut in the middle of the second line.
read_lines-Lines_example :
    read_lines 3
      (codes "a")
      (piece (13 ∷ 10 ∷ codes "b") ∷ piece (codes "c" ++ (10 ∷ codes "d")) ∷ eof ∷ [])
    ≡ line_read (codes "a" ++ (13 ∷ []))
      ∷ line_read (codes "bc")
      ∷ resumes (text_or_nil (strip_trailing_newline (codes "d")))
      ∷ []
unfolding all_bytes delivered joined is_empty
read_lines-Lines_example =
    read_lines-Lines ((codes "a" ++ (13 ∷ [])) ∷ codes "bc" ∷ []) (codes "d") (codes "a")
      (piece (13 ∷ 10 ∷ codes "b") ∷ piece (codes "c" ++ (10 ∷ codes "d")) ∷ []) [] eof
      (refl, (refl, tt)) refl ((refl, refl), ((refl, refl), tt)) refl refl

read_bytes-conserves_example :
    Reads
      (λ n. true)
      3
      (codes "a")
      (piece (codes "b"))
      []
      (begin_read (λ n. true) (read_bytes 3) (codes "a"))
read_bytes-conserves_example =
    read_bytes-conserves (λ n. true) 3 (codes "a") (piece (codes "b")) [] refl (omega arith)

abbrev pipe_one : Pipe
pipe_one = record { read_fd = 5; write_fd = 6; read_end = 50; write_end = 60 }

abbrev pipe_two : Pipe
pipe_two = record { read_fd = 7; write_fd = 8; read_end = 70; write_end = 80 }

-- The standard streams of the parent, and a pipe to an earlier child.
abbrev table : List (ℕ × ℕ)
table = (0, 10) ∷ (1, 11) ∷ (2, 12) ∷ (4, 40) ∷ []

table-AreNew : AreNew pipe_one pipe_two table
unfolding has
table-AreNew = record {
  read_write = refl;
  read_read = refl;
  read_other = refl;
  write_read = refl;
  write_write = refl;
  second = refl;
  no_read = refl;
  no_write = refl;
  no_second_read = refl;
  no_second_write = refl;
}

async_exec-descriptors_example :
    has 6
      (async_exec
        (some false)
        (codes "ls")
        (some pipe_one)
        (some pipe_two)
        (in_parent (pos 9))
        table).1
    ≡ (owned_by
          (async_exec
            (some false)
            (codes "ls")
            (some pipe_one)
            (some pipe_two)
            (in_parent (pos 9))
            table).0
          6
        || has 6 table)
async_exec-descriptors_example =
    async_exec-descriptors (some false) (codes "ls") pipe_one pipe_two table table-AreNew 6 true
      true (in_parent (pos 9)) (λ e. cc)

async_exec-inherited_example :
    lookup 4 (async_exec (some false) (codes "ls") (some pipe_one) (some pipe_two) in_child table).1
    ≡ inherited pipe_one pipe_two table 4
async_exec-inherited_example =
    async_exec-inherited pipe_one pipe_two table table-AreNew (omega arith) (omega arith)
      (codes "ls") 4

abbrev begins : World ℕ
begins = record { handle = started_process (pos 9) 6 7 (codes "ls"); log = []; runtime = fresh }

abbrev killed : World ℕ
killed = record begins { log = (process_kill (λ p s. none) (pos 15) begins.handle begins.log).1 }

abbrev shut : World ℕ
shut = with_all (rest3 (process_close 1 killed.handle killed.log killed.runtime))

Calls-OnlyBefore_example :
    OnlyBefore (pos 9) shut.log
    × (closings 6 shut.log ≤ 1)
    × (closings 7 shut.log ≤ 1)
    × ((shut.handle.closed ≡ false) ⊎ ((closings 6 shut.log ≡ 1) × (closings 7 shut.log ≡ 1)))
Calls-OnlyBefore_example =
    Calls-OnlyBefore (pos 9) 6 7 (omega arith) refl (codes "ls") fresh shut
      (next (next start (kills (λ p s. none) (pos 15))) (closes 1))

abbrev text_file : FileHandle
text_file = record { sd = some 3; closed = false; path = codes "f"; read_buffer = codes "a" }

closed_read-parked_example :
    (file_read (λ x. none) (λ n. true) (some (string (codes "*a"))) 1 text_file fresh ≡ (
      yields_read (pre_yield 1 fresh).0 (reads_all (codes "a")),
      record text_file { read_buffer = [] },
      (pre_yield 1 fresh).1,
    ))
    × (lookup (pre_yield 1 fresh).0 (pre_yield 1 fresh).1.pending ≡ some 1)
    × (file_read_arrived
          (pre_yield 1 fresh).0
          (reads_all (codes "a"))
          eof
          (file_close (record text_file { read_buffer = [] }) []).1
          fresh
        ≡ (abandons, (file_close (record text_file { read_buffer = [] }) []).1, fresh))
unfolding parse_read_fmt begin_read present
closed_read-parked_example =
    closed_read-parked (λ x. none) (λ n. true) (some (string (codes "*a"))) read_all
      (reads_all (codes "a")) [] 1 text_file fresh [] eof fresh refl refl tt refl
