-- ===== src/AsyncIo/Lines.antt =====
-- What a script reads by read("*l") of src/lua/async_io_library.cc.
use bernardx.Base.{ℕ, suc, ◌≡◌, refl, ap, ◌∙◌, ◌⊎◌, true, List, [], ◌∷◌, ◌++◌, map, Bytes, length}
use bernardx.Value.{LuaValue, string}
use bernardx.AsyncIo.Reader.{
  Action, resumes, Arrival, find_line, strip_trailing_newline, text_or_nil,
}
use bernardx.AsyncIo.Runs.{
  run_read_line, read_lines, AllData, IsEnd, delivered, no_newline, AllLines, joined, find_line_at,
  find_line-none, read_line_found, read_line_ended,
}

-- The reading of one line, then the others.
read_lines-suc :
    (n : ℕ) (buffer buffer' : Bytes) (arrivals rest : List Arrival) (action : Action)
    → run_read_line buffer arrivals ≡ (action, buffer', rest)
    → read_lines (suc n) buffer arrivals ≡ action ∷ read_lines n buffer' rest
unfolding read_lines
read_lines-suc n buffer buffer' arrivals rest action e = ap (λ t. t.0 ∷ read_lines n t.1 t.2) e

abbrev pub line_read : Bytes → Action
line_read l = resumes (string (strip_trailing_newline l) ∷ [])

-- Over any cutting of the stream into completions with data, and an end after them, successive calls
-- of read("*l") give the lines of what stands in the buffer and in the stream, in their order, each
-- stripped, and then what follows the last newline, stripped, or nil where that is empty.
pub read_lines-Lines :
    (ls : List Bytes) (last buffer : Bytes) (arrivals more : List Arrival) (a : Arrival)
    → AllLines ls
    → no_newline last ≡ true
    → AllData arrivals
    → IsEnd a
    → buffer ++ delivered arrivals ≡ joined ls last
    → read_lines (suc (length ls)) buffer (arrivals ++ (a ∷ more))
      ≡ map line_read ls ++ (resumes (text_or_nil (strip_trailing_newline last)) ∷ [])
unfolding read_lines joined
read_lines-Lines [] last buffer arrivals more a n m d e h =
    let q = read_line_ended arrivals more a buffer d e (ap find_line h ∙ find_line-none last m) in
    rw q (rw h refl)
read_lines-Lines (l ∷ ls) last buffer arrivals more a (n, ns) m d e h =
    let (buffer', rest, d', f, g) =
      read_line_found arrivals (a ∷ more) buffer _ (joined ls last) d
        (ap find_line h ∙ find_line_at l (joined ls last) n) in
    read_lines-suc (suc (length ls)) buffer buffer' _ (rest ++ (a ∷ more)) _ g
    ∙ ap (λ rs. line_read l ∷ rs) (read_lines-Lines ls last buffer' rest more a ns m d' e f)

-- Completions among which one is the end of the stream.
abbrev pub HasEnd : List Arrival → Type 0
HasEnd [] = ⊥
HasEnd (a ∷ arrivals) = IsEnd a ⊎ HasEnd arrivals

abbrev pub OneValue : Action → Type 0
OneValue action = (v : LuaValue) × (action ≡ resumes (v ∷ []))
