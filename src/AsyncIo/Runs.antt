-- ===== src/AsyncIo/Runs.antt =====
-- The line reader of src/lua/async_io_library.cc over what a stream delivers: a run of do_read_line
-- with the completions that its calls of async_read_some get, and what a script reads by it.
use bernardx.Base.{
  ℕ, zero, suc, ◌≡◌, refl, sym, ap, ◌∙◌, inl, inr, Bool, true, false, ◌||◌, List, [], ◌∷◌, ◌++◌,
  none, some, Bytes, is_empty, Option-cases, List-cases, ◌==◌, arith,
}
use mathlib.Core.List.{append_assoc, append-nil}
use bernardx.Base.Split.{break_at, none_of, break_at-append, break_at_none}
use bernardx.Value.{string}
use bernardx.AsyncIo.Reader.{
  Action, resumes, reads_some, Arrival, find_line, do_read_line, line_arrived, complete_read,
  strip_trailing_newline, text_or_nil,
}

-- A read of an open handle, with the completions that come: the action that is left, the
-- read_buffer, and the completions that were not needed.
unfoldable pub run_read : Action → Bytes → List Arrival → Action × Bytes × List Arrival
unfolding complete_read
run_read (resumes vs) buffer arrivals = (resumes vs, buffer, arrivals)
run_read action buffer [] = (action, buffer, [])
run_read action buffer (a ∷ arrivals) =
    let next = complete_read false action a buffer in run_read next.0 next.1 arrivals

abbrev pub run_read_line : Bytes → List Arrival → Action × Bytes × List Arrival
run_read_line buffer arrivals = run_read (do_read_line buffer).0 (do_read_line buffer).1 arrivals

-- So many calls of read("*l"), one after the other.
unfoldable pub read_lines : ℕ → Bytes → List Arrival → List Action
unfolding run_read do_read_line
read_lines zero buffer arrivals = []
read_lines (suc n) buffer arrivals =
    let (action, buffer', rest) = run_read_line buffer arrivals in
    action ∷ read_lines n buffer' rest

-- A completion that is not the end of the stream.
abbrev pub IsData : Arrival → Type 0
IsData a = (a.failed ≡ false) × (is_empty a.bytes ≡ false)

abbrev pub AllData : List Arrival → Type 0
AllData [] = Unit {0}
AllData (a ∷ arrivals) = IsData a × AllData arrivals

unfoldable pub delivered : List Arrival → Bytes
delivered [] = []
delivered (a ∷ arrivals) = a.bytes ++ delivered arrivals

abbrev pub no_newline : Bytes → Bool
no_newline s = none_of (λ c. c == 10) s

abbrev pub AllLines : List Bytes → Type 0
AllLines [] = Unit {0}
AllLines (l ∷ ls) = (no_newline l ≡ true) × AllLines ls

-- The lines, each with its newline, and what follows them.
unfoldable pub joined : List Bytes → Bytes → Bytes
joined [] last = last
joined (l ∷ ls) last = l ++ (10 ∷ joined ls last)

pub find_line_at :
    (l s : Bytes)
    → no_newline l ≡ true
    → find_line (l ++ (10 ∷ s)) ≡ some (strip_trailing_newline l, s)
unfolding find_line
find_line_at l s n = rw (break_at-append (λ c. c == 10) 10 l s n refl) refl

pub find_line-none : (l : Bytes) → no_newline l ≡ true → find_line l ≡ none
unfolding find_line
find_line-none l n = rw (break_at_none (λ c. c == 10) l n) refl

break_at-more :
    (p : ℕ → Bool) (s t b : Bytes) (c : ℕ)
    → (break_at p s).1 ≡ c ∷ b
    → break_at p (s ++ t) ≡ ((break_at p s).0, c ∷ (b ++ t))
unfolding break_at
break_at-more p [] t b c h = cc
break_at-more p (d ∷ s) t b c h = ground (arith, break_at-more p s t b c)

find_line-more :
    (s t l r : Bytes) → find_line s ≡ some (l, r) → find_line (s ++ t) ≡ some (l, r ++ t)
unfolding find_line
find_line-more s t l r h = elim (List-cases (break_at (λ c. c == 10) s).1) [
  | inl e ↦ ground (arith, h, e)
  | inr (c, b, e) ↦ ground (arith, break_at-more (λ c. c == 10) s t b c e)
]

-- The reader that has looked in vain looks again at what came.
line_arrived_data :
    (a : Arrival) (buffer : Bytes)
    → IsData a
    → line_arrived a buffer ≡ do_read_line (buffer ++ a.bytes)
unfolding line_arrived do_read_line
line_arrived_data a buffer (e, f) = elim (Option-cases (find_line (buffer ++ a.bytes))) [
  | inl n ↦ ground arith
  | inr (found, n) ↦ ground arith
]

abbrev pub IsEnd : Arrival → Type 0
IsEnd a = (a.failed || is_empty a.bytes) ≡ true

line_arrived_end :
    (a : Arrival) (buffer : Bytes)
    → IsEnd a
    → line_arrived a buffer ≡ (resumes (text_or_nil (strip_trailing_newline buffer)), [])
unfolding line_arrived
line_arrived_end a buffer e = rw e refl

do_read_line-none :
    (buffer : Bytes) → find_line buffer ≡ none → do_read_line buffer ≡ (reads_some, buffer)
unfolding do_read_line
do_read_line-none buffer f = ground arith

pub do_read_line-some :
    (buffer l r : Bytes)
    → find_line buffer ≡ some (l, r)
    → do_read_line buffer ≡ (resumes (string l ∷ []), r)
unfolding do_read_line
do_read_line-some buffer l r f = ground arith

-- A run from what do_read_line starts.
pub started :
    (arrivals : List Arrival) (buffer : Bytes) {x : Action × Bytes}
    → do_read_line buffer ≡ x
    → run_read_line buffer arrivals ≡ run_read x.0 x.1 arrivals
started arrivals buffer e = ap (λ x. run_read x.0 x.1 arrivals) e

module _ (a : Arrival) (arrivals : List Arrival) (buffer : Bytes)
    (f : find_line buffer ≡ none) where
  pub run_read_line_data :
      IsData a → run_read_line buffer (a ∷ arrivals) ≡ run_read_line (buffer ++ a.bytes) arrivals
  unfolding run_read
  run_read_line_data d =
      started (a ∷ arrivals) buffer (do_read_line-none buffer f)
      ∙ ap (λ x. run_read x.0 x.1 arrivals) (line_arrived_data a buffer d)

  pub run_read_line_end :
      IsEnd a
      → run_read_line buffer (a ∷ arrivals)
        ≡ (resumes (text_or_nil (strip_trailing_newline buffer)), [], arrivals)
  unfolding run_read
  run_read_line_end e =
      started (a ∷ arrivals) buffer (do_read_line-none buffer f)
      ∙ ap (λ x. run_read x.0 x.1 arrivals) (line_arrived_end a buffer e)

find_line_prefix : (s t : Bytes) → find_line (s ++ t) ≡ none → find_line s ≡ none
find_line_prefix s t h = elim (Option-cases (find_line s)) [
  | inl n ↦ n
  | inr ((l, r), e) ↦ cc (find_line-more s t l r e)
]

-- A line that the buffer and the stream hold together is read, and what follows it is left in
-- them; the completions after those of the stream are not touched.
abbrev pub Finds : List Arrival → List Arrival → Bytes → Bytes → Bytes → Type 0
Finds arrivals more buffer l r =
    (buffer' : Bytes) × (rest : List Arrival) × AllData rest
    × (buffer' ++ delivered rest ≡ r)
    × (run_read_line buffer (arrivals ++ more) ≡ (resumes (string l ∷ []), buffer', rest ++ more))

pub read_line_now :
    (arrivals more : List Arrival) (buffer l r l' r' : Bytes)
    → AllData arrivals
    → find_line (buffer ++ delivered arrivals) ≡ some (l, r)
    → find_line buffer ≡ some (l', r')
    → Finds arrivals more buffer l r
unfolding run_read
read_line_now arrivals more buffer l r l' r' d h e =
    let q = find_line-more buffer (delivered arrivals) l' r' e in
    let same : l' ≡ l = cc (q, h) in
    (
      r',
      arrivals,
      d,
      cc (q, h),
      started (arrivals ++ more) buffer (do_read_line-some buffer l' r' e) ∙ rw same refl,
    )

pub read_line_found :
    (arrivals more : List Arrival) (buffer l r : Bytes)
    → AllData arrivals
    → find_line (buffer ++ delivered arrivals) ≡ some (l, r)
    → Finds arrivals more buffer l r
unfolding delivered
read_line_found [] more buffer l r d h =
    read_line_now [] more buffer l r l r d h (ap find_line (sym (append-nil buffer)) ∙ h)
read_line_found (b ∷ arrivals) more buffer l r (d, ds) h = elim (Option-cases (find_line buffer)) [
  | inr ((l', r'), e) ↦ read_line_now (b ∷ arrivals) more buffer l r l' r' (d, ds) h e
  | inl n ↦
      let q = append_assoc buffer b.bytes (delivered arrivals) in
      let (buffer', rest, e, f, g) =
        read_line_found arrivals more (buffer ++ b.bytes) l r ds (ap find_line q ∙ h) in
      (buffer', rest, e, f, run_read_line_data b (arrivals ++ more) buffer n d ∙ g)
]

pub read_line_ended :
    (arrivals more : List Arrival) (a : Arrival) (buffer : Bytes)
    → AllData arrivals
    → IsEnd a
    → find_line (buffer ++ delivered arrivals) ≡ none
    → run_read_line buffer (arrivals ++ (a ∷ more))
      ≡ (resumes (text_or_nil (strip_trailing_newline (buffer ++ delivered arrivals))), [], more)
unfolding delivered
read_line_ended [] more a buffer d e h =
    run_read_line_end a more buffer (find_line_prefix buffer [] h) e ∙ rw (append-nil buffer) refl
read_line_ended (b ∷ arrivals) more a buffer (d, ds) e h =
    let q = append_assoc buffer b.bytes (delivered arrivals) in
    run_read_line_data b (arrivals ++ (a ∷ more)) buffer (find_line_prefix buffer _ h) d
    ∙ (read_line_ended arrivals more a (buffer ++ b.bytes) ds e (ap find_line q ∙ h) ∙ rw q refl)
