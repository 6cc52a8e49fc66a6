-- ===== src/AsyncIo/Counts.antt =====
-- read(n) of src/lua/async_io_library.cc: what it returns and what it leaves.
use bernardx.Base.{
  ℕ, zero, suc, ◌-◌, ◌^◌, ◌≤◌, ◌<◌, ℤ, negsuc, residue, ◌≡◌, refl, sym, ap, ◌∙◌, inl, inr, ◌⊎◌,
  Bool, true, false, List, [], ◌∷◌, ◌++◌, some, Option, Bytes, length, length-append, take, drop,
  leb, ◌==◌, if_cases, arith,
}
use mathlib.Core.List.{append_assoc}
use bernardx.Value.{string, integer}
use bernardx.AsyncIo.Reader.{
  Action, resumes, throws, Arrival, begin_read, complete_read, text_or_nil, read_bytes,
  parse_read_fmt, parsed,
}
use bernardx.AsyncIo.Runs.{run_read, delivered}

take-drop : (n : ℕ) (s : Bytes) → take n s ++ drop n s ≡ s
unfolding take drop
take-drop zero s = refl
take-drop (suc n) [] = refl
take-drop (suc n) (c ∷ s) = ap (λ t. c ∷ t) (take-drop n s)

length-take : (n : ℕ) (s : Bytes) → length (take n s) ≤ n
unfolding take
length-take zero s = omega arith
length-take (suc n) [] = omega arith
length-take (suc n) (c ∷ s) = omega (arith, length-take n s)

-- The script gets these bytes: as a string, or as nil where there are none.
abbrev pub Gives : Bytes → Action → Type 0
Gives s action = (action ≡ resumes (string s ∷ [])) ⊎ (action ≡ resumes (text_or_nil s))

-- A count that buf->resize accepts.
module _ (resizable : ℕ → Bool) (count : ℕ) (buffer : Bytes) (a : Arrival)
    (more : List Arrival) where
  -- Some bytes, at most `count`, are given, and those with what is left in the buffer and in the
  -- stream are the bytes that were there, in their order.
  abbrev pub Reads : Action × Bytes → Type 0
  Reads x =
      (s : Bytes) × Gives s (run_read x.0 x.1 (a ∷ more)).0
      × (length s ≤ count)
      × (s ++ ((run_read x.0 x.1 (a ∷ more)).1 ++ delivered (run_read x.0 x.1 (a ∷ more)).2)
          ≡ buffer ++ delivered (a ∷ more))

  -- If the buffer can be resized to the count and the completion brings no more than was asked
  -- for, read(n) gives at most n bytes, and these with what is left in the buffer and in the
  -- stream are the bytes that were there, in their order.
  pub read_bytes-conserves :
      resizable count ≡ true
      → length a.bytes ≤ count - length buffer
      → Reads (begin_read resizable (read_bytes count) buffer)
  unfolding begin_read run_read complete_read delivered
  read_bytes-conserves r h =
      if_cases Reads (count == 0) _ _ (λ e. ([], inl refl, omega arith, refl))
        (λ e.
          if_cases Reads (leb count (length buffer)) _ _
            (λ f. (
              take count buffer,
              inl refl,
              length-take count buffer,
              sym (append_assoc (take count buffer) (drop count buffer) (delivered (a ∷ more)))
                  ∙ ap (λ s. s ++ delivered (a ∷ more)) (take-drop count buffer),
            ))
            (λ f.
              if_cases Reads (resizable count) _ _
                (λ g. (
                  buffer ++ a.bytes,
                  inr refl,
                  ground (arith, length-append buffer a.bytes),
                  append_assoc buffer a.bytes (delivered more),
                ))
                (λ g. cc)))

-- A negative count down to - 2 ^ 63 is read as its residue modulo 2 ^ 64; where the buffer holds fewer
-- than 2 ^ 63 bytes and cannot be resized to that, the read throws with the buffer emptied.
pub negative-throws :
    (to_integer : ℕ → Option ℤ) (resizable : ℕ → Bool) (n : ℕ) (buffer : Bytes)
    → n < 2 ^ 63
    → length buffer < 2 ^ 63
    → resizable (2 ^ 64 - 1 - n) ≡ false
    → (parse_read_fmt to_integer (some (integer (negsuc n))) ≡ parsed (read_bytes (2 ^ 64 - 1 - n)))
      × (begin_read resizable (read_bytes (2 ^ 64 - 1 - n)) buffer ≡ (throws, []))
unfolding parse_read_fmt begin_read residue
negative-throws to_integer resizable n buffer h k r = (ground arith, ground arith)
