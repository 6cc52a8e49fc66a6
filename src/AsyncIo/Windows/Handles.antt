-- ===== src/AsyncIo/Windows/Handles.antt =====
-- The HANDLEs that async.exec of src/lua/async_io_library.cc leaves open on Windows.
use bernardx.Base.{
  ℕ, ◌+◌, ◌-◌, ◌≡◌, Bool, false, List, [], ◌∷◌, Option, none, some, Bytes, ◌==◌, Bool-cases, inl,
  inr, if◌then◌else◌, arith,
}
use bernardx.AsyncIo.Exec.{available}
use bernardx.AsyncIo.Windows.{
  HandleAnswer, made, handle_refused, close_handle, ProcessAnswer, process_made, process_refused,
  WindowsExec, exec_started, windows_exec,
}

unfoldable pub one : ℕ → ℕ → ℕ
one h n = if h == n then 1 else 0

-- How often a HANDLE is in a table.
unfoldable pub count : ℕ → List ℕ → ℕ
unfolding one
count n [] = 0
count n (h ∷ hs) = one h n + count n hs

unfoldable pub one_of : Option ℕ → ℕ → ℕ
unfolding one
one_of none n = 0
one_of (some h) n = one h n

pub count-close_handle :
    (n h : ℕ) (hs : List ℕ) → count n (close_handle h hs) ≡ count n hs - one h n
unfolding one count close_handle
count-close_handle n h [] = omega arith
count-close_handle n h (i ∷ hs) = ground (arith, count-close_handle n h hs)

-- How often the process handle that is returned has a HANDLE.
abbrev pub kept_by : ℕ → WindowsExec → ℕ
kept_by n (exec_started p) = one_of p.proc n + (one_of p.stdin_sd n + one_of p.stdout_sd n)
kept_by n result = 0

module _ (format : ℕ → Option Bytes) (cmd : Bytes) (process : ProcessAnswer) (hs : List ℕ)
    (n : ℕ) where
  abbrev IsKept : WindowsExec × List ℕ → Type 0
  IsKept r = count n r.1 ≡ kept_by n r.0 + count n hs

  started :
      (s c s' c' : ℕ) (p : ProcessAnswer)
      → IsKept (windows_exec format (some false) cmd (made s, made c) (made s', made c') p hs)
  unfolding windows_exec count one_of
  started s c s' c' (process_refused e) =
      rw (count-close_handle, count-close_handle, count-close_handle, count-close_handle)
        (omega arith)
  started s c s' c' (process_made proc thread) =
      rw (count-close_handle, count-close_handle, count-close_handle) (omega arith)

  branches :
      (a b c d : HandleAnswer)
      → IsKept (windows_exec format (some false) cmd (a, b) (c, d) process hs)
  unfolding windows_exec count one_of
  branches (handle_refused e) b c d = omega arith
  branches (made s) (handle_refused e) c d = rw count-close_handle (omega arith)
  branches (made s) (made c) (handle_refused e) d =
      rw (count-close_handle, count-close_handle) (omega arith)
  branches (made s) (made c) (made s') (handle_refused e) =
      rw (count-close_handle, count-close_handle, count-close_handle) (omega arith)
  branches (made s) (made c) (made s') (made c') = started s c s' c' process

  -- Whichever of the calls of exec on Windows fails or none, and also when the library was closed,
  -- each HANDLE is afterwards open as often as before and as the returned process handle has it.
  pub windows_exec-count :
      (state : Option Bool) (a b c d : HandleAnswer)
      → count n (windows_exec format state cmd (a, b) (c, d) process hs).1
        ≡ kept_by n (windows_exec format state cmd (a, b) (c, d) process hs).0 + count n hs
  unfolding windows_exec
  windows_exec-count state a b c d = elim (Bool-cases (available state)) [
    | inl e ↦ rw e (branches a b c d)
    | inr e ↦ rw e (omega arith)
  ]
