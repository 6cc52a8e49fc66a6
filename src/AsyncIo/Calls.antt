-- ===== src/AsyncIo/Calls.antt =====
-- Histories of a process handle of src/lua/async_io_library.cc, and what the system has seen of them.
use bernardx.Base.{
  ℕ, ◌≤◌, ◌≡◌, ◌≢◌, refl, inl, inr, ◌⊎◌, Bool-cases, ℤ, Bool, true, false, List, [], Option, none,
  Bytes, arith,
}
use bernardx.Value.{LuaValue}
use bernardx.Runtime.{Runtime}
use bernardx.AsyncIo.Reader.{Action, Arrival}
use bernardx.AsyncIo.Files.{SystemCall}
use bernardx.AsyncIo.Exec.{started_process}
use bernardx.AsyncIo.Processes.{
  ProcessHandle, WaitStatus, Written, is_positive, process_read, process_read_arrived,
  process_write, process_written, process_close, process_wait, process_kill, process_shutdown,
  process_gc,
}
use bernardx.AsyncIo.Owned.{closings, reapings, OnlyBefore, ClosedOnce, live, IsOwned}
use bernardx.AsyncIo.History.{
  IsOwned-buffer, process_gc-IsOwned, process_close-IsOwned, process_kill-IsOwned,
  process_wait-IsOwned, process_shutdown-IsOwned,
}

-- A handle, the calls that it made, and the runtime.
pub record World (S : Type 0) : Type 0 where
  pub handle : ProcessHandle
  pub log : List SystemCall
  pub runtime : Runtime S

once_le :
    (fd : ℕ) (sd : Option ℕ) (log : List SystemCall) → ClosedOnce fd sd log → closings fd log ≤ 1
once_le fd sd log h = ground arith

once_gone :
    (fd : ℕ) (sd : Option ℕ) (log : List SystemCall)
    → ClosedOnce fd sd log
    → sd ≡ none
    → closings fd log ≡ 1
once_gone fd sd log h e = ground arith

-- Without the outcome of a method.
abbrev rest : {A B C : Type 0} → A × B × C → B × C
rest x = (x.1, x.2)

abbrev pub rest3 : {A B C D : Type 0} → A × B × C × D → B × C × D
rest3 x = (x.1, x.2, x.3)

module _ {S : Type 0} where
  abbrev with_handle : World S → ProcessHandle × Runtime S → World S
  with_handle w x = record w { handle = x.0; runtime = x.1 }

  abbrev with_log : World S → ProcessHandle × List SystemCall → World S
  with_log w x = record w { handle = x.0; log = x.1 }

  abbrev pub with_all : ProcessHandle × List SystemCall × Runtime S → World S
  with_all x = record { handle = x.0; log = x.1; runtime = x.2 }

  -- A method or a completion, with any arguments and answers. What other code does to the runtime
  -- in between is a step of its own.
  pub data Call (w : World S) : World S → Type 0 where
    reads :
        (to_integer : ℕ → Option ℤ) (resizable : ℕ → Bool) (fmt : Option LuaValue) (co : ℕ)
        → Call w
            (with_handle w (rest (process_read to_integer resizable fmt co w.handle w.runtime)))
    read_arrives :
        (h : ℕ) (action : Action) (a : Arrival)
        → Call w (with_handle w (rest (process_read_arrived h action a w.handle w.runtime)))
    writes :
        (text : Option Bytes) (co : ℕ)
        → Call w (with_handle w (rest (process_write text co w.handle w.runtime)))
    write_arrives :
        (h : ℕ) (end : Written)
        → Call w (record w { runtime = process_written h end w.handle w.runtime })
    kills :
        (kill : ℤ → ℤ → Option Bytes) (sig : ℤ)
        → Call w (record w { log = (process_kill kill sig w.handle w.log).1 })
    shuts_down : Call w (with_log w (rest (process_shutdown w.handle w.log)))
    closes : (co : ℕ) → Call w (with_all (rest3 (process_close co w.handle w.log w.runtime)))
    waits :
        (waitpid : ℤ → WaitStatus)
        → Call w (with_all (process_wait waitpid w.handle w.log w.runtime))
    collects : Call w (with_log w (process_gc w.handle w.log))
    elsewhere : (rt : Runtime S) → Call w (record w { runtime = rt })

  pub data Calls (w : World S) : World S → Type 0 where
    start : Calls w w
    next : {v u : World S} → Calls w v → Call v u → Calls w u

  module _ (pid : ℤ) (stdin stdout : ℕ) (d : stdin ≢ stdout) (z : is_positive pid ≡ true) where
    abbrev Owns : World S → Type 0
    Owns w = IsOwned pid stdin stdout w.handle w.log

    Call-Owns : (w w' : World S) → Owns w → Call w w' → Owns w'
    unfolding process_read process_read_arrived process_write
    Call-Owns w _ v (reads to_integer resizable fmt co) = IsOwned-buffer pid stdin stdout _ v
    Call-Owns w _ v (read_arrives h action a) = IsOwned-buffer pid stdin stdout _ v
    Call-Owns w _ v (writes text co) = v
    Call-Owns w _ v (write_arrives h end) = v
    Call-Owns w _ v (kills kill sig) = process_kill-IsOwned pid stdin stdout v kill sig
    Call-Owns w _ v shuts_down = process_shutdown-IsOwned pid stdin stdout v d
    Call-Owns w _ v (closes co) = process_close-IsOwned pid stdin stdout d v co w.runtime
    Call-Owns w _ v (waits waitpid) = process_wait-IsOwned pid stdin stdout v waitpid w.runtime
    Call-Owns w _ v collects = process_gc-IsOwned pid stdin stdout d v z
    Call-Owns w _ v (elsewhere rt) = v

    Calls-Owns : (w w' : World S) → Owns w → Calls w w' → Owns w'
    Calls-Owns w _ v start = v
    Calls-Owns w u v (next {v = x} cs c) = Call-Owns x u (Calls-Owns w x v cs) c

    started-Owns :
        (cmd : Bytes) (rt : Runtime S)
        → Owns (record { handle = started_process pid stdin stdout cmd; log = []; runtime = rt })
    unfolding OnlyBefore closings reapings
    started-Owns cmd rt = record {
      phase = live refl refl refl refl;
      order = tt;
      stdin_once = inl (refl, refl);
      stdout_once = inl (refl, refl);
      gone = λ c. cc;
    }

    -- From the handle that exec gives for a positive pid and two descriptors, over any calls and
    -- completions in any order: signals and waits go to that pid and none comes after a wait,
    -- neither descriptor is closed twice, and both were closed once if the handle is closed.
    pub Calls-OnlyBefore :
        (cmd : Bytes) (rt : Runtime S) (w : World S)
        → Calls (record { handle = started_process pid stdin stdout cmd; log = []; runtime = rt }) w
        → OnlyBefore pid w.log
          × (closings stdin w.log ≤ 1)
          × (closings stdout w.log ≤ 1)
          × ((w.handle.closed ≡ false) ⊎ ((closings stdin w.log ≡ 1) × (closings stdout w.log ≡ 1)))
    Calls-OnlyBefore cmd rt w cs =
        let v = Calls-Owns _ w (started-Owns cmd rt) cs in
        (
          v.order,
          once_le stdin _ w.log v.stdin_once,
          once_le stdout _ w.log v.stdout_once,
          elim (Bool-cases w.handle.closed) [
            | inr c ↦ inl c
            | inl c ↦ inr (
              once_gone stdin _ w.log v.stdin_once (v.gone c).0,
              once_gone stdout _ w.log v.stdout_once (v.gone c).1,
            )
          ],
        )
