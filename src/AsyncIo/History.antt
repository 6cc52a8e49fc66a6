-- ===== src/AsyncIo/History.antt =====
-- Each method of a process handle of src/lua/async_io_library.cc keeps what IsOwned says.
use bernardx.Base.{
  ℕ, ◌≡◌, ◌≢◌, refl, sym, ap, ◌∙◌, inl, inr, ◌⊎◌, ℤ, true, false, List, [], ◌∷◌, ◌++◌, Option, none,
  some, Bytes, if_cases, arith,
}
use bernardx.Runtime.{Runtime}
use bernardx.Runtime.Pending.{pre_yield}
use bernardx.AsyncIo.Files.{Outcome, SystemCall, close_sd}
use bernardx.AsyncIo.Processes.{
  ProcessHandle, WaitStatus, is_positive, process_close, process_wait, process_kill,
  process_shutdown, process_gc, reap,
}
use bernardx.AsyncIo.Owned.{
  closings, reapings, OnlyBefore, ClosedOnce, close_sd-closings, close_sd_other,
  close_sd-OnlyBefore, close_sd-reapings, Phase, live, closing, ended, IsOwned,
}

module _ (pid : ℤ) (stdin stdout : ℕ) where
  Phase_buffer :
      (p : ProcessHandle) (log : List SystemCall) (b : Bytes)
      → Phase pid p log
      → Phase pid (record p { read_buffer = b }) log
  Phase_buffer p log b (live c q i r) = live c q i r
  Phase_buffer p log b (closing h c q i r) = closing h c q i r
  Phase_buffer p log b (ended c q) = ended c q

  Phase_shutdown :
      (p : ProcessHandle) (log : List SystemCall)
      → Phase pid p log
      → Phase pid (record p { stdin_sd = none }) (close_sd p.stdin_sd log)
  Phase_shutdown p log (live c q i r) = live c q i (close_sd-reapings p.stdin_sd log ∙ r)
  Phase_shutdown p log (closing h c q i r) = closing h c q i (close_sd-reapings p.stdin_sd log ∙ r)
  Phase_shutdown p log (ended c q) = ended c q

  pub IsOwned-buffer :
      {p : ProcessHandle} {log : List SystemCall} (b : Bytes)
      → IsOwned pid stdin stdout p log
      → IsOwned pid stdin stdout (record p { read_buffer = b }) log
  IsOwned-buffer {p} {log} b v = record {
    phase = Phase_buffer p log b v.phase;
    order = v.order;
    stdin_once = v.stdin_once;
    stdout_once = v.stdout_once;
    gone = v.gone;
  }

  of_once :
      (fd : ℕ) (sd : Option ℕ) (log : List SystemCall)
      → ClosedOnce fd sd log
      → (sd ≡ some fd) ⊎ (sd ≡ none)
  of_once fd sd log (inl (e, c)) = inl e
  of_once fd sd log (inr (e, c)) = inr e

  module _ (d : stdin ≢ stdout) {p : ProcessHandle} {log : List SystemCall}
      (v : IsOwned pid stdin stdout p log) where
    abbrev both : List SystemCall
    both = close_sd p.stdout_sd (close_sd p.stdin_sd log)

    both-stdin : closings stdin both ≡ 1
    both-stdin =
        close_sd_other stdin stdout p.stdout_sd (close_sd p.stdin_sd log)
          (of_once stdout _ log v.stdout_once) d
        ∙ close_sd-closings stdin p.stdin_sd log v.stdin_once

    both-stdout : closings stdout both ≡ 1
    both-stdout =
        let same =
          close_sd_other stdout stdin p.stdin_sd log (of_once stdin _ log v.stdin_once)
            (λ e. d (sym e)) in
        close_sd-closings stdout p.stdout_sd (close_sd p.stdin_sd log)
          (ground (arith, v.stdout_once))

    both-OnlyBefore : OnlyBefore pid both
    both-OnlyBefore =
        close_sd-OnlyBefore pid p.stdout_sd _ (close_sd-OnlyBefore pid p.stdin_sd log v.order)

    both-reapings : reapings both ≡ reapings log
    both-reapings = close_sd-reapings p.stdout_sd _ ∙ close_sd-reapings p.stdin_sd log

    -- What close and collection leave, in a phase of the closed handle.
    both-IsOwned :
        (p' : ProcessHandle) (log' : List SystemCall)
        → Phase pid p' log'
        → p'.stdin_sd ≡ none
        → p'.stdout_sd ≡ none
        → OnlyBefore pid log'
        → ((fd : ℕ) → closings fd log' ≡ closings fd both)
        → IsOwned pid stdin stdout p' log'
    both-IsOwned p' log' phase e f order same = record {
      phase = phase;
      order = order;
      stdin_once = inr (e, same stdin ∙ both-stdin);
      stdout_once = inr (f, same stdout ∙ both-stdout);
      gone = λ c. (e, f);
    }

    abbrev Owns : ProcessHandle × List SystemCall → Type 0
    Owns x = IsOwned pid stdin stdout x.0 x.1

    open_phase : p.closed ≡ false → (p.posted ≡ []) × (p.pid ≡ pid) × (reapings log ≡ 0)
    open_phase c = elim v.phase [
      | live c' q i r ↦ (q, i, r)
      | closing h c' q i r ↦ cc
      | ended c' q ↦ cc
    ]

    pub process_gc-IsOwned :
        is_positive pid ≡ true → IsOwned pid stdin stdout (process_gc p log).0 (process_gc p log).1
    unfolding process_gc OnlyBefore closings reapings
    process_gc-IsOwned z =
        if_cases Owns p.closed _ _ (λ c. v)
          (λ c.
            let (q, i, r) = open_phase c in
            if_cases Owns (is_positive p.pid) _ _
              (λ y.
                both-IsOwned _ _ (ended refl q) refl refl
                  (i, both-reapings ∙ r, (i, both-reapings ∙ r, both-OnlyBefore)) (λ fd. refl))
              (λ y. both-IsOwned _ _ (ended refl q) refl refl both-OnlyBefore (λ fd. refl)))

    abbrev OwnsNext : {S : Type 0} → Outcome × ProcessHandle × List SystemCall × Runtime S → Type 0
    OwnsNext x = IsOwned pid stdin stdout x.1 x.2

    pub process_close-IsOwned :
        {S : Type 0} (co : ℕ) (rt : Runtime S)
        → IsOwned pid stdin stdout (process_close co p log rt).1 (process_close co p log rt).2
    unfolding process_close
    process_close-IsOwned co rt =
        if_cases OwnsNext p.closed _ _ (λ c. v)
          (λ c.
            let (q, i, r) = open_phase c in
            if_cases OwnsNext (is_positive p.pid) _ _
              (λ y.
                both-IsOwned _ _
                  (closing _ refl (ap (λ hs. hs ++ ((pre_yield co rt).0 ∷ [])) q) i
                    (both-reapings ∙ r))
                  refl refl both-OnlyBefore (λ fd. refl))
              (λ y. both-IsOwned _ _ (ended refl q) refl refl both-OnlyBefore (λ fd. refl)))

  module _ {p : ProcessHandle} {log : List SystemCall} (v : IsOwned pid stdin stdout p log) where
    pub process_kill-IsOwned :
        (kill : ℤ → ℤ → Option Bytes) (sig : ℤ)
        → IsOwned pid stdin stdout p (process_kill kill sig p log).1
    unfolding process_kill OnlyBefore closings reapings
    process_kill-IsOwned kill sig =
        if_cases (λ (x : Outcome × List SystemCall). IsOwned pid stdin stdout p x.1) p.closed _ _
          (λ c. v)
          (λ c.
            if_cases (λ (x : Outcome × List SystemCall). IsOwned pid stdin stdout p x.1)
              (is_positive p.pid) _ _
              (λ y. elim v.phase [
                | live c' q i r ↦ record {
                  phase = live c' q i r;
                  order = (i, r, v.order);
                  stdin_once = v.stdin_once;
                  stdout_once = v.stdout_once;
                  gone = v.gone;
                }
                | closing h c' q i r ↦ cc
                | ended c' q ↦ cc
              ])
              (λ y. v))

    reap-IsOwned :
        {S : Type 0} (waitpid : ℤ → WaitStatus) (rt : Runtime S) (hs : List ℕ)
        → p.posted ≡ hs
        → IsOwned pid stdin stdout (reap waitpid hs p log rt).0 (reap waitpid hs p log rt).1
    unfolding OnlyBefore closings reapings
    reap-IsOwned waitpid rt [] e = v
    reap-IsOwned waitpid rt (h ∷ hs) e = elim v.phase [
      | live c q i r ↦ cc
      | ended c q ↦ cc
      | closing g c q i r ↦ record {
        phase = ended c (cc (q, e));
        order = (i, r, v.order);
        stdin_once = v.stdin_once;
        stdout_once = v.stdout_once;
        gone = v.gone;
      }
    ]

    pub process_wait-IsOwned :
        {S : Type 0} (waitpid : ℤ → WaitStatus) (rt : Runtime S)
        → IsOwned pid stdin stdout
            (process_wait waitpid p log rt).0
            (process_wait waitpid p log rt).1
    unfolding process_wait
    process_wait-IsOwned waitpid rt = reap-IsOwned waitpid rt p.posted refl

    pub process_shutdown-IsOwned :
        stdin ≢ stdout
        → IsOwned pid stdin stdout (process_shutdown p log).1 (process_shutdown p log).2
    unfolding process_shutdown
    process_shutdown-IsOwned d = record {
      phase = Phase_shutdown p log v.phase;
      order = close_sd-OnlyBefore pid p.stdin_sd log v.order;
      stdin_once = inr (refl, close_sd-closings stdin p.stdin_sd log v.stdin_once);
      stdout_once = ground (
        arith,
        close_sd_other stdout stdin p.stdin_sd log (of_once stdin _ log v.stdin_once)
            (λ e. d (sym e)),
      );
      gone = λ c. (refl, (v.gone c).1);
    }
