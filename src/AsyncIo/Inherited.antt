-- ===== src/AsyncIo/Inherited.antt =====
-- The descriptors that async.exec of src/lua/async_io_library.cc leaves in the parent and in the child.
use bernardx.Base.{
  ℕ, ◌≡◌, ◌<◌, refl, Bool, true, false, List, [], ◌∷◌, Option, none, some, Bytes, ◌==◌, lookup,
  insert, erase, lookup-insert, lookup-erase, has, has-insert, has-erase, ◌||◌, ◌≢◌, Bool-cases,
  inl, inr, if◌then◌else◌, arith,
}
use bernardx.AsyncIo.Exec.{
  Pipe, Forked, fork_failed, in_child, in_parent, OpenResult, process_started, available,
  async_exec, dup2, child_table,
}

-- Four descriptors that nobody has.
pub record AreNew (p q : Pipe) (fds : List (ℕ × ℕ)) : Type 0 where
  pub read_write : (p.read_fd == p.write_fd) ≡ false
  pub read_read : (p.read_fd == q.read_fd) ≡ false
  pub read_other : (p.read_fd == q.write_fd) ≡ false
  pub write_read : (p.write_fd == q.read_fd) ≡ false
  pub write_write : (p.write_fd == q.write_fd) ≡ false
  pub second : (q.read_fd == q.write_fd) ≡ false
  pub no_read : has p.read_fd fds ≡ false
  pub no_write : has p.write_fd fds ≡ false
  pub no_second_read : has q.read_fd fds ≡ false
  pub no_second_write : has q.write_fd fds ≡ false

abbrev is_fd : ℕ → Option ℕ → Bool
is_fd n none = false
is_fd n (some m) = m == n

-- The handle that is returned has the descriptor.
abbrev pub owned_by : OpenResult → ℕ → Bool
owned_by (process_started h) n = is_fd n h.stdin_sd || is_fd n h.stdout_sd
owned_by opened n = false

abbrev pub when : Bool → Pipe → Option Pipe
when true p = some p
when false p = none

module _ (state : Option Bool) (cmd : Bytes) (p q : Pipe) (fds : List (ℕ × ℕ)) (a : AreNew p q fds)
    (n : ℕ) where
  branches :
      (first second : Bool) (fork : Forked)
      → fork ≢ in_child
      → has n (async_exec (some false) cmd (when first p) (when second q) fork fds).1 ≡ (
          owned_by (async_exec (some false) cmd (when first p) (when second q) fork fds).0 n
          || has n fds)
  unfolding async_exec
  branches false second fork c = refl
  branches true false fork c = grind (arith, has-insert, has-erase, a.no_read, a.no_write)
  branches true true fork_failed c = grind (arith, has-insert, has-erase, a)
  branches true true (in_parent pid) c = grind (arith, has-insert, has-erase, a)
  branches true true in_child c = absurd (c refl)

  -- If the pipes are new descriptors, then in the parent, whichever of pipe and fork fails, a
  -- descriptor is open after async.exec exactly if it was before or the returned handle has it.
  pub async_exec-descriptors :
      (first second : Bool) (fork : Forked)
      → fork ≢ in_child
      → has n (async_exec state cmd (when first p) (when second q) fork fds).1
        ≡ (owned_by (async_exec state cmd (when first p) (when second q) fork fds).0 n || has n fds)
  unfolding async_exec
  async_exec-descriptors first second fork c = elim (Bool-cases (available state)) [
    | inr e ↦ rw e refl
    | inl e ↦ rw e (branches first second fork c)
  ]

-- What the child reads and writes: the standard streams are the pipes', and any other descriptor
-- is the parent's.
abbrev pub inherited : Pipe → Pipe → List (ℕ × ℕ) → ℕ → Option ℕ
inherited p q fds n =
    if n == 0 then some p.read_end else if n == 1 || n == 2 then some q.write_end else lookup n fds

lookup_absent : (n : ℕ) (table : List (ℕ × ℕ)) → has n table ≡ false → lookup n table ≡ none
unfolding lookup has
lookup_absent n [] h = refl
lookup_absent n ((m, x) ∷ table) h = ground (arith, lookup_absent n table)

dup2-lookup :
    (fd target n d : ℕ) (table : List (ℕ × ℕ))
    → lookup fd table ≡ some d
    → lookup n (dup2 fd target table) ≡ (if target == n then some d else lookup n table)
unfolding dup2
dup2-lookup fd target n d table e = rw e (lookup-insert target n d table)

module _ (p q : Pipe) (fds : List (ℕ × ℕ)) (a : AreNew p q fds) where
  abbrev piped : List (ℕ × ℕ)
  piped = insert q.write_fd q.write_end (
      insert q.read_fd q.read_end (insert p.write_fd p.write_end (insert p.read_fd p.read_end fds)))

  module _ (low : 2 < p.read_fd) (low' : 2 < q.write_fd) where
    abbrev ends : List (ℕ × ℕ)
    ends = erase q.read_fd (erase p.write_fd piped)

    ends-lookup :
        (n : ℕ)
        → lookup n ends ≡ (
            if q.write_fd == n
            then some q.write_end
            else if p.read_fd == n
            then some p.read_end
            else lookup n fds)
    ends-lookup n = grind (arith, lookup-insert, lookup-erase, lookup_absent, a)

    abbrev copy0 : List (ℕ × ℕ)
    copy0 = dup2 p.read_fd 0 ends

    abbrev copy1 : List (ℕ × ℕ)
    copy1 = dup2 q.write_fd 1 copy0

    copy0-lookup : (n : ℕ) → lookup n copy0 ≡ (if 0 == n then some p.read_end else lookup n ends)
    copy0-lookup n =
        dup2-lookup p.read_fd 0 n p.read_end ends (ground (arith, ends-lookup p.read_fd, a))

    copy1-lookup : (n : ℕ) → lookup n copy1 ≡ (if 1 == n then some q.write_end else lookup n copy0)
    copy1-lookup n =
        dup2-lookup q.write_fd 1 n q.write_end copy0
          (ground (arith, ends-lookup q.write_fd, copy0-lookup q.write_fd))

    copy2-lookup :
        (n : ℕ)
        → lookup n (dup2 q.write_fd 2 copy1) ≡ (if 2 == n then some q.write_end else lookup n copy1)
    copy2-lookup n =
        dup2-lookup q.write_fd 2 n q.write_end copy1
          (ground (arith, ends-lookup q.write_fd, copy0-lookup q.write_fd, copy1-lookup q.write_fd))

    child_table-inherited : (n : ℕ) → lookup n (child_table p q piped) ≡ inherited p q fds n
    unfolding child_table
    child_table-inherited n =
        let e = lookup-erase q.write_fd n (erase p.read_fd (dup2 q.write_fd 2 copy1)) in
        let f = lookup-erase p.read_fd n (dup2 q.write_fd 2 copy1) in
        ground (
          arith,
          e,
          f,
          copy2-lookup n,
          copy1-lookup n,
          copy0-lookup n,
          ends-lookup n,
          lookup_absent n fds,
          a,
        )

    -- If the pipes are new descriptors and the ends that the child keeps are above 2, the child has
    -- the pipes as its standard streams, and every other descriptor of the parent.
    pub async_exec-inherited :
        (cmd : Bytes) (n : ℕ)
        → lookup n (async_exec (some false) cmd (some p) (some q) in_child fds).1
          ≡ inherited p q fds n
    unfolding async_exec
    async_exec-inherited cmd n = child_table-inherited n
