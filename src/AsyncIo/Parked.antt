-- ===== src/AsyncIo/Parked.antt =====
-- A file that is closed while a coroutine waits for its data: file_read, file_close and the completion
-- in src/lua/async_io_library.cc with PreYield of src/lua/lua_runtime.cc.
use bernardx.Base.{
  ℕ, ◌≡◌, refl, ap, ◌∙◌, codes, ℤ, Bool, true, List, Option, some, Bytes, ==_refl, lookup,
  lookup-insert, if◌then◌else◌, arith,
}
use bernardx.Value.{LuaValue}
use bernardx.Runtime.{Runtime}
use bernardx.Runtime.Pending.{pre_yield, pin_pending_co}
use bernardx.AsyncIo.Reader.{
  ReadSpec, Action, resumes, reads_some, reads_all, reads_rest, abandons, throws, Arrival, parsed,
  parse_read_fmt, begin_read, complete_read, perform,
}
use bernardx.AsyncIo.Files.{
  FileHandle, SystemCall, yields_read, usable_file, file_read, file_close, file_read_arrived, begun,
  read_parsed, start_read,
}

-- What waits for a completion.
abbrev pub Awaits : Action → Type 0
Awaits reads_some = Unit {0}
Awaits (reads_all before) = Unit {0}
Awaits (reads_rest before count) = Unit {0}
Awaits action = ⊥

complete_closed :
    (action : Action) (a : Arrival) (buffer : Bytes)
    → complete_read true action a buffer ≡ (abandons, buffer)
unfolding complete_read
complete_closed action a buffer = refl

parked-pre_yield :
    {S : Type 0} (co : ℕ) (rt : Runtime S)
    → lookup (pre_yield co rt).0 (pre_yield co rt).1.pending ≡ some co
unfolding pre_yield pin_pending_co
parked-pre_yield co rt =
    let h = (pre_yield co rt).0 in
    lookup-insert h h co rt.pending
    ∙ ap (λ b. if b then some co else lookup h rt.pending) (==_refl h)

closing-IsClosed : (f : FileHandle) (log : List SystemCall) → (file_close f log).1.closed ≡ true
unfolding file_close
closing-IsClosed f log = ground arith

module _ {S : Type 0} (to_integer : ℕ → Option ℤ) (resizable : ℕ → Bool)
    (fmt : Option LuaValue) where
  begun-Awaits :
      (x : ℕ × Runtime S) (action : Action) (buffer : Bytes)
      → Awaits action
      → begun x (action, buffer) ≡ (yields_read x.0 action, buffer, x.1)
  unfolding perform
  begun-Awaits x reads_some buffer w = refl
  begun-Awaits x (reads_all before) buffer w = refl
  begun-Awaits x (reads_rest before count) buffer w = refl
  begun-Awaits x (resumes vs) buffer w = elim w [ ]
  begun-Awaits x abandons buffer w = elim w [ ]
  begun-Awaits x throws buffer w = elim w [ ]

  start_read-yields :
      (message : Bytes) (spec : ReadSpec) (action : Action) (buffer buffer' : Bytes) (co : ℕ)
      (rt : Runtime S) (usable : Bool)
      → parse_read_fmt to_integer fmt ≡ parsed spec
      → begin_read resizable spec buffer ≡ (action, buffer')
      → Awaits action
      → usable ≡ true
      → start_read to_integer resizable message usable fmt co buffer rt
        ≡ (yields_read (pre_yield co rt).0 action, buffer', (pre_yield co rt).1)
  unfolding start_read
  start_read-yields message spec action buffer buffer' co rt usable e b w u =
      ap (λ x. read_parsed resizable message x usable co buffer rt) e
      ∙ ap (λ x. read_parsed resizable message (parsed spec) x co buffer rt) u
      ∙ ap (λ x. begun (pre_yield co rt) x) b
      ∙ begun-Awaits (pre_yield co rt) action buffer' w

  abbrev arrived :
      ℕ → Bool → Action → Arrival → FileHandle → Runtime S → Action × FileHandle × Runtime S
  arrived h closed action a f rt =
      let (action', buffer) = complete_read closed action a f.read_buffer in
      (action', record f { read_buffer = buffer }, perform h action' rt)

  -- A read of a usable file whose data is not at hand yields with the coroutine parked; after a
  -- close, its completion leaves any runtime as it is, so that it resumes nobody.
  pub closed_read-parked :
      (spec : ReadSpec) (action : Action) (buffer : Bytes) (co : ℕ) (f : FileHandle)
      (rt : Runtime S) (log : List SystemCall) (a : Arrival) (later : Runtime S)
      → parse_read_fmt to_integer fmt ≡ parsed spec
      → begin_read resizable spec f.read_buffer ≡ (action, buffer)
      → Awaits action
      → usable_file f ≡ true
      → (let (h, rt') = pre_yield co rt in
          let f' = record f { read_buffer = buffer } in
          (file_read to_integer resizable fmt co f rt ≡ (yields_read h action, f', rt'))
          × (lookup h rt'.pending ≡ some co)
          × (file_read_arrived h action a (file_close f' log).1 later
              ≡ (abandons, (file_close f' log).1, later)))
  unfolding file_read file_read_arrived perform complete_read
  closed_read-parked spec action buffer co f rt log a later e b w u = (
    ap (λ x. (x.0, record f { read_buffer = x.1 }, x.2))
        (start_read-yields (codes "file is closed") spec action f.read_buffer buffer co rt
          (usable_file f) e b w u),
    parked-pre_yield co rt,
    ap
        (λ c.
          arrived (pre_yield co rt).0 c action a
            (file_close (record f { read_buffer = buffer }) log).1 later)
        (closing-IsClosed (record f { read_buffer = buffer }) log),
  )
