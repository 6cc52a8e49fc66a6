-- ===== src/Http/References.antt =====
-- The registry references of the callbacks of a WebSocket connection of src/lua/http_library.cc:
-- ws_newindex, UnrefCallbacks and ws_gc.
use bernardx.Base.{
  ℕ, ◌+◌, ◌≡◌, ◌∙◌, Bool, true, List, [], ◌∷◌, ◌++◌, Option, Bytes, codes, bytes_eq, count,
  count-append, if◌then◌else◌, Bool-cases, inl, inr, arith,
}
use bernardx.AsyncIo.Reader.{c_str}
use bernardx.Http.Connection.{
  WsConn, Assigned, assigned, assign_raises, ws_newindex, references, ws_gc,
}

-- A connection with the references that were given back to the registry.
pub record Referring : Type 0 where
  pub conn : WsConn
  pub released : List ℕ

-- A script sets a property to a function, for which luaL_ref makes the number, or the connection is
-- collected.
pub data CallbackUse : Type 0 where
  sets_property : Bytes → ℕ → CallbackUse
  is_collected : Bool → CallbackUse

abbrev after_assignment : Assigned → Referring → Referring
after_assignment (assigned c old) w = record { conn = c; released = references old ++ w.released }
after_assignment (assign_raises message) w = w

abbrev pub use_callbacks : CallbackUse → Referring → Referring
use_callbacks (sets_property key r) w = after_assignment (ws_newindex key r w.conn) w
use_callbacks (is_collected available) w =
    let (c, refs, frame) = ws_gc available w.conn in
    record { conn = c; released = refs ++ w.released }

-- The references that are made: none for a property that cannot be written.
abbrev pub is_callback : Bytes → Bool
is_callback key =
    if bytes_eq (c_str key) (codes "onmessage")
    then true
    else if bytes_eq (c_str key) (codes "onclose")
    then true
    else bytes_eq (c_str key) (codes "onerror")

abbrev pub made : CallbackUse → List ℕ
made (sets_property key r) = if is_callback key then r ∷ [] else []
made (is_collected available) = []

abbrev pub use_all : List CallbackUse → Referring → Referring
use_all [] w = w
use_all (u ∷ us) w = use_all us (use_callbacks u w)

abbrev pub all_made : List CallbackUse → List ℕ
all_made [] = []
all_made (u ∷ us) = made u ++ all_made us

-- How often a connection has a reference.
abbrev pub held : ℕ → WsConn → ℕ
held n c =
    count n (references c.on_message_ref)
    + (count n (references c.on_close_ref) + count n (references c.on_error_ref))

-- How often a reference was given back or is held.
abbrev pub kept : ℕ → Referring → ℕ
kept n w = count n w.released + held n w.conn

module _ (n : ℕ) where
  abbrev Balances : List ℕ → Referring → Assigned → Type 0
  Balances new w a = kept n (after_assignment a w) ≡ count n new + kept n w

  assigned-Balances :
      (key : Bytes) (r : ℕ) (w : Referring)
      → Balances (made (sets_property key r)) w (ws_newindex key r w.conn)
  unfolding ws_newindex count
  assigned-Balances key r w =
      let old = λ (o : Option ℕ). count-append n (references o) w.released in
      elim (Bool-cases (bytes_eq (c_str key) (codes "onmessage"))) [
        | inl e ↦ rw (e, old w.conn.on_message_ref) (omega arith)
        | inr e ↦ elim (Bool-cases (bytes_eq (c_str key) (codes "onclose"))) [
          | inl f ↦ rw (e, f, old w.conn.on_close_ref) (omega arith)
          | inr f ↦ elim (Bool-cases (bytes_eq (c_str key) (codes "onerror"))) [
            | inl g ↦ rw (e, f, g, old w.conn.on_error_ref) (omega arith)
            | inr g ↦ rw (e, f, g) (omega arith)
          ]
        ]
      ]

  collected-kept :
      (available : Bool) (w : Referring)
      → kept n (use_callbacks (is_collected available) w) ≡ kept n w
  unfolding ws_gc count
  collected-kept available w =
      let c = w.conn in
      let later = references c.on_close_ref ++ references c.on_error_ref in
      rw
        (
          count-append n (references c.on_message_ref ++ later) w.released,
          count-append n (references c.on_message_ref) later,
          count-append n (references c.on_close_ref) (references c.on_error_ref),
        )
        (omega arith)

  use_callbacks-kept :
      (u : CallbackUse) (w : Referring) → kept n (use_callbacks u w) ≡ count n (made u) + kept n w
  unfolding count
  use_callbacks-kept (sets_property key r) w = assigned-Balances key r w
  use_callbacks-kept (is_collected available) w = collected-kept available w ∙ omega arith

  all-kept :
      (us : List CallbackUse) (w : Referring)
      → kept n (use_all us w) ≡ count n (all_made us) + kept n w
  unfolding count
  all-kept [] w = omega arith
  all-kept (u ∷ us) w = omega (
    arith,
    all-kept us (use_callbacks u w),
    use_callbacks-kept u w,
    count-append n (made u) (all_made us),
  )

  -- Over any history of assignments of properties and of collection, each reference that luaL_ref
  -- made for a callback is held by the connection or was given back, as often as it was made: none
  -- is lost when a callback is replaced, and none is given back twice. A collected connection holds
  -- none.
  pub use_all-kept :
      (us : List CallbackUse) (available : Bool) (w : Referring)
      → (kept n (use_all us w) ≡ count n (all_made us) + kept n w)
        × (held n (use_callbacks (is_collected available) (use_all us w)).conn ≡ 0)
  unfolding ws_gc count
  use_all-kept us available w = (all-kept us w, omega arith)
