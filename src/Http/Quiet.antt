-- ===== src/Http/Quiet.antt =====
-- The callbacks of a WebSocket connection of src/lua/http_library.cc over any history of its methods,
-- flows and collection.
use bernardx.Base.{
  ℕ, ◌≡◌, refl, sym, ap, ◌∙◌, inl, inr, ◌⊎◌, Bool, true, false, not, ◌||◌, List, [], ◌∷◌, Option,
  none, some, Bytes, if_cases, if_both, arith,
}
use mathlib.Core.Path.{subst}
use bernardx.Value.{LuaValue}
use bernardx.Runtime.{Runtime}
use bernardx.AsyncIo.Files.{present}
use bernardx.Http.Connection.{ws_gc, ws_newindex, Assigned, assigned, assign_raises}
use bernardx.Http.Socket.{
  Socket, Called, message_call, Reply, Handshake, handshake_failed, handshake_timed_out,
  handshake_refused, handshake_done, Received, receive_failed, receive_error, received,
  ws_connect_method, ws_connect_flow, ws_read_loop, ws_send, ws_send_flow, ws_close, ws_close_flow,
  notify, connect_failed, read_ended, handshake_end, read_answered,
}

abbrev is_end : Called → Bool
is_end (message_call body) = false
is_end call = true

unfoldable pub has_end : List Called → Bool
has_end [] = false
has_end (call ∷ calls) = is_end call || has_end calls

-- No callback is called after onerror or onclose; the last call stands first.
unfoldable pub EndsLast : List Called → Type 0
EndsLast [] = Unit {0}
EndsLast (call ∷ calls) = (has_end calls ≡ false) × EndsLast calls

abbrev with_assigned : {S : Type 0} → Socket S → Assigned → Socket S
with_assigned w (assigned c old) = record w { conn = c }
with_assigned w (assign_raises message) = w

module _ {S : Type 0} where
  -- A method, the end of what a flow waited for, or collection; other code may do anything to the
  -- runtime in between.
  pub data Use (w : Socket S) : Socket S → Type 0 where
    connects : (available : Bool) (new co : ℕ) → Use w (ws_connect_method available new co w).1
    shakes_hands : (h : ℕ) (a : Handshake) → Use w (ws_connect_flow h a w).0
    reads : (a : Received) → Use w (ws_read_loop a w).0
    sends :
        (available : Bool) (message : Bytes) (binary : Bool) (co : ℕ)
        → Use w (ws_send available message binary co w).1
    has_sent : (h : ℕ) (written : Bool) → Use w (ws_send_flow h written w)
    closes : (available : Bool) (co : ℕ) → Use w (ws_close available co w).1
    has_closed : (h : ℕ) → Use w (ws_close_flow h w)
    collects : (available : Bool) → Use w (record w { conn = (ws_gc available w.conn).0 })
    assigns : (key : Bytes) (r : ℕ) → Use w (with_assigned w (ws_newindex key r w.conn))
    elsewhere : (rt : Runtime S) → Use w (record w { runtime = rt })

  pub data Uses (w : Socket S) : Socket S → Type 0 where
    start : Uses w w
    next : {v u : Socket S} → Uses w v → Use v u → Uses w u

  -- What one of them does to the calls: nothing, or one call by an open connection, which is closed by
  -- an end.
  data Change (w w' : Socket S) : Type 0 where
    kept : w'.called ≡ w.called → (w.conn.closed ≡ false) ⊎ (w'.conn.closed ≡ true) → Change w w'
    told :
        (call : Called)
        → w.conn.closed ≡ false
        → w'.called ≡ call ∷ w.called
        → (is_end call ≡ false) ⊎ (w'.conn.closed ≡ true)
        → Change w w'

  closed_or_not : (w : Socket S) → (w.conn.closed ≡ false) ⊎ (w.conn.closed ≡ true)
  closed_or_not w = ground arith

  notify-Change :
      (w v : Socket S) (f : Option ℕ) (args : List LuaValue) (call : Called)
      → w.conn.closed ≡ false
      → v.called ≡ w.called
      → (is_end call ≡ false) ⊎ (v.conn.closed ≡ true)
      → Change w (notify f args call v)
  notify-Change w v none args call c e d = kept e (inl c)
  notify-Change w v (some f) args call c e d = told call c (ap (λ cs. call ∷ cs) e) d

  Change-runtime :
      (w v : Socket S) (rt : Runtime S) → Change w v → Change w (record v { runtime = rt })
  Change-runtime w v rt (kept e d) = kept e d
  Change-runtime w v rt (told call c e d) = told call c e d

  connect_failed-Change :
      (h : ℕ) (message : Bytes) (w : Socket S)
      → w.conn.closed ≡ false
      → Change w (connect_failed h message w)
  connect_failed-Change h message w c =
      Change-runtime w _ _ (notify-Change w _ w.conn.on_error_ref _ _ c refl (inr refl))

  handshake_end-Change :
      (h : ℕ) (a : Handshake) (w : Socket S)
      → w.conn.closed ≡ false
      → Change w (handshake_end h a w).0
  handshake_end-Change h handshake_failed w c = connect_failed-Change h _ w c
  handshake_end-Change h handshake_timed_out w c = connect_failed-Change h _ w c
  handshake_end-Change h (handshake_refused message) w c = connect_failed-Change h message w c
  handshake_end-Change h handshake_done w c = kept refl (inl c)

  read_ended-Change :
      (message : Bytes) (w : Socket S) → w.conn.closed ≡ false → Change w (read_ended message w)
  read_ended-Change message w c =
      if_both (λ x. Change w x) (present w.conn.on_error_ref)
        (notify-Change w _ w.conn.on_error_ref _ _ c refl (inr refl))
        (notify-Change w _ w.conn.on_close_ref _ _ c refl (inr refl))

  abbrev First : Socket S → Socket S × Bool → Type 0
  First w x = Change w x.0

  abbrev Second : Socket S → Reply × Socket S → Type 0
  Second w x = Change w x.1

  read_answered-Change :
      (a : Received) (w : Socket S) → w.conn.closed ≡ false → Change w (read_answered a w).0
  read_answered-Change receive_failed w c = read_ended-Change _ w c
  read_answered-Change (receive_error message) w c = read_ended-Change message w c
  read_answered-Change (received eof status_200 body) w c =
      if_both (First w) (eof || not status_200) (read_ended-Change _ w c)
        (notify-Change w w w.conn.on_message_ref _ _ c refl (inl refl))

  assigned-called : (w : Socket S) (a : Assigned) → (with_assigned w a).called ≡ w.called
  assigned-called w (assigned c old) = refl
  assigned-called w (assign_raises message) = refl

  assigned-closed :
      (key : Bytes) (r : ℕ) (w : Socket S)
      → (with_assigned w (ws_newindex key r w.conn)).conn.closed ≡ w.conn.closed
  unfolding ws_newindex
  assigned-closed key r w = ground arith

  same : (w : Socket S) → Change w w
  same w = kept refl (closed_or_not w)

  Use-Change : (w w' : Socket S) → Use w w' → Change w w'
  unfolding ws_connect_method ws_connect_flow ws_read_loop ws_send ws_send_flow ws_close
      ws_close_flow ws_gc ws_newindex
  Use-Change w _ (connects available new co) =
      if_both (Second w) w.conn.closed (same w)
        (if_both (Second w) available (kept refl (closed_or_not w)) (same w))
  Use-Change w _ (shakes_hands h a) =
      if_cases (First w) w.conn.closed _ _ (λ c. same w) (λ c. handshake_end-Change h a w c)
  Use-Change w _ (reads a) =
      if_cases (First w) w.conn.closed _ _ (λ c. same w) (λ c. read_answered-Change a w c)
  Use-Change w _ (sends available message binary co) =
      if_both (Second w) w.conn.closed (same w)
        (if_both (Second w) available (kept refl (closed_or_not w)) (same w))
  Use-Change w _ (has_sent h written) = kept refl (closed_or_not w)
  Use-Change w _ (closes available co) =
      if_both (Second w) w.conn.closed (same w)
        (if_both (Second w) available (kept refl (inr refl)) (kept refl (inr refl)))
  Use-Change w _ (has_closed h) = kept refl (closed_or_not w)
  Use-Change w _ (collects available) = kept refl (ground arith)
  Use-Change w _ (assigns key r) =
      kept (assigned-called w (ws_newindex key r w.conn)) (ground (arith, assigned-closed key r w))
  Use-Change w _ (elsewhere rt) = kept refl (closed_or_not w)

  -- What holds of the calls of any connection.
  abbrev Quiet : Socket S → Type 0
  Quiet w = EndsLast w.called × ((has_end w.called ≡ false) ⊎ (w.conn.closed ≡ true))

  Change-Quiet : (w w' : Socket S) → Change w w' → Quiet w → Quiet w'
  unfolding EndsLast has_end
  Change-Quiet w w' (kept e d) (l, h) =
      (subst EndsLast (sym e) l, ground (arith, d, h, ap has_end e))
  Change-Quiet w w' (told call c e d) (l, h) =
      (subst EndsLast (sym e) (ground (arith, c, h), l), ground (arith, c, d, h, ap has_end e))

  abbrev Silent : Socket S → Socket S → Type 0
  Silent w w' = (w'.called ≡ w.called) × (w'.conn.closed ≡ true)

  Change-Silent : (w w' : Socket S) → Change w w' → w.conn.closed ≡ true → Silent w w'
  Change-Silent w w' (kept e d) c = (e, ground (arith, c, d))
  Change-Silent w w' (told call f e d) c = cc

  Uses-Quiet : (w w' : Socket S) → Uses w w' → Quiet w → Quiet w'
  Uses-Quiet w _ start q = q
  Uses-Quiet w u (next {v} us x) q = Change-Quiet v u (Use-Change v u x) (Uses-Quiet w v us q)

  Uses-Silent : (w w' : Socket S) → Uses w w' → w.conn.closed ≡ true → Silent w w'
  Uses-Silent w _ start c = (refl, c)
  Uses-Silent w u (next {v} us x) c =
      let (e, d) = Uses-Silent w v us c in
      let (f, g) = Change-Silent v u (Use-Change v u x) d in (f ∙ e, g)

  -- In any history of a new connection no callback is called after onerror or onclose was, and
  -- once the connection is closed none is called in the rest of the history.
  pub Uses-EndsLast :
      (w v u : Socket S)
      → w.called ≡ []
      → Uses w v
      → Uses v u
      → EndsLast u.called × ((v.conn.closed ≡ false) ⊎ (u.called ≡ v.called))
  unfolding EndsLast has_end
  Uses-EndsLast w v u e a b =
      let start_quiet : Quiet w = (subst EndsLast (sym e) tt, inl (ap has_end e)) in
      (
        (Uses-Quiet v u b (Uses-Quiet w v a start_quiet)).0,
        elim (closed_or_not v) [ inl c ↦ inl c | inr c ↦ inr (Uses-Silent v u b c).0 ],
      )
