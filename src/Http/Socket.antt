-- ===== src/Http/Socket.antt =====
-- The methods of a WebSocket connection of src/lua/http_library.cc and the flows that they start, cut
-- where they wait for the client of cinatra. What the client answers is an argument.
use bernardx.Base.{
  ℕ, Bool, true, false, not, ◌||◌, List, [], ◌∷◌, Option, none, some, Bytes, codes, if◌then◌else◌,
}
use bernardx.Value.{LuaValue, nil, boolean, string}
use bernardx.Runtime.{Runtime, push_resume}
use bernardx.Runtime.Pending.{pre_yield}
use bernardx.Runtime.Tasks.{call_lua_function}
use bernardx.AsyncIo.Files.{present}
use bernardx.Http.Connection.{WsConn, shutting_down}

-- What a method gives: values, an error that it raises, or a flow that runs while the coroutine
-- waits under a handle.
pub data Reply : Type 0 where
  replies : List LuaValue → Reply
  reply_raises : Bytes → Reply
  connects : ℕ → Reply
  sends : ℕ → Bytes → Bool → Reply
  closes : ℕ → Reply

-- A call of a callback.
pub data Called : Type 0 where
  message_call : Bytes → Called
  error_call : Bytes → Called
  close_call : Called

-- A connection in use: the calls of its callbacks, the last one first, and the runtime.
pub record Socket (S : Type 0) : Type 0 where
  pub conn : WsConn
  pub called : List Called
  pub runtime : Runtime S

-- Whether ok, and an error text; nil for none.
abbrev error_value : Bytes → LuaValue
error_value [] = nil
error_value (c ∷ s) = string (c ∷ s)

-- How a handshake ended, and what a read gave: `status_200` for a status that is 200.
pub data Handshake : Type 0 where
  handshake_failed : Handshake
  handshake_timed_out : Handshake
  handshake_refused : Bytes → Handshake
  handshake_done : Handshake

pub data Received : Type 0 where
  receive_failed : Received
  receive_error : Bytes → Received
  received : Bool → Bool → Bytes → Received

-- What WsSendFlow resumes with: `written` is whether the write succeeds, where there is one.
unfoldable pub send_result : Bool → WsConn → Bool × Bytes
unfolding present
send_result written c =
    if not (present c.client)
    then (false, codes "not connected")
    else if c.closed
    then (false, codes "closed")
    else (written, if written then [] else codes "send failed")

module _ {S : Type 0} where
  -- WsResume
  unfoldable pub ws_resume : ℕ → Bool → Bytes → Runtime S → Runtime S
  unfolding push_resume
  ws_resume h ok err rt = push_resume h (boolean ok ∷ error_value err ∷ []) rt

  -- CallLuaFunction with the reference of a callback, where it is set.
  abbrev pub notify : Option ℕ → List LuaValue → Called → Socket S → Socket S
  notify none args call w = w
  notify (some f) args call w = record w {
    called = call ∷ w.called;
    runtime = call_lua_function f args w.runtime;
  }

  -- ws_connect_method; the flow makes a client, `new`, before it waits for the handshake.
  unfoldable pub ws_connect_method : Bool → ℕ → ℕ → Socket S → Reply × Socket S
  unfolding pre_yield
  ws_connect_method available new co w =
      if w.conn.closed
      then (replies (boolean false ∷ string (codes "closed") ∷ []), w)
      else if available
      then (let (h, rt) = pre_yield co w.runtime in
          let c = w.conn in
          (connects h, record w { conn = record c { client = some new }; runtime = rt }))
      else (replies (boolean false ∷ string shutting_down ∷ []), w)

  -- WsConnectFlow after a handshake that failed.
  abbrev pub connect_failed : ℕ → Bytes → Socket S → Socket S
  connect_failed h message w =
      let c = w.conn in
      let w' =
        notify c.on_error_ref (string message ∷ []) (error_call message)
          (record w { conn = record c { closed = true; client = none } }) in
      record w' { runtime = ws_resume h false message w'.runtime }

  abbrev pub handshake_end : ℕ → Handshake → Socket S → Socket S × Bool
  handshake_end h handshake_failed w = (connect_failed h (codes "connect failed") w, false)
  handshake_end h handshake_timed_out w = (connect_failed h (codes "connect timeout") w, false)
  handshake_end h (handshake_refused message) w = (connect_failed h message w, false)
  handshake_end h handshake_done w = (record w { runtime = ws_resume h true [] w.runtime }, true)

  -- WsConnectFlow after the handshake, and whether WsReadLoop starts.
  unfoldable pub ws_connect_flow : ℕ → Handshake → Socket S → Socket S × Bool
  unfolding ws_resume call_lua_function
  ws_connect_flow h a w = if w.conn.closed then (w, false) else handshake_end h a w

  -- The end of WsReadLoop by an answer.
  abbrev pub read_ended : Bytes → Socket S → Socket S
  read_ended message w =
      let c = w.conn in
      let w' = record w { conn = record c { closed = true; client = none } } in
      if present c.on_error_ref
      then notify c.on_error_ref (string message ∷ []) (error_call message) w'
      else notify c.on_close_ref [] close_call w'

  abbrev pub read_answered : Received → Socket S → Socket S × Bool
  read_answered receive_failed w = (read_ended (codes "read failed") w, false)
  read_answered (receive_error message) w = (read_ended message w, false)
  read_answered (received eof status_200 body) w =
      if eof || not status_200
      then (read_ended (codes "connection closed") w, false)
      else (notify w.conn.on_message_ref (string body ∷ []) (message_call body) w, true)

  -- One round of WsReadLoop, and whether there is another.
  unfoldable pub ws_read_loop : Received → Socket S → Socket S × Bool
  unfolding call_lua_function present
  ws_read_loop a w = if w.conn.closed then (w, false) else read_answered a w

  -- ws_send: `binary` for a mode that begins with b.
  unfoldable pub ws_send : Bool → Bytes → Bool → ℕ → Socket S → Reply × Socket S
  unfolding pre_yield
  ws_send available message binary co w =
      if w.conn.closed
      then (replies (boolean false ∷ string (codes "closed") ∷ []), w)
      else if available
      then (let (h, rt) = pre_yield co w.runtime in
          (sends h message binary, record w { runtime = rt }))
      else (replies (boolean false ∷ string shutting_down ∷ []), w)

  -- WsSendFlow
  unfoldable pub ws_send_flow : ℕ → Bool → Socket S → Socket S
  unfolding ws_resume send_result
  ws_send_flow h written w =
      let (ok, err) = send_result written w.conn in
      record w { runtime = ws_resume h ok err w.runtime }

  -- ws_close
  unfoldable pub ws_close : Bool → ℕ → Socket S → Reply × Socket S
  unfolding pre_yield
  ws_close available co w =
      let c = w.conn in
      let w' = record w { conn = record c { closed = true } } in
      if c.closed
      then (replies (boolean true ∷ []), w)
      else if available
      then (let (h, rt) = pre_yield co w.runtime in (closes h, record w' { runtime = rt }))
      else (replies (boolean true ∷ []), w')

  -- The end of WsCloseFlow, whatever became of the close frame.
  unfoldable pub ws_close_flow : ℕ → Socket S → Socket S
  unfolding ws_resume
  ws_close_flow h w = record w { runtime = ws_resume h true [] w.runtime }
