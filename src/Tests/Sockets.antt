-- ===== src/Tests/Sockets.antt =====
-- A WebSocket connection that fails, and then is closed.
use bernardx.Base.{
  lookup, insert, ℕ, ◌+◌, List, count, suc, if◌then◌else◌, ◌≡◌, ◌⊎◌, refl, true, false, some, [],
  ◌∷◌, codes, bytes_eq,
}
use bernardx.AsyncIo.Files.{present}
use bernardx.Http.Proxy.{no_proxy}
use bernardx.AsyncIo.Reader.{c_str}
use bernardx.Http.Connection.{ws_newindex, assigned, ws_index, callback}
use bernardx.Http.Socket.{
  Socket, receive_error, received, ws_read_loop, ws_close, error_call, message_call, ws_send_flow,
  ws_close_flow, ws_connect_flow, handshake_done,
}
use bernardx.Value.{lua_ok, lua_yield}
use bernardx.Machine.{Lua, done}
use bernardx.Timer
use bernardx.Runtime.{Runtime, push_task}
use bernardx.Runtime.Pending.{pre_yield}
use bernardx.Runtime.Wakes.{Resumes}
use bernardx.Http.Answered.{do_request-Resumes}
use bernardx.Http.Request.{answered, http_request_flow, do_request, request_waits, response_values}
use bernardx.Http.References.{
  Referring, CallbackUse, sets_property, is_collected, use_callbacks, use_all, all_made, kept, held,
  use_all-kept,
}
use bernardx.Http.Resumed.{waiting_resumptions, flows-resume}
use bernardx.Http.Quiet.{EndsLast, start, next, reads, closes, Uses-EndsLast}
use bernardx.Tests.Toy.{fresh, toy, no_provider}

abbrev open_socket : Socket ℕ
open_socket = record {
  conn = record {
    client = some 1;
    url = codes "ws://h/";
    proxy = no_proxy;
    closed = false;
    connect_timeout = 0;
    idle_timeout = 0;
    on_message_ref = some 5;
    on_close_ref = some 6;
    on_error_ref = some 7;
  };
  called = [];
  runtime = fresh;
}

abbrev greeted : Socket ℕ
greeted = (ws_read_loop (received false true (codes "hi")) open_socket).0

abbrev failed : Socket ℕ
failed = (ws_read_loop (receive_error (codes "reset")) greeted).0

failed_test : failed.called ≡ error_call (codes "reset") ∷ message_call (codes "hi") ∷ []
unfolding ws_read_loop present
failed_test = refl

abbrev shut : Socket ℕ
shut = (ws_close true 3 failed).1

Uses-EndsLast_example :
    EndsLast shut.called × ((failed.conn.closed ≡ false) ⊎ (shut.called ≡ failed.called))
Uses-EndsLast_example =
    Uses-EndsLast open_socket failed shut refl
      (next (next start (reads (received false true (codes "hi"))))
        (reads (receive_error (codes "reset"))))
      (next start (closes true 3))

-- A callback that was assigned is read back.
assigned_test :
    ws_newindex (codes "onclose") 9 open_socket.conn
    ≡ assigned (record open_socket.conn { on_close_ref = some 9 }) (some 6)
unfolding ws_newindex c_str bytes_eq
assigned_test = refl

index_test : ws_index (some (codes "onclose")) open_socket.conn ≡ callback 6
unfolding ws_index c_str bytes_eq
index_test = refl

-- A connection that was closed during the handshake.
flows-resume_example :
    (waiting_resumptions 4 (http_request_flow 4 (answered 200 (codes "ok")) fresh)
      ≡ suc (waiting_resumptions 4 fresh))
    × (waiting_resumptions 4 (ws_send_flow 4 false shut).runtime
        ≡ suc (waiting_resumptions 4 shut.runtime))
    × (waiting_resumptions 4 (ws_close_flow 4 shut).runtime
        ≡ suc (waiting_resumptions 4 shut.runtime))
    × (waiting_resumptions 4 (ws_connect_flow 4 handshake_done shut).0.runtime ≡ (
        if shut.conn.closed
        then waiting_resumptions 4 shut.runtime
        else suc (waiting_resumptions 4 shut.runtime)))
unfolding ws_close ws_read_loop present push_task
flows-resume_example =
    flows-resume 4 (answered 200 (codes "ok")) handshake_done false fresh shut refl refl

-- Two functions for one callback, and then the collection.
abbrev replaced : List CallbackUse
replaced = sets_property (codes "onclose") 8 ∷ sets_property (codes "nothing") 9 ∷ []

use_all-kept_example :
    let w : Referring = record { conn = open_socket.conn; released = [] } in
    (kept 6 (use_all replaced w) ≡ count 6 (all_made replaced) + kept 6 w)
    × (held 6 (use_callbacks (is_collected true) (use_all replaced w)).conn ≡ 0)
use_all-kept_example =
    use_all-kept 6 replaced true (record { conn = open_socket.conn; released = [] })

-- A request whose answer comes at once.
abbrev lua : Lua ℕ
lua = toy lua_yield (λ co n s. done lua_ok 0 s)

abbrev asked : Runtime ℕ
asked = (do_request true 3 fresh).1

do_request-Resumes_example :
    ((do_request true 3 fresh).0 ≡ request_waits 1)
    × (lookup 1 asked.pending ≡ some 3)
    × Resumes lua no_provider 3 1
        (response_values (answered 200 (codes "ok")))
        (http_request_flow 1 (answered 200 (codes "ok")) asked)
do_request-Resumes_example =
    do_request-Resumes lua no_provider 3 (answered 200 (codes "ok")) fresh asked
      (unfold do_request pre_yield Timer.next_handle lookup insert in refl)
      (unfold do_request pre_yield in refl)
