-- ===== src/Http/Connection.antt =====
-- The WebSocket connection of src/lua/http_library.cc: WsConn, its creation, callbacks, collection and
-- timeouts.
use bernardx.Base.{
  ℕ, ℤ, ltb, Bool, false, not, ◌&&◌, ◌||◌, List, [], ◌∷◌, ◌++◌, Option, none, some, Bytes, codes,
  bytes_eq, if◌then◌else◌,
}
use bernardx.AsyncIo.Reader.{c_str}
use bernardx.AsyncIo.Files.{present}
use bernardx.Http.Url.{normalize_url}
use bernardx.Http.Proxy.{ProxyConfig, Parsed, parsed, rejected}
use bernardx.Http.Request.{positive_ms, chosen_proxy}

-- WsConn: the client is a number, and a callback reference that is LUA_NOREF is none.
pub record WsConn : Type 0 where
  pub client : Option ℕ
  pub url : Bytes
  pub proxy : ProxyConfig
  pub closed : Bool
  pub connect_timeout : ℕ
  pub idle_timeout : ℕ
  pub on_message_ref : Option ℕ
  pub on_close_ref : Option ℕ
  pub on_error_ref : Option ℕ

-- opt_timeout_ms
abbrev or_zero : Option ℕ → ℕ
or_zero none = 0
or_zero (some n) = n

unfoldable pub opt_timeout_ms : Option ℤ → ℕ
opt_timeout_ms t = or_zero (positive_ms t)

abbrev pub shutting_down : Bytes
shutting_down = codes "http library is shutting down"

-- ws_create, with the options' proxy and timeouts: the connection or the error that it raises.
pub data Created : Type 0 where
  created : WsConn → Created
  create_raises : Bytes → Created

abbrev pub create_with : Bool → Bytes → Option ℤ → Option ℤ → Parsed → Created
create_with available url connect idle (rejected message) = create_raises message
create_with available url connect idle (parsed p) =
    if available
    then created (record {
      client = none;
      url = normalize_url url;
      proxy = p;
      closed = false;
      connect_timeout = opt_timeout_ms connect;
      idle_timeout = opt_timeout_ms idle;
      on_message_ref = none;
      on_close_ref = none;
      on_error_ref = none;
    })
    else create_raises shutting_down

unfoldable pub ws_create : Bool → Bytes → Option Bytes → Option ℤ → Option ℤ → Created
unfolding opt_timeout_ms
ws_create available url proxy connect idle =
    create_with available url connect idle (chosen_proxy proxy)

-- ws_newindex, for a new reference to the function: the connection with the reference that is given
-- back, or the error that it raises.
pub data Assigned : Type 0 where
  assigned : WsConn → Option ℕ → Assigned
  assign_raises : Bytes → Assigned

unfoldable pub ws_newindex : Bytes → ℕ → WsConn → Assigned
unfolding c_str bytes_eq
ws_newindex key r c =
    if bytes_eq (c_str key) (codes "onmessage")
    then assigned (record c { on_message_ref = some r }) c.on_message_ref
    else if bytes_eq (c_str key) (codes "onclose")
    then assigned (record c { on_close_ref = some r }) c.on_close_ref
    else if bytes_eq (c_str key) (codes "onerror")
    then assigned (record c { on_error_ref = some r }) c.on_error_ref
    else assign_raises (codes "ws has no writable property '" ++ (c_str key ++ codes "'"))

-- ws_index: a callback that is set, or else what the table of methods has under the key. `none` is a
-- key that is no text.
pub data Indexed : Type 0 where
  callback : ℕ → Indexed
  from_methods : Indexed

abbrev callback_or_method : Option ℕ → Indexed
callback_or_method (some r) = callback r
callback_or_method none = from_methods

unfoldable pub ws_index : Option Bytes → WsConn → Indexed
unfolding c_str bytes_eq
ws_index none c = from_methods
ws_index (some key) c =
    if bytes_eq (c_str key) (codes "onmessage")
    then callback_or_method c.on_message_ref
    else if bytes_eq (c_str key) (codes "onclose")
    then callback_or_method c.on_close_ref
    else if bytes_eq (c_str key) (codes "onerror")
    then callback_or_method c.on_error_ref
    else from_methods

-- UnrefCallbacks: what is given back.
abbrev pub references : Option ℕ → List ℕ
references none = []
references (some r) = r ∷ []

unfoldable pub unref_callbacks : WsConn → WsConn × List ℕ
unref_callbacks c = (
  record c { on_message_ref = none; on_close_ref = none; on_error_ref = none },
  references c.on_message_ref ++ (references c.on_close_ref ++ references c.on_error_ref),
)

-- ws_gc: the connection, the references that are given back, and whether a close frame is written.
unfoldable pub ws_gc : Bool → WsConn → WsConn × List ℕ × Bool
unfolding unref_callbacks present
ws_gc available c =
    let (c', refs) = unref_callbacks c in
    (
      record c' { client = none; closed = present c.client || c.closed },
      refs,
      present c.client && (not c.closed && available),
    )

-- The timeouts that WsConnectFlow sets for the handshake and for reading, in milliseconds; none keeps
-- the client's own.
unfoldable pub handshake_timeout : WsConn → Option ℕ
handshake_timeout c = if ltb 0 c.connect_timeout then some c.connect_timeout else none

unfoldable pub read_timeout : WsConn → Option ℕ
read_timeout c =
    if ltb 0 c.idle_timeout
    then some c.idle_timeout
    else if ltb 0 c.connect_timeout
    then some 60000
    else none
