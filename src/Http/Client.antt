-- ===== src/Http/Client.antt =====
-- What src/lua/http_library.cc asks of the client of cinatra: apply_proxy, the closure of http_request
-- and the settings of WsConnectFlow, as lists of calls in their order.
use bernardx.Base.{
  ℕ, ◌≡◌, refl, ap, ◌∙◌, ltb, not, List, [], ◌∷◌, ◌++◌, Option, none, some, Bytes, is_empty,
  if◌then◌else◌, Bool-cases, inl, inr,
}
use mathlib.Core.List.{append_assoc}
use bernardx.Http.Proxy.{ProxyConfig, ContentType, enabled}
use bernardx.Http.Request.{RequestPlan, HttpMethod, k_get, k_post, k_put, k_delete}
use bernardx.Http.Connection.{WsConn, handshake_timeout, read_timeout}

-- The members of cinatra::coro_http_client that are called; times in milliseconds.
pub data ClientCall : Type 0 where
  set_proxy : Bytes → Bytes → ClientCall
  set_proxy_basic_auth : Bytes → Bytes → ClientCall
  set_conn_timeout : ℕ → ClientCall
  set_req_timeout : ℕ → ClientCall
  add_header : Bytes → Bytes → ClientCall
  async_get : Bytes → ClientCall
  async_post : Bytes → Bytes → ContentType → ClientCall
  async_put : Bytes → Bytes → ContentType → ClientCall
  async_delete : Bytes → Bytes → ContentType → ClientCall
  connect : Bytes → ClientCall

-- apply_proxy
unfoldable pub apply_proxy : ProxyConfig → List ClientCall
unfolding enabled
apply_proxy proxy =
    if not (enabled proxy)
    then []
    else set_proxy proxy.host proxy.port
      ∷ (if is_empty proxy.username
          then []
          else set_proxy_basic_auth proxy.username proxy.password ∷ [])

abbrev add_headers : List (Bytes × Bytes) → List ClientCall
add_headers [] = []
add_headers ((k, v) ∷ hs) = add_header k v ∷ add_headers hs

abbrev limit : Option ℕ → List ClientCall
limit none = []
limit (some ms) = set_req_timeout ms ∷ []

-- The switch over the method.
abbrev send : HttpMethod → RequestPlan → ClientCall
send k_post p = async_post p.url p.body p.content_type
send k_put p = async_put p.url p.body p.content_type
send k_delete p = async_delete p.url p.body p.content_type
send k_get p = async_get p.url

-- The closure of http_request.
unfoldable pub request_calls : RequestPlan → List ClientCall
unfolding apply_proxy
request_calls p =
    limit p.timeout_ms ++ (apply_proxy p.proxy ++ (add_headers p.headers ++ (send p.verb p ∷ [])))

abbrev limit_handshake : Option ℕ → List ClientCall
limit_handshake none = []
limit_handshake (some ms) = set_conn_timeout ms ∷ set_req_timeout ms ∷ []

-- WsConnectFlow, up to the handshake, and what it sets when that succeeded.
unfoldable pub connect_calls : WsConn → List ClientCall
unfolding apply_proxy handshake_timeout
connect_calls c =
    apply_proxy c.proxy ++ (limit_handshake (handshake_timeout c) ++ (connect c.url ∷ []))

unfoldable pub connected_calls : WsConn → List ClientCall
unfolding read_timeout
connected_calls c = limit (read_timeout c)

-- The request timeout and the connect timeout of a client after some calls.
unfoldable pub req_timeout : ℕ → List ClientCall → ℕ
req_timeout ms [] = ms
req_timeout ms (set_req_timeout n ∷ calls) = req_timeout n calls
req_timeout ms (_ ∷ calls) = req_timeout ms calls

unfoldable pub conn_timeout : ℕ → List ClientCall → ℕ
conn_timeout ms [] = ms
conn_timeout ms (set_conn_timeout n ∷ calls) = conn_timeout n calls
conn_timeout ms (_ ∷ calls) = conn_timeout ms calls

-- A timeout of zero keeps the client's.
abbrev pub or_default : ℕ → ℕ → ℕ
or_default d n = if ltb 0 n then n else d

-- Proxy settings set no timeout.
module _ (ms : ℕ) (proxy : ProxyConfig) (calls : List ClientCall) where
  req_timeout-apply_proxy : req_timeout ms (apply_proxy proxy ++ calls) ≡ req_timeout ms calls
  unfolding apply_proxy req_timeout
  req_timeout-apply_proxy = elim (Bool-cases (is_empty proxy.host)) [
    | inl h ↦ rw h refl
    | inr h ↦ elim (Bool-cases (is_empty proxy.username)) [
      | inl u ↦ rw (h, u) refl
      | inr u ↦ rw (h, u) refl
    ]
  ]

  conn_timeout-apply_proxy : conn_timeout ms (apply_proxy proxy ++ calls) ≡ conn_timeout ms calls
  unfolding apply_proxy conn_timeout
  conn_timeout-apply_proxy = elim (Bool-cases (is_empty proxy.host)) [
    | inl h ↦ rw h refl
    | inr h ↦ elim (Bool-cases (is_empty proxy.username)) [
      | inl u ↦ rw (h, u) refl
      | inr u ↦ rw (h, u) refl
    ]
  ]

module _ (c : WsConn) (d : ℕ) where
  abbrev bounded : List ClientCall
  bounded = limit_handshake (handshake_timeout c) ++ (connect c.url ∷ [])

  during_connect : conn_timeout d (connect_calls c) ≡ or_default d c.connect_timeout
  unfolding connect_calls conn_timeout handshake_timeout
  during_connect =
      conn_timeout-apply_proxy d c.proxy bounded
      ∙ elim (Bool-cases (ltb 0 c.connect_timeout)) [ inl e ↦ rw e refl | inr e ↦ rw e refl ]

  during_request : req_timeout 60000 (connect_calls c) ≡ or_default 60000 c.connect_timeout
  unfolding connect_calls req_timeout handshake_timeout
  during_request =
      req_timeout-apply_proxy 60000 c.proxy bounded
      ∙ elim (Bool-cases (ltb 0 c.connect_timeout)) [ inl e ↦ rw e refl | inr e ↦ rw e refl ]

  while_reading :
      req_timeout 60000 (connect_calls c ++ connected_calls c) ≡ or_default 60000 c.idle_timeout
  unfolding connect_calls connected_calls req_timeout handshake_timeout read_timeout
  while_reading =
      ap (req_timeout 60000) (append_assoc (apply_proxy c.proxy) bounded (connected_calls c))
      ∙ (req_timeout-apply_proxy 60000 c.proxy (bounded ++ connected_calls c)
          ∙ elim (Bool-cases (ltb 0 c.connect_timeout)) [
            | inl e ↦ elim (Bool-cases (ltb 0 c.idle_timeout)) [
              | inl f ↦ rw (e, f) refl
              | inr f ↦ rw (e, f) refl
            ]
            | inr e ↦ elim (Bool-cases (ltb 0 c.idle_timeout)) [
              | inl f ↦ rw (e, f) refl
              | inr f ↦ rw (e, f) refl
            ]
          ])

  -- For a client with a connect timeout of d milliseconds and a request timeout of 60000: during
  -- the handshake of ws:connect both are connect_timeout where that is positive, and else the
  -- client's; and the reads of a connection are bounded by idle_timeout where that is positive and
  -- else by 60000, whatever bounded the handshake.
  pub connect-timeouts :
      (conn_timeout d (connect_calls c) ≡ or_default d c.connect_timeout)
      × (req_timeout 60000 (connect_calls c) ≡ or_default 60000 c.connect_timeout)
      × (req_timeout 60000 (connect_calls c ++ connected_calls c) ≡ or_default 60000 c.idle_timeout)
  connect-timeouts = (during_connect, during_request, while_reading)
