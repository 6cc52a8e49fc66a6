-- ===== src/Http/Request.antt =====
-- http.request of src/lua/http_library.cc: its options and the end of HttpRequestFlow. What the client
-- of cinatra answers is an argument.
use bernardx.Base.{
  ℕ, suc, ◌-◌, ℤ, pos, Bool, true, false, ◌&&◌, leb, List, [], ◌∷◌, ◌++◌, Option, none, some, Bytes,
  codes, bytes_eq, if◌then◌else◌,
}
use bernardx.Value.{LuaValue, nil, integer, string}
use bernardx.Runtime.{Runtime, push_resume}
use bernardx.Runtime.Pending.{pre_yield}
use bernardx.AsyncIo.Reader.{c_str}
use bernardx.Http.Url.{normalize_url}
use bernardx.Http.Proxy.{
  ProxyConfig, ContentType, Parsed, parsed, rejected, parse_proxy, parse_content_type, no_proxy,
}

pub data HttpMethod : Type 0 where
  k_get k_post k_put k_delete : HttpMethod

-- std::toupper in the C locale.
abbrev to_upper : ℕ → ℕ
to_upper c = if leb b'a' c && leb c b'z' then c - 32 else c

unfoldable pub upper : Bytes → Bytes
upper [] = []
upper (c ∷ s) = to_upper c ∷ upper s

-- parse_method: `none` is nullptr.
unfoldable pub parse_method : Option Bytes → HttpMethod
unfolding upper bytes_eq
parse_method none = k_get
parse_method (some s) =
    if bytes_eq (upper s) (codes "POST")
    then k_post
    else if bytes_eq (upper s) (codes "PUT")
    then k_put
    else if bytes_eq (upper s) (codes "DELETE")
    then k_delete
    else k_get

-- The fields of the table as Lua gives them: texts where lua_isstring holds, the timeout where it is a
-- number, and the pairs of the headers whose key and value are texts.
pub record RequestOptions : Type 0 where
  pub url : Option Bytes
  pub verb : Option Bytes
  pub body : Option Bytes
  pub content_type : Option Bytes
  pub timeout : Option ℤ
  pub headers : List (Bytes × Bytes)
  pub proxy : Option Bytes

-- What the closure of http_request does with the client.
pub record RequestPlan : Type 0 where
  pub url : Bytes
  pub verb : HttpMethod
  pub body : Bytes
  pub content_type : ContentType
  pub timeout_ms : Option ℕ
  pub headers : List (Bytes × Bytes)
  pub proxy : ProxyConfig

-- A plan, or the error that http_request raises.
pub data Planned : Type 0 where
  planned : RequestPlan → Planned
  plan_raises : Bytes → Planned

-- headers.emplace keeps the first value of a name.
unfoldable pub has_header : Bytes → List (Bytes × Bytes) → Bool
unfolding bytes_eq
has_header k [] = false
has_header k ((j, v) ∷ hs) = if bytes_eq j k then true else has_header k hs

unfoldable pub parse_headers : List (Bytes × Bytes) → List (Bytes × Bytes) → List (Bytes × Bytes)
unfolding has_header c_str
parse_headers hs [] = hs
parse_headers hs ((k, v) ∷ pairs) =
    parse_headers (if has_header (c_str k) hs then hs else hs ++ ((c_str k, c_str v) ∷ [])) pairs

abbrev c_string : Option Bytes → Option Bytes
c_string none = none
c_string (some s) = some (c_str s)

-- timeout_ms > 0; else the client's own timeout stays.
abbrev pub positive_ms : Option ℤ → Option ℕ
positive_ms (some (pos (suc n))) = some (suc n)
positive_ms t = none

abbrev body_text : Option Bytes → Bytes
body_text none = []
body_text (some s) = s

abbrev pub chosen_proxy : Option Bytes → Parsed
chosen_proxy none = parsed no_proxy
chosen_proxy (some s) = parse_proxy (c_str s)

abbrev with_proxy : RequestOptions → Bytes → Parsed → Planned
with_proxy o url (rejected message) = plan_raises message
with_proxy o url (parsed p) = planned (record {
  url = normalize_url url;
  verb = parse_method (c_string o.verb);
  body = body_text o.body;
  content_type = parse_content_type (c_string o.content_type);
  timeout_ms = positive_ms o.timeout;
  headers = parse_headers [] o.headers;
  proxy = p;
})

abbrev with_url : RequestOptions → Option Bytes → Planned
with_url o none = plan_raises (codes "http.request requires a string 'url'")
with_url o (some url) = with_proxy o url (chosen_proxy o.proxy)

-- http_request, up to do_request.
unfoldable pub http_request : RequestOptions → Planned
unfolding parse_method parse_headers c_str
http_request o = with_url o o.url

-- What the client answers: the coroutine failed, or a status with the text of net_err or a body.
pub data Response : Type 0 where
  flow_failed : Response
  net_failed : ℕ → Bytes → Response
  answered : ℕ → Bytes → Response

unfoldable pub response_values : Response → List LuaValue
response_values flow_failed = integer (pos 0) ∷ nil ∷ string (codes "internal error") ∷ []
response_values (net_failed status error) = integer (pos status) ∷ nil ∷ string error ∷ []
response_values (answered status body) = integer (pos status) ∷ string body ∷ nil ∷ []

-- do_request: the handle under which the coroutine waits, or the error that it raises.
pub data Requested : Type 0 where
  request_waits : ℕ → Requested
  request_raises : Bytes → Requested

unfoldable pub do_request : {S : Type 0} → Bool → ℕ → Runtime S → Requested × Runtime S
unfolding pre_yield
do_request available co rt =
    if available
    then (let (h, rt') = pre_yield co rt in (request_waits h, rt'))
    else (request_raises (codes "http library is shutting down"), rt)

-- The end of HttpRequestFlow.
unfoldable pub http_request_flow : {S : Type 0} → ℕ → Response → Runtime S → Runtime S
unfolding push_resume response_values
http_request_flow h r rt = push_resume h (response_values r) rt
