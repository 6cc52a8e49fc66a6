-- ===== src/Http/Proxy.antt =====
-- The proxy setting and the small parsers of src/lua/http_library.cc: ProxyConfig, parse_proxy,
-- parse_content_type. A luaL_error is a rejection with its message.
use bernardx.Base.{
  ℕ, ◌+◌, ◌*◌, ◌-◌, ◌%◌, ◌^◌, Bool, not, ◌&&◌, ◌||◌, [], ◌∷◌, ◌++◌, Option, none, some, Bytes,
  codes, bytes_eq, is_empty, if◌then◌else◌, ◌==◌, ltb, leb,
}
use bernardx.Base.Split.{break_at, break_scheme, none_of, all_bytes}

pub record ProxyConfig : Type 0 where
  pub host : Bytes
  pub port : Bytes
  pub username : Bytes
  pub password : Bytes

-- ProxyConfig::enabled
unfoldable pub enabled : ProxyConfig → Bool
enabled proxy = not (is_empty proxy.host)

pub data Parsed : Type 0 where
  parsed : ProxyConfig → Parsed
  rejected : Bytes → Parsed

-- s.rfind(c): the strings before and after the last byte that satisfies the test.
unfoldable pub break_last : (ℕ → Bool) → Bytes → Option (Bytes × Bytes)
break_last p [] = none
break_last p (c ∷ s) = elim (break_last p s) [
  | some cut ↦ some (c ∷ cut.0, cut.1)
  | none ↦ if p c then some ([], s) else none
]

abbrev pub is_digit : ℕ → Bool
is_digit c = leb b'0' c && leb c b'9'

-- port_val, a uint64_t.
unfoldable pub port_value : ℕ → Bytes → ℕ
port_value n [] = n
port_value n (c ∷ s) = port_value ((n * 10 + (c - b'0')) % 2 ^ 64) s

abbrev pub is_at : ℕ → Bool
is_at c = c == b'@'

abbrev pub is_colon : ℕ → Bool
is_colon c = c == b':'

abbrev pub is_slash : ℕ → Bool
is_slash c = c == b'/'

abbrev in_quotes : Bytes → Bytes → Bytes
in_quotes what s = what ++ (codes " in '" ++ (s ++ codes "'"))

-- The last check, of the host.
unfoldable pub check_host : Bytes → ProxyConfig → Parsed
check_host s proxy =
    if is_empty proxy.host || not (none_of is_slash proxy.host)
    then rejected (in_quotes (codes "http proxy is missing or has invalid host") s)
    else parsed proxy

-- Digits after the colon.
unfoldable pub parse_port : Bytes → Bytes → ProxyConfig → Parsed
unfolding check_host port_value
parse_port s digits proxy =
    let value = port_value 0 digits in
    if not (is_empty digits) && all_bytes is_digit digits
    then (if value == 0 || ltb 65535 value
        then rejected (in_quotes (codes "http proxy port out of range") s)
        else check_host s (record proxy { port = digits }))
    else rejected (in_quotes (codes "http proxy has invalid port") s)

-- What follows the host.
unfoldable pub parse_after_host : Bytes → Bytes → ProxyConfig → Parsed
unfolding parse_port
parse_after_host s [] proxy = check_host s (record proxy { port = codes "8080" })
parse_after_host s (c ∷ digits) proxy =
    if is_colon c
    then parse_port s digits proxy
    else rejected (in_quotes (codes "http proxy has invalid host/port") s)

-- After the bracket of an IPv6 host, cut where it closes.
unfoldable pub parse_bracketed : Bytes → Bytes × Bytes → ProxyConfig → Parsed
unfolding parse_after_host
parse_bracketed s (host, []) proxy =
    rejected (in_quotes (codes "http proxy has unterminated IPv6 host") s)
parse_bracketed s (host, c ∷ rest) proxy = parse_after_host s rest (record proxy { host = host })

unfoldable pub parse_plain : Bytes → Bytes → ProxyConfig → Parsed
unfolding parse_after_host
parse_plain s sv proxy =
    let (host, rest) = break_at is_colon sv in
    parse_after_host s rest (record proxy { host = host })

-- host[:port]
unfoldable pub parse_host : Bytes → Bytes → ProxyConfig → Parsed
unfolding parse_bracketed parse_plain
parse_host s [] proxy = parse_plain s [] proxy
parse_host s (c ∷ sv) proxy =
    if c == b'['
    then parse_bracketed s (break_at (λ d. d == b']') sv) proxy
    else parse_plain s (c ∷ sv) proxy

abbrev pub no_proxy : ProxyConfig
no_proxy = record { host = []; port = []; username = []; password = [] }

-- The part after the colon of userinfo, if it has one.
unfoldable pub after_colon : Bytes → Bytes
after_colon [] = []
after_colon (c ∷ s) = s

unfoldable pub parse_userinfo : Bytes → ProxyConfig
unfolding after_colon
parse_userinfo userinfo =
    let (user, rest) = break_at is_colon userinfo in
    record no_proxy { username = user; password = after_colon rest }

-- With the last at sign's cut, if there is one.
unfoldable pub parse_cut : Bytes → Bytes → Option (Bytes × Bytes) → Parsed
unfolding parse_host parse_userinfo
parse_cut s sv (some (userinfo, rest)) = parse_host s rest (parse_userinfo userinfo)
parse_cut s sv none = parse_host s sv no_proxy

-- [user[:pass]@]host[:port]
unfoldable pub parse_authority : Bytes → Bytes → Parsed
unfolding parse_cut
parse_authority s sv = parse_cut s sv (break_last is_at sv)

-- The scheme and what follows "://", or everything.
unfoldable pub parse_scheme : Bytes → Bytes → Bytes → Parsed
unfolding parse_authority
parse_scheme s scheme (a ∷ b ∷ c ∷ sv) =
    if bytes_eq scheme (codes "http")
    then parse_authority s sv
    else rejected
        (codes "http proxy does not support scheme '" ++ (scheme ++ codes "' (only http)"))
parse_scheme s scheme _ = parse_authority s s

-- parse_proxy
unfoldable pub parse_proxy : Bytes → Parsed
unfolding parse_scheme
parse_proxy [] = rejected (codes "http proxy must be a non-empty string")
parse_proxy (c ∷ s) = let (scheme, rest) = break_scheme (c ∷ s) in parse_scheme (c ∷ s) scheme rest

-- cinatra::req_content_type
pub data ContentType : Type 0 where
  json text html xml form_url_encode octet_stream no_content_type : ContentType

-- parse_content_type, of nullptr or a string.
unfoldable pub parse_content_type : Option Bytes → ContentType
parse_content_type none = no_content_type
parse_content_type (some s) =
    if bytes_eq s (codes "json")
    then json
    else if bytes_eq s (codes "text")
    then text
    else if bytes_eq s (codes "html")
    then html
    else if bytes_eq s (codes "xml")
    then xml
    else if bytes_eq s (codes "form")
    then form_url_encode
    else if bytes_eq s (codes "octet")
    then octet_stream
    else no_content_type
