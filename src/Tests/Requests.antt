-- ===== src/Tests/Requests.antt =====
-- URLs and proxies.
use bernardx.Base.{◌≡◌, refl, ◌++◌, true, false, codes, bytes_eq, is_empty, arith}
use bernardx.Base.Split.{all_bytes, scheme_mark, break_at, break_scheme}
use bernardx.Http.Component.{
  Component, plain, escape, ended, append_url_component-Component, normalize_url-parts,
}
use bernardx.Http.Url.{
  append_url_component, is_url_component_char_legal, is_hex_digit, normalize_url,
}
use bernardx.Http.Proxy.{
  ProxyConfig, no_proxy, parsed, parse_proxy, parse_scheme, parse_authority, parse_cut, parse_host,
  parse_plain, parse_after_host, parse_port, check_host, port_value, break_last,
}
use bernardx.Http.Accepted.{IsProxy, parse_proxy-IsProxy, parse_proxy-print}

append_url_component-Component_example :
    Component true (append_url_component true (codes "c=L %2%"))
append_url_component-Component_example =
    append_url_component-Component true (codes "c=L %2%") (omega arith)

written : Component false (codes "/%2Fa")
unfolding is_url_component_char_legal is_hex_digit
written = plain refl (escape refl refl (plain refl ended))

normalize_url-parts_example :
    normalize_url (codes "http://u@h:8/a b?c=%#f r")
    ≡ codes "http://u@h:8/"
      ++ (append_url_component false (codes "a b")
          ++ (codes "?" ++ (append_url_component true (codes "c=%") ++ codes "#f r")))
unfolding all_bytes
normalize_url-parts_example =
    normalize_url-parts (codes "http") (codes "u@h:8") (codes "a b") (codes "c=%") (codes "f r")
      refl refl refl refl

abbrev local : ProxyConfig
local = record {
  host = codes "h.x";
  port = codes "3128";
  username = codes "u";
  password = codes "p@:";
}

local-IsProxy : IsProxy local
unfolding all_bytes port_value is_empty
local-IsProxy = record {
  has_host = refl;
  no_slash = refl;
  decimal = refl;
  low = omega arith;
  high = omega arith;
}

parse_proxy-print_example : parse_proxy (codes "http://u:p@:@h.x:3128") ≡ parsed local
unfolding all_bytes
parse_proxy-print_example = parse_proxy-print local local-IsProxy refl refl refl refl

parse_proxy-IsProxy_example : IsProxy local
parse_proxy-IsProxy_example =
    parse_proxy-IsProxy (codes "http://u:p@:@h.x:3128") local parse_proxy-print_example

-- The 64-bit counter of the port wraps: a port of twenty digits is accepted as port 1.
port_wraps :
    parse_proxy (codes "h:18446744073709551617")
    ≡ parsed (record no_proxy { host = codes "h"; port = codes "18446744073709551617" })
unfolding scheme_mark parse_proxy parse_scheme parse_authority parse_cut parse_host parse_plain
    parse_after_host parse_port check_host port_value break_last break_at break_scheme all_bytes
    is_empty bytes_eq
port_wraps = refl
