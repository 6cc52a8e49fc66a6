-- ===== src/Http/Accepted.antt =====
-- What parse_proxy of src/lua/http_library.cc accepts, and that it reads what is written out.
use bernardx.Base.{
  ℕ, ◌≤◌, ◌≡◌, refl, ap, sym, ◌∙◌, Bool, true, false, not, ◌&&◌, ◌||◌, [], ◌∷◌, ◌++◌, Option, none,
  some, Bytes, codes, bytes_eq, is_empty, if_cases, ◌==◌, ltb, arith,
}
use mathlib.Core.List.{append_assoc}
use mathlib.Core.Path.{subst}
use bernardx.Base.Split.{
  break_at, break_scheme, none_of, all_bytes, break_at-append, break_scheme-append,
  all_bytes-append, all_bytes-weaken,
}
use bernardx.Http.Proxy.{
  ProxyConfig, no_proxy, Parsed, parsed, rejected, break_last, is_digit, is_at, is_colon, is_slash,
  port_value, check_host, parse_port, parse_after_host, parse_bracketed, parse_plain, parse_host,
  parse_userinfo, parse_cut, parse_authority, parse_scheme, parse_proxy, after_colon,
}

-- A host without a slash and a decimal port from 1 to 65535.
pub record IsProxy (proxy : ProxyConfig) : Type 0 where
  pub has_host : is_empty proxy.host ≡ false
  pub no_slash : none_of is_slash proxy.host ≡ true
  pub decimal : all_bytes is_digit proxy.port ≡ true
  pub low : 1 ≤ port_value 0 proxy.port
  pub high : port_value 0 proxy.port ≤ 65535

abbrev IsSound : Parsed → Type 0
IsSound (parsed proxy) = IsProxy proxy
IsSound (rejected message) = Unit {0}

check_host-IsSound :
    (s : Bytes) (proxy : ProxyConfig)
    → all_bytes is_digit proxy.port ≡ true
    → 1 ≤ port_value 0 proxy.port
    → port_value 0 proxy.port ≤ 65535
    → IsSound (check_host s proxy)
unfolding check_host
check_host-IsSound s proxy d l h =
    if_cases IsSound (is_empty proxy.host || not (none_of is_slash proxy.host)) _ _ (λ e. tt)
      (λ e. record {
        has_host = ground (arith, e);
        no_slash = ground (arith, e);
        decimal = d;
        low = l;
        high = h;
      })

parse_port-IsSound : (s digits : Bytes) (proxy : ProxyConfig) → IsSound (parse_port s digits proxy)
unfolding parse_port
parse_port-IsSound s digits proxy =
    if_cases IsSound (not (is_empty digits) && all_bytes is_digit digits) _ _
      (λ e.
        if_cases IsSound (port_value 0 digits == 0 || ltb 65535 (port_value 0 digits)) _ _ (λ f. tt)
          (λ f.
            check_host-IsSound s (record proxy { port = digits }) (ground (arith, e))
              (ground (arith, f)) (ground (arith, f))))
      (λ e. tt)

parse_after_host-IsSound :
    (s rest : Bytes) (proxy : ProxyConfig) → IsSound (parse_after_host s rest proxy)
unfolding parse_after_host
parse_after_host-IsSound s [] proxy =
    check_host-IsSound s (record proxy { port = codes "8080" }) (unfold all_bytes in refl)
      (unfold port_value in omega arith) (unfold port_value in omega arith)
parse_after_host-IsSound s (c ∷ digits) proxy =
    if_cases IsSound (is_colon c) _ _ (λ e. parse_port-IsSound s digits proxy) (λ e. tt)

parse_bracketed-IsSound :
    (s : Bytes) (cut : Bytes × Bytes) (proxy : ProxyConfig) → IsSound (parse_bracketed s cut proxy)
unfolding parse_bracketed
parse_bracketed-IsSound s (host, []) proxy = tt
parse_bracketed-IsSound s (host, c ∷ rest) proxy = parse_after_host-IsSound s rest _

parse_plain-IsSound : (s sv : Bytes) (proxy : ProxyConfig) → IsSound (parse_plain s sv proxy)
unfolding parse_plain
parse_plain-IsSound s sv proxy =
    let (host, rest) = break_at is_colon sv in
    parse_after_host-IsSound s rest (record proxy { host = host })

parse_host-IsSound : (s sv : Bytes) (proxy : ProxyConfig) → IsSound (parse_host s sv proxy)
unfolding parse_host
parse_host-IsSound s [] proxy = parse_plain-IsSound s [] proxy
parse_host-IsSound s (c ∷ sv) proxy =
    if_cases IsSound (c == b'[') _ _
      (λ e. parse_bracketed-IsSound s (break_at (λ d. d == b']') sv) proxy)
      (λ e. parse_plain-IsSound s (c ∷ sv) proxy)

parse_cut-IsSound : (s sv : Bytes) (cut : Option (Bytes × Bytes)) → IsSound (parse_cut s sv cut)
unfolding parse_cut
parse_cut-IsSound s sv (some (userinfo, rest)) = parse_host-IsSound s rest (parse_userinfo userinfo)
parse_cut-IsSound s sv none = parse_host-IsSound s sv no_proxy

parse_authority-IsSound : (s sv : Bytes) → IsSound (parse_authority s sv)
unfolding parse_authority
parse_authority-IsSound s sv = parse_cut-IsSound s sv (break_last is_at sv)

parse_scheme-IsSound : (s scheme rest : Bytes) → IsSound (parse_scheme s scheme rest)
unfolding parse_scheme
parse_scheme-IsSound s scheme [] = parse_authority-IsSound s s
parse_scheme-IsSound s scheme (a ∷ []) = parse_authority-IsSound s s
parse_scheme-IsSound s scheme (a ∷ b ∷ []) = parse_authority-IsSound s s
parse_scheme-IsSound s scheme (a ∷ b ∷ c ∷ sv) =
    if_cases IsSound (bytes_eq scheme (codes "http")) _ _ (λ e. parse_authority-IsSound s sv)
      (λ e. tt)

-- A setting that parse_proxy accepts has a host without a slash and a decimal port whose value, as
-- the 64-bit counter computes it, is from 1 to 65535.
pub parse_proxy-IsProxy :
    (s : Bytes) (proxy : ProxyConfig) → parse_proxy s ≡ parsed proxy → IsProxy proxy
unfolding parse_proxy
parse_proxy-IsProxy [] proxy e = cc
parse_proxy-IsProxy (c ∷ s) proxy e =
    let (scheme, rest) = break_scheme (c ∷ s) in
    subst IsSound e (parse_scheme-IsSound (c ∷ s) scheme rest)

break_last-none : (p : ℕ → Bool) (s : Bytes) → none_of p s ≡ true → break_last p s ≡ none
unfolding break_last all_bytes
break_last-none p [] n = refl
break_last-none p (d ∷ s) n =
    let rest : none_of p s ≡ true = ground (arith, n) in
    let here : p d ≡ false = ground (arith, n) in rw (break_last-none p s rest, here) refl

break_last-append :
    (p : ℕ → Bool) (c : ℕ) (s t : Bytes)
    → p c ≡ true
    → none_of p t ≡ true
    → break_last p (s ++ (c ∷ t)) ≡ some (s, t)
unfolding break_last
break_last-append p c [] t e n = rw (break_last-none p t n, e) refl
break_last-append p c (d ∷ s) t e n = rw (break_last-append p c s t e n) refl

check_host_lem :
    (s : Bytes) (proxy : ProxyConfig) → IsProxy proxy → check_host s proxy ≡ parsed proxy
unfolding check_host
check_host_lem s proxy v = rw (v.has_host, v.no_slash) refl

port_not_empty : (port : Bytes) → 1 ≤ port_value 0 port → is_empty port ≡ false
unfolding port_value is_empty
port_not_empty [] l = ground (arith, l)
port_not_empty (c ∷ port) l = refl

parse_port_lem :
    (s port : Bytes) (proxy : ProxyConfig)
    → IsProxy (record proxy { port = port })
    → parse_port s port proxy ≡ parsed (record proxy { port = port })
unfolding parse_port
parse_port_lem s port proxy v =
    let full = port_not_empty port v.low in
    let l = v.low in
    let h = v.high in
    let in_range : (port_value 0 port == 0 || ltb 65535 (port_value 0 port)) ≡ false =
      ground (arith, l, h) in
    rw (full, v.decimal, in_range) (check_host_lem s (record proxy { port = port }) v)

parse_host_lem :
    (s host port : Bytes) (proxy : ProxyConfig)
    → IsProxy (record proxy { host = host; port = port })
    → none_of is_colon host ≡ true
    → none_of (λ c. c == b'[') host ≡ true
    → parse_host s (host ++ (codes ":" ++ port)) proxy
      ≡ parsed (record proxy { host = host; port = port })
unfolding parse_host parse_plain parse_after_host is_empty
parse_host_lem s [] port proxy v h b = cc (v.has_host)
parse_host_lem s (c ∷ host) port proxy v h b =
    let plain : (c == b'[') ≡ false = unfold all_bytes in ground (arith, b) in
    let cut = break_at-append is_colon b':' (c ∷ host) port h refl in
    rw (plain, cut) (parse_port_lem s port (record proxy { host = c ∷ host }) v)

parse_authority_lem :
    (s : Bytes) (proxy : ProxyConfig)
    → IsProxy proxy
    → none_of is_colon proxy.username ≡ true
    → none_of is_colon proxy.host ≡ true
    → none_of is_at proxy.host ≡ true
    → none_of (λ c. c == b'[') proxy.host ≡ true
    → parse_authority s (
        proxy.username
        ++ (codes ":"
            ++ (proxy.password ++ (codes "@" ++ (proxy.host ++ (codes ":" ++ proxy.port))))))
      ≡ parsed proxy
unfolding parse_authority parse_cut parse_userinfo after_colon
parse_authority_lem s proxy v u h a b =
    let tail = proxy.host ++ (codes ":" ++ proxy.port) in
    let user = proxy.username ++ (codes ":" ++ proxy.password) in
    let no_at =
      all_bytes-append (λ c. not (is_at c)) proxy.host (codes ":" ++ proxy.port) a
        (unfold all_bytes in
          all_bytes-weaken is_digit (λ c. not (is_at c)) proxy.port (λ c e. ground arith)
            v.decimal) in
    let last = break_last-append is_at b'@' user tail refl no_at in
    let colon = break_at-append is_colon b':' proxy.username proxy.password u refl in
    let cut =
      ap (break_last is_at)
        (sym (append_assoc proxy.username (codes ":" ++ proxy.password) (codes "@" ++ tail)))
      ∙ last in
    rw (cut, colon)
      (parse_host_lem s proxy.host proxy.port
        (record no_proxy { username = proxy.username; password = proxy.password }) v h b)

-- A setting written out in full is read back: any password, a user without a colon, a host without
-- colon, at sign or bracket, a decimal port in range.
pub parse_proxy-print :
    (proxy : ProxyConfig)
    → IsProxy proxy
    → none_of is_colon proxy.username ≡ true
    → none_of is_colon proxy.host ≡ true
    → none_of is_at proxy.host ≡ true
    → none_of (λ c. c == b'[') proxy.host ≡ true
    → parse_proxy (
        codes "http://"
        ++ (proxy.username
            ++ (codes ":"
                ++ (proxy.password ++ (codes "@" ++ (proxy.host ++ (codes ":" ++ proxy.port)))))))
      ≡ parsed proxy
unfolding parse_proxy parse_scheme bytes_eq
parse_proxy-print proxy v u h a b =
    let sv =
      proxy.username
      ++ (codes ":"
          ++ (proxy.password ++ (codes "@" ++ (proxy.host ++ (codes ":" ++ proxy.port))))) in
    let cut = break_scheme-append (codes "http") sv (unfold all_bytes in refl) in
    rw cut (parse_authority_lem (codes "http://" ++ sv) proxy v u h a b)
