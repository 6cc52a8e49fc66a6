-- ===== src/Http/Url.antt =====
-- URL normalization: is_hex_digit, is_url_component_char_legal, append_url_component and
-- normalize_url of src/lua/http_library.cc. A component of the URL is the list of its bytes.
use bernardx.Base.{
  ℕ, zero, suc, ◌+◌, ◌-◌, ◌/◌, ◌%◌, ◌≡◌, refl, Bool, true, false, ◌&&◌, ◌||◌, [], ◌∷◌, ◌++◌, Bytes,
  codes, if◌then◌else◌, ◌==◌, ltb, leb,
}
use bernardx.Base.Split.{break_at, scheme_mark, break_scheme}

abbrev pub within : ℕ → ℕ → ℕ → Bool
within lo hi c = leb lo c && leb c hi

unfoldable pub is_hex_digit : ℕ → Bool
is_hex_digit c = within b'0' b'9' c || (within b'a' b'f' c || within b'A' b'F' c)

abbrev pub one_of : Bytes → ℕ → Bool
one_of [] c = false
one_of (d ∷ s) c = d == c || one_of s c

unfoldable pub is_url_component_char_legal : ℕ → Bool → Bool
is_url_component_char_legal c in_query =
    if c == 0
    then false
    else within b'a' b'z' c
      || (within b'A' b'Z' c
          || (within b'0' b'9' c
              || (one_of (codes "-._~") c
                  || (one_of (codes "!$&'()*+,;=") c
                      || (one_of (codes ":@/") c || (in_query && c == b'?'))))))

-- kHex[n]
unfoldable pub hex_digit : ℕ → ℕ
hex_digit n = if ltb n 10 then b'0' + n else b'A' + (n - 10)

-- i + 2 < end, and both bytes are hex digits.
unfoldable pub is_escaped : Bytes → Bool
unfolding is_hex_digit
is_escaped (a ∷ b ∷ s) = is_hex_digit a && is_hex_digit b
is_escaped _ = false

-- What one byte becomes, before what follows it; `escaped` is whether two hex digits do.
unfoldable pub append_byte : Bool → Bool → ℕ → Bytes → Bytes
unfolding is_url_component_char_legal hex_digit
append_byte in_query escaped c next =
    if c == b'%'
    then (if escaped then c ∷ next else codes "%25" ++ next)
    else if is_url_component_char_legal c in_query
    then c ∷ next
    else b'%' ∷ hex_digit (c / 16) ∷ hex_digit (c % 16) ∷ next

-- append_url_component, with the number of bytes of a valid escape that are still to be copied.
unfoldable pub append_from : ℕ → Bool → Bytes → Bytes
unfolding is_escaped append_byte
append_from n in_query [] = []
append_from (suc n) in_query (c ∷ s) = c ∷ append_from n in_query s
append_from zero in_query (c ∷ s) =
    append_byte in_query (is_escaped s) c
      (append_from (if c == b'%' && is_escaped s then 2 else 0) in_query s)

abbrev pub append_url_component : Bool → Bytes → Bytes
append_url_component in_query s = append_from 0 in_query s

abbrev pub starts_component : ℕ → Bool
starts_component c = one_of (codes "/?#") c

-- The query, from its question mark on, or nothing.
unfoldable pub append_query : Bytes → Bytes
append_query [] = []
append_query (c ∷ s) = b'?' ∷ append_url_component true s

-- What follows the authority: path, query and fragment.
unfoldable pub append_components : Bytes → Bytes
unfolding append_query
append_components s =
    let (body, fragment) = break_at (λ c. c == b'#') s in
    let (path, query) = break_at (λ c. c == b'?') body in
    append_url_component false path ++ (append_query query ++ fragment)

-- What follows "://", or everything if that is absent.
unfoldable pub after_scheme : Bytes → Bytes
unfolding append_components
after_scheme s =
    let (authority, components) = break_at starts_component s in
    authority ++ append_components components

unfoldable pub normalize_split : Bytes → Bytes → Bytes → Bytes
unfolding after_scheme
normalize_split url scheme (a ∷ b ∷ c ∷ rest) = scheme ++ (a ∷ b ∷ c ∷ after_scheme rest)
normalize_split url scheme _ = after_scheme url

-- normalize_url
unfoldable pub normalize_url : Bytes → Bytes
unfolding normalize_split
normalize_url url = let (scheme, rest) = break_scheme url in normalize_split url scheme rest

test_space : normalize_url (codes "a://h/?c=L V%2%20#f r") ≡ codes "a://h/?c=L%20V%252%20#f r"
unfolding normalize_url break_scheme scheme_mark break_at append_from
test_space = refl
