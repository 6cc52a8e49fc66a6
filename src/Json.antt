-- ===== src/Json.antt =====
-- src/lua/json_lua.h and src/lua/json_library.cc: JSON values as Lua values and back. The parser and the
-- printer are nlohmann's. A table is a finite tree of entries, in the order of lua_next.
pub mod Fits
pub mod Tables
pub mod RoundTrip
pub mod Sparse
use bernardx.Base.{
  ℕ, zero, suc, ◌+◌, ℤ, pos, negsuc, Bool, true, false, List, [], ◌∷◌, ◌++◌, Option, none, some,
  Bytes, codes, ltb, ◌==◌, bytes_eq, signed, to_string, if◌then◌else◌, to_int32,
}
use bernardx.AsyncIo.Reader.{c_str}
use bernardx.Value.{LuaValue}

-- nlohmann::json by its type; a double is its bits.
mutual
  pub data Json : Type 0 where
    null : Json
    boolean : Bool → Json
    number_integer : ℤ → Json
    number_unsigned : ℕ → Json
    number_float : ℕ → Json
    string : Bytes → Json
    array : Items → Json
    object : Members → Json
    binary : Json
    discarded : Json

  pub data Items : Type 0 where
    no_items : Items
    item : Json → Items → Items

  pub data Members : Type 0 where
    no_members : Members
    member : Bytes → Json → Members → Members

-- A key of a table: all that are neither text nor an integer are one.
pub data Key : Type 0 where
  text_key : Bytes → Key
  index : ℤ → Key
  other_key : Key

-- What stands on a Lua stack: `plain` is no table, `opaque` a function, userdata or thread.
mutual
  pub data Tree : Type 0 where
    plain : LuaValue → Tree
    table : Entries → Tree
    opaque : Tree

  pub data Entries : Type 0 where
    no_entries : Entries
    entry : Key → Tree → Entries → Entries

abbrev int_eq : ℤ → ℤ → Bool
int_eq (pos m) (pos n) = m == n
int_eq (negsuc m) (negsuc n) = m == n
int_eq a b = false

unfoldable pub key_eq : Key → Key → Bool
unfolding bytes_eq
key_eq (text_key s) (text_key t) = bytes_eq s t
key_eq (index m) (index n) = int_eq m n
key_eq j k = false

unfoldable pub put : Key → Tree → Entries → Entries
unfolding key_eq
put k v no_entries = entry k v no_entries
put k v (entry j w es) =
    let rest = put k v es in if key_eq j k then entry k v es else entry j w rest

unfoldable pub remove : Key → Entries → Entries
unfolding key_eq
remove k no_entries = no_entries
remove k (entry j w es) = let rest = remove k es in if key_eq j k then es else entry j w rest

-- lua_rawset, lua_rawseti and lua_setfield of a table without metatable: nil takes an entry out.
unfoldable pub raw_set : Key → Tree → Entries → Entries
unfolding put remove
raw_set k (plain LuaValue.nil) es = remove k es
raw_set k v es = put k v es

-- push_json_value, with `text` for lua_pushstring of c_str(), and PushJson of json_lua.h, with `text`
-- for lua_pushlstring.
unfoldable mutual
  unfolding raw_set c_str signed

  pub push_json : (Bytes → Bytes) → Json → Tree
  push_json text null = plain LuaValue.nil
  push_json text (boolean b) = plain (LuaValue.boolean b)
  push_json text (number_integer n) = plain (LuaValue.integer n)
  push_json text (number_unsigned n) = plain (LuaValue.integer (signed 64 n))
  push_json text (number_float x) = plain (LuaValue.number x)
  push_json text (string s) = plain (LuaValue.string (text s))
  push_json text (array js) = table (push_items text 1 js no_entries)
  push_json text (object ms) = table (push_members text ms no_entries)
  push_json text binary = plain LuaValue.nil
  push_json text discarded = plain LuaValue.nil

  pub push_items : (Bytes → Bytes) → ℕ → Items → Entries → Entries
  push_items text i no_items es = es
  push_items text i (item j js) es =
      push_items text (suc i) js (raw_set (index (pos i)) (push_json text j) es)

  pub push_members : (Bytes → Bytes) → Members → Entries → Entries
  push_members text no_members es = es
  push_members text (member k j ms) es =
      push_members text ms (raw_set (text_key (c_str k)) (push_json text j) es)

-- The loop over the keys: the greatest one, if all are positive integers.
unfoldable pub max_index : ℕ → List (Key × Json) → Option ℕ
max_index m [] = some m
max_index m ((index (pos (suc n)), v) ∷ es) = max_index (if ltb m (suc n) then suc n else m) es
max_index m (e ∷ es) = none

-- lua_rawgeti of an index, converted: null where there is none.
unfoldable pub raw_get : ℕ → List (Key × Json) → Json
unfolding key_eq
raw_get i [] = null
raw_get i ((k, v) ∷ es) = if key_eq k (index (pos i)) then v else raw_get i es

-- So many elements from an index on.
unfoldable pub elements : ℕ → ℕ → List (Key × Json) → Items
unfolding raw_get
elements zero i es = no_items
elements (suc n) i es = item (raw_get i es) (elements n (suc i) es)

-- The name of a member.
unfoldable pub key_text : Key → Bytes
unfolding c_str to_string
key_text (text_key s) = c_str s
key_text (index n) = to_string n
key_text other_key = []

-- obj[key] = value
unfoldable pub set_member : Bytes → Json → Members → Members
unfolding bytes_eq
set_member k v no_members = member k v no_members
set_member k v (member j w ms) =
    let rest = set_member k v ms in if bytes_eq j k then member k v ms else member j w rest

unfoldable pub members : Members → List (Key × Json) → Members
unfolding set_member key_text
members obj [] = obj
members obj ((k, v) ∷ es) = members (set_member (key_text k) v obj) es

-- The result for a table: an array for a positive greatest index, else an object.
abbrev pub shaped : List (Key × Json) → Option ℕ → Json
shaped es (some (suc n)) = array (elements (suc n) 1 es)
shaped es m = object (members no_members es)

unfoldable pub table_json : List (Key × Json) → Json
unfolding max_index elements members
table_json es = shaped es (max_index 0 es)

abbrev scalar_json : LuaValue → Json
scalar_json LuaValue.nil = null
scalar_json (LuaValue.boolean b) = boolean b
scalar_json (LuaValue.integer n) = number_integer n
scalar_json (LuaValue.number x) = number_float x
scalar_json (LuaValue.string s) = string s
scalar_json (LuaValue.ref r t) = null

-- LuaToJson. The values of the entries are converted first; the code converts each one when it
-- comes to it.
unfoldable mutual
  unfolding table_json

  pub lua_to_json : Tree → Json
  lua_to_json (plain v) = scalar_json v
  lua_to_json (table es) = table_json (entries_json es)
  lua_to_json opaque = null

  pub entries_json : Entries → List (Key × Json)
  entries_json no_entries = []
  entries_json (entry k v es) = (k, lua_to_json v) ∷ entries_json es

-- JsonToLuaValue: `slot` is the reference that luaL_ref gives, 5 is LUA_TTABLE.
abbrev table_ref : Option ℕ → LuaValue
table_ref none = LuaValue.nil
table_ref (some r) = LuaValue.ref r 5

unfoldable pub json_to_lua_value : Option ℕ → Json → LuaValue
unfolding signed
json_to_lua_value slot null = LuaValue.nil
json_to_lua_value slot (boolean b) = LuaValue.boolean b
json_to_lua_value slot (number_integer n) = LuaValue.integer n
json_to_lua_value slot (number_unsigned n) = LuaValue.integer (signed 64 n)
json_to_lua_value slot (number_float x) = LuaValue.number x
json_to_lua_value slot (string s) = LuaValue.string s
json_to_lua_value slot (array js) = table_ref slot
json_to_lua_value slot (object ms) = table_ref slot
json_to_lua_value slot binary = LuaValue.nil
json_to_lua_value slot discarded = LuaValue.nil

-- What json::parse answers, and what json_decode gives.
pub data ParseAnswer : Type 0 where
  parse_done : Json → ParseAnswer
  parse_failed : Bytes → ParseAnswer

pub data Decoded : Type 0 where
  decoded : Tree → Decoded
  decode_raises : Bytes → Decoded

abbrev decode_answer : ParseAnswer → Decoded
decode_answer (parse_done j) = decoded (push_json c_str j)
decode_answer (parse_failed what) = decode_raises (codes "json parse error: " ++ c_str what)

-- json_decode
unfoldable pub json_decode : (Bytes → ParseAnswer) → Bytes → Decoded
unfolding push_json c_str
json_decode parse s = decode_answer (parse s)

abbrev width : ℤ → Option ℕ
width (pos n) = some n
width (negsuc n) = none

-- The indent of json_encode, where its second argument is an integer; none is a compact text.
abbrev pub indent_width : Option ℤ → Option ℕ
indent_width none = none
indent_width (some n) = width (to_int32 n)

-- json_encode
unfoldable pub json_encode : (Option ℕ → Json → Bytes) → Tree → Option ℤ → Bytes
unfolding lua_to_json to_int32
json_encode dump v indent = dump (indent_width indent) (lua_to_json v)
