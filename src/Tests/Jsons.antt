-- ===== src/Tests/Jsons.antt =====
-- JSON values and tables.
use bernardx.Base.{Bytes, ◌≡◌, refl, [], ◌∷◌, pos, negsuc, codes, true}
use bernardx.AsyncIo.Reader.{c_str}
use bernardx.Json.{
  Json, number_integer, number_unsigned, boolean, string, array, object, no_items, item, no_members,
  member, push_json, lua_to_json, ParseAnswer, parse_done,
}
use bernardx.Json.Fits.{Fits}

-- {"a": [1, true], "b": "x"}
abbrev document : Json
document = object (
    member (codes "a") (array (item (number_integer (pos 1)) (item (boolean true) no_items)))
      (member (codes "b") (string (codes "x")) no_members))

abbrev read_document : Bytes → ParseAnswer
read_document s = parse_done document

-- An empty array comes back as an object.
empty_array_test : lua_to_json (push_json c_str (array no_items)) ≡ object no_members
unfolding lua_to_json push_json
empty_array_test = refl

-- The greatest unsigned integer comes back as -1.
unsigned_test :
    lua_to_json (push_json c_str (number_unsigned 18446744073709551615)) ≡ number_integer (negsuc 0)
unfolding lua_to_json push_json
unsigned_test = refl

-- A text is cut at a zero.
cut_test : lua_to_json (push_json c_str (string (97 ∷ 0 ∷ 98 ∷ []))) ≡ string (97 ∷ [])
unfolding lua_to_json push_json c_str
cut_test = refl
