-- ===== src/Json/Sparse.antt =====
-- A table with one positive integer key, encoded by LuaToJson of src/lua/json_lua.h.
use bernardx.Base.{ℕ, zero, suc, ◌+◌, ◌≡◌, ap, ◌∙◌, pos, List, [], ◌∷◌, some, arith}
use bernardx.Json.{
  Json, null, array, Items, no_items, item, Key, index, Tree, table, no_entries, entry, max_index,
  raw_get, elements, shaped, table_json, lua_to_json, key_eq,
}

-- So many nulls, and the value.
unfoldable pub padded : ℕ → Json → Items
padded zero v = item v no_items
padded (suc n) v = item null (padded n v)

elements-padded :
    (n start : ℕ) (v : Json)
    → elements (suc n) start ((index (pos (start + n)), v) ∷ []) ≡ padded n v
unfolding elements raw_get key_eq padded
elements-padded zero start v = ground arith
elements-padded (suc n) start v =
    let last = index (pos (start + suc n)) in
    let first : raw_get start ((last, v) ∷ []) ≡ null = ground arith in
    let same : start + suc n ≡ suc start + n = omega arith in
    let later : elements (suc n) (suc start) ((last, v) ∷ []) ≡ padded n v =
      ap (λ m. elements (suc n) (suc start) ((index (pos m), v) ∷ [])) same
      ∙ elements-padded n (suc start) v in
    cc (first, later)

-- A table whose only key is n + 1 is encoded as an array: n nulls stand before the value.
pub lua_to_json-padded :
    (n : ℕ) (v : Tree)
    → lua_to_json (table (entry (index (pos (suc n))) v no_entries))
      ≡ array (padded n (lua_to_json v))
unfolding lua_to_json table_json max_index
lua_to_json-padded n v =
    let es : List (Key × Json) = (index (pos (suc n)), lua_to_json v) ∷ [] in
    let same : suc n ≡ 1 + n = omega arith in
    let greatest : max_index 0 es ≡ some (suc n) = ground arith in
    ap (shaped es) greatest
    ∙ ap array (
        ap (λ m. elements (suc n) 1 ((index (pos m), lua_to_json v) ∷ [])) same
        ∙ elements-padded n 1 (lua_to_json v))
