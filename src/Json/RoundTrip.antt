-- ===== src/Json/RoundTrip.antt =====
-- A JSON value that is decoded and encoded again: push_json_value and LuaToJson of src/lua/json_library.cc
-- and src/lua/json_lua.h, one after the other.
use bernardx.Base.{ℕ, suc, ◌≤◌, pos, ◌≡◌, refl, sym, ap, ◌∙◌, false, [], ◌∷◌, ◌++◌, Bytes, arith}
use mathlib.Core.List.{append_assoc, append-nil}
use bernardx.Json.{
  Json, null, number_integer, number_float, boolean, string, array, object, number_unsigned, binary,
  discarded, Items, no_items, item, Members, no_members, member, text_key, index, Tree, Entries,
  no_entries, key_eq, put, raw_set, push_json, push_items, push_members, table_json, lua_to_json,
  entries_json,
}
use bernardx.Json.Fits.{
  has_key, put_new, has_key-put_other, IsNew, Fits, ItemsFit, MembersFit, raw_set-put,
}
use bernardx.Json.Tables.{numbered, named, table_json-numbered, table_json-named}

module _ (text : Bytes → Bytes) where
  -- No name of the members is a key of the table.
  abbrev Unused : Members → Entries → Type 0
  Unused no_members es = Unit {0}
  Unused (member k v ms) es = (has_key (text_key k) es ≡ false) × Unused ms es

  Unused-none : (ms : Members) → Unused ms no_entries
  unfolding has_key
  Unused-none no_members = tt
  Unused-none (member k v ms) = (refl, Unused-none ms)

  Unused-put :
      (k : Bytes) (v : Tree) (ms : Members) (es : Entries)
      → IsNew k ms
      → has_key (text_key k) es ≡ false
      → Unused ms es
      → Unused ms (put (text_key k) v es)
  unfolding key_eq
  Unused-put k v no_members es n h u = tt
  Unused-put k v (member j w ms) es (e, n) h (f, u) =
      (has_key-put_other (text_key j) (text_key k) v es e f h, Unused-put k v ms es n h u)

  abbrev FreeFrom : ℕ → Entries → Type 0
  FreeFrom i es = (n : ℕ) → i ≤ n → has_key (index (pos n)) es ≡ false

  FreeFrom-put :
      (i : ℕ) (v : Tree) (es : Entries)
      → FreeFrom i es
      → FreeFrom (suc i) (put (index (pos i)) v es)
  unfolding key_eq
  FreeFrom-put i v es h n l =
      has_key-put_other (index (pos n)) (index (pos i)) v es (ground arith) (h n (omega arith))
        (h i (omega arith))

  mutual
    unfolding push_json lua_to_json Fits numbered named has_key

    round_json : (j : Json) → Fits text j → lua_to_json (push_json text j) ≡ j
    round_json null f = elim f [ ]
    round_json (boolean b) f = refl
    round_json (number_integer n) f = refl
    round_json (number_unsigned n) f = elim f [ ]
    round_json (number_float x) f = refl
    round_json (string s) f = ap string f
    round_json (array no_items) f = elim f [ ]
    round_json (array (item j js)) f =
        ap table_json (round_items 1 (item j js) no_entries f (λ n l. refl))
        ∙ table_json-numbered j js
    round_json (object ms) f =
        ap table_json (round_members ms no_entries f (Unused-none ms)) ∙ table_json-named text ms f
    round_json binary f = elim f [ ]
    round_json discarded f = elim f [ ]

    round_items :
        (i : ℕ) (js : Items) (es : Entries)
        → ItemsFit text js
        → FreeFrom i es
        → entries_json (push_items text i js es) ≡ entries_json es ++ numbered i js
    round_items i no_items es f h = sym (append-nil (entries_json es))
    round_items i (item j js) es (f, fs) h =
        let v = push_json text j in
        let k = index (pos i) in
        ap (λ t. entries_json (push_items text (suc i) js t)) (raw_set-put text j k es f)
        ∙ round_items (suc i) js (put k v es) fs (FreeFrom-put i v es h)
        ∙ ap (λ r. r ++ numbered (suc i) js) (put_new k v es (h i (omega arith)))
        ∙ append_assoc (entries_json es) ((k, lua_to_json v) ∷ []) (numbered (suc i) js)
        ∙ ap (λ x. entries_json es ++ ((k, x) ∷ numbered (suc i) js)) (round_json j f)

    round_members :
        (ms : Members) (es : Entries)
        → MembersFit text ms
        → Unused ms es
        → entries_json (push_members text ms es) ≡ entries_json es ++ named ms
    round_members no_members es f h = sym (append-nil (entries_json es))
    round_members (member k j ms) es (c, n, f, fs) (e, u) =
        let v = push_json text j in
        ap (λ t. entries_json (push_members text ms (raw_set (text_key t) v es))) c
        ∙ ap (λ t. entries_json (push_members text ms t)) (raw_set-put text j (text_key k) es f)
        ∙ round_members ms (put (text_key k) v es) fs (Unused-put k v ms es n e u)
        ∙ ap (λ r. r ++ named ms) (put_new (text_key k) v es e)
        ∙ append_assoc (entries_json es) ((text_key k, lua_to_json v) ∷ []) (named ms)
        ∙ ap (λ x. entries_json es ++ ((text_key k, x) ∷ named ms)) (round_json j f)

  -- A value that Lua can keep is read back as it was.
  pub lua_to_json-push_json : (j : Json) → Fits text j → lua_to_json (push_json text j) ≡ j
  lua_to_json-push_json j f = round_json j f
