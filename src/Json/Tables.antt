-- ===== src/Json/Tables.antt =====
-- What LuaToJson of src/lua/json_lua.h makes of the entries of a table that was filled with the items of
-- an array or the members of an object.
use bernardx.Base.{
  ℕ, zero, suc, ◌+◌, ◌<◌, pos, ◌≡◌, refl, sym, ap, ◌∙◌, Bool, false, ◌||◌, List, [], ◌∷◌, some,
  Bytes, bytes_eq, ltb, if_not, if_yes, ==_refl, arith,
}
use bernardx.Json.{
  Json, array, object, Items, no_items, item, Members, no_members, member, Key, text_key, index,
  key_eq, max_index, raw_get, elements, key_text, set_member, members, shaped, table_json,
}
use bernardx.Json.Fits.{IsNew, Fits, MembersFit}

unfoldable pub numbered : ℕ → Items → List (Key × Json)
numbered i no_items = []
numbered i (item j js) = (index (pos i), j) ∷ numbered (suc i) js

unfoldable pub named : Members → List (Key × Json)
named no_members = []
named (member k j ms) = (text_key k, j) ∷ named ms

count_items : Items → ℕ
count_items no_items = 0
count_items (item j js) = suc (count_items js)

max_index-numbered :
    (m : ℕ) (js : Items) → max_index m (numbered (suc m) js) ≡ some (m + count_items js)
unfolding max_index numbered count_items
max_index-numbered m no_items = ground arith
max_index-numbered m (item j js) =
    if_yes (λ x. max_index x (numbered (suc (suc m)) js) ≡ some (m + suc (count_items js)))
      (ltb m (suc m)) (suc m) m (ground arith)
      (max_index-numbered (suc m) js ∙ ap some (omega arith))

raw_get_below :
    (i n : ℕ) (v : Json) (es : List (Key × Json))
    → i < n
    → raw_get n ((index (pos i), v) ∷ es) ≡ raw_get n es
unfolding raw_get key_eq
raw_get_below i n v es h = ground arith

elements_below :
    (c i n : ℕ) (v : Json) (es : List (Key × Json))
    → i < n
    → elements c n ((index (pos i), v) ∷ es) ≡ elements c n es
unfolding elements
elements_below zero i n v es h = refl
elements_below (suc c) i n v es h =
    cc (raw_get_below i n v es h, elements_below c i (suc n) v es (omega arith))

elements-numbered : (i : ℕ) (js : Items) → elements (count_items js) i (numbered i js) ≡ js
unfolding elements numbered count_items raw_get key_eq
elements-numbered i no_items = refl
elements-numbered i (item j js) =
    let first : raw_get i ((index (pos i), j) ∷ numbered (suc i) js) ≡ j = rw (==_refl i) refl in
    cc (
      first,
      elements_below (count_items js) i (suc i) j (numbered (suc i) js) (omega arith),
      elements-numbered (suc i) js,
    )

unfoldable has_member : Bytes → Members → Bool
has_member k no_members = false
has_member k (member j v ms) = bytes_eq j k || has_member k ms

unfoldable add_members : Members → Members → Members
add_members no_members ms = ms
add_members (member j v obj) ms = member j v (add_members obj ms)

add_members_assoc :
    (a b c : Members) → add_members (add_members a b) c ≡ add_members a (add_members b c)
unfolding add_members
add_members_assoc no_members b c = refl
add_members_assoc (member j v a) b c = cc (add_members_assoc a b c)

add_members_nil : (a : Members) → add_members a no_members ≡ a
unfolding add_members
add_members_nil no_members = refl
add_members_nil (member j v a) = cc (add_members_nil a)

set_member_new :
    (k : Bytes) (v : Json) (obj : Members)
    → has_member k obj ≡ false
    → set_member k v obj ≡ add_members obj (member k v no_members)
unfolding has_member set_member add_members
set_member_new k v no_members h = refl
set_member_new k v (member j w obj) h =
    if_not (λ x. x ≡ add_members (member j w obj) (member k v no_members)) (bytes_eq j k) _ _
      (ground (arith, h)) (ap (λ r. member j w r) (set_member_new k v obj (ground (arith, h))))

has_member-add_members :
    (i k : Bytes) (v : Json) (obj : Members)
    → has_member i obj ≡ false
    → bytes_eq k i ≡ false
    → has_member i (add_members obj (member k v no_members)) ≡ false
unfolding has_member add_members
has_member-add_members i k v no_members h e = ground arith
has_member-add_members i k v (member j w obj) h e = ground (arith, has_member-add_members i k v obj)

-- No name of the first members stands in the others.
abbrev NoneIn : Members → Members → Type 0
NoneIn no_members obj = Unit {0}
NoneIn (member k v ms) obj = (has_member k obj ≡ false) × NoneIn ms obj

NoneIn-add_members :
    (k : Bytes) (v : Json) (ms obj : Members)
    → IsNew k ms
    → NoneIn ms obj
    → NoneIn ms (add_members obj (member k v no_members))
NoneIn-add_members k v no_members obj n h = tt
NoneIn-add_members k v (member j w ms) obj (e, n) (f, h) =
    (has_member-add_members j k v obj f e, NoneIn-add_members k v ms obj n h)

NoneIn-none : (ms : Members) → NoneIn ms no_members
unfolding has_member
NoneIn-none no_members = tt
NoneIn-none (member k v ms) = (refl, NoneIn-none ms)

pub table_json-numbered :
    (j : Json) (js : Items) → table_json (numbered 1 (item j js)) ≡ array (item j js)
unfolding table_json count_items
table_json-numbered j js =
    let q : some (0 + count_items (item j js)) ≡ some (suc (count_items js)) = ground arith in
    ap (shaped (numbered 1 (item j js))) (max_index-numbered 0 (item j js) ∙ q)
    ∙ ap array (elements-numbered 1 (item j js))

module _ (text : Bytes → Bytes) where
  members-named :
      (ms obj : Members)
      → MembersFit text ms
      → NoneIn ms obj
      → members obj (named ms) ≡ add_members obj ms
  unfolding members named Fits key_text add_members
  members-named no_members obj f h = sym (add_members_nil obj)
  members-named (member k j ms) obj (c, n, f, fs) (e, h) =
      let q : set_member (key_text (text_key k)) j obj ≡ add_members obj (member k j no_members) =
        ap (λ t. set_member t j obj) c ∙ set_member_new k j obj e in
      ap (λ o. members o (named ms)) q
      ∙ members-named ms (add_members obj (member k j no_members)) fs
          (NoneIn-add_members k j ms obj n h)
      ∙ add_members_assoc obj (member k j no_members) ms

  pub table_json-named : (ms : Members) → MembersFit text ms → table_json (named ms) ≡ object ms
  unfolding table_json max_index named members add_members
  table_json-named no_members f = refl
  table_json-named (member k j ms) f =
      ap object (members-named (member k j ms) no_members f (NoneIn-none (member k j ms)))
