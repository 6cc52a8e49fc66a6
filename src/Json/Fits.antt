-- ===== src/Json/Fits.antt =====
-- The JSON values that Lua can keep, and the keys of a table that is filled (src/lua/json_lua.h,
-- src/lua/json_library.cc).
use bernardx.Base.{◌≡◌, refl, ap, Bool, false, ◌||◌, [], ◌∷◌, ◌++◌, Bytes, bytes_eq, if_not, arith}
use bernardx.AsyncIo.Reader.{c_str}
use bernardx.Json.{
  Json, null, number_integer, number_float, boolean, string, array, object, number_unsigned, binary,
  discarded, Items, no_items, item, Members, no_members, member, Key, Tree, Entries, no_entries,
  entry, key_eq, put, raw_set, push_json, lua_to_json, entries_json,
}

unfoldable pub has_key : Key → Entries → Bool
unfolding key_eq
has_key k no_entries = false
has_key k (entry j v es) = key_eq j k || has_key k es

pub put_new :
    (k : Key) (v : Tree) (es : Entries)
    → has_key k es ≡ false
    → entries_json (put k v es) ≡ entries_json es ++ ((k, lua_to_json v) ∷ [])
unfolding has_key put lua_to_json
put_new k v no_entries h = refl
put_new k v (entry j w es) h =
    if_not (λ x. entries_json x ≡ entries_json (entry j w es) ++ ((k, lua_to_json v) ∷ []))
      (key_eq j k) _ _ (ground (arith, h))
      (ap (λ r. (j, lua_to_json w) ∷ r) (put_new k v es (ground (arith, h))))

pub has_key-put_other :
    (i k : Key) (v : Tree) (es : Entries)
    → key_eq k i ≡ false
    → has_key i es ≡ false
    → has_key k es ≡ false
    → has_key i (put k v es) ≡ false
unfolding has_key put
has_key-put_other i k v no_entries e h n = ground arith
has_key-put_other i k v (entry j w es) e h n =
    if_not (λ x. has_key i x ≡ false) (key_eq j k) _ _ (ground (arith, n))
      (ground (arith, has_key-put_other i k v es))

-- No member has the name.
abbrev pub IsNew : Bytes → Members → Type 0
IsNew k no_members = Unit {0}
IsNew k (member j v ms) = (bytes_eq k j ≡ false) × IsNew k ms

-- Values that Lua can keep: no null or unrepresentable value, no number outside the signed integers,
-- no empty array, no text or name that `text` or c_str() cuts, no name twice.
module _ (text : Bytes → Bytes) where
  unfoldable mutual
    pub Fits : Json → Type 0
    Fits null = ⊥
    Fits (boolean b) = Unit {0}
    Fits (number_integer n) = Unit {0}
    Fits (number_unsigned n) = ⊥
    Fits (number_float x) = Unit {0}
    Fits (string s) = text s ≡ s
    Fits (array no_items) = ⊥
    Fits (array (item j js)) = Fits j × ItemsFit js
    Fits (object ms) = MembersFit ms
    Fits binary = ⊥
    Fits discarded = ⊥

    pub ItemsFit : Items → Type 0
    ItemsFit no_items = Unit {0}
    ItemsFit (item j js) = Fits j × ItemsFit js

    pub MembersFit : Members → Type 0
    MembersFit no_members = Unit {0}
    MembersFit (member k j ms) = (c_str k ≡ k) × IsNew k ms × Fits j × MembersFit ms

  -- Such a value is pushed as something else than nil.
  pub raw_set-put :
      (j : Json) (k : Key) (es : Entries)
      → Fits j
      → raw_set k (push_json text j) es ≡ put k (push_json text j) es
  unfolding Fits raw_set push_json
  raw_set-put null k es h = elim h [ ]
  raw_set-put (boolean b) k es h = refl
  raw_set-put (number_integer n) k es h = refl
  raw_set-put (number_unsigned n) k es h = elim h [ ]
  raw_set-put (number_float x) k es h = refl
  raw_set-put (string s) k es h = refl
  raw_set-put (array js) k es h = refl
  raw_set-put (object ms) k es h = refl
  raw_set-put binary k es h = elim h [ ]
  raw_set-put discarded k es h = elim h [ ]
