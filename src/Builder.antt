-- ===== src/Builder.antt =====
-- LuaRuntime::Builder and LuaRuntime::Setup (src/lua/lua_runtime.cc): what a runtime is built from,
-- and the initialization of its extensions. C functions, libraries and extensions are numbers; what
-- an extension does to the Lua state is a parameter.
pub mod Maps
pub mod Create
pub mod Created
use bernardx.Base.{
  ℕ, suc, ◌≡◌, refl, ap, ◌∙◌, Bool, true, false, List, [], ◌∷◌, ◌++◌, map, Option, none, some,
  Bytes, bytes_eq, if◌then◌else◌, Bool-cases, inl, inr, arith,
}
use mathlib.Core.List.{append-nil, append_assoc}

-- std::unordered_map with string keys.
unfoldable pub find : Bytes → List (Bytes × ℕ) → Option ℕ
find name [] = none
find name ((n, f) ∷ m) = if bytes_eq n name then some f else find name m

unfoldable pub assign : Bytes → ℕ → List (Bytes × ℕ) → List (Bytes × ℕ)
assign name f [] = (name, f) ∷ []
assign name f ((n, g) ∷ m) =
    let rest = assign name f m in if bytes_eq n name then (n, f) ∷ m else (n, g) ∷ rest

pub record Builder : Type 0 where
  pub code_provider : Option ℕ
  pub resource_provider : Option ℕ
  pub executor : Option ℕ
  pub c_modules : List (Bytes × ℕ)
  pub extensions : List ℕ
  pub libraries : List (Bytes × ℕ)

unfoldable pub with_code_provider : ℕ → Builder → Builder
with_code_provider provider b = record b { code_provider = some provider }

unfoldable pub with_resource_provider : ℕ → Builder → Builder
with_resource_provider provider b = record b { resource_provider = some provider }

unfoldable pub with_executor : ℕ → Builder → Builder
with_executor e b = record b { executor = some e }

-- Register
unfoldable pub register : Bytes → ℕ → Builder → Builder
unfolding assign
register name open_function b = record b { c_modules = assign name open_function b.c_modules }

unfoldable pub register_extension : ℕ → Builder → Builder
register_extension extension b = record b { extensions = b.extensions ++ (extension ∷ []) }

unfoldable pub register_library : Bytes → ℕ → Builder → Builder
unfolding assign
register_library name library b = record b { libraries = assign name library b.libraries }

-- A loop of InheritFrom: `m[name] = value` for each entry of the parent's map.
unfoldable pub assign_all : List (Bytes × ℕ) → List (Bytes × ℕ) → List (Bytes × ℕ)
unfolding assign
assign_all [] m = m
assign_all ((name, f) ∷ rest) m = assign_all rest (assign name f m)

-- InheritFrom, of nullptr or a runtime with its maps.
unfoldable pub inherit_from :
    Option (List (Bytes × ℕ) × List (Bytes × ℕ) × List ℕ) → Builder → Builder
unfolding assign_all
inherit_from none b = b
inherit_from (some (c_modules, libraries, extensions)) b = record b {
  c_modules = assign_all c_modules b.c_modules;
  libraries = assign_all libraries b.libraries;
  extensions = b.extensions ++ extensions;
}

-- What Setup does to the extensions: OnInit and OnShutdown, in order.
pub data Event : Type 0 where
  inits shuts_down : ℕ → Event

module _ (fails : ℕ → Bool) where
  -- The loop of Setup over the extensions that are left, those before being `started`; with whether
  -- Setup goes on.
  unfoldable pub init_extensions : List ℕ → List ℕ → Bool × List Event
  init_extensions started [] = (true, [])
  init_extensions started (x ∷ xs) =
      let (ok, rest) = init_extensions (started ++ (x ∷ [])) xs in
      if fails x then (false, inits x ∷ map shuts_down started) else (ok, inits x ∷ rest)

  -- Setup, as far as the extensions are concerned.
  unfoldable pub setup : List ℕ → Bool × List Event
  unfolding init_extensions
  setup xs = init_extensions [] xs

  unfoldable pub none_fails : List ℕ → Bool
  none_fails [] = true
  none_fails (x ∷ xs) = let rest = none_fails xs in if fails x then false else rest

  init_extensions-all :
      (started xs : List ℕ)
      → none_fails xs ≡ true
      → init_extensions started xs ≡ (true, map inits xs)
  unfolding init_extensions none_fails
  init_extensions-all started [] e = refl
  init_extensions-all started (x ∷ xs) e =
      let no : fails x ≡ false = ground (arith, e) in
      let rest : none_fails xs ≡ true = ground (arith, e) in
      rw (no, init_extensions-all (started ++ (x ∷ [])) xs rest) refl

  init_extensions-fails :
      (started before after : List ℕ) (x : ℕ)
      → none_fails before ≡ true
      → fails x ≡ true
      → init_extensions started (before ++ (x ∷ after))
        ≡ (false, map inits (before ++ (x ∷ [])) ++ map shuts_down (started ++ before))
  unfolding init_extensions none_fails
  init_extensions-fails started [] after x n e = rw (e, append-nil started) refl
  init_extensions-fails started (y ∷ before) after x n e =
      let no : fails y ≡ false = ground (arith, n) in
      let rest : none_fails before ≡ true = ground (arith, n) in
      rw
        (
          no,
          init_extensions-fails (started ++ (y ∷ [])) before after x rest e,
          append_assoc started (y ∷ []) before,
        )
        refl

  -- Setup initializes the extensions in the order of registration. If none fails it goes on; if one
  -- fails, the later ones are not touched and exactly those before it are shut down, in order.
  pub setup-rolls_back :
      (before after : List ℕ) (x : ℕ)
      → none_fails before ≡ true
      → (setup before ≡ (true, map inits before))
        × (fails x ≡ true
            → setup (before ++ (x ∷ after))
              ≡ (false, map inits (before ++ (x ∷ [])) ++ map shuts_down before))
  unfolding setup
  setup-rolls_back before after x n =
      (init_extensions-all [] before n, init_extensions-fails [] before after x n)
