-- ===== src/Tests/Builders.antt =====
-- Building runtimes.
use bernardx.Base.{◌≡◌, refl, [], ◌∷◌, none, some, codes}
use bernardx.Builder.{Builder, find, inherit_from}
use bernardx.Builder.Maps.{or_else, inherit_from-find}

abbrev one : Builder
one = record {
  code_provider = none;
  resource_provider = none;
  executor = none;
  c_modules = (codes "m", 1) ∷ [];
  extensions = 4 ∷ [];
  libraries = [];
}

-- The parent has another module of that name.
inherit_from-find_example :
    let b = inherit_from (some ((codes "m", 2) ∷ [], (codes "l", 3) ∷ [], 5 ∷ [])) one in
    (find (codes "m") b.c_modules
      ≡ or_else (find (codes "m") ((codes "m", 2) ∷ [])) (find (codes "m") one.c_modules))
    × (find (codes "m") b.libraries
        ≡ or_else (find (codes "m") ((codes "l", 3) ∷ [])) (find (codes "m") one.libraries))
    × (b.extensions ≡ 4 ∷ 5 ∷ [])
unfolding find
inherit_from-find_example =
    inherit_from-find ((codes "m", 2) ∷ []) ((codes "l", 3) ∷ []) (5 ∷ []) one (codes "m")
      (refl, tt) (refl, tt)
