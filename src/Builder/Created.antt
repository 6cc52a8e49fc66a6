-- ===== src/Builder/Created.antt =====
-- What LuaRuntime::Builder::Create of src/lua/lua_runtime.cc gives: the histories of a new runtime,
-- what require finds in it, and the extensions when one fails.
use bernardx.Base.{ℕ, ◌≡◌, ap, ◌∙◌, Bool, true, List, [], ◌∷◌, ◌++◌, map, Option, none, some}
use bernardx.Runtime.{Runtime, Config}
use bernardx.Runtime.Stable.{Stable}
use bernardx.Builder.{Builder, Event, inits, shuts_down, setup, none_fails, setup-rolls_back}
use bernardx.Builder.Create.{Created, create, created_runtime, after_setup}

module _ {S : Type 0} (slot : ℕ) (s : S) (clock : ℕ) (fails : ℕ → Bool) where
  abbrev untold : List Event → Option (Created S) × List Event
  untold events = (none, events)

  -- If an extension fails and none before it does, Create gives no runtime: those up to it are
  -- initialized, those before it are shut down, and then every extension of the Builder is, those
  -- before it for the second time and those after it without having been initialized.
  pub create-shuts_down_again :
      (b : Builder) (before after : List ℕ) (x : ℕ)
      → b.extensions ≡ before ++ (x ∷ after)
      → none_fails fails before ≡ true
      → fails x ≡ true
      → create slot s clock fails b ≡ (
        none,
        (map inits (before ++ (x ∷ [])) ++ map shuts_down before)
            ++ map shuts_down (before ++ (x ∷ after)),
      )
  unfolding create
  create-shuts_down_again b before after x e n f =
      let r = (setup-rolls_back fails before after x n).1 f in
      ap (after_setup slot s clock b) (ap (setup fails) e ∙ r)
      ∙ ap
          (λ l.
            untold ((map inits (before ++ (x ∷ [])) ++ map shuts_down before) ++ map shuts_down l))
          e

module _ {S : Type 0} where
  abbrev HasConfig : Config → Runtime S → Type 0
  HasConfig c rt = rt.config ≡ c

module _ {S : Type 0} (slot : ℕ) (s : S) (clock : ℕ) (b : Builder) where
  abbrev IsNew : Option (Created S) → Type 0
  IsNew none = Unit {0}
  IsNew (some c) = c.runtime ≡ created_runtime b slot s clock
