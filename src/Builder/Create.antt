-- ===== src/Builder/Create.antt =====
-- LuaRuntime::Builder::Create with LuaRuntime::Setup of src/lua/lua_runtime.cc: the runtime that a
-- Builder makes, the globals that it sets, and what the extensions see if one of them fails.
use bernardx.Base.{
  ℕ, Bool, true, false, not, ◌&&◌, List, [], ◌∷◌, ◌++◌, map, Option, none, some, Bytes, codes,
  if◌then◌else◌,
}
use bernardx.Timer
use bernardx.Pool
use bernardx.Runtime.{Runtime, Config}
use bernardx.AsyncIo.Files.{present}
use bernardx.Builder.{Builder, Event, shuts_down, setup}

-- The functions of the runtime that become globals.
pub data Global : Type 0 where
  now_global sleep_global set_timeout_global clear_timeout_global : Global
  await_global require_global loadfile_global : Global

-- SetupBuiltins
abbrev pub setup_builtins : List (Bytes × Global)
setup_builtins =
    (codes "now", now_global)
    ∷ (codes "sleep", sleep_global)
    ∷ (codes "setTimeout", set_timeout_global)
    ∷ (codes "clearTimeout", clear_timeout_global)
    ∷ (codes "await", await_global)
    ∷ []

abbrev pub names : List (Bytes × ℕ) → List Bytes
names [] = []
names ((n, f) ∷ m) = n ∷ names m

abbrev no_entries : List (Bytes × ℕ) → Bool
no_entries [] = true
no_entries (e ∷ m) = false

-- SetupCustomRequire: the globals that it sets, and whether it empties package.searchers.
unfoldable pub setup_custom_require : Builder → List (Bytes × Global) × Bool
unfolding present
setup_custom_require b =
    if not (present b.code_provider) && (no_entries b.c_modules && no_entries b.libraries)
    then ([], false)
    else (
      (codes "require", require_global)
          ∷ (if present b.code_provider then (codes "loadfile", loadfile_global) ∷ [] else []),
      true,
    )

-- What Create gives: the runtime, the globals that were set, the last one last, and whether
-- package.searchers is empty.
pub record Created (S : Type 0) : Type 0 where
  pub runtime : Runtime S
  pub globals : List (Bytes × Global)
  pub no_searchers : Bool

-- The fields of the runtime: without an executor of the host it owns one.
abbrev pub created_config : Builder → Config
created_config b = record {
  has_code_provider = present b.code_provider;
  has_executor = true;
  c_modules = names b.c_modules;
  libraries = names b.libraries;
}

abbrev pub created_runtime : {S : Type 0} → Builder → ℕ → S → ℕ → Runtime S
created_runtime b slot s clock = record {
  config = created_config b;
  state = s;
  timers = Timer.empty;
  pool = Pool.empty;
  pending = [];
  pins = [];
  pin_table = some slot;
  completions = [];
  done_awaits = [];
  unhandled_error = none;
  shutting_down = false;
  interrupted = false;
  paused = false;
  queue = [];
  clock = clock;
  settled = [];
}

module _ {S : Type 0} (slot : ℕ) (s : S) (clock : ℕ) where
  abbrev pub set_up : Builder → List (Bytes × Global) × Bool → Created S
  set_up b (globals, no_searchers) = record {
    runtime = created_runtime b slot s clock;
    globals = setup_builtins ++ globals;
    no_searchers = no_searchers;
  }

  -- Where Setup throws the runtime is destroyed: ~LuaRuntime calls Shutdown, which tells every
  -- extension.
  abbrev pub after_setup : Builder → Bool × List Event → Option (Created S) × List Event
  after_setup b (true, events) = (some (set_up b (setup_custom_require b)), events)
  after_setup b (false, events) = (none, events ++ map shuts_down b.extensions)

  -- Create, for a new Lua state with the pin table in a slot, and what the extensions are told.
  unfoldable pub create : (ℕ → Bool) → Builder → Option (Created S) × List Event
  unfolding setup setup_custom_require present
  create fails b = after_setup b (setup fails b.extensions)
