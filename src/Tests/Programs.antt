-- ===== src/Tests/Programs.antt =====
-- The command line program, runtimes that a Builder makes, and the libraries' states.
use bernardx.Base.{
  ℕ, ◌≡◌, ◌≢◌, erase, refl, true, false, ◌==◌, [], ◌∷◌, ◌++◌, Option, none, some, codes, bytes_eq,
  is_empty, if_both, arith, lookup, insert,
}
use bernardx.Value.{lua_ok, lua_yield, lua_errrun, no_detail, ScriptResult}
use bernardx.Machine.{Lua, done, pauses}
use bernardx.Runtime.{Runtime, host_call}
use bernardx.Runtime.Executor.{Reach, here, next, hosts}
use bernardx.Builder.{Builder, find, inits, shuts_down, none_fails}
use bernardx.Builder.Create.{Created, create, set_up, setup_custom_require}
use bernardx.Builder.Created.{create-shuts_down_again}
use bernardx.Program.{Flags, World, Parts, main, terminates, program_builder, new_builder}
use bernardx.Libraries.{Registry, start, get, set, gc, get-History, sets, collects, empty_registry}
use bernardx.Libraries.Closed.{States, open_state, found}
use bernardx.Http.Proxy.{no_proxy}
use bernardx.Http.Socket.{Socket}
use bernardx.Tests.Toy.{toy, no_provider}

abbrev failing : ScriptResult
failing = record {
  status = lua_errrun;
  values = [];
  error = codes "boom";
  error_detail = no_detail;
}

-- The entry file is there, and the script fails.
abbrev world : World
world = record {
  is_directory = λ dir. true;
  absolute = λ dir entry. dir ++ (codes "/" ++ entry);
  exists = λ path. true;
  run_file = λ path. failing;
}

abbrev flags : Flags
flags = record { dir = codes "p"; entry = [] }

failed_test : main world flags ≡ (terminates, codes "src/main.lua failed: boom")
unfolding main is_empty
failed_test = refl

-- The program has no library named resource.
resource_test : (p : Parts) → find (codes "resource") (program_builder p).libraries ≡ none
unfolding program_builder find bytes_eq
resource_test p = refl

async_test : (p : Parts) → find (codes "async") (program_builder p).libraries ≡ some p.async_lib
unfolding program_builder find bytes_eq
async_test p = refl

-- Three extensions, of which the second fails.
abbrev extended : Builder
extended = record new_builder { extensions = 4 ∷ 9 ∷ 6 ∷ [] }

create-shuts_down_again_example :
    create {S = ℕ} 7 0 0 (λ x. x == 9) extended
    ≡ (none, inits 4 ∷ inits 9 ∷ shuts_down 4 ∷ shuts_down 4 ∷ shuts_down 9 ∷ shuts_down 6 ∷ [])
unfolding none_fails
create-shuts_down_again_example =
    create-shuts_down_again {S = ℕ} 7 0 0 (λ x. x == 9) extended (4 ∷ []) (6 ∷ []) 9 refl refl refl

abbrev lua : Lua ℕ
lua = toy lua_yield (λ co n s. done lua_ok 0 s)

-- A module m, and a code provider.
abbrev with_m : Builder
with_m = record new_builder { code_provider = some 1; c_modules = (codes "m", 2) ∷ [] }

abbrev made_m : Created ℕ
made_m = set_up 7 0 0 with_m (setup_custom_require with_m)

abbrev paused_m : Runtime ℕ
paused_m = record made_m.runtime { paused = true }

history : Reach lua no_provider made_m.runtime paused_m
unfolding host_call
history = next here (hosts pauses)

-- A library's state is replaced, and the first one is collected.
abbrev replaced : Registry ℕ
replaced = set 1 20 (set 1 10 empty_registry)

unreferenced : (key : ℕ) → lookup key replaced.entries ≢ some 0
unfolding set lookup insert
unreferenced key = if_both (λ (o : Option ℕ). o ≢ some 0) (1 == key) (λ h. ground arith) (λ h. cc)

get-History_example : get 1 (gc 0 replaced) ≡ lookup 1 (insert 1 20 (insert 1 10 []))
get-History_example = get-History 1 (collects 0 unreferenced (sets 1 20 (sets 1 10 start)))

found_test : get 1 (gc 0 replaced) ≡ some 20
unfolding get gc set lookup insert erase
found_test = refl

-- Both libraries after Close.
abbrev states : States
states = open_state 1 (record { registry = empty_registry; flags = []; next_object = 0 })

abbrev no_socket : Socket ℕ
no_socket = record {
  conn = record {
    client = none;
    url = codes "ws://h/";
    proxy = no_proxy;
    closed = false;
    connect_timeout = 0;
    idle_timeout = 0;
    on_message_ref = none;
    on_close_ref = none;
    on_error_ref = none;
  };
  called = [];
  runtime = paused_m;
}

opened_test : found 1 states ≡ some false
unfolding found open_state get set lookup insert
opened_test = refl
