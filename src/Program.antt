-- ===== src/Program.antt =====
-- The command line program, src/main.cc: how it is wired, and how it ends for what the file system and
-- the script answer. The process ends by a return from main, or by std::terminate, which the
-- destructor of a std::thread calls where the thread is still joinable.
use bernardx.Base.{
  ℕ, Bool, true, false, not, [], ◌++◌, none, Bytes, codes, is_empty, if◌then◌else◌, ◌==◌,
}
use bernardx.Value.{status_code, ScriptResult}
use bernardx.Builder.{
  Builder, with_code_provider, with_resource_provider, with_executor, register_library,
}

-- LuaRuntime::Builder()
abbrev pub new_builder : Builder
new_builder = record {
  code_provider = none;
  resource_provider = none;
  executor = none;
  c_modules = [];
  extensions = [];
  libraries = [];
}

-- The objects that main makes, as numbers.
pub record Parts : Type 0 where
  pub code_provider : ℕ
  pub resource_provider : ℕ
  pub executor : ℕ
  pub http_lib : ℕ
  pub json_lib : ℕ
  pub fs_lib : ℕ
  pub async_lib : ℕ

-- The chain of calls on the Builder, up to Create.
unfoldable pub program_builder : Parts → Builder
unfolding with_code_provider with_resource_provider with_executor register_library
program_builder p =
    let b = with_code_provider p.code_provider new_builder in
    let b = with_executor p.executor (with_resource_provider p.resource_provider b) in
    let b =
      register_library (codes "json") p.json_lib (register_library (codes "http") p.http_lib b) in
    register_library (codes "async") p.async_lib (register_library (codes "lfs") p.fs_lib b)

-- The flags --dir and --entry.
pub record Flags : Type 0 where
  pub dir : Bytes
  pub entry : Bytes

-- What main asks: std::filesystem::is_directory, absolute(dir / entry) and exists, and the result
-- that RunFile gives for a path.
pub record World : Type 0 where
  pub is_directory : Bytes → Bool
  pub absolute : Bytes → Bytes → Bytes
  pub exists : Bytes → Bool
  pub run_file : Bytes → ScriptResult

-- How the process ends, with what it wrote to std::cerr.
pub data Ending : Type 0 where
  exits : ℕ → Ending
  terminates : Ending

-- The io thread: not started, running, or joined.
pub data IoThread : Type 0 where
  not_started : IoThread
  running : IoThread
  joined : IoThread

-- A return from main, which destroys the io thread.
unfoldable pub return_from : IoThread → ℕ → Ending
return_from running code = terminates
return_from not_started code = exits code
return_from joined code = exits code

abbrev pub entry_or_default : Bytes → Bytes
entry_or_default entry = if is_empty entry then codes "src/main.lua" else entry

abbrev pub succeeded : ScriptResult → Bool
succeeded r = status_code r.status == 0

-- main, after the script has ended.
unfoldable pub script_ended : Bytes → ScriptResult → Ending × Bytes
unfolding return_from status_code
script_ended entry r =
    if not (succeeded r)
    then (return_from running 1, entry ++ (codes " failed: " ++ r.error))
    else (return_from joined 0, [])

-- main, from the start of the io thread.
unfoldable pub run_entry : World → Flags → Ending × Bytes
unfolding script_ended return_from
run_entry world flags =
    let entry = entry_or_default flags.entry in
    let path = world.absolute flags.dir entry in
    if not (world.exists path)
    then (return_from running 1, codes "Error: entry file not found: " ++ path)
    else script_ended entry (world.run_file path)

-- main
unfoldable pub main : World → Flags → Ending × Bytes
unfolding run_entry return_from
main world flags =
    if not (world.is_directory flags.dir)
    then (return_from not_started 1, codes "Error: directory not found: " ++ flags.dir)
    else run_entry world flags

-- The ending by the three answers.
abbrev verdict : Bool → Bool → Bool → Ending
verdict false e s = exits 1
verdict true false s = terminates
verdict true true false = terminates
verdict true true true = exits 0

module _ (world : World) (flags : Flags) where
  abbrev pub entry_path : Bytes
  entry_path = world.absolute flags.dir (entry_or_default flags.entry)
