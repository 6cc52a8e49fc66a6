-- ===== src/Providers.antt =====
-- FileSystemCodeProvider of src/lua/file_system_code_provider.h and FileSystemResourceProvider of
-- src/lua/file_system_resource_provider.cc. What the file system holds is an argument.
use bernardx.Base.{
  ◌≡◌, refl, sym, ap, ◌∙◌, Bool, false, List, [], ◌∷◌, ◌++◌, map, Option, none, some, Bytes, codes,
  is_empty, ◌==◌, if◌then◌else◌,
}
use mathlib.Core.List.{append_assoc}
use bernardx.Runtime.Executor.{CodeProvider}

-- The content of a file that was opened, or what comes next.
abbrev or_try : Option Bytes → Option Bytes → Option Bytes
or_try none other = other
or_try (some content) other = some content

-- `read` is the content of a file that can be opened.
module _ (read : Bytes → Option Bytes) where
  -- TryLoad over the search paths.
  unfoldable pub try_load : List Bytes → Bytes → Option Bytes
  try_load [] filename = none
  try_load (dir ∷ dirs) filename =
      or_try (read (dir ++ (codes "/" ++ filename))) (try_load dirs filename)

  -- The first file of some that can be opened.
  unfoldable pub first_content : List Bytes → Option Bytes
  first_content [] = none
  first_content (file ∷ files) = or_try (read file) (first_content files)

-- ModuleToPath
unfoldable pub module_to_path : Bytes → Bytes
module_to_path [] = []
module_to_path (c ∷ s) = (if c == b'.' then b'/' else c) ∷ module_to_path s

-- The two constructors: `absolute` is std::filesystem::absolute.
unfoldable pub base_search_paths : (Bytes → Bytes) → Bytes → List Bytes
base_search_paths absolute base =
    (absolute base ++ codes "/src") ∷ (absolute base ++ codes "/libs") ∷ []

unfoldable pub given_search_paths : (Bytes → Bytes) → List Bytes → List Bytes
given_search_paths absolute paths = map absolute paths

-- LoadModule and LoadFile
unfoldable pub load_module : (Bytes → Option Bytes) → List Bytes → Bytes → Option Bytes
unfolding try_load module_to_path
load_module read dirs name =
    or_try (try_load read dirs (module_to_path name ++ codes ".lua"))
      (try_load read dirs (module_to_path name ++ codes "/init.lua"))

unfoldable pub file_system_code_provider : (Bytes → Option Bytes) → List Bytes → CodeProvider
unfolding load_module
file_system_code_provider read dirs = record {
  load_module = load_module read dirs;
  load_file = try_load read dirs;
}

-- The files for a name, in the order of the search.
abbrev pub in_dirs : List Bytes → Bytes → List Bytes
in_dirs dirs filename = map (λ dir. dir ++ (codes "/" ++ filename)) dirs

or_try_assoc : (a b c : Option Bytes) → or_try a (or_try b c) ≡ or_try (or_try a b) c
or_try_assoc none b c = refl
or_try_assoc (some content) b c = refl

module _ (read : Bytes → Option Bytes) where
  try_load-first :
      (dirs : List Bytes) (filename : Bytes)
      → try_load read dirs filename ≡ first_content read (in_dirs dirs filename)
  unfolding try_load first_content
  try_load-first [] filename = refl
  try_load-first (dir ∷ dirs) filename =
      ap (or_try (read (dir ++ (codes "/" ++ filename)))) (try_load-first dirs filename)

  first_content-append :
      (files others : List Bytes)
      → first_content read (files ++ others)
        ≡ or_try (first_content read files) (first_content read others)
  unfolding first_content
  first_content-append [] others = refl
  first_content-append (file ∷ files) others =
      ap (or_try (read file)) (first_content-append files others)
      ∙ or_try_assoc (read file) (first_content read files) (first_content read others)

  -- LoadModule gives the first file that can be opened: the module's name with .lua in each search
  -- path, and only then its init.lua in each of them.
  pub load_module-first :
      (dirs : List Bytes) (name : Bytes)
      → load_module read dirs name
        ≡ first_content read (
            in_dirs dirs (module_to_path name ++ codes ".lua")
            ++ in_dirs dirs (module_to_path name ++ codes "/init.lua"))
  unfolding load_module
  load_module-first dirs name =
      ap (λ x. or_try x (try_load read dirs (module_to_path name ++ codes "/init.lua")))
        (try_load-first dirs _)
      ∙ ap (λ x. or_try (first_content read (in_dirs dirs (module_to_path name ++ codes ".lua"))) x)
          (try_load-first dirs _)
      ∙ sym (first_content-append (in_dirs dirs (module_to_path name ++ codes ".lua")) _)

-- ResourceEntry
pub record ResourceEntry : Type 0 where
  pub name : Bytes
  pub path : Bytes
  pub is_directory : Bool

-- What directory_iterator gives for an entry: its name, and is_directory or its error.
pub record DirectoryEntry : Type 0 where
  pub file_name : Bytes
  pub directory_answer : Option Bool

abbrev answer_or_false : Option Bool → Bool
answer_or_false none = false
answer_or_false (some b) = b

-- base_dir_ + "/" + relative_path
abbrev pub under : Bytes → Bytes → Bytes
under dir path = dir ++ (codes "/" ++ path)

abbrev pub listed_dir : Bytes → Bytes → Bytes
listed_dir base path = if is_empty path then base else under base path

unfoldable pub listed_entry : Bytes → DirectoryEntry → ResourceEntry
unfolding is_empty
listed_entry path e = record {
  name = e.file_name;
  path = if is_empty path then e.file_name else under path e.file_name;
  is_directory = answer_or_false e.directory_answer;
}

-- FileSystemResourceProvider::List: `none` is a path that is no directory.
abbrev list_answer : Bytes → Option (List DirectoryEntry) → List ResourceEntry
list_answer path none = []
list_answer path (some es) = map (listed_entry path) es

unfoldable pub list_resources :
    (Bytes → Option (List DirectoryEntry)) → Bytes → Bytes → List ResourceEntry
unfolding listed_entry is_empty
list_resources iterate base path = list_answer path (iterate (listed_dir base path))

-- FileSystemResourceProvider::Load
unfoldable pub load_resource : (Bytes → Option Bytes) → Bytes → Bytes → Option Bytes
load_resource read base path = read (under base path)

-- The path of an entry that List gives names, for Load, the file of that name in the directory that
-- was listed.
pub load_resource-listed_entry :
    (read : Bytes → Option Bytes) (base path : Bytes) (e : DirectoryEntry)
    → load_resource read base (listed_entry path e).path
      ≡ read (under (listed_dir base path) e.file_name)
unfolding load_resource listed_entry is_empty
load_resource-listed_entry read base [] e = refl
load_resource-listed_entry read base (c ∷ path) e =
    ap read (sym (append_assoc base (codes "/" ++ (c ∷ path)) (codes "/" ++ e.file_name)))
