-- ===== src/Tests/Systems.antt =====
-- The search of modules, resources and directories.
use bernardx.Base.{
  ◌≡◌, refl, true, false, none, some, [], ◌∷◌, Bytes, Option, codes, bytes_eq, is_empty,
  if◌then◌else◌,
}
use bernardx.AsyncIo.Reader.{c_str}
use bernardx.Providers.{
  try_load, module_to_path, load_module, base_search_paths, list_resources, listed_entry,
}
use bernardx.FileSystem.{dir_next, next_names}

-- A file system in which each file holds its own name.
abbrev two_files : Bytes → Option Bytes
two_files file =
    if bytes_eq file (codes "/b/libs/a/c.lua")
    then some file
    else if bytes_eq file (codes "/b/src/a/c/init.lua")
    then some file
    else none

-- A file in the second path goes before init.lua in the first one.
load_module_test :
    load_module two_files (base_search_paths (λ s. s) (codes "/b")) (codes "a.c")
    ≡ some (codes "/b/libs/a/c.lua")
unfolding load_module try_load module_to_path base_search_paths bytes_eq
load_module_test = refl

list_resources_test :
    list_resources
      (λ dir. some (record { file_name = dir; directory_answer = none } ∷ []))
      (codes "r")
      (codes "p")
    ≡ record { name = codes "r/p"; path = codes "p/r/p"; is_directory = false } ∷ []
unfolding list_resources listed_entry is_empty
list_resources_test = refl

-- The name before a step that fails is lost.
dir_names_test : next_names 3 ((codes "a", false) ∷ (codes "b", true) ∷ []) ≡ codes "a" ∷ []
unfolding next_names dir_next c_str
dir_names_test = refl
