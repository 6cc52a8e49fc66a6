-- ===== src/FileSystem.antt =====
-- src/lua/fs_library.cc: the functions of lfs. What std::filesystem answers is an argument: an error is
-- the text of its error_code.
use bernardx.Base.{
  ℕ, zero, suc, length, ℤ, ◌≡◌, refl, ap, Bool, true, false, ◌||◌, List, [], ◌∷◌, ◌++◌, Option,
  none, some, Bytes, codes, bytes_eq, signed, if◌then◌else◌,
}
use bernardx.Value.{LuaValue, nil, boolean, integer, string}
use bernardx.AsyncIo.Reader.{c_str}
use bernardx.Json.{Tree, plain, table, Entries, no_entries, entry, text_key}

-- The type that status and symlink_status report.
pub data FileType : Type 0 where
  directory regular symlink other_type : FileType

pub data StatusAnswer : Type 0 where
  status_failed : Bytes → StatusAnswer
  has_status : FileType → StatusAnswer

-- file_size: the size, or its error.
pub data SizeAnswer : Type 0 where
  sized : ℕ → SizeAnswer
  is_a_directory : SizeAnswer
  size_failed : SizeAnswer

unfoldable pub mode_name : FileType → Bytes
mode_name directory = codes "directory"
mode_name regular = codes "file"
mode_name symlink = codes "link"
mode_name other_type = codes "other"

abbrev pub failure_values : LuaValue → Bytes → List Tree
failure_values v error = plain v ∷ plain (string (c_str error)) ∷ []

abbrev size_value : SizeAnswer → LuaValue
size_value (sized n) = integer (signed 64 n)
size_value answer = nil

-- One attribute: the seconds are those of the file clock.
unfoldable pub attribute : Bytes → FileType → ℤ → SizeAnswer → LuaValue
unfolding mode_name bytes_eq signed
attribute name t seconds size =
    if bytes_eq name (codes "mode")
    then string (mode_name t)
    else if bytes_eq name (codes "modification")
    then integer seconds
    else if bytes_eq name (codes "size")
    then size_value size
    else nil

-- The fields of the table, in the order in which they are set.
abbrev attribute_fields : ℤ → SizeAnswer → Entries
attribute_fields seconds (sized n) =
    entry (text_key (codes "size")) (plain (integer (signed 64 n)))
      (entry (text_key (codes "modification")) (plain (integer seconds)) no_entries)
attribute_fields seconds is_a_directory =
    entry (text_key (codes "modification")) (plain (integer seconds)) no_entries
attribute_fields seconds size_failed = no_entries

abbrev attributes_of : Option Bytes → FileType → ℤ → SizeAnswer → List Tree
attributes_of (some name) t seconds size = plain (attribute (c_str name) t seconds size) ∷ []
attributes_of none t seconds size =
    table (
      entry (text_key (codes "mode")) (plain (string (mode_name t)))
        (attribute_fields seconds size))
    ∷ []

-- lfs_attributes
unfoldable pub lfs_attributes : StatusAnswer → Option Bytes → ℤ → SizeAnswer → List Tree
unfolding attribute c_str
lfs_attributes (status_failed error) name seconds size = failure_values nil error
lfs_attributes (has_status t) name seconds size = attributes_of name t seconds size

-- lfs_symlinkattributes: any name of an attribute asks for the mode.
abbrev symlink_attributes : Option Bytes → FileType → List Tree
symlink_attributes (some name) t = plain (string (mode_name t)) ∷ []
symlink_attributes none t =
    table (entry (text_key (codes "mode")) (plain (string (mode_name t))) no_entries) ∷ []

unfoldable pub lfs_symlinkattributes : StatusAnswer → Option Bytes → List Tree
unfolding mode_name c_str
lfs_symlinkattributes (status_failed error) name = failure_values nil error
lfs_symlinkattributes (has_status t) name = symlink_attributes name t

-- Success, or false with the error.
abbrev done_values : Option Bytes → List Tree
done_values none = plain (boolean true) ∷ []
done_values (some error) = failure_values (boolean false) error

-- current_path: the directory or its error.
pub data PathAnswer : Type 0 where
  path_failed : Bytes → PathAnswer
  has_path : Bytes → PathAnswer

unfoldable pub lfs_currentdir : PathAnswer → List Tree
unfolding c_str
lfs_currentdir (path_failed error) = failure_values nil error
lfs_currentdir (has_path dir) = plain (string (c_str dir)) ∷ []

-- lfs_chdir, lfs_rmdir and lfs_rmtree, by the error of current_path, remove and remove_all.
unfoldable pub lfs_chdir : Option Bytes → List Tree
unfolding c_str
lfs_chdir error = done_values error

unfoldable pub lfs_rmdir : Option Bytes → List Tree
unfolding c_str
lfs_rmdir error = done_values error

unfoldable pub lfs_rmtree : Option Bytes → List Tree
unfolding c_str
lfs_rmtree error = done_values error

-- lfs_mkdir: whether create_directory made one, or its error.
unfoldable pub lfs_mkdir : Option Bytes → Bool → List Tree
unfolding c_str
lfs_mkdir (some error) made = failure_values (boolean false) error
lfs_mkdir none made =
    if made
    then plain (boolean true) ∷ []
    else failure_values (boolean false) (codes "already exists")

-- lfs_touch: whether the file exists, whether it can be made, and the error of last_write_time.
unfoldable pub lfs_touch : Bool → Bool → Option Bytes → List Tree
unfolding c_str
lfs_touch there can_make error =
    if there || can_make
    then done_values error
    else failure_values (boolean false) (codes "cannot create file")

-- A directory_iterator: the names to come, each with whether the step from it to the next one fails.
abbrev pub DirIter : Type 0
DirIter = List (Bytes × Bool)

-- lfs_dir: the iterator and the error that is given with it.
pub data DirAnswer : Type 0 where
  dir_failed : Bytes → DirAnswer
  opened_dir : DirIter → DirAnswer

unfoldable pub lfs_dir : Bytes → DirAnswer → DirIter × List Tree
unfolding c_str
lfs_dir path (opened_dir it) = (it, [])
lfs_dir path (dir_failed error) = (
  [],
  plain (string (codes "cannot open directory '" ++ (c_str path ++ (codes "': " ++ c_str error))))
      ∷ [],
)

-- The next function: a step that fails ends the iterator, and the name that was read is lost.
unfoldable pub dir_next : DirIter → Option Bytes × DirIter
unfolding c_str
dir_next [] = (none, [])
dir_next ((name, true) ∷ it) = (none, [])
dir_next ((name, false) ∷ it) = (some (c_str name), it)

-- What `for name in lfs.dir(path)` goes through: every name up to a step that fails.
unfoldable pub dir_names : DirIter → List Bytes
unfolding c_str
dir_names [] = []
dir_names ((name, true) ∷ it) = []
dir_names ((name, false) ∷ it) = c_str name ∷ dir_names it

-- So many calls of the next function.
unfoldable pub next_names : ℕ → DirIter → List Bytes
unfolding dir_next
next_names zero it = []
next_names (suc n) it =
    let (name, rest) = dir_next it in
    let names = next_names n rest in elim name [ none ↦ [] | some x ↦ x ∷ names ]

-- The loop ends within one call more than there are entries, and goes through those names.
pub next_names-dir_names : (it : DirIter) → next_names (suc (length it)) it ≡ dir_names it
unfolding next_names dir_names dir_next
next_names-dir_names [] = refl
next_names-dir_names ((name, true) ∷ it) = refl
next_names-dir_names ((name, false) ∷ it) = ap (λ ns. c_str name ∷ ns) (next_names-dir_names it)
