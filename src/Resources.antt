-- ===== src/Resources.antt =====
-- The resource library of src/lua/resource_library.cc: resource.ls and resource.load over any provider.
use bernardx.Base.{ℕ, suc, pos, List, [], ◌∷◌, Option, none, some, Bytes, codes, if◌then◌else◌}
use bernardx.Value.{LuaValue, nil, boolean, string, ref}
use bernardx.Runtime.{Runtime, push_resume}
use bernardx.Runtime.Pending.{pre_yield}
use bernardx.AsyncIo.Reader.{c_str}
use bernardx.Json.{Tree, plain, table, Entries, no_entries, entry, text_key, index}
use bernardx.Providers.{ResourceEntry}

-- The table of one entry, its fields in the order in which they are set.
abbrev path_field : Bytes → Entries
path_field [] = no_entries
path_field (c ∷ s) = entry (text_key (codes "path")) (plain (string (c ∷ s))) no_entries

unfoldable pub entry_table : ResourceEntry → Tree
entry_table e = table (
    entry (text_key (codes "name")) (plain (string e.name))
      (entry (text_key (codes "is_dir")) (plain (boolean e.is_directory)) (path_field e.path)))

unfoldable pub entries_from : ℕ → List ResourceEntry → Entries
unfolding entry_table
entries_from i [] = no_entries
entries_from i (e ∷ es) = entry (index (pos i)) (entry_table e) (entries_from (suc i) es)

-- What ls and load give: the handle and the path of the flow that they start, or an error.
pub data Fetched : Type 0 where
  fetches : ℕ → Bytes → Fetched
  fetch_raises : Bytes → Fetched

abbrev content_value : Option Bytes → List LuaValue
content_value none = nil ∷ []
content_value (some content) = string content ∷ []

abbrev path_or_empty : Option Bytes → Bytes
path_or_empty none = []
path_or_empty (some path) = c_str path

module _ {S : Type 0} where
  -- ResumeResourceList: the table that it makes, and the runtime when the table has the reference `slot`.
  unfoldable pub resume_resource_list : ℕ → List ResourceEntry → ℕ → Runtime S → Tree × Runtime S
  unfolding entries_from push_resume
  resume_resource_list h es slot rt =
      (table (entries_from 1 es), push_resume h (ref slot 5 ∷ []) rt)

  -- ResumeResourceLoad
  unfoldable pub resume_resource_load : ℕ → Option Bytes → Runtime S → Runtime S
  unfolding push_resume
  resume_resource_load h content rt = push_resume h (content_value content) rt

  abbrev fetch : Bytes → Bytes → ℕ → Runtime S → Fetched × Runtime S
  fetch no_executor path co rt =
      if rt.config.has_executor
      then (let (h, rt') = pre_yield co rt in (fetches h path, rt'))
      else (fetch_raises no_executor, rt)

  -- resource_ls: `none` is no path.
  unfoldable pub resource_ls : Option Bytes → ℕ → Runtime S → Fetched × Runtime S
  unfolding pre_yield c_str
  resource_ls path co rt = fetch (codes "resource.ls: executor required") (path_or_empty path) co rt

  -- resource_load
  unfoldable pub resource_load : Bytes → ℕ → Runtime S → Fetched × Runtime S
  unfolding pre_yield c_str
  resource_load path co rt = fetch (codes "resource.load: executor required") (c_str path) co rt
