-- ===== src/Libraries/Closed.antt =====
-- Open and Close of HttpLibrary (src/lua/http_library.cc) and AsyncIOLibrary
-- (src/lua/async_io_library.cc), over the state that each keeps in the registry, and what
-- their functions do after Close.
use bernardx.Base.{
  ℕ, suc, ◌≡◌, Bool, true, false, List, Option, none, some, Bytes, lookup, insert, if◌then◌else◌,
}
use bernardx.Value.{LuaValue}
use bernardx.Runtime.{Runtime}
use bernardx.AsyncIo.Exec.{available}
use bernardx.Http.Connection.{Created, create_raises}
use bernardx.Http.Socket.{Reply, replies, Socket}
use bernardx.Libraries.{Registry, get, set}

-- The state objects, HttpLibraryState or AsyncIOState, as numbers with their flag shutting_down.
pub record States : Type 0 where
  pub registry : Registry ℕ
  pub flags : List (ℕ × Bool)
  pub next_object : ℕ

abbrev flag_of : Option ℕ → List (ℕ × Bool) → Option Bool
flag_of none flags = none
flag_of (some o) flags = lookup o flags

-- What a function of the library finds: the flag of its state, if there is one.
unfoldable pub found : ℕ → States → Option Bool
unfolding get
found key st = flag_of (get key st.registry) st.flags

-- HttpLibrary::Open and AsyncIOLibrary::Open, for the key of the library: a new state.
unfoldable pub open_state : ℕ → States → States
unfolding set
open_state key st = record st {
  registry = set key st.next_object st.registry;
  flags = insert st.next_object false st.flags;
  next_object = suc st.next_object;
}

abbrev shut : Option ℕ → States → States
shut none st = st
shut (some o) st = record st { flags = insert o true st.flags }

-- HttpLibrary::Close and AsyncIOLibrary::Close; without a Lua state they do nothing.
unfoldable pub close_state : Bool → ℕ → States → States
unfolding get
close_state has_lua_state key st = if has_lua_state then shut (get key st.registry) st else st

abbrev pub Raises : Created → Type 0
Raises c = (message : Bytes) × (c ≡ create_raises message)

-- Whether the functions of a library work after its Close.
abbrev pub up : ℕ → States → Bool
up key st = available (found key (close_state true key st))

module _ {S : Type 0} where
  -- The method returns at once and leaves the connection and the runtime as they are.
  abbrev pub IsRefused : Reply × Socket S → Socket S → Type 0
  IsRefused r w = (values : List LuaValue) × (r ≡ (replies values, w))
