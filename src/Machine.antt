-- ===== src/Machine.antt =====
-- The Lua interpreter, which the program embeds and does not implement: the C API calls that the
-- runtime makes, over an opaque state `S`. Values cross by src/lua/lua_value_utils.h and by
-- PeekValues and PushValues of src/lua/lua_runtime.cc, which are defined here over those calls.
use bernardx.Base.{ℕ, zero, suc, ℤ, Bool, List, [], ◌∷◌, Option, Bytes, if◌then◌else◌}
use bernardx.Value.{
  LuaValue, nil, boolean, integer, number, string, ref, Status, Frame, ErrorObject,
}

-- TaskKind: LoadScript, with its chunk and name, or CallRef.
pub data TaskKind : Type 0 where
  load_script : Bytes → Bytes → TaskKind
  call_ref : ℕ → List LuaValue → Bool → TaskKind

-- Who hears of the end of a coroutine: the promise of a caller, a promise that nobody holds the
-- future of, a std::function of the host, or the callback of ProcessRequireRun.
pub data Handler : Type 0 where
  promise : ℕ → Handler
  detached : Handler
  callback : ℕ → Handler
  require_callback : ℕ → Bytes → Handler

pub record TaskRequest : Type 0 where
  pub kind : TaskKind
  pub on_end : Handler

-- What a script asks of the runtime while it runs, on the thread `co`: a builtin of
-- src/lua/lua_runtime.cc. The arguments are those that the checks of the builtin let through; of
-- the first argument of `reject`, what lua_isstring and lua_tolstring say.
pub data Call : Type 0 where
  now : Call
  sleep : ℕ → ℤ → Call
  set_timeout : ℕ → ℤ → Call
  clear_timeout : ℤ → Call
  await : ℕ → Call
  resolve : ℕ → List LuaValue → Call
  reject : ℕ → Option Bytes → Call
  require : ℕ → Bytes → Call
  loadfile : ℕ → Bytes → Call

-- How a C function ends: it returns values, raises a message, or yields its thread.
pub data Reply : Type 0 where
  returns : List LuaValue → Reply
  raises : Bytes → Reply
  yields : Reply

-- What other threads may do at any moment: the thread-safe members of LuaRuntime.
pub data Host (S : Type 0) : Type 0 where
  interrupts begins_shutdown pauses resumes : Host S
  pushes_task : TaskRequest → Host S
  pushes_resume : ℕ → List LuaValue → Host S
  pushes_resume_direct : ℕ → (ℕ → S → ℕ × S) → Host S
  pushes_release : List ℕ → Host S

-- One lua_resume: the calls that the script makes, in order, with the Lua state at each, the rounds
-- of the count hook, and what other threads do meanwhile; at the end, lua_resume's status and number
-- of results. Every run ends: a loop that never does so is cut at the hook.
pub data Run (S : Type 0) : Type 0 where
  done : Status → ℕ → S → Run S
  calls : Call → S → (Reply → S → Run S) → Run S
  hook : S → Run S → Run S
  meanwhile : Host S → Run S → Run S

-- How the open function of a C module ends under lua_pcall.
pub data Opened : Type 0 where
  opened : LuaValue → Opened
  failed : Bytes → Opened
  yielded : Opened

-- A stack slot as lua_type and the lua_to… functions show it.
pub data Slot : Type 0 where
  nil_slot : Slot
  boolean_slot : Bool → Slot
  integer_slot : ℤ → Slot
  number_slot : ℕ → Slot
  string_slot : Bytes → Slot
  other_slot : ℕ → Slot

pub record Lua (S : Type 0) : Type 0 where
  -- lua_newthread, luaL_ref: the thread and its registry slot.
  pub new_thread : S → ℕ × ℕ × S
  -- SetExtraspace(co, self); FromLuaState(L) != nullptr.
  pub set_extraspace : ℕ → S → S
  pub has_runtime : ℕ → S → Bool
  -- lua_closethread, lua_settop(co, 0).
  pub close_thread : ℕ → S → S
  pub settop_zero : ℕ → S → S
  -- luaL_ref of the top of a thread's stack; luaL_unref.
  pub ref_top : ℕ → S → ℕ × S
  pub unref : ℕ → S → S
  -- lua_status, lua_getstack with lua_getinfo, and the object at the top.
  pub status : ℕ → S → Status
  pub frames : ℕ → S → List Frame
  pub error_object : ℕ → S → ErrorObject
  pub pop : ℕ → S → S
  -- lua_rawgeti(co, LUA_REGISTRYINDEX, ref); the lua_push… function of each kind of value.
  pub push_ref : ℕ → ℕ → S → S
  pub push_nil : ℕ → S → S
  pub push_boolean : ℕ → Bool → S → S
  pub push_integer : ℕ → ℤ → S → S
  pub push_number : ℕ → ℕ → S → S
  pub push_string : ℕ → Bytes → S → S
  -- The slot that many places below the top; lua_pushvalue.
  pub slot : ℕ → ℕ → S → Slot
  pub push_value : ℕ → ℕ → S → S
  pub load_buffer : ℕ → Bytes → Bytes → S → Status × S
  pub load_file : ℕ → Bytes → S → Status × S
  -- package.loaded[name], and the write of it; lua_setfield on another value of the main stack.
  pub loaded : Bytes → S → LuaValue
  pub set_loaded : Bytes → LuaValue → S → S
  pub set_field : LuaValue → Bytes → LuaValue → S → S
  -- The open function of a C module; LuaLibrary::Open, with the number of values that it pushes.
  pub open_c_module : Bytes → S → Opened × S
  pub open_library : Bytes → S → ℕ × LuaValue × S
  -- luaL_loadfile of an absolute path: the function, or the message.
  pub load_absolute : ℕ → Bytes → S → Reply × S
  -- setTimeout's lua_pushvalue(L, 2), lua_xmove and luaL_ref; await's closures and their luaL_ref.
  pub ref_function : ℕ → S → ℕ × S
  pub ref_trampoline : ℕ → ℕ → S → ℕ × S
  -- OnShutdown of each extension and Close of each library; SetExtraspace(main_L_, nullptr).
  pub close_libraries : S → S
  pub clear_runtime : S → S
  pub lua_resume : ℕ → ℕ → S → Run S

module _ {S : Type 0} (lua : Lua S) where
  -- One alternative of PushValues.
  push_one : ℕ → LuaValue → S → S
  push_one co nil s = lua.push_nil co s
  push_one co (boolean b) s = lua.push_boolean co b s
  push_one co (integer n) s = lua.push_integer co n s
  push_one co (number x) s = lua.push_number co x s
  push_one co (string t) s = lua.push_string co t s
  push_one co (ref r t) s = lua.push_ref co r s

  -- PushValues
  pub push_values : ℕ → List LuaValue → S → S
  unfolding push_one
  push_values co [] s = s
  push_values co (v ∷ vs) s = push_values co vs (push_one co v s)

  -- The last case of LuaValueFromStack: a reference, if the thread has a runtime.
  reference_from : ℕ → ℕ → ℕ → S → LuaValue × S
  reference_from co i t s =
      let (r, s') = lua.ref_top co (lua.push_value co i s) in
      if lua.has_runtime co s' then (ref r t, s') else (nil, lua.unref r s')

  from_slot : ℕ → ℕ → Slot → S → LuaValue × S
  unfolding reference_from
  from_slot co i nil_slot s = (nil, s)
  from_slot co i (boolean_slot b) s = (boolean b, s)
  from_slot co i (integer_slot n) s = (integer n, s)
  from_slot co i (number_slot x) s = (number x, s)
  from_slot co i (string_slot t) s = (string t, s)
  from_slot co i (other_slot t) s = reference_from co i t s

  -- LuaValueFromStack
  pub lua_value_from_stack : ℕ → ℕ → S → LuaValue × S
  unfolding from_slot
  lua_value_from_stack co i s = from_slot co i (lua.slot co i s) s

  -- PeekValues: from the lowest of the top `n` slots up.
  pub peek_values : ℕ → ℕ → S → List LuaValue × S
  unfolding lua_value_from_stack
  peek_values co zero s = ([], s)
  peek_values co (suc n) s =
      let (v, s') = lua_value_from_stack co (suc n) s in
      let (vs, s'') = peek_values co n s' in (v ∷ vs, s'')
