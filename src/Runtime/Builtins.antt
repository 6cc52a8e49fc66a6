-- ===== src/Runtime/Builtins.antt =====
-- The functions that scripts call (the builtin_… and custom_… functions of
-- src/lua/lua_runtime.cc), each from its checked arguments to how it ends.
use bernardx.Base.{
  ℕ, ℤ, pos, ◌+ℤ◌, residue, to_int32, Bool, true, false, not, ◌||◌, List, [], ◌∷◌, ◌++◌, Option,
  none, some, Bytes, codes, bytes_eq, if◌then◌else◌, ◌==◌,
}
use bernardx.Value.{LuaValue, nil, boolean, integer, string}
use bernardx.Machine.{
  Lua, Call, now, sleep, set_timeout, clear_timeout, await, resolve, reject, require, loadfile,
  Reply, returns, raises, yields, call_ref, detached, TaskRequest, Opened, opened, failed, yielded,
}
use bernardx.Runtime.{Runtime, schedule, push_task, push_resume, load_module_flow, load_file_flow}
use bernardx.Runtime.Pending.{pre_yield, add_sleep_timer, add_timeout_timer, cancel_timer}

-- it != map.end()
unfoldable pub contains : Bytes → List Bytes → Bool
contains name [] = false
contains name (n ∷ ns) = bytes_eq n name || contains name ns

-- Whether a handle's done table is set.
unfoldable pub is_done : ℕ → List ℕ → Bool
is_done h [] = false
is_done h (k ∷ ks) = k == h || is_done h ks

abbrev pub truthy : LuaValue → Bool
truthy nil = false
truthy (boolean b) = b
truthy _ = true

-- CacheModuleResult: nil is cached as true.
unfoldable pub cached_result : LuaValue → LuaValue
cached_result nil = boolean true
cached_result v = v

-- The values that builtin_await_reject resumes with.
unfoldable pub rejection : Option Bytes → List LuaValue
rejection (some t) = nil ∷ string t ∷ []
rejection none = nil ∷ string (codes "rejected") ∷ []

abbrev quoted : Bytes → Bytes
quoted name = codes "'" ++ (name ++ codes "'")

module _ {S : Type 0} (lua : Lua S) where
  -- builtin_now
  unfoldable pub builtin_now : Runtime S → Reply × Runtime S
  builtin_now rt = (returns (integer (pos rt.clock) ∷ []), rt)

  -- builtin_sleep
  unfoldable pub builtin_sleep : ℕ → ℤ → Runtime S → Reply × Runtime S
  builtin_sleep co ms rt =
      let (h, rt') = pre_yield co rt in
      (yields, add_sleep_timer (pos rt'.clock +ℤ to_int32 ms) h rt')

  -- builtin_set_timeout
  unfoldable pub builtin_set_timeout : ℕ → ℤ → Runtime S → Reply × Runtime S
  builtin_set_timeout co ms rt =
      let (f, s) = lua.ref_function co rt.state in
      let (h, rt') = add_timeout_timer (pos rt.clock +ℤ to_int32 ms) f (record rt { state = s }) in
      (returns (integer (pos h) ∷ []), rt')

  -- builtin_clear_timeout
  unfoldable pub builtin_clear_timeout : ℤ → Runtime S → Reply × Runtime S
  builtin_clear_timeout h rt = (returns [], cancel_timer lua (residue 64 h) rt)

  -- builtin_await: the body runs as a task of its own, whose promise nobody holds.
  unfoldable pub builtin_await : ℕ → Runtime S → Reply × Runtime S
  builtin_await co rt =
      let (h, rt') = pre_yield co rt in
      let (f, s) = lua.ref_trampoline co h rt'.state in
      let task : TaskRequest = record { kind = call_ref f [] true; on_end = detached } in
      (yields, push_task task (record rt' { state = s }))

  -- The done table of an await, then PushResume: builtin_await_resolve, builtin_await_reject.
  unfoldable pub settle_await : ℕ → List LuaValue → Runtime S → Reply × Runtime S
  settle_await h args rt =
      if is_done h rt.done_awaits
      then (returns [], rt)
      else (returns [], push_resume h args (record rt { done_awaits = h ∷ rt.done_awaits }))

  unfoldable pub builtin_await_resolve : ℕ → List LuaValue → Runtime S → Reply × Runtime S
  unfolding settle_await
  builtin_await_resolve h args rt = settle_await h args rt

  unfoldable pub builtin_await_reject : ℕ → Option Bytes → Runtime S → Reply × Runtime S
  unfolding settle_await
  builtin_await_reject h message rt = settle_await h (rejection message) rt

  -- The C module's open function has run.
  unfoldable pub finish_c_module : Bytes → Opened → Runtime S → Reply × Runtime S
  finish_c_module name (opened v) rt =
      (returns (v ∷ []), record rt { state = lua.set_loaded name (cached_result v) rt.state })
  finish_c_module name (failed message) rt = (raises message, rt)
  finish_c_module name yielded rt = (
    raises (codes "C module " ++ (quoted name ++ codes " attempted to yield during loading")),
    rt,
  )

  unfoldable pub require_c_module : Bytes → Runtime S → Reply × Runtime S
  unfolding finish_c_module
  require_c_module name rt =
      let (o, s) = lua.open_c_module name rt.state in
      finish_c_module name o (record rt { state = s })

  -- The library's Open has run.
  unfoldable pub require_library : Bytes → Runtime S → Reply × Runtime S
  require_library name rt =
      let (n, v, s) = lua.open_library name rt.state in
      if n == 1
      then (returns (v ∷ []), record rt { state = lua.set_loaded name (cached_result v) s })
      else (
        raises (codes "library " ++ (quoted name ++ codes " Open() must push exactly 1 value")),
        record rt { state = s },
      )

  -- The asynchronous end of custom_require and custom_loadfile.
  unfoldable pub require_provider : ℕ → Bytes → Runtime S → Reply × Runtime S
  require_provider co name rt =
      let (h, rt') = pre_yield co rt in (yields, schedule 0 (load_module_flow h name) rt')

  -- custom_require
  unfoldable pub custom_require : ℕ → Bytes → Runtime S → Reply × Runtime S
  unfolding require_c_module require_library require_provider
  custom_require co name rt =
      if truthy (lua.loaded name rt.state)
      then (returns (lua.loaded name rt.state ∷ []), rt)
      else if contains name rt.config.c_modules
      then require_c_module name rt
      else if contains name rt.config.libraries
      then require_library name rt
      else if not rt.config.has_code_provider
      then (raises (codes "module " ++ (quoted name ++ codes " not found")), rt)
      else if not rt.config.has_executor
      then (
        raises (codes "module " ++ (quoted name ++ codes ": executor required for CodeProvider")),
        rt,
      )
      else require_provider co name rt

  unfoldable pub load_absolute_file : ℕ → Bytes → Runtime S → Reply × Runtime S
  load_absolute_file co name rt =
      let (r, s) = lua.load_absolute co name rt.state in (r, record rt { state = s })

  unfoldable pub load_relative_file : ℕ → Bytes → Runtime S → Reply × Runtime S
  load_relative_file co name rt =
      let (h, rt') = pre_yield co rt in (yields, schedule 0 (load_file_flow h name) rt')

  abbrev failed_load : Bytes → Bytes → Reply
  failed_load name why = returns (
      nil
      ∷ string (codes "cannot load relative file " ++ (quoted name ++ (codes ": " ++ why)))
      ∷ [])

  -- custom_loadfile
  unfoldable pub custom_loadfile : ℕ → Bytes → Runtime S → Reply × Runtime S
  unfolding load_absolute_file load_relative_file
  custom_loadfile co [] rt = (returns (nil ∷ string (codes "empty filename") ∷ []), rt)
  custom_loadfile co (c ∷ name) rt =
      if c == b'/'
      then load_absolute_file co (c ∷ name) rt
      else if not rt.config.has_code_provider
      then (failed_load (c ∷ name) (codes "no CodeProvider"), rt)
      else if not rt.config.has_executor
      then (failed_load (c ∷ name) (codes "no executor"), rt)
      else load_relative_file co (c ∷ name) rt

  -- The functions that SetupBuiltins and SetupCustomRequire register.
  unfoldable pub builtin : Call → Runtime S → Reply × Runtime S
  unfolding builtin_now
  builtin now rt = builtin_now rt
  builtin (sleep co ms) rt = builtin_sleep co ms rt
  builtin (set_timeout co ms) rt = builtin_set_timeout co ms rt
  builtin (clear_timeout h) rt = builtin_clear_timeout h rt
  builtin (await co) rt = builtin_await co rt
  builtin (resolve h args) rt = builtin_await_resolve h args rt
  builtin (reject h message) rt = builtin_await_reject h message rt
  builtin (require co name) rt = custom_require co name rt
  builtin (loadfile co name) rt = custom_loadfile co name rt

-- lua_remove(L, 1); return 1: the value on top is returned.
unfoldable pub last_value : LuaValue → List LuaValue → LuaValue
last_value w [] = w
last_value w (x ∷ xs) = last_value x xs

-- require_continuation, from the values that the thread was resumed with (from index 2 up).
unfoldable pub require_continuation : Bytes → List LuaValue → Reply
unfolding last_value
require_continuation name (nil ∷ string message ∷ vs) =
    raises (codes "error loading module " ++ (quoted name ++ (codes ":\n\t" ++ message)))
require_continuation name (nil ∷ vs) =
    raises (codes "module " ++ (quoted name ++ codes " not found"))
require_continuation name (v ∷ vs) = returns (last_value v vs ∷ [])
require_continuation name [] = returns (string name ∷ [])

-- loadfile_continuation
unfoldable pub loadfile_continuation : Bytes → List LuaValue → Reply
unfolding last_value
loadfile_continuation name (nil ∷ vs) =
    returns
      (nil ∷ string (codes "cannot find file " ++ (quoted name ++ codes " via CodeProvider")) ∷ [])
loadfile_continuation name (v ∷ vs) = returns (last_value v vs ∷ [])
loadfile_continuation name [] = returns (string name ∷ [])
