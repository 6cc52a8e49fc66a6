-- ===== src/Runtime/Stable/Builtins.antt =====
-- The builtins and whole runs of scripts keep a stable predicate.
use bernardx.Base.{ℕ, ℤ, not, List, [], ◌∷◌, Option, Bytes, ◌==◌, Bool-cases, inl, inr}
use bernardx.Value.{LuaValue}
use bernardx.Machine.{
  Lua, Call, now, sleep, set_timeout, clear_timeout, await, resolve, reject, require, loadfile,
  Reply, Opened, opened, failed, yielded, Run, done, calls, hook, meanwhile,
}
use bernardx.Runtime.{Runtime, gated, host_call}
use bernardx.Runtime.Builtins.{
  builtin, builtin_sleep, builtin_set_timeout, builtin_clear_timeout, builtin_await,
  builtin_await_resolve, builtin_await_reject, rejection, is_done, custom_require, custom_loadfile,
  contains, truthy, finish_c_module, require_c_module, require_library, require_provider,
  load_absolute_file, load_relative_file,
}
use bernardx.Runtime.Drive.{drive, resume_run}
use bernardx.Runtime.Stable.{Stable}
use bernardx.Runtime.Stable.Submit.{
  if-stable, schedule-stable, push_task-stable, push_resume-stable, host_call-stable,
  pre_yield-stable, add_sleep_timer-stable, add_timeout_timer-stable, cancel_timer-stable,
}

module _ {S : Type 0} (lua : Lua S) {P : Runtime S → Type 0} (stable : Stable P) where
  abbrev Keeps : Reply × Runtime S → Type 0
  Keeps r = P r.1

  sleep-stable : (co : ℕ) (ms : ℤ) (rt : Runtime S) → P rt → Keeps (builtin_sleep lua co ms rt)
  unfolding builtin_sleep
  sleep-stable co ms rt h = add_sleep_timer-stable stable _ _ _ (pre_yield-stable stable co rt h)

  set_timeout-stable :
      (co : ℕ) (ms : ℤ) (rt : Runtime S) → P rt → Keeps (builtin_set_timeout lua co ms rt)
  unfolding builtin_set_timeout
  set_timeout-stable co ms rt h = add_timeout_timer-stable stable _ _ _ (stable.on_state rt _ h)

  await-stable : (co : ℕ) (rt : Runtime S) → P rt → Keeps (builtin_await lua co rt)
  unfolding builtin_await
  await-stable co rt h =
      push_task-stable stable _ _ (stable.on_state _ _ (pre_yield-stable stable co rt h))

  resolve-stable :
      (n : ℕ) (args : List LuaValue) (rt : Runtime S)
      → P rt
      → Keeps (builtin_await_resolve lua n args rt)
  unfolding builtin_await_resolve
  resolve-stable n args rt h =
      if-stable Keeps (is_done n rt.done_awaits) _ _ h
        (push_resume-stable stable n args _ (stable.on_done rt (n ∷ rt.done_awaits) h))

  reject-stable :
      (n : ℕ) (m : Option Bytes) (rt : Runtime S) → P rt → Keeps (builtin_await_reject lua n m rt)
  unfolding builtin_await_reject
  reject-stable n m rt h =
      if-stable Keeps (is_done n rt.done_awaits) _ _ h
        (push_resume-stable stable n (rejection m) _ (stable.on_done rt (n ∷ rt.done_awaits) h))

  finish_c_module-stable :
      (name : Bytes) (o : Opened) (rt : Runtime S) → P rt → Keeps (finish_c_module lua name o rt)
  unfolding finish_c_module
  finish_c_module-stable name (opened v) rt h = stable.on_state rt _ h
  finish_c_module-stable name (failed m) rt h = h
  finish_c_module-stable name yielded rt h = h

  require_c_module-stable :
      (name : Bytes) (rt : Runtime S) → P rt → Keeps (require_c_module lua name rt)
  unfolding require_c_module
  require_c_module-stable name rt h =
      let (o, s) = lua.open_c_module name rt.state in
      finish_c_module-stable name o (record rt { state = s }) (stable.on_state rt s h)

  require_library-stable :
      (name : Bytes) (rt : Runtime S) → P rt → Keeps (require_library lua name rt)
  unfolding require_library
  require_library-stable name rt h =
      let (n, v, s) = lua.open_library name rt.state in
      if-stable Keeps (n == 1) _ _ (stable.on_state rt _ h) (stable.on_state rt _ h)

  require_provider-stable :
      (co : ℕ) (name : Bytes) (rt : Runtime S) → P rt → Keeps (require_provider lua co name rt)
  unfolding require_provider
  require_provider-stable co name rt h =
      schedule-stable stable 0 _ _ (pre_yield-stable stable co rt h)

  require-stable :
      (co : ℕ) (name : Bytes) (rt : Runtime S) → P rt → Keeps (custom_require lua co name rt)
  unfolding custom_require
  require-stable co name rt h = if-stable Keeps (truthy (lua.loaded name rt.state)) _ _ h (
      if-stable Keeps (contains name rt.config.c_modules) _ _ (require_c_module-stable name rt h) (
        if-stable Keeps (contains name rt.config.libraries) _ _ (require_library-stable name rt h) (
          if-stable Keeps (not rt.config.has_code_provider) _ _ h (
            if-stable Keeps (not rt.config.has_executor) _ _ h
              (require_provider-stable co name rt h)))))

  load_absolute_file-stable :
      (co : ℕ) (name : Bytes) (rt : Runtime S) → P rt → Keeps (load_absolute_file lua co name rt)
  unfolding load_absolute_file
  load_absolute_file-stable co name rt h = stable.on_state rt _ h

  load_relative_file-stable :
      (co : ℕ) (name : Bytes) (rt : Runtime S) → P rt → Keeps (load_relative_file lua co name rt)
  unfolding load_relative_file
  load_relative_file-stable co name rt h =
      schedule-stable stable 0 _ _ (pre_yield-stable stable co rt h)

  loadfile-stable :
      (co : ℕ) (name : Bytes) (rt : Runtime S) → P rt → Keeps (custom_loadfile lua co name rt)
  unfolding custom_loadfile
  loadfile-stable co [] rt h = h
  loadfile-stable co (c ∷ name) rt h =
      if-stable Keeps (c == b'/') _ _ (load_absolute_file-stable co (c ∷ name) rt h) (
        if-stable Keeps (not rt.config.has_code_provider) _ _ h (
          if-stable Keeps (not rt.config.has_executor) _ _ h
            (load_relative_file-stable co (c ∷ name) rt h)))

  builtin-stable : (c : Call) (rt : Runtime S) → P rt → Keeps (builtin lua c rt)
  unfolding builtin builtin_clear_timeout
  builtin-stable now rt h = h
  builtin-stable (sleep co ms) rt h = sleep-stable co ms rt h
  builtin-stable (set_timeout co ms) rt h = set_timeout-stable co ms rt h
  builtin-stable (clear_timeout n) rt h = cancel_timer-stable lua stable _ rt h
  builtin-stable (await co) rt h = await-stable co rt h
  builtin-stable (resolve n args) rt h = resolve-stable n args rt h
  builtin-stable (reject n m) rt h = reject-stable n m rt h
  builtin-stable (require co name) rt h = require-stable co name rt h
  builtin-stable (loadfile co name) rt h = loadfile-stable co name rt h

  -- Whatever a script does, and whatever other threads do meanwhile.
  drive-stable : (r : Run S) (rt : Runtime S) → P rt → P (drive lua r rt).2
  unfolding drive
  drive-stable (done st n s) rt h = stable.on_state rt s h
  drive-stable (calls c s k) rt h =
      let (r, rt') = builtin lua c (record rt { state = s }) in
      drive-stable (k r rt'.state) rt' (builtin-stable c _ (stable.on_state rt s h))
  drive-stable (hook s k) rt h =
      let go = drive-stable k rt h in
      elim (Bool-cases (gated rt)) [
        | inl e ↦ rw (e, drive) (stable.on_state rt s h)
        | inr e ↦ rw (e, drive) go
      ]
  drive-stable (meanwhile c k) rt h =
      drive-stable k (host_call c rt) (host_call-stable stable c rt h)

  pub resume_run-stable : (co n : ℕ) (rt : Runtime S) → P rt → P (resume_run lua co n rt).2
  unfolding resume_run
  resume_run-stable co n rt h = drive-stable (lua.lua_resume co n rt.state) rt h
