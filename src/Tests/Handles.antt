-- ===== src/Tests/Handles.antt =====
-- Awaits, and the HANDLEs of exec on Windows.
use bernardx.Base.{ℕ, ◌+◌, ◌≡◌, refl, false, List, [], ◌∷◌, none, some, is_empty, codes}
use bernardx.Value.{string, lua_yield, lua_ok, lua_error, text}
use bernardx.Machine.{Lua, done}
use bernardx.Runtime.Builtins.{is_done}
use bernardx.Runtime.Bodies.{
  AwaitUse, resolves, body_ends, use_all, resumed_with, first_decided, await-first_decides,
}
use bernardx.AsyncIo.Windows.{
  made, handle_refused, process_made, WindowsProcess, windows_exec, os_last_error, trim_message,
}
use bernardx.AsyncIo.Windows.Handles.{count, kept_by, windows_exec-count}
use bernardx.AsyncIo.Windows.Balance.{closed_times, UsedOpen}
use bernardx.AsyncIo.Windows.Released.{
  InUse, Use, kills, closes, ends, collects, use_each, held, use_each-closes,
}
use bernardx.Tests.Toy.{toy, fresh}

abbrev lua : Lua ℕ
lua = toy lua_yield (λ co n s. done lua_ok 0 s)

-- The body yields, raises, and resolves too late.
abbrev uses : List AwaitUse
uses =
    body_ends lua_yield (text [])
    ∷ body_ends (lua_error 2) (text (codes "boom"))
    ∷ resolves (string (codes "x") ∷ [])
    ∷ []

await-first_decides_example :
    use_all lua 5 uses fresh ≡ resumed_with lua 5 (first_decided uses) fresh
unfolding is_done
await-first_decides_example = await-first_decides lua 5 uses fresh refl

-- The second pipe has no client end.
windows_exec-count_example :
    count 3
      (windows_exec
        (λ n. none)
        (some false)
        (codes "dir")
        (made 1, made 2)
        (made 3, handle_refused 5)
        (process_made 7 8)
        (9 ∷ [])).1
    ≡ kept_by 3
        (windows_exec
          (λ n. none)
          (some false)
          (codes "dir")
          (made 1, made 2)
          (made 3, handle_refused 5)
          (process_made 7 8)
          (9 ∷ [])).0
      + count 3 (9 ∷ [])
windows_exec-count_example =
    windows_exec-count (λ n. none) (codes "dir") (process_made 7 8) (9 ∷ []) 3 (some false) (made 1)
      (made 2) (made 3) (handle_refused 5)

trim_test : os_last_error (λ n. some (codes "gone. ")) 2 ≡ codes "gone"
unfolding os_last_error trim_message is_empty
trim_test = refl

abbrev started : WindowsProcess
started = record {
  proc = some 7;
  stdin_sd = some 1;
  stdout_sd = some 3;
  closed = false;
  cmd = codes "dir";
  read_buffer = [];
  posted = [];
}

abbrev handle_uses : List Use
handle_uses = kills (λ h. none) ∷ closes 3 ∷ ends (λ h. some 0) ∷ collects ∷ []

abbrev after_all : InUse ℕ
after_all = use_each handle_uses (record { process = started; log = []; runtime = fresh })

use_each-closes_example :
    ((n : ℕ) → closed_times n after_all.log + held after_all.process n ≡ held started n)
    × UsedOpen (held started) after_all.log
use_each-closes_example = use_each-closes handle_uses started fresh
