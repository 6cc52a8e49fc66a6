-- ===== src/Runtime/Answers.antt =====
-- That nobody who starts a coroutine is left without an answer: ProcessTask and the awaited API of
-- src/lua/lua_runtime.cc.
use bernardx.Base.{ℕ, ◌≡◌, List, [], ◌∷◌, ◌++◌, some, lookup, ◌⊎◌}
use bernardx.Value.{ScriptResult}
use bernardx.Machine.{Handler}
use bernardx.Runtime.{Runtime}

module _ {S : Type 0} where
  -- The handler was told a result last of all.
  abbrev pub IsTold : Handler → Runtime S → Type 0
  IsTold k rt =
      (before : List (Handler × ScriptResult)) × (r : ScriptResult) × (rt.settled
        ≡ before ++ ((k, r) ∷ []))

  -- The handler waits for a coroutine.
  abbrev pub Waits : Handler → Runtime S → Type 0
  Waits k rt = (co : ℕ) × (lookup co rt.completions ≡ some k)

  abbrev pub Answered : Handler → Runtime S → Type 0
  Answered k rt = IsTold k rt ⊎ Waits k rt
