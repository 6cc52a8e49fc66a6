-- ===== src/Tests/Timers.antt =====
-- Timers.
use bernardx.Base.{◌+◌, ◌≡◌, [], ◌∷◌, pos, arith}
use bernardx.Timer.Table.{history, held, timeouts, fires, cancels, Op}
use bernardx.Timer.Refs.{count-history, start}
use bernardx.Base.{List, count}

-- Two timeouts with one reference; the first is called, its closure runs again, the second is cancelled.
abbrev twice : List Op
twice = timeouts (pos 5) 0 42 ∷ timeouts (pos 9) 0 42 ∷ fires 1 ∷ fires 1 ∷ cancels 2 ∷ []

count-history_example :
    count 42 (history twice start).consumed + count 42 (held (history twice start).manager)
    ≡ count 42 (history twice start).added
count-history_example = count-history twice 42 (omega arith)
