-- ===== src/Tests/Ends.antt =====
-- The ends of all work, from a runtime with a sleeping coroutine.
use bernardx.Base.{ℕ, ◌≡◌, refl, none, lookup, has_value, codes, false, if◌then◌else◌, ◌==◌}
use bernardx.Pool.{owns, empty}
use bernardx.Runtime.Stop.{interrupt_pass, shutdown, cancel_call}
use bernardx.Runtime.Endings.{
  HaveHeard, IsIdle, interrupt_pass-settles, shutdown-settles, cancel_call-forgets,
}
use bernardx.Tests.Scripts.{sleepy, asleep}

interrupt_pass-settles_example :
    HaveHeard (codes "interrupted") asleep (interrupt_pass sleepy asleep)
    × IsIdle sleepy (interrupt_pass sleepy asleep)
interrupt_pass-settles_example = interrupt_pass-settles sleepy asleep refl

shutdown-settles_example :
    let ru = shutdown sleepy asleep in
    HaveHeard (codes "runtime shutdown") asleep ru × IsIdle sleepy ru × (ru.pool ≡ empty)
shutdown-settles_example = shutdown-settles sleepy asleep refl

cancel_call-forgets_example :
    let ru = cancel_call sleepy 0 asleep in
    (has_value 0 ru.pending ≡ false)
    × (owns 0 ru.pool ≡ false)
    × (ru.settled ≡ asleep.settled)
    × ((c : ℕ) → lookup c ru.completions ≡ (if 0 == c then none else lookup c asleep.completions))
cancel_call-forgets_example = cancel_call-forgets sleepy 0 asleep
