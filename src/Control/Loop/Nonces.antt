-- ===== src/Control/Loop/Nonces.antt =====
-- control/mod.rs: the loop's packets, from its start to its end.
use moonshine.Common.{ℕ, ◌≤◌}
use moonshine.Control.Loop.{Loop, Next, running, stopped, panicked}
use moonshine.Control.Loop.Numbers.{numbers, Within}

-- How much a round may use: the outputs so far, and the number at their end.
Bounded : ℕ → ℕ → Next → Type 0
Bounded lo hi (running l out) = (l.sequence_number ≤ hi) × Within lo l.sequence_number (numbers out)
Bounded lo hi (stopped l out) = (l.sequence_number ≤ hi) × Within lo l.sequence_number (numbers out)
Bounded lo hi panicked = Unit {0}
