-- ===== src/Clock.antt =====
-- internal/clock/clock.go: the clock that tests can move and stop.
--
-- An int64 is its 64-bit pattern; the real time is the argument of an operation that reads it.
pub mod Continuous
use databricks_emulator.Base.{ℕ, ◌+◌, ◌-◌, ◌%◌, ◌^◌, Bool, true, false, if◌then◌else◌}

pub record Clock : Type 0 where
  pub offset : ℕ
  pub frozen : Bool
  pub frozen_at : ℕ

unfoldable pub new_clock : Clock
new_clock = record { offset = 0; frozen = false; frozen_at = 0 }

-- `+` and `-` on int64.
unfoldable pub add64 : ℕ → ℕ → ℕ
add64 m n = (m + n) % 2 ^ 64

unfoldable pub sub64 : ℕ → ℕ → ℕ
sub64 m n = (m + (2 ^ 64 - n)) % 2 ^ 64

unfoldable pub now : Clock → ℕ → ℕ
unfolding add64
now c real = if c.frozen then c.frozen_at else add64 real c.offset

unfoldable pub advance : Clock → ℕ → Clock
unfolding add64
advance c seconds =
    if c.frozen
    then record c { frozen_at = add64 c.frozen_at seconds }
    else record c { offset = add64 c.offset seconds }

unfoldable pub freeze : Clock → ℕ → Clock
unfolding add64
freeze c real = if c.frozen then c else record c { frozen_at = add64 real c.offset; frozen = true }

unfoldable pub unfreeze : Clock → ℕ → Clock
unfolding sub64
unfreeze c real =
    if c.frozen then record c { offset = sub64 c.frozen_at real; frozen = false } else c
