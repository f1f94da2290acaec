-- ===== src/Clock/Continuous.antt =====
-- internal/clock/clock.go: only Advance and the passing of real time move the controlled time.
use databricks_emulator.Base.{ℕ, ◌^◌, ◌<◌, ◌≡◌, refl, arith, Bool-cases, inl, inr}
use databricks_emulator.Clock.{Clock, add64, sub64, now, advance, freeze, unfreeze}

-- The fields hold 64-bit patterns.
pub record IsWord (c : Clock) : Type 0 where
  pub offset_word : c.offset < 2 ^ 64
  pub frozen_at_word : c.frozen_at < 2 ^ 64

back_and_forth : (t real : ℕ) → t < 2 ^ 64 → real < 2 ^ 64 → add64 real (sub64 t real) ≡ t
unfolding add64 sub64
back_and_forth t real small word = omega arith

add64_assoc : (a b n : ℕ) → add64 a (add64 b n) ≡ add64 (add64 a b) n
unfolding add64
add64_assoc a b n = omega arith

-- At a real time in 64 bits, freezing and unfreezing leave the controlled time, Advance moves it
-- by the seconds, and a frozen clock shows the same time at any other real time; the fields of the
-- clock are 64-bit patterns.
pub now_lem :
    (c : Clock) (real seconds later : ℕ)
    → IsWord c
    → real < 2 ^ 64
    → (now (freeze c real) real ≡ now c real)
      × (now (unfreeze c real) real ≡ now c real)
      × (now (advance c seconds) real ≡ add64 (now c real) seconds)
      × (now (freeze c real) later ≡ now c real)
unfolding now advance freeze unfreeze
now_lem c real seconds later word small = elim (Bool-cases c.frozen) [
  | inl stopped ↦
      rw (stopped, back_and_forth c.frozen_at real word.frozen_at_word small)
        (refl, refl, refl, refl)
  | inr runs ↦ rw (runs, add64_assoc real c.offset seconds) (refl, refl, refl, refl)
]

-- Every operation keeps the fields in 64 bits.
pub operations-IsWord :
    (c : Clock) (n : ℕ)
    → IsWord c
    → IsWord (freeze c n) × IsWord (unfreeze c n) × IsWord (advance c n)
unfolding advance freeze unfreeze add64 sub64
operations-IsWord c n word = elim (Bool-cases c.frozen) [
  | inl stopped ↦ rw stopped (
    record { offset_word = word.offset_word; frozen_at_word = word.frozen_at_word },
    record { offset_word = omega arith; frozen_at_word = word.frozen_at_word },
    record { offset_word = word.offset_word; frozen_at_word = omega arith },
  )
  | inr runs ↦ rw runs (
    record { offset_word = word.offset_word; frozen_at_word = omega arith },
    record { offset_word = word.offset_word; frozen_at_word = word.frozen_at_word },
    record { offset_word = omega arith; frozen_at_word = word.frozen_at_word },
  )
]
