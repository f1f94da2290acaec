-- ===== src/Base/Eq.antt =====
-- Equality tests as an interface: Go's `==` on strings and integers.
use text.Mathlib.TextEquality.{eq_iff as string_equal_iff}
use text.Mathlib.Text.{◌==◌ as string_equal}
use databricks_emulator.Base.Tests.{nat_beq, nat_beq_iff}
use mathlib.Core.Path.{◌≡◌}
use mathlib.Core.Bool.{Bool, true}
use mathlib.Core.Logic.{◌↔◌}
use Prim.Native.String.{String}
use Prim.Native.Nat.{ℕ}

-- The types that Go calls comparable, with a test that decides their equality.
pub record Comparable {ℓ} (K : Type ℓ) : Type ℓ where
  pub equal : K → K → Bool
  pub equal_iff : (x y : K) → (equal x y ≡ true) ↔ (x ≡ y)

instance abbrev pub string_comparable : Comparable String
string_comparable = record { equal = string_equal; equal_iff = string_equal_iff }

instance abbrev pub nat_comparable : Comparable ℕ
nat_comparable = record { equal = nat_beq; equal_iff = nat_beq_iff }

module _ {ℓ} {K : Type ℓ} ⦃c : Comparable K⦄ where
  infix 50 ◌==◌
  abbrev pub ◌==◌ : K → K → Bool
  x == y = c.equal x y
