-- ===== src/Base/Count.antt =====
-- Counting the elements that pass a test: when the count is zero, positive, or the whole length.
use Prim.Native.Nat.{ℕ, suc, ◌≤◌}
use mathlib.Core.Path.{◌≡◌, refl}
use mathlib.Core.Logic.{inl, inr}
use mathlib.Core.Bool.{Bool, true, false}
use mathlib.Core.List.{List, [], ◌∷◌}
use native.Mathlib.Omega.{arith}
use databricks_emulator.Base.Tests.{if◌then◌else◌, Bool-cases}
use databricks_emulator.Base.Lists.{length, All, Any}

module _ {A : Type 0} (p : A → Bool) where
  abbrev pub count : List A → ℕ
  count [] = 0
  count (x ∷ xs) = let rest = count xs in if p x then suc rest else rest

  pub count-le-length : (xs : List A) → count xs ≤ length xs
  count-le-length [] = omega arith
  count-le-length (x ∷ xs) = ground (arith, count-le-length xs)

  pub All-of_count : (xs : List A) → count xs ≡ length xs → All (λ x. p x ≡ true) xs
  All-of_count [] h = tt
  All-of_count (x ∷ xs) h = elim (Bool-cases (p x)) [
    | inl hit ↦ (hit, All-of_count xs (ground arith))
    | inr miss ↦ absurd (ground (arith, count-le-length xs))
  ]

  pub count-of_All : (xs : List A) → All (λ x. p x ≡ true) xs → count xs ≡ length xs
  count-of_All [] h = refl
  count-of_All (x ∷ xs) h = ground (arith, count-of_All xs h.1)

  pub Any-of_count : (xs : List A) → 1 ≤ count xs → Any (λ x. p x ≡ true) xs
  Any-of_count [] h = absurd (omega arith)
  Any-of_count (x ∷ xs) h = elim (Bool-cases (p x)) [
    | inl hit ↦ inl hit
    | inr miss ↦ inr (Any-of_count xs (ground arith))
  ]

  pub count-of_Any : (xs : List A) → Any (λ x. p x ≡ true) xs → 1 ≤ count xs
  count-of_Any [] h = absurd h
  count-of_Any (x ∷ xs) (inl hit) = ground arith
  count-of_Any (x ∷ xs) (inr later) = ground (arith, count-of_Any xs later)

  pub None-of_count : (xs : List A) → count xs ≡ 0 → All (λ x. p x ≡ false) xs
  None-of_count [] h = tt
  None-of_count (x ∷ xs) h = (ground arith, None-of_count xs (ground arith))

  pub count-of_None : (xs : List A) → All (λ x. p x ≡ false) xs → count xs ≡ 0
  count-of_None [] h = refl
  count-of_None (x ∷ xs) h = ground (arith, count-of_None xs h.1)
