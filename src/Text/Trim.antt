-- ===== src/Text/Trim.antt =====
-- Trimming a text a second time leaves it.
use Prim.Native.Char.{Char, code}
use databricks_emulator.Base.{◌≡◌, refl, false, String, Bool-cases, inl, inr}
use databricks_emulator.Text.{is_space, trim_left, trim_right, trim_snoc, trim_space}

trim_left-trim_snoc :
    (c : Char) (s : String) → is_space (code c) ≡ false → trim_left (trim_snoc c s) ≡ trim_snoc c s
unfolding trim_left trim_snoc
trim_left-trim_snoc c String.[] solid = rw solid (rw (trim_left, solid) refl)
trim_left-trim_snoc c (String.◌∷◌ d s) solid = rw solid refl

trim_left-trim_right :
    (s : String) → trim_left (trim_right (trim_left s)) ≡ trim_right (trim_left s)
unfolding trim_left trim_right
trim_left-trim_right String.[] = refl
trim_left-trim_right (String.◌∷◌ c s) = elim (Bool-cases (is_space (code c))) [
  | inl space ↦ rw space (trim_left-trim_right s)
  | inr solid ↦ rw solid (trim_left-trim_snoc c (trim_right s) solid)
]

trim_right-trim_snoc :
    (c : Char) (s : String) → trim_right s ≡ s → trim_right (trim_snoc c s) ≡ trim_snoc c s
unfolding trim_right trim_snoc
trim_right-trim_snoc c String.[] done = elim (Bool-cases (is_space (code c))) [
  | inl space ↦ rw space refl
  | inr solid ↦ rw solid (rw (trim_right, trim_snoc, solid) refl)
]
trim_right-trim_snoc c (String.◌∷◌ d s) done = rw (trim_right, done) refl

trim_right-idempotent : (s : String) → trim_right (trim_right s) ≡ trim_right s
unfolding trim_right
trim_right-idempotent String.[] = refl
trim_right-idempotent (String.◌∷◌ c s) =
    trim_right-trim_snoc c (trim_right s) (trim_right-idempotent s)

pub trim_space-trim_space : (s : String) → trim_space (trim_space s) ≡ trim_space s
unfolding trim_space
trim_space-trim_space s = rw (trim_left-trim_right s, trim_right-idempotent (trim_left s)) refl
