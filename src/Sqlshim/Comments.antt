-- ===== src/Sqlshim/Comments.antt =====
-- internal/sqlshim/shim.go: the loop that drops comments.
use Prim.Native.Char.{Char, code}
use Prim.Native.String.{count}
use Prim.Native.String.count as Count
use databricks_emulator.Base.{
  ℕ, zero, suc, ◌<◌, ◌≤◌, ◌≡◌, ◌⊎◌, refl, ap, ◌∙◌, String, arith, Bool-cases, inl, inr,
}
use databricks_emulator.Base.Eq.{◌==◌, string_comparable}
use databricks_emulator.Text.{trim_space, trim_left, trim_right, trim_snoc, is_space}
use databricks_emulator.Sqlshim.{Patterns, without_comments, strip_fuel, strip_leading_comments}

-- A text is left as it is, or becomes shorter.
abbrev pub Shortens : (String → String) → Type 0
Shortens f = (s : String) → (f s ≡ s) ⊎ (count (f s) < count s)

Shortens-after : (f g : String → String) → Shortens f → Shortens g → Shortens (λ s. g (f s))
Shortens-after f g hf hg s = elim (hf s) [
  | inl same ↦ elim (hg s) [ inl same' ↦ inl (ap g same ∙ same') | inr less ↦ inr (rw same less) ]
  | inr less ↦ elim (hg (f s)) [
    | inl same' ↦ inr (rw same' less)
    | inr less' ↦ inr (omega (arith, less, less'))
  ]
]

trim_left-Shortens : Shortens trim_left
unfolding trim_left
trim_left-Shortens String.[] = inl refl
trim_left-Shortens (String.◌∷◌ c s) = elim (Bool-cases (is_space (code c))) [
  | inr solid ↦ rw solid (inl refl)
  | inl space ↦ rw space (
      inr (elim (trim_left-Shortens s) [
        | inl same ↦ rw same (omega (arith, Count.cons c s))
        | inr less ↦ omega (arith, less, Count.cons c s)
      ]))
]

trim_snoc-Shortens :
    (c : Char) (s : String)
    → (trim_snoc c s ≡ String.◌∷◌ c s) ⊎ (count (trim_snoc c s) < suc (count s))
unfolding trim_snoc
trim_snoc-Shortens c String.[] = elim (Bool-cases (is_space (code c))) [
  | inl space ↦ rw space (inr (omega arith))
  | inr solid ↦ rw solid (inl refl)
]
trim_snoc-Shortens c (String.◌∷◌ d s) = inl refl

trim_snoc-le : (c : Char) (s : String) → count (trim_snoc c s) ≤ suc (count s)
trim_snoc-le c s = elim (trim_snoc-Shortens c s) [
  | inl same ↦ rw same (omega (arith, Count.cons c s))
  | inr less ↦ omega (arith, less)
]

trim_right-Shortens : Shortens trim_right
unfolding trim_right
trim_right-Shortens String.[] = inl refl
trim_right-Shortens (String.◌∷◌ c s) = elim (trim_right-Shortens s) [
  | inl same ↦ rw (same, Count.cons c s) (trim_snoc-Shortens c s)
  | inr less ↦ inr (omega (arith, trim_snoc-le c (trim_right s), less, Count.cons c s))
]

strip_fuel-fixed :
    (ps : Patterns) (fuel : ℕ) (s : String)
    → Shortens (without_comments ps)
    → count s < fuel
    → without_comments ps (strip_fuel ps fuel s) ≡ strip_fuel ps fuel s
unfolding strip_fuel
strip_fuel-fixed ps zero s shorter room = absurd (omega arith)
strip_fuel-fixed ps (suc fuel) s shorter room = elim (Bool-cases (without_comments ps s == s)) [
  | inl done ↦ rw done ((string_comparable.equal_iff (without_comments ps s) s).0 done)
  | inr more ↦ elim (shorter s) [
    | inl same ↦ absurd (ground (arith, string_comparable.equal_iff (without_comments ps s) s))
    | inr less ↦
        rw more
          (strip_fuel-fixed ps fuel (without_comments ps s) shorter (omega (arith, less, room)))
  ]
]

-- Where each replacement of a comment leaves a text as it is or makes it shorter, the loop ends
-- within its fuel, with a text that another round does not change.
pub strip_leading_comments_lem :
    (ps : Patterns) (sql : String)
    → Shortens ps.block_comments
    → Shortens ps.line_comments
    → without_comments ps (strip_leading_comments ps sql) ≡ strip_leading_comments ps sql
unfolding strip_leading_comments trim_space
strip_leading_comments_lem ps sql blocks lines =
    strip_fuel-fixed ps (suc (count sql)) sql
      (Shortens-after (λ s. ps.line_comments (ps.block_comments s)) trim_space
        (Shortens-after ps.block_comments ps.line_comments blocks lines)
        (Shortens-after trim_left trim_right trim_left-Shortens trim_right-Shortens))
      (omega arith)
