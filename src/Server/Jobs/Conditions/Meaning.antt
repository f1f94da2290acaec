-- ===== src/Server/Jobs/Conditions/Meaning.antt =====
-- internal/server/jobs.go: what `evalCondition` decides, operator by operator.
use mathlib.Core.Bool.{false≢true}
use databricks_emulator.Base.{
  ◌≡◌, ◌≢◌, ◌↔◌, refl, sym, ◌∙◌, inl, inr, Bool, true, false, Option, none, some, String, arith,
  Bool-cases, if◌then◌else◌,
}
use databricks_emulator.Base.Eq.{◌==◌, string_comparable}
use databricks_emulator.Text.{trim_space}
use databricks_emulator.Store.Jobs.{Condition}
use databricks_emulator.Server.Jobs.Conditions.{
  Floats, truth, same, compare_floats, compare_parsed, eval_condition, valid_condition_op,
}

-- The operators of the Jobs API, and any other string.
pub data Operator : Type 0 where
  equal not_equal greater greater_or_equal less less_or_equal unknown : Operator

abbrev pub operator_of : String → Operator
operator_of op =
    if op == "EQUAL_TO"
    then equal
    else if op == "NOT_EQUAL"
    then not_equal
    else if op == "GREATER_THAN"
    then greater
    else if op == "GREATER_THAN_OR_EQUAL"
    then greater_or_equal
    else if op == "LESS_THAN"
    then less
    else if op == "LESS_THAN_OR_EQUAL"
    then less_or_equal
    else unknown

truth_iff : (b : Bool) → (truth b ≡ "true") ↔ (b ≡ true)
truth_iff true = (λ _. refl, λ _. refl)
truth_iff false = (
  λ h. absurd (false≢true ((string_comparable.equal_iff "false" "true").1 h)),
  λ h. absurd (false≢true h),
)

module _ (fl : Floats) where
  -- Both operands, trimmed, are numbers, and the comparison holds of them.
  abbrev pub Numeric : (fl.F → fl.F → Bool) → Condition → Type 0
  Numeric compare c =
      (left : fl.F) × (right : fl.F) × (fl.parse_float (trim_space c.left) ≡ some left)
      × (fl.parse_float (trim_space c.right) ≡ some right)
      × (compare left right ≡ true)

  abbrev pub Holds : Operator → Condition → Type 0
  Holds equal c = c.left ≡ c.right
  Holds not_equal c = c.left ≢ c.right
  Holds greater c = Numeric (λ a b. fl.lt b a) c
  Holds greater_or_equal c = Numeric (λ a b. fl.le b a) c
  Holds less c = Numeric fl.lt c
  Holds less_or_equal c = Numeric fl.le c
  Holds unknown c = ⊥

  Parsed : (fl.F → fl.F → Bool) → Option fl.F → Option fl.F → Type 0
  Parsed compare l r =
      (left : fl.F) × (right : fl.F) × (l ≡ some left)
      × (r ≡ some right)
      × (compare left right ≡ true)

  Parsed-iff :
      (op : String) (compare : fl.F → fl.F → Bool)
      → ((a b : fl.F) → compare_floats fl op a b ≡ compare a b)
      → (l r : Option fl.F) → (compare_parsed fl op l r ≡ true) ↔ Parsed compare l r
  unfolding compare_parsed Parsed
  Parsed-iff op compare e none r = (λ h. absurd (false≢true h), λ (a, b, p, q, h). absurd (cc p))
  Parsed-iff op compare e (some a) none =
      (λ h. absurd (false≢true h), λ (x, b, p, q, h). absurd (cc q))
  Parsed-iff op compare e (some a) (some b) =
      (λ h. (a, b, refl, refl, sym (e a b) ∙ h), λ (x, y, p, q, h). e a b ∙ cc (p, q, h))

  Numeric-iff :
      (op : String) (compare : fl.F → fl.F → Bool) (c : Condition)
      → ((a b : fl.F) → compare_floats fl op a b ≡ compare a b)
      → (truth (
            compare_parsed fl op
              (fl.parse_float (trim_space c.left))
              (fl.parse_float (trim_space c.right)))
          ≡ "true")
        ↔ Numeric compare c
  unfolding Parsed
  Numeric-iff op compare c e =
      let both =
        Parsed-iff op compare e (fl.parse_float (trim_space c.left))
          (fl.parse_float (trim_space c.right)) in
      let t = truth_iff (
        compare_parsed fl op (fl.parse_float (trim_space c.left))
          (fl.parse_float (trim_space c.right))) in
      (λ h. both.0 (t.0 h), λ h. t.1 (both.1 h))

  equality_iff :
      (wanted : Bool) (c : Condition)
      → (truth (same wanted (c.left == c.right)) ≡ "true") ↔ ((c.left == c.right) ≡ wanted)
  unfolding same
  equality_iff true c = truth_iff (c.left == c.right)
  equality_iff false c = elim (Bool-cases (c.left == c.right)) [
    | inl e ↦
        rw e (λ h. absurd (false≢true ((truth_iff false).0 h)), λ h. absurd (false≢true (sym h)))
    | inr e ↦ rw e (λ _. refl, λ _. refl)
  ]

  -- A condition is "true" exactly if its operator's relation holds of the operands: equality of the
  -- texts for EQUAL_TO and NOT_EQUAL, an order of the numbers for the other four, where an operand
  -- that is no number makes it false, as does an operator that is unknown.
  pub eval_condition-iff-Holds :
      (c : Condition) → (eval_condition fl c ≡ "true") ↔ Holds (operator_of c.op) c
  unfolding eval_condition compare_floats
  eval_condition-iff-Holds c = elim (Bool-cases (c.op == "EQUAL_TO")) [
    | inl h ↦ rw h (
      λ t. (string_comparable.equal_iff c.left c.right).0 ((equality_iff true c).0 t),
      λ e. (equality_iff true c).1 ((string_comparable.equal_iff c.left c.right).1 e),
    )
    | inr h₁ ↦ elim (Bool-cases (c.op == "NOT_EQUAL")) [
      | inl h ↦
          rw (h₁, h)
            (
              λ t e. false≢true (
                  sym ((equality_iff false c).0 t)
                  ∙ (string_comparable.equal_iff c.left c.right).1 e),
              λ ne. (equality_iff false c).1 (differ c ne),
            )
      | inr h₂ ↦ elim (Bool-cases (c.op == "GREATER_THAN")) [
        | inl h ↦ rw (h₁, h₂, h) (Numeric-iff c.op (λ a b. fl.lt b a) c (λ a b. rw h refl))
        | inr h₃ ↦ elim (Bool-cases (c.op == "GREATER_THAN_OR_EQUAL")) [
          | inl h ↦
              rw (h₁, h₂, h₃, h) (Numeric-iff c.op (λ a b. fl.le b a) c (λ a b. rw (h₃, h) refl))
          | inr h₄ ↦ elim (Bool-cases (c.op == "LESS_THAN")) [
            | inl h ↦ rw (h₁, h₂, h₃, h₄, h) (Numeric-iff c.op fl.lt c (λ a b. rw (h₃, h₄, h) refl))
            | inr h₅ ↦ elim (Bool-cases (c.op == "LESS_THAN_OR_EQUAL")) [
              | inl h ↦
                  rw (h₁, h₂, h₃, h₄, h₅, h)
                    (Numeric-iff c.op fl.le c (λ a b. rw (h₃, h₄, h₅, h) refl))
              | inr h₆ ↦
                  let n = Numeric-iff c.op (λ a b. false) c (λ a b. rw (h₃, h₄, h₅, h₆) refl) in
                  rw (h₁, h₂, h₃, h₄, h₅, h₆) (λ t. false≢true ((n.0 t).4), λ never. absurd never)
            ]
          ]
        ]
      ]
    ]
  ]
    where
      differ : (c : Condition) → c.left ≢ c.right → (c.left == c.right) ≡ false
      differ c ne = elim (Bool-cases (c.left == c.right)) [
        | inl hit ↦ absurd (ne ((string_comparable.equal_iff c.left c.right).0 hit))
        | inr miss ↦ miss
      ]

-- Job creation accepts exactly the operators that have a relation.
pub valid_condition_op_iff :
    (op : String) → (valid_condition_op op ≡ true) ↔ (operator_of op ≢ unknown)
unfolding valid_condition_op
valid_condition_op_iff op = ground arith
