-- ===== src/Server/Jobs/Conditions.antt =====
-- internal/server/jobs.go: `validConditionOp` and `evalCondition`.
--
-- Floating point is not modelled: the type of float64, `strconv.ParseFloat` and the comparisons
-- `<` and `<=` are the parameter `Floats`.
pub mod Meaning
use databricks_emulator.Base.{
  Bool, true, false, Option, none, some, List, [], ◌∷◌, String, any, if◌then◌else◌, ◌||◌,
}
use databricks_emulator.Base.Eq.{◌==◌, string_comparable}
use databricks_emulator.Text.{trim_space}
use databricks_emulator.Store.Jobs.{Condition}

pub record Floats : Type 1 where
  pub F : Type 0
  -- strconv.ParseFloat(s, 64), with `none` for an error.
  pub parse_float : String → Option F
  pub lt : F → F → Bool
  pub le : F → F → Bool

abbrev pub condition_ops : List String
condition_ops =
    "EQUAL_TO" ∷ "NOT_EQUAL" ∷ "GREATER_THAN" ∷ "GREATER_THAN_OR_EQUAL" ∷ "LESS_THAN"
    ∷ "LESS_THAN_OR_EQUAL" ∷ []

unfoldable pub valid_condition_op : String → Bool
unfolding any
valid_condition_op op = any (λ o. op == o) condition_ops

abbrev pub truth : Bool → String
truth true = "true"
truth false = "false"

same : Bool → Bool → Bool
same true b = b
same false true = false
same false false = true

module _ (fl : Floats) where
  open fl use {F, parse_float, lt, le}

  -- The switch on the operator, for two operands that are numbers.
  compare_floats : String → F → F → Bool
  compare_floats op left right =
      if op == "GREATER_THAN"
      then lt right left
      else if op == "GREATER_THAN_OR_EQUAL"
      then le right left
      else if op == "LESS_THAN"
      then lt left right
      else if op == "LESS_THAN_OR_EQUAL"
      then le left right
      else false

  compare_parsed : String → Option F → Option F → Bool
  unfolding compare_floats
  compare_parsed op (some left) (some right) = compare_floats op left right
  compare_parsed op none right = false
  compare_parsed op (some left) none = false

  unfoldable pub eval_condition : Condition → String
  unfolding compare_parsed same
  eval_condition c =
      if c.op == "EQUAL_TO" || c.op == "NOT_EQUAL"
      then truth (same (c.op == "EQUAL_TO") (c.left == c.right))
      else truth
          (compare_parsed c.op (parse_float (trim_space c.left)) (parse_float (trim_space c.right)))
