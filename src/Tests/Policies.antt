-- ===== src/Tests/Policies.antt =====
-- Policies with a stand-in for the decoder of JSON.
use databricks_emulator.Base.{
  ℕ, ◌≡◌, ◌↔◌, refl, ap, ltb, true, false, Option, none, some, String, if◌then◌else◌,
}
use databricks_emulator.Base.Eq.{◌==◌, string_comparable}
use databricks_emulator.Text.{trim_space}
use databricks_emulator.Dict
use databricks_emulator.Dict.{Dict}
use databricks_emulator.Dict.Entries.{found_entries}
use databricks_emulator.Store.Policies.Rules.{
  Json, ClusterAttrs, attr_value, spec_type, violation, parse_definition, evaluate_policy,
  apply_fixed_defaults,
}
use databricks_emulator.Store.Policies.Rules.Meaning.{
  Complies, evaluate_policy-iff-Complies, apply_fixed_defaults-violation,
}
use databricks_emulator.Store.Policies.{Policy, Policies}
use databricks_emulator.Store.Policies.Enforced.{
  policy_step, creates, IsEnforced, policy_step-IsEnforced,
}

abbrev shown : Option String → String
shown none = "false"
shown (some s) = s

abbrev fixed_rule : Dict String (Option String)
fixed_rule = Dict.put (Dict.put Dict.empty "type" (some "fixed")) "value" (some "v1")

abbrev fixed_version : Dict String (Dict String (Option String))
fixed_version = Dict.put Dict.empty "spark_version" fixed_rule

-- A value is a string or false.
abbrev strings : Json
strings = record {
  V = Option String;
  F = ℕ;
  decode = λ s. if s == "{version}" then some fixed_version else none;
  as_text = λ v. v;
  as_list = λ v. none;
  as_number = λ v. none;
  show = shown;
  of_int = λ n. n;
  parse_float = λ s. none;
  lt = ltb;
}

abbrev no_policies : Policies
no_policies = record { next_id = 0; all = Dict.empty; file = none }

abbrev version_policy : Policy
version_policy = record {
  id = "";
  name = "version";
  definition = "{version}";
  description = "";
  family_id = "";
  creator = "ana";
  created_at = 7;
}

abbrev a_cluster : String → ClusterAttrs
a_cluster version = record {
  spark_version = version;
  node_type_id = "";
  num_workers = 0;
  autoscale = false;
  libraries = false;
}

policy_step-IsEnforced_example :
    IsEnforced strings (policy_step strings no_policies (creates version_policy) true)
unfolding Dict.get Dict.empty
policy_step-IsEnforced_example =
    policy_step-IsEnforced strings no_policies (creates version_policy) true
      (λ id pol at. absurd (cc at))

evaluate_policy-iff-Complies_example :
    (Dict.get
        (found_entries
          (λ k spec. violation strings spec (attr_value (a_cluster "v2") k))
          fixed_version)
        "spark_version"
      ≡ none)
    ↔ ((spec : Dict String (Option String))
        → Dict.get fixed_version "spark_version" ≡ some spec
        → Complies strings spec (attr_value (a_cluster "v2") "spark_version"))
unfolding evaluate_policy parse_definition trim_space
evaluate_policy-iff-Complies_example =
    evaluate_policy-iff-Complies strings "{version}" (a_cluster "v2") fixed_version
      (found_entries (λ k spec. violation strings spec (attr_value (a_cluster "v2") k))
        fixed_version)
      "spark_version" refl refl

apply_fixed_defaults-violation_example :
    violation strings fixed_rule
      (attr_value (apply_fixed_defaults strings "{version}" (a_cluster "")) "spark_version")
    ≡ none
unfolding parse_definition trim_space Dict.get Dict.put Dict.empty spec_type
apply_fixed_defaults-violation_example =
    apply_fixed_defaults-violation strings "{version}" (a_cluster "") fixed_version fixed_rule
      (λ v s at. ap shown at) refl refl refl refl
