-- ===== src/Store/Policies/Rules.antt =====
-- internal/store/policies.go: the rules of a policy, and what they say of a cluster.
--
-- JSON values, float64 and their texts are the parameter `Json`.
pub mod Meaning
use databricks_emulator.Base.{
  ℕ, Bool, true, false, ◌&&◌, not, Option, none, some, List, [], ◌∷◌, String, if◌then◌else◌, any,
}
use databricks_emulator.Base.Eq.{◌==◌, string_comparable, nat_comparable}
use databricks_emulator.Base.Result.{Result, ok, err}
use databricks_emulator.Text.{trim_space, show_int64}
use databricks_emulator.Dict
use databricks_emulator.Dict.{Dict}
use databricks_emulator.Dict.Entries.{all_entries, found_entries}

pub record ClusterAttrs : Type 0 where
  pub spark_version : String
  pub node_type_id : String
  pub num_workers : ℕ
  pub autoscale : Bool
  pub libraries : Bool

abbrev pub known_attrs : List String
known_attrs = "spark_version" ∷ "node_type_id" ∷ "num_workers" ∷ "autoscale" ∷ "libraries" ∷ []

abbrev pub policy_types : List String
policy_types = "fixed" ∷ "forbidden" ∷ "unlimited" ∷ "range" ∷ "allowlist" ∷ []

pub data PolicyError : Type 0 where
  name_required : PolicyError
  definition_required : PolicyError
  not_decoded : PolicyError
  not_enforced : PolicyError
  not_found : PolicyError
  not_saved : PolicyError

-- `V` is any, as the decoder fills it, and `F` is float64.
pub record Json : Type 1 where
  pub V : Type 0
  pub F : Type 0
  -- json.Unmarshal into a map of maps, with `none` for an error; a null is an empty map.
  pub decode : String → Option (Dict String (Dict String V))
  -- v.(string), v.([]any) and asFloat of a decoded value.
  pub as_text : V → Option String
  pub as_list : V → Option (List V)
  pub as_number : V → Option F
  -- fmt.Sprint(v)
  pub show : V → String
  pub of_int : ℕ → F
  pub parse_float : String → Option F
  pub lt : F → F → Bool

-- What a cluster has under the name of an attribute.
pub data Attr : Type 0 where
  text : String → Attr
  number : ℕ → Attr
  on : Attr
  absent : Attr

abbrev pub flag : Bool → Attr
flag true = on
flag false = absent

unfoldable pub attr_value : ClusterAttrs → String → Attr
attr_value a name =
    if name == "spark_version"
    then text a.spark_version
    else if name == "node_type_id"
    then text a.node_type_id
    else if name == "num_workers"
    then number a.num_workers
    else if name == "autoscale"
    then flag a.autoscale
    else if name == "libraries"
    then flag a.libraries
    else absent

-- fmt.Sprint(got)
unfoldable pub show_attr : Attr → String
show_attr (text s) = s
show_attr (number n) = show_int64 n
show_attr on = "true"
show_attr absent = "<nil>"

unfoldable pub present : Attr → Bool
present absent = false
present on = true
present (text s) = not (s == "") && (not (s == "0") && not (s == "<nil>"))
present (number n) = not (show_int64 n == "0")

-- The message of a violation, without the name of the attribute.
pub data Violation : Type 0 where
  is_forbidden : Violation
  must_be : String → Violation
  must_be_number : Violation
  must_be_at_least : Violation
  must_be_at_most : Violation
  not_listed : Violation

module _ (js : Json) where
  open js use {V, F, decode, as_text, as_list, as_number, show, of_int, parse_float, lt}

  -- typ, _ := spec["type"].(string)
  type_text : Option String → String
  type_text none = ""
  type_text (some t) = t

  type_of : Option V → String
  unfolding type_text
  type_of none = ""
  type_of (some v) = type_text (as_text v)

  unfoldable pub spec_type : Dict String V → String
  unfolding type_of
  spec_type spec = type_of (Dict.get spec "type")

  -- fmt.Sprint(spec[key])
  show_option : Option V → String
  show_option none = "<nil>"
  show_option (some v) = show v

  unfoldable pub show_key : Dict String V → String → String
  unfolding show_option
  show_key spec key = show_option (Dict.get spec key)

  decoded : Option (Dict String (Dict String V)) → Result PolicyError (Dict String (Dict String V))
  decoded none = err not_decoded
  decoded (some attrs) = ok attrs

  unfoldable pub parse_definition : String → Result PolicyError (Dict String (Dict String V))
  unfolding decoded
  parse_definition definition =
      if trim_space definition == ""
      then err definition_required
      else decoded (decode (trim_space definition))

  -- Nothing about the attribute keeps the policy from being enforced.
  abbrev pub is_enforced : String → Dict String V → Bool
  is_enforced name spec =
      any (λ k. k == name) known_attrs && any (λ t. t == spec_type spec) policy_types

  validated : Result PolicyError (Dict String (Dict String V)) → Result {0, 0} PolicyError Unit
  validated (err e) = err e
  validated (ok attrs) =
      if Dict.size attrs == 0
      then err definition_required
      else if all_entries is_enforced attrs
      then ok tt
      else err not_enforced

  unfoldable pub validate_definition : String → Result {0, 0} PolicyError Unit
  unfolding validated
  validate_definition definition = validated (parse_definition definition)

  -- asFloat(got)
  pub attr_number : Attr → Option F
  attr_number (text s) = parse_float s
  attr_number (number n) = some (of_int n)
  attr_number on = none
  attr_number absent = none

  pub key_number : Option V → Option F
  key_number none = none
  key_number (some v) = as_number v

  -- The two bounds; the second message replaces the first.
  below : F → Option F → Option Violation → Option Violation
  below n none before = before
  below n (some least) before = if lt n least then some must_be_at_least else before

  above : F → Option F → Option Violation → Option Violation
  above n none before = before
  above n (some most) before = if lt most n then some must_be_at_most else before

  ranged : Dict String V → Option F → Option Violation
  unfolding below above key_number
  ranged spec none = some must_be_number
  ranged spec (some n) =
      above n (key_number (Dict.get spec "maxValue"))
        (below n (key_number (Dict.get spec "minValue")) none)

  listed : Option (List V) → List V
  listed none = []
  listed (some vs) = vs

  -- switch values := spec["values"].(type) { case []any: … }
  pub allowed : Option V → List V
  unfolding listed
  allowed none = []
  allowed (some v) = listed (as_list v)

  -- What the policy says of one attribute of the cluster.
  unfoldable pub violation : Dict String V → Attr → Option Violation
  unfolding ranged attr_number allowed any
  violation spec got =
      if spec_type spec == "forbidden"
      then (if present got then some is_forbidden else none)
      else if spec_type spec == "fixed"
      then (if show_attr got == show_key spec "value"
          then none
          else some (must_be (show_key spec "value")))
      else if spec_type spec == "range"
      then ranged spec (attr_number got)
      else if spec_type spec == "allowlist"
      then (if any (λ v. show v == show_attr got) (allowed (Dict.get spec "values"))
          then none
          else some not_listed)
      else none

  evaluated :
      ClusterAttrs
      → Result PolicyError (Dict String (Dict String V))
      → Result PolicyError (Dict String Violation)
  evaluated a (err e) = err e
  evaluated a (ok attrs) =
      ok (found_entries (λ name spec. violation spec (attr_value a name)) attrs)

  unfoldable pub evaluate_policy :
      String → ClusterAttrs → Result PolicyError (Dict String Violation)
  unfolding evaluated
  evaluate_policy definition a = evaluated a (parse_definition definition)

  -- The value that a fixed rule gives to an attribute that is empty.
  fixed_default : Option (Dict String V) → String → String
  fixed_default none given = given
  fixed_default (some spec) given =
      if given == "" && show_key spec "type" == "fixed" then show_key spec "value" else given

  defaulted : ClusterAttrs → Result PolicyError (Dict String (Dict String V)) → ClusterAttrs
  unfolding fixed_default
  defaulted a (err e) = a
  defaulted a (ok attrs) = record a {
    spark_version = fixed_default (Dict.get attrs "spark_version") a.spark_version;
    node_type_id = fixed_default (Dict.get attrs "node_type_id") a.node_type_id;
  }

  unfoldable pub apply_fixed_defaults : String → ClusterAttrs → ClusterAttrs
  unfolding defaulted
  apply_fixed_defaults definition a = defaulted a (parse_definition definition)
