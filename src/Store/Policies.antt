-- ===== src/Store/Policies.antt =====
-- internal/store/policies.go: cluster policies, in memory and in the file that they are saved to.
--
-- An operation that saves takes the
-- outcome of the write.
pub mod Rules
pub mod Enforced
use databricks_emulator.Base.{
  ℕ, ◌≡◌, Bool, true, false, ◌&&◌, ◌||◌, not, Option, none, some, List, [], ◌∷◌, String,
  if◌then◌else◌, any, is_some,
}
use databricks_emulator.Base.Eq.{◌==◌, string_comparable}
use databricks_emulator.Base.Int64.{incr64}
use databricks_emulator.Base.Result.{Result, ok, err}
use databricks_emulator.Text.{trim_space, show_int64, numbered}
use databricks_emulator.Dict
use databricks_emulator.Dict.{Dict}
use databricks_emulator.Dict.Rows.{put_rows}
use databricks_emulator.Store.Policies.Rules.{
  PolicyError, Json, name_required, not_found, not_saved, validate_definition,
}

pub record Policy : Type 0 where
  pub id : String
  pub name : String
  pub definition : String
  pub description : String
  pub family_id : String
  pub creator : String
  pub created_at : ℕ

pub record PersistedPolicies : Type 0 where
  pub next_id : ℕ
  pub policies : List Policy

pub record Policies : Type 0 where
  pub next_id : ℕ
  pub all : Dict String Policy
  -- state.json, where it exists.
  pub file : Option PersistedPolicies

unfoldable pub dump_policies : Policies → PersistedPolicies
dump_policies p = record { next_id = p.next_id; policies = Dict.values p.all }

-- Saves, and answers with the value or with the error of the write.
unfoldable pub persist_policies {ℓ} :
    {A : Type ℓ} → Policies → Bool → A → Policies × Result PolicyError A
unfolding dump_policies
persist_policies p wrote answer =
    if wrote then (record p { file = some (dump_policies p) }, ok answer) else (p, err not_saved)

opened_policies : Option PersistedPolicies → Policies
opened_policies none = record { next_id = 0; all = Dict.empty; file = none }
opened_policies (some d) = record {
  next_id = d.next_id;
  all = put_rows (λ row. row.id) Dict.empty d.policies;
  file = some d;
}

unfoldable pub open_policies : Policies → Policies
unfolding opened_policies
open_policies p = opened_policies p.file

unfoldable pub get_policy : Policies → String → Option Policy
get_policy p id = Dict.get p.all id

unfoldable pub delete_policy : Policies → String → Bool → Policies × Bool
unfolding persist_policies
delete_policy p id wrote =
    if is_some (Dict.get p.all id)
    then ((persist_policies (record p { all = Dict.remove p.all id }) wrote true).0, true)
    else (p, false)

-- An empty argument leaves what is there.
abbrev pub chosen : String → String → String
chosen given old = if given == "" then old else given

abbrev pub edited : Policy → String → String → String → Policy
edited pol name definition description = record pol {
  name = chosen name pol.name;
  definition = chosen definition pol.definition;
  description = chosen description pol.description;
}

module _ (js : Json) where
  policy_added :
      Policies
      → Policy
      → Bool
      → Result {0, 0} PolicyError Unit
      → Policies × Result PolicyError Policy
  policy_added p pol wrote (err e) = (p, err e)
  policy_added p pol wrote (ok _) =
      let id = numbered "policy-" (incr64 p.next_id) in
      let pol' : Policy = record pol { id = id } in
      persist_policies (record p { next_id = incr64 p.next_id; all = Dict.put p.all id pol' }) wrote
        pol'

  -- The id of the policy is the one that the store gives.
  unfoldable pub create_policy : Policies → Policy → Bool → Policies × Result PolicyError Policy
  unfolding policy_added
  create_policy p pol wrote =
      if trim_space pol.name == ""
      then (p, err name_required)
      else policy_added p pol wrote (validate_definition js pol.definition)

  policy_edited :
      Policies
      → String
      → String
      → String
      → String
      → Bool
      → Option Policy
      → Policies × Result PolicyError Policy
  policy_edited p id name definition description wrote none = (p, err not_found)
  policy_edited p id name definition description wrote (some pol) =
      let pol' = edited pol name definition description in
      persist_policies (record p { all = Dict.put p.all id pol' }) wrote pol'

  edit_checked :
      Policies
      → String
      → String
      → String
      → String
      → Bool
      → Result {0, 0} PolicyError Unit
      → Policies × Result PolicyError Policy
  unfolding policy_edited
  edit_checked p id name definition description wrote (err e) = (p, err e)
  edit_checked p id name definition description wrote (ok _) =
      policy_edited p id name definition description wrote (Dict.get p.all id)

  unfoldable pub edit_policy :
      Policies → String → String → String → String → Bool → Policies × Result PolicyError Policy
  unfolding edit_checked
  edit_policy p id name definition description wrote =
      edit_checked p id name definition description wrote
        (if definition == "" then ok tt else validate_definition js definition)
