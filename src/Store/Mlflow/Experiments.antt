-- ===== src/Store/Mlflow/Experiments.antt =====
-- internal/store/mlflow.go: experiments.
pub mod Names
use databricks_emulator.Base.{
  ℕ, Bool, true, false, ◌&&◌, not, Option, none, some, List, String, if◌then◌else◌, ◌<>◌,
}
use databricks_emulator.Base.Eq.{◌==◌, string_comparable}
use databricks_emulator.Base.Int64.{incr64}
use databricks_emulator.Base.Result.{Result, ok, err}
use databricks_emulator.Text.{trim_space, numbered}
use databricks_emulator.Dict
use databricks_emulator.Store.Mlflow.{
  Mlflow, MlTag, MlError, Experiment, ml_exists, ml_not_found, ml_invalid, ml_active, ml_deleted,
  ms, persist,
}

-- An active experiment of this name.
abbrev pub active_named : String → Experiment → Bool
active_named name e = e.name == name && e.lifecycle == ml_active

-- The same, other than the one with the id.
abbrev pub other_named : String → String → Experiment → Bool
other_named id name e = not (e.id == id) && (e.name == name && e.lifecycle == ml_active)

abbrev pub new_experiment : ℕ → String → String → List MlTag → ℕ → Experiment
new_experiment n name artifact tags now = record {
  id = numbered "" n;
  name = name;
  artifact_location =
      if artifact == "" then "dbfs:/databricks/mlflow-tracking/" <> numbered "" n else artifact;
  lifecycle = ml_active;
  creation_time = ms now;
  last_update_time = ms now;
  tags = tags;
}

abbrev pub renamed_experiment : Experiment → String → ℕ → Experiment
renamed_experiment e name now = record e { name = name; last_update_time = ms now }

abbrev pub in_lifecycle : Experiment → String → ℕ → Experiment
in_lifecycle e lifecycle now = record e { lifecycle = lifecycle; last_update_time = ms now }

experiment_found : String → Option Experiment → Result MlError Experiment
experiment_found id none = err (ml_not_found id)
experiment_found id (some e) = ok e

module _ {F : Type 0} where
  -- m.experiments[id] = e, saved.
  abbrev pub store_experiment {ℓ} :
      {A : Type ℓ} → Mlflow F → String → Experiment → Bool → A → Mlflow F × Result MlError A
  store_experiment m id e wrote answer =
      persist (record m { experiments = Dict.put m.experiments id e }) wrote answer

  unfoldable pub create_experiment :
      Mlflow F → String → String → List MlTag → ℕ → Bool → Mlflow F × Result MlError Experiment
  create_experiment m name artifact tags now wrote =
      let name' = trim_space name in
      let id = incr64 m.next_exp in
      let e = new_experiment id name' artifact tags now in
      if name' == ""
      then (m, err (ml_invalid "name is required"))
      else if Dict.any_value (active_named name') m.experiments
      then (m, err (ml_exists name'))
      else store_experiment (record m { next_exp = id }) (numbered "" id) e wrote e

  unfoldable pub get_experiment : Mlflow F → String → Result MlError Experiment
  unfolding experiment_found
  get_experiment m id = experiment_found id (Dict.get m.experiments id)

  experiment_renamed :
      Mlflow F
      → String
      → String
      → ℕ
      → Bool
      → Option Experiment
      → Mlflow F × Result MlError Experiment
  experiment_renamed m id name now wrote none = (m, err (ml_not_found id))
  experiment_renamed m id name now wrote (some e) =
      let e' = renamed_experiment e name now in
      if Dict.any_value (other_named id name) m.experiments
      then (m, err (ml_exists name))
      else store_experiment m id e' wrote e'

  unfoldable pub update_experiment :
      Mlflow F → String → String → ℕ → Bool → Mlflow F × Result MlError Experiment
  unfolding experiment_renamed
  update_experiment m id new_name now wrote =
      let name = trim_space new_name in
      if name == ""
      then (m, err (ml_invalid "new_name is required"))
      else experiment_renamed m id name now wrote (Dict.get m.experiments id)

  experiment_deleted :
      Mlflow F → String → ℕ → Bool → Option Experiment → Mlflow F × Result {0, 0} MlError Unit
  experiment_deleted m id now wrote none = (m, err (ml_not_found id))
  experiment_deleted m id now wrote (some e) =
      store_experiment m id (in_lifecycle e ml_deleted now) wrote tt

  unfoldable pub delete_experiment :
      Mlflow F → String → ℕ → Bool → Mlflow F × Result {0, 0} MlError Unit
  unfolding experiment_deleted
  delete_experiment m id now wrote = experiment_deleted m id now wrote (Dict.get m.experiments id)

  experiment_restored :
      Mlflow F → String → ℕ → Bool → Option Experiment → Mlflow F × Result {0, 0} MlError Unit
  experiment_restored m id now wrote none = (m, err (ml_not_found id))
  experiment_restored m id now wrote (some e) =
      if Dict.any_value (other_named id e.name) m.experiments
      then (m, err (ml_exists e.name))
      else store_experiment m id (in_lifecycle e ml_active now) wrote tt

  unfoldable pub restore_experiment :
      Mlflow F → String → ℕ → Bool → Mlflow F × Result {0, 0} MlError Unit
  unfolding experiment_restored
  restore_experiment m id now wrote = experiment_restored m id now wrote (Dict.get m.experiments id)
