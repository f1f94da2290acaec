-- ===== src/Store/Mlflow/Runs.antt =====
-- internal/store/mlflow.go: tracking runs, their metrics, parameters and tags.
--
-- A write through the pointer that runLocked returns is an update of the entry: what an operation
-- has written before it refuses stays in memory, and is not saved.
pub mod Changes
pub mod Step
pub mod Params
pub mod Batch
use databricks_emulator.Base.{
  ℕ, ◌^◌, Bool, true, false, ◌&&◌, ◌||◌, not, Option, none, some, List, [], ◌∷◌, ◌++◌, String, ◌<>◌,
  if◌then◌else◌, keep, ltb, map,
}
use databricks_emulator.Base.Eq.{◌==◌, string_comparable, nat_comparable}
use databricks_emulator.Base.Result.{Result, ok, err}
use databricks_emulator.Text.{trim_space, trim_right_of}
use databricks_emulator.Dict
use databricks_emulator.Dict.{Dict}
unfoldable pub use Changes.*
use databricks_emulator.Store.Mlflow.{
  Mlflow, MlRun, MlTag, MlMetric, MlParam, MlError, no_random, Experiment, ml_exists, ml_not_found,
  ml_invalid, ml_active, ml_deleted, ms, persist,
}

module _ {F : Type 0} where
  abbrev pub new_run : String → String → Experiment → String → String → ℕ → List MlTag → MlRun F
  new_run id experiment_id e name user start tags = record {
    id = id;
    experiment_id = experiment_id;
    name = name;
    user_id = user;
    status = "RUNNING";
    lifecycle = ml_active;
    artifact_uri = trim_right_of 47 e.artifact_location <> "/" <> id <> "/artifacts";
    start_time = start;
    end_time = 0;
    metrics = [];
    params = Dict.empty;
    tags =
        if name == ""
        then tag_map Dict.empty tags
        else Dict.put (tag_map Dict.empty tags) run_name_tag name;
  }

  -- The arguments of CreateRun but for the times.
  run_created :
      Mlflow F
      → String
      → String
      → String
      → ℕ
      → List MlTag
      → ℕ
      → Option String
      → Bool
      → Option Experiment
      → Mlflow F × Result MlError (MlRun F)
  run_created m experiment_id name user start tags now id wrote none =
      (m, err (ml_not_found experiment_id))
  run_created m experiment_id name user start tags now none wrote (some e) =
      if e.lifecycle == ml_active then (m, err no_random) else (m, err (ml_invalid experiment_id))
  run_created m experiment_id name user start tags now (some id) wrote (some e) =
      let run =
        new_run id experiment_id e (name_from name tags) user (if start == 0 then ms now else start)
          tags in
      let touched : Experiment = record e { last_update_time = ms now } in
      if e.lifecycle == ml_active
      then persist
          (record m {
            runs = Dict.put m.runs id run;
            experiments = Dict.put m.experiments experiment_id touched;
          })
          wrote run
      else (m, err (ml_invalid experiment_id))

  -- `id` is the outcome of newRunID, whose random bytes may fail.
  unfoldable pub create_ml_run :
      Mlflow F
      → String
      → String
      → String
      → ℕ
      → List MlTag
      → ℕ
      → Option String
      → Bool
      → Mlflow F × Result MlError (MlRun F)
  unfolding run_created
  create_ml_run m experiment_id name user start tags now id wrote =
      if experiment_id == ""
      then (m, err (ml_invalid "experiment_id is required"))
      else run_created m experiment_id name user start tags now id wrote
          (Dict.get m.experiments experiment_id)

  found_run : String → Option (MlRun F) → Result MlError (MlRun F)
  found_run id none = err (ml_not_found id)
  found_run id (some r) = ok r

  unfoldable pub run_locked : Mlflow F → String → Result MlError (MlRun F)
  unfolding found_run
  run_locked m id =
      if id == "" then err (ml_invalid "run_id is required") else found_run id (Dict.get m.runs id)

  saved {ℓ} :
      {A : Type ℓ}
      → Mlflow F
      → Bool
      → (MlRun F → A)
      → MlRun F × Option MlError
      → Mlflow F × Result MlError A
  saved m wrote answer (r, none) = persist m wrote (answer r)
  saved m wrote answer (r, some e) = (m, err e)

  changed {ℓ} :
      {A : Type ℓ}
      → Mlflow F
      → String
      → Bool
      → (MlRun F → A)
      → Change F
      → Result MlError (MlRun F)
      → Mlflow F × Result MlError A
  unfolding saved
  changed m id wrote answer f (err e) = (m, err e)
  changed m id wrote answer f (ok r) =
      saved (record m { runs = Dict.put m.runs id (f r).0 }) wrote answer (f r)

  -- Locates the run, changes it, and saves unless the change refuses.
  unfoldable pub change_run {ℓ} :
      {A : Type ℓ}
      → Mlflow F
      → String
      → Bool
      → (MlRun F → A)
      → Change F
      → Mlflow F × Result MlError A
  unfolding changed
  change_run m id wrote answer f = changed m id wrote answer f (run_locked m id)

  abbrev pub done : MlRun F → Unit {0}
  done r = tt

  unfoldable pub get_ml_run : Mlflow F → String → Result MlError (MlRun F)
  get_ml_run m id = run_locked m id

  unfoldable pub update_ml_run :
      Mlflow F → String → String → String → ℕ → ℕ → Bool → Mlflow F × Result MlError (MlRun F)
  update_ml_run m id status name end_time now wrote =
      change_run m id wrote (λ r. r) (updating status name end_time now)

  unfoldable pub delete_ml_run : Mlflow F → String → Bool → Mlflow F × Result {0, 0} MlError Unit
  delete_ml_run m id wrote = change_run m id wrote done (moving ml_deleted)

  unfoldable pub restore_ml_run : Mlflow F → String → Bool → Mlflow F × Result {0, 0} MlError Unit
  restore_ml_run m id wrote = change_run m id wrote done (moving ml_active)

  -- The key is tested before the run is looked up.
  abbrev pub keyed_change :
      String → String → Mlflow F → String → Bool → Change F → Mlflow F × Result {0, 0} MlError Unit
  keyed_change key message m id wrote f =
      if blank key then (m, err (ml_invalid message)) else change_run m id wrote done f

  unfoldable pub log_metric :
      Mlflow F → String → MlMetric F → Bool → Mlflow F × Result {0, 0} MlError Unit
  log_metric m id point wrote =
      keyed_change point.key "metric key is required" m id wrote (logging_metric point)

  unfoldable pub log_param :
      Mlflow F → String → String → String → Bool → Mlflow F × Result {0, 0} MlError Unit
  log_param m id key value wrote =
      keyed_change key "param key is required" m id wrote (logging_param key value)

  unfoldable pub set_tag :
      Mlflow F → String → String → String → Bool → Mlflow F × Result {0, 0} MlError Unit
  set_tag m id key value wrote =
      keyed_change key "tag key is required" m id wrote (setting_tag key value)

  unfoldable pub delete_tag :
      Mlflow F → String → String → Bool → Mlflow F × Result {0, 0} MlError Unit
  delete_tag m id key wrote = change_run m id wrote done (dropping_tag key)

  unfoldable pub log_batch :
      Mlflow F
      → String
      → List (MlMetric F)
      → List MlParam
      → List MlTag
      → Bool
      → Mlflow F × Result {0, 0} MlError Unit
  log_batch m id metrics params tags wrote =
      change_run m id wrote done (batching metrics params tags)

  history_of : String → Result MlError (MlRun F) → Result MlError (List (MlMetric F))
  history_of key (err e) = err e
  history_of key (ok r) = ok (keep (λ p. p.key == key) r.metrics)

  unfoldable pub metric_history : Mlflow F → String → String → Result MlError (List (MlMetric F))
  unfolding history_of
  metric_history m id key = history_of key (run_locked m id)
