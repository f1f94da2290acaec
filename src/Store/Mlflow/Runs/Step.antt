-- ===== src/Store/Mlflow/Runs/Step.antt =====
-- internal/store/mlflow.go: the operations on runs as steps of the store.
use databricks_emulator.Base.{ℕ, ◌≡◌, Bool, Option, none, some, List, String}
use databricks_emulator.Base.Eq.{string_comparable}
use databricks_emulator.Dict
use databricks_emulator.Store.Mlflow.{Mlflow, MlMetric, MlParam, MlTag}
use databricks_emulator.Store.Mlflow.Runs.{
  create_ml_run, update_ml_run, delete_ml_run, restore_ml_run, log_metric, log_param, set_tag,
  delete_tag, log_batch,
}

-- The operations on runs; the outcome of the random id stands in CreateRun.
pub data Op (F : Type 0) : Type 0 where
  creates :
      (experiment_id name user : String) (start : ℕ) → List MlTag → (id : Option String) → Op F
  updates : (id status name : String) (end_time : ℕ) → Op F
  deletes : (id : String) → Op F
  restores : (id : String) → Op F
  logs_metric : (id : String) → MlMetric F → Op F
  logs_param : (id key value : String) → Op F
  sets_tag : (id key value : String) → Op F
  drops_tag : (id key : String) → Op F
  logs_batch : (id : String) → List (MlMetric F) → List MlParam → List MlTag → Op F

-- A random id is one that no run has.
abbrev pub IsFresh : {F : Type 0} → Mlflow F → Op F → Type 0
IsFresh m (creates experiment_id name user start tags (some id)) = Dict.get m.runs id ≡ none
IsFresh m _ = Unit

unfoldable pub step : {F : Type 0} → Mlflow F → Op F → ℕ → Bool → Mlflow F
step m (creates experiment_id name user start tags id) now wrote =
    (create_ml_run m experiment_id name user start tags now id wrote).0
step m (updates id status name end_time) now wrote =
    (update_ml_run m id status name end_time now wrote).0
step m (deletes id) now wrote = (delete_ml_run m id wrote).0
step m (restores id) now wrote = (restore_ml_run m id wrote).0
step m (logs_metric id p) now wrote = (log_metric m id p wrote).0
step m (logs_param id key value) now wrote = (log_param m id key value wrote).0
step m (sets_tag id key value) now wrote = (set_tag m id key value wrote).0
step m (drops_tag id key) now wrote = (delete_tag m id key wrote).0
step m (logs_batch id metrics params tags) now wrote = (log_batch m id metrics params tags wrote).0
