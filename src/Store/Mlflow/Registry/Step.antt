-- ===== src/Store/Mlflow/Registry/Step.antt =====
-- internal/store/mlflow.go: the operations of the registry as steps of the store.
use databricks_emulator.Base.{ℕ, Bool, List, String}
use databricks_emulator.Store.Mlflow.{Mlflow, MlTag}
use databricks_emulator.Store.Mlflow.Registry.{
  VersionRequest, create_model, update_model, rename_model, delete_model, create_model_version,
  update_model_version,
}
use databricks_emulator.Store.Mlflow.Registry.Stages.{transition_stage}

-- The operations that change models and versions.
pub data RegistryOp : Type 0 where
  creates_model : (name description user : String) → List MlTag → RegistryOp
  updates_model : (name description : String) → RegistryOp
  renames_model : (name new_name : String) → RegistryOp
  deletes_model : (name : String) → RegistryOp
  creates_version : (name : String) → VersionRequest → RegistryOp
  updates_version : (name version description : String) → RegistryOp
  moves_version : (name version stage : String) → (archive : Bool) → RegistryOp

unfoldable pub registry_step : {F : Type 0} → Mlflow F → RegistryOp → ℕ → Bool → Mlflow F
registry_step m (creates_model name description user tags) now wrote =
    (create_model m name description user tags now wrote).0
registry_step m (updates_model name description) now wrote =
    (update_model m name description now wrote).0
registry_step m (renames_model name new_name) now wrote = (rename_model m name new_name now wrote).0
registry_step m (deletes_model name) now wrote = (delete_model m name wrote).0
registry_step m (creates_version name q) now wrote = (create_model_version m name q now wrote).0
registry_step m (updates_version name version description) now wrote =
    (update_model_version m name version description now wrote).0
registry_step m (moves_version name version stage archive) now wrote =
    (transition_stage m name version stage archive now wrote).0
