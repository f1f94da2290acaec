-- ===== src/Store/Mlflow/Reopen.antt =====
-- internal/store/mlflow.go: the store that is read back from its file.
use databricks_emulator.Base.{◌≡◌, refl, true, some, List, [], String, or_else, All}
use databricks_emulator.Base.Eq.{string_comparable}
use databricks_emulator.Dict
use databricks_emulator.Dict.Rows.{get-put_rows, get-append_rows}
use databricks_emulator.Store.Mlflow.{
  Mlflow, Experiment, MlRun, RegisteredModel, ModelVersion, dump, persist, open_mlflow, opened,
}

module _ {F : Type 0} where
  -- Every row stands under its own key.
  pub record IsKeyed (m : Mlflow F) : Type 0 where
    pub by_id : (k : String) (e : Experiment) → Dict.get m.experiments k ≡ some e → e.id ≡ k
    pub by_run : (k : String) (r : MlRun F) → Dict.get m.runs k ≡ some r → r.id ≡ k
    pub by_name : (k : String) (x : RegisteredModel) → Dict.get m.models k ≡ some x → x.name ≡ k
    pub by_model :
        (k : String) (l : List ModelVersion)
        → Dict.get m.versions k ≡ some l
        → All (λ v. v.name ≡ k) l

  -- A store whose rows stand under their own keys is read back, once it is saved, with the same
  -- counter, experiments, runs, models and versions.
  pub open_mlflow-persist :
      {A : Type 0} (m : Mlflow F) (answer : A)
      → IsKeyed m
      → ((open_mlflow (persist m true answer).0).next_exp ≡ m.next_exp)
        × ((k : String)
            → (Dict.get (open_mlflow (persist m true answer).0).experiments k
                ≡ Dict.get m.experiments k)
              × (Dict.get (open_mlflow (persist m true answer).0).runs k ≡ Dict.get m.runs k)
              × (Dict.get (open_mlflow (persist m true answer).0).models k ≡ Dict.get m.models k)
              × (or_else (Dict.get (open_mlflow (persist m true answer).0).versions k) []
                  ≡ or_else (Dict.get m.versions k) []))
  unfolding open_mlflow opened persist dump
  open_mlflow-persist m answer h = (
    refl,
    λ k. (
      get-put_rows (λ (e : Experiment). e.id) m.experiments k h.by_id,
      get-put_rows (λ (r : MlRun F). r.id) m.runs k h.by_run,
      get-put_rows (λ (x : RegisteredModel). x.name) m.models k h.by_name,
      get-append_rows (λ (v : ModelVersion). v.name) m.versions k h.by_model,
    ),
  )
