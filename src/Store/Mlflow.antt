-- ===== src/Store/Mlflow.antt =====
-- internal/store/mlflow.go: the MLflow tracking store and model registry, in memory and in the file
-- that it is saved to.
--
-- The store hands out clones, so its objects are values. Each operation that saves takes `wrote`,
-- whether the file could be written. A time is the 64-bit pattern of an int64. An error keeps its
-- kind and its subject; the wording around the subject is left out.
pub mod Experiments
pub mod Runs
pub mod Registry
pub mod Reopen
pub mod Latest
pub mod Filter
use databricks_emulator.Base.{
  ℕ, ◌*◌, ◌+◌, ◌%◌, ◌^◌, Bool, true, false, ◌&&◌, Option, none, some, List, [], ◌∷◌, ◌++◌, String,
  if◌then◌else◌, ltb, or_else,
}
use databricks_emulator.Base.Eq.{◌==◌, string_comparable}
use databricks_emulator.Base.Result.{Result, ok, err}
use databricks_emulator.Dict
use databricks_emulator.Dict.{Dict}
use databricks_emulator.Dict.Rows.{concat, put_rows, append_rows}

pub record MlTag : Type 0 where
  pub key : String
  pub value : String

-- `F` is float64.
pub record MlMetric (F : Type 0) : Type 0 where
  pub key : String
  pub value : F
  pub timestamp : ℕ
  pub step : ℕ

pub record MlParam : Type 0 where
  pub key : String
  pub value : String

pub record Experiment : Type 0 where
  pub id : String
  pub name : String
  pub artifact_location : String
  pub lifecycle : String
  pub creation_time : ℕ
  pub last_update_time : ℕ
  pub tags : List MlTag

pub record MlRun (F : Type 0) : Type 0 where
  pub id : String
  pub experiment_id : String
  pub name : String
  pub user_id : String
  pub status : String
  pub lifecycle : String
  pub artifact_uri : String
  pub start_time : ℕ
  pub end_time : ℕ
  pub metrics : List (MlMetric F)
  pub params : Dict String String
  pub tags : Dict String String

pub record RegisteredModel : Type 0 where
  pub name : String
  pub description : String
  pub user_id : String
  pub created_at : ℕ
  pub updated_at : ℕ
  pub tags : Dict String String

pub record ModelVersion : Type 0 where
  pub name : String
  pub version : String
  pub source : String
  pub run_id : String
  pub run_link : String
  pub description : String
  pub user_id : String
  pub stage : String
  pub status : String
  pub created_at : ℕ
  pub updated_at : ℕ
  pub tags : Dict String String

pub record PersistedMlflow (F : Type 0) : Type 0 where
  pub next_exp : ℕ
  pub experiments : List Experiment
  pub runs : List (MlRun F)
  pub models : List RegisteredModel
  pub versions : List ModelVersion

pub record Mlflow (F : Type 0) : Type 0 where
  pub next_exp : ℕ
  pub experiments : Dict String Experiment
  pub runs : Dict String (MlRun F)
  pub models : Dict String RegisteredModel
  pub versions : Dict String (List ModelVersion)
  -- state.json, where it exists.
  pub file : Option (PersistedMlflow F)

pub data MlError : Type 0 where
  ml_exists : String → MlError
  ml_not_found : String → MlError
  ml_invalid : String → MlError
  ml_filter : String → MlError
  not_written : MlError
  -- rand.Read failed.
  no_random : MlError

abbrev pub ml_active : String
ml_active = "active"

abbrev pub ml_deleted : String
ml_deleted = "deleted"

-- Seconds as milliseconds.
unfoldable pub ms : ℕ → ℕ
ms now = now * 1000 % 2 ^ 64

module _ {F : Type 0} where
  unfoldable pub new_mlflow : Mlflow F
  new_mlflow = record {
    next_exp = 0;
    experiments = Dict.empty;
    runs = Dict.empty;
    models = Dict.empty;
    versions = Dict.empty;
    file = none;
  }

  unfoldable pub dump : Mlflow F → PersistedMlflow F
  unfolding concat
  dump m = record {
    next_exp = m.next_exp;
    experiments = Dict.values m.experiments;
    runs = Dict.values m.runs;
    models = Dict.values m.models;
    versions = concat (Dict.values m.versions);
  }

  -- Saves the store, and answers with the value or with the error of the write.
  unfoldable pub persist {ℓ} : {A : Type ℓ} → Mlflow F → Bool → A → Mlflow F × Result MlError A
  unfolding dump
  persist m wrote answer =
      if wrote then (record m { file = some (dump m) }, ok answer) else (m, err not_written)

  opened : Option (PersistedMlflow F) → Mlflow F
  unfolding put_rows append_rows
  opened none = new_mlflow
  opened (some d) = record {
    next_exp = d.next_exp;
    experiments = put_rows (λ e. e.id) Dict.empty d.experiments;
    runs = put_rows (λ r. r.id) Dict.empty d.runs;
    models = put_rows (λ m. m.name) Dict.empty d.models;
    versions = append_rows (λ v. v.name) Dict.empty d.versions;
    file = some d;
  }

  unfoldable pub open_mlflow : Mlflow F → Mlflow F
  unfolding opened
  open_mlflow m = opened m.file
