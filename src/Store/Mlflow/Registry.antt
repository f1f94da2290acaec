-- ===== src/Store/Mlflow/Registry.antt =====
-- internal/store/mlflow.go: registered models and their versions.
--
-- The versions of a model are a list of pointers; a write through one is an update of the entry.
pub mod Stages
pub mod Numbering
pub mod Step
pub mod Order
pub mod Append
use databricks_emulator.Base.{
  ℕ, ◌+◌, Bool, true, false, ◌&&◌, ◌||◌, not, Option, none, some, List, [], ◌∷◌, ◌++◌, map, String,
  if◌then◌else◌, length, or_else, is_some,
}
use databricks_emulator.Base.Eq.{◌==◌, string_comparable}
use databricks_emulator.Base.Result.{Result, ok, err}
use databricks_emulator.Text.{trim_space, decimal}
use databricks_emulator.Dict
use databricks_emulator.Dict.{Dict}
use databricks_emulator.Store.Mlflow.{
  Mlflow, MlTag, MlError, RegisteredModel, ModelVersion, ml_exists, ml_not_found, ml_invalid, ms,
  persist,
}
use databricks_emulator.Store.Mlflow.Runs.{tag_map, blank}

abbrev pub new_model : String → String → String → List MlTag → ℕ → RegisteredModel
new_model name description user tags now = record {
  name = name;
  description = description;
  user_id = user;
  created_at = ms now;
  updated_at = ms now;
  tags = tag_map Dict.empty tags;
}

abbrev pub described : String → ℕ → RegisteredModel → RegisteredModel
described description now model = record model { description = description; updated_at = ms now }

abbrev pub model_named : String → ℕ → RegisteredModel → RegisteredModel
model_named name now model = record model { name = name; updated_at = ms now }

abbrev pub touched : ℕ → RegisteredModel → RegisteredModel
touched now model = record model { updated_at = ms now }

abbrev pub version_named : String → ℕ → ModelVersion → ModelVersion
version_named name now v = record v { name = name; updated_at = ms now }

-- The arguments of CreateModelVersion behind the name.
pub record VersionRequest : Type 0 where
  pub source : String
  pub run_id : String
  pub run_link : String
  pub description : String
  pub user_id : String
  pub tags : List MlTag

abbrev pub new_version : String → ℕ → VersionRequest → ℕ → ModelVersion
new_version name n q now = record {
  name = name;
  version = decimal n;
  source = q.source;
  run_id = q.run_id;
  run_link = q.run_link;
  description = q.description;
  user_id = q.user_id;
  stage = "None";
  status = "READY";
  created_at = ms now;
  updated_at = ms now;
  tags = tag_map Dict.empty q.tags;
}

-- The first version of that number.
unfoldable pub find_version : String → List ModelVersion → Option ModelVersion
find_version version [] = none
find_version version (v ∷ l) =
    let rest = find_version version l in if v.version == version then some v else rest

-- A write through the pointer to it.
unfoldable pub update_version :
    String → (ModelVersion → ModelVersion) → List ModelVersion → List ModelVersion
update_version version f [] = []
update_version version f (v ∷ l) =
    let rest = v ∷ update_version version f l in if v.version == version then f v ∷ l else rest

abbrev pub is_stage : String → Bool
is_stage s = s == "None" || (s == "Staging" || (s == "Production" || s == "Archived"))

abbrev pub archives : String → Bool
archives s = s == "Staging" || s == "Production"

-- Another version that is in the stage is archived.
abbrev pub archived : String → String → ℕ → ModelVersion → ModelVersion
archived version stage now v =
    if not (v.version == version) && v.stage == stage
    then record v { stage = "Archived"; updated_at = ms now }
    else v

abbrev pub staged : String → ℕ → ModelVersion → ModelVersion
staged stage now v = record v { stage = stage; updated_at = ms now }

abbrev pub version_described : String → ℕ → ModelVersion → ModelVersion
version_described description now v = record v { description = description; updated_at = ms now }

found_model : String → Option RegisteredModel → Result MlError RegisteredModel
found_model name none = err (ml_not_found name)
found_model name (some model) = ok model

found_version : String → Option ModelVersion → Result MlError ModelVersion
found_version name none = err (ml_not_found name)
found_version name (some v) = ok v

module _ {F : Type 0} where
  unfoldable pub create_model :
      Mlflow F
      → String
      → String
      → String
      → List MlTag
      → ℕ
      → Bool
      → Mlflow F × Result MlError RegisteredModel
  create_model m name description user tags now wrote =
      let name' = trim_space name in
      let model = new_model name' description user tags now in
      if name' == ""
      then (m, err (ml_invalid "name is required"))
      else if is_some (Dict.get m.models name')
      then (m, err (ml_exists name'))
      else persist (record m { models = Dict.put m.models name' model }) wrote model

  unfoldable pub get_model : Mlflow F → String → Result MlError RegisteredModel
  unfolding found_model
  get_model m name = found_model name (Dict.get m.models name)

  model_updated :
      Mlflow F
      → String
      → String
      → ℕ
      → Bool
      → Option RegisteredModel
      → Mlflow F × Result MlError RegisteredModel
  model_updated m name description now wrote none = (m, err (ml_not_found name))
  model_updated m name description now wrote (some model) =
      persist (record m { models = Dict.put m.models name (described description now model) }) wrote
        (described description now model)

  unfoldable pub update_model :
      Mlflow F → String → String → ℕ → Bool → Mlflow F × Result MlError RegisteredModel
  unfolding model_updated
  update_model m name description now wrote =
      model_updated m name description now wrote (Dict.get m.models name)

  -- m.versions[name]
  abbrev pub versions_of : Mlflow F → String → List ModelVersion
  versions_of m name = or_else (Dict.get m.versions name) []

  abbrev pub under_name : Mlflow F → String → String → ℕ → RegisteredModel → Mlflow F
  under_name m name new_name now model = record m {
    models = Dict.put (Dict.remove m.models name) new_name (model_named new_name now model);
    versions =
        Dict.put (Dict.remove m.versions name) new_name
          (map (version_named new_name now) (versions_of m name));
  }

  model_renamed :
      Mlflow F
      → String
      → String
      → ℕ
      → Bool
      → Option RegisteredModel
      → Mlflow F × Result MlError RegisteredModel
  model_renamed m name new_name now wrote none = (m, err (ml_not_found name))
  model_renamed m name new_name now wrote (some model) =
      if is_some (Dict.get m.models new_name) && not (new_name == name)
      then (m, err (ml_exists new_name))
      else persist (under_name m name new_name now model) wrote (model_named new_name now model)

  unfoldable pub rename_model :
      Mlflow F → String → String → ℕ → Bool → Mlflow F × Result MlError RegisteredModel
  unfolding model_renamed
  rename_model m name new_name now wrote =
      if trim_space new_name == ""
      then (m, err (ml_invalid "new_name is required"))
      else model_renamed m name (trim_space new_name) now wrote (Dict.get m.models name)

  unfoldable pub delete_model : Mlflow F → String → Bool → Mlflow F × Result {0, 0} MlError Unit
  delete_model m name wrote =
      if is_some (Dict.get m.models name)
      then persist
          (record m { models = Dict.remove m.models name; versions = Dict.remove m.versions name })
          wrote tt
      else (m, err (ml_not_found name))

  -- A version that is appended, for the model that is there.
  abbrev pub with_version : Mlflow F → String → ℕ → RegisteredModel → ModelVersion → Mlflow F
  with_version m name now model v = record m {
    versions = Dict.put m.versions name (versions_of m name ++ v ∷ []);
    models = Dict.put m.models name (touched now model);
  }

  version_created :
      Mlflow F
      → String
      → VersionRequest
      → ℕ
      → Bool
      → Option RegisteredModel
      → Mlflow F × Result MlError ModelVersion
  version_created m name q now wrote none = (m, err (ml_not_found name))
  version_created m name q now wrote (some model) =
      let v = new_version name (length (versions_of m name) + 1) q now in
      if not (q.run_id == "") && not (is_some (Dict.get m.runs q.run_id))
      then (m, err (ml_not_found q.run_id))
      else persist (with_version m name now model v) wrote v

  unfoldable pub create_model_version :
      Mlflow F → String → VersionRequest → ℕ → Bool → Mlflow F × Result MlError ModelVersion
  unfolding version_created
  create_model_version m name q now wrote =
      if blank name
      then (m, err (ml_invalid "name is required"))
      else if blank q.source
      then (m, err (ml_invalid "source is required"))
      else version_created m name q now wrote (Dict.get m.models name)

  unfoldable pub version_locked : Mlflow F → String → String → Result MlError ModelVersion
  unfolding found_version
  version_locked m name version =
      if is_some (Dict.get m.models name)
      then found_version name (find_version version (versions_of m name))
      else err (ml_not_found name)

  unfoldable pub get_model_version : Mlflow F → String → String → Result MlError ModelVersion
  get_model_version m name version = version_locked m name version

  abbrev pub set_versions : Mlflow F → String → List ModelVersion → Mlflow F
  set_versions m name l = record m { versions = Dict.put m.versions name l }

  version_updated :
      Mlflow F
      → String
      → String
      → String
      → ℕ
      → Bool
      → Result MlError ModelVersion
      → Mlflow F × Result MlError ModelVersion
  version_updated m name version description now wrote (err e) = (m, err e)
  version_updated m name version description now wrote (ok v) =
      persist
        (set_versions m name
          (update_version version (version_described description now) (versions_of m name)))
        wrote (version_described description now v)

  unfoldable pub update_model_version :
      Mlflow F → String → String → String → ℕ → Bool → Mlflow F × Result MlError ModelVersion
  unfolding version_updated
  update_model_version m name version description now wrote =
      version_updated m name version description now wrote (version_locked m name version)
