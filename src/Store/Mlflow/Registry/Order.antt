-- ===== src/Store/Mlflow/Registry/Order.antt =====
-- internal/store/mlflow.go: every operation keeps the versions numbered.
use databricks_emulator.Base.{
  ℕ, ◌+◌, ◌≡◌, refl, ◌∙◌, Bool, true, false, ◌&&◌, not, Option, none, some, List, [], ◌∷◌, ◌++◌,
  map, String, Bool-cases, Option-cases, inl, inr, if◌then◌else◌, is_some, length,
}
use databricks_emulator.Base.Eq.{◌==◌, string_comparable}
use databricks_emulator.Base.Result.{Result, ok, err}
use databricks_emulator.Text.{trim_space}
use databricks_emulator.Dict
use databricks_emulator.Dict.{Dict}
use databricks_emulator.Store.Mlflow.{
  new_mlflow, Mlflow, MlError, RegisteredModel, ModelVersion, persist,
}
use databricks_emulator.Store.Mlflow.Runs.{blank}
use databricks_emulator.Store.Mlflow.Registry.{
  new_model, described, model_named, touched, version_named, VersionRequest, new_version,
  update_version, archived, staged, version_described, versions_of, create_model, model_updated,
  update_model, model_renamed, rename_model, delete_model, version_created, create_model_version,
  version_updated, update_model_version, version_locked, under_name, with_version, set_versions,
  is_stage, archives,
}
use databricks_emulator.Store.Mlflow.Registry.Numbering.{
  NumberedFrom, NumberedFrom-map, NumberedFrom-update, NumberedFrom-append, IsRegistry,
  put_model-IsRegistry, put_versions-IsRegistry, remove-IsRegistry,
}
use databricks_emulator.Store.Mlflow.Registry.Stages.{
  located, transition_stage, transitioned, touched_models, moved_versions,
}
use databricks_emulator.Store.Mlflow.Registry.Step.{
  RegistryOp, creates_model, updates_model, renames_model, deletes_model, creates_version,
  updates_version, moves_version, registry_step,
}

abbrev pub IsOrdered : {F : Type 0} → Mlflow F → Type 0
IsOrdered m = IsRegistry m.models m.versions

persist-IsOrdered {ℓ} :
    {F : Type 0} {A : Type ℓ} (m : Mlflow F) (wrote : Bool) (answer : A)
    → IsOrdered m
    → IsOrdered (persist m wrote answer).0
unfolding persist
persist-IsOrdered m true answer r = r
persist-IsOrdered m false answer r = r

model_updated-IsOrdered :
    {F : Type 0} (m : Mlflow F) (name description : String) (now : ℕ) (wrote : Bool)
    → IsOrdered m
    → IsOrdered (update_model m name description now wrote).0
unfolding update_model model_updated
model_updated-IsOrdered m name description now wrote r =
    elim (Option-cases (Dict.get m.models name)) [
      | inl e ↦ rw e r
      | inr (x, e) ↦ rw e (
          persist-IsOrdered
            (record m { models = Dict.put m.models name (described description now x) }) wrote
            (described description now x)
            (put_model-IsRegistry m.models m.versions name (described description now x)
              (r.keyed name x e) r))
    ]

under_name-IsOrdered :
    {F : Type 0} (m : Mlflow F) (name new_name : String) (now : ℕ) (model : RegisteredModel)
    → IsOrdered m
    → IsOrdered (under_name m name new_name now model)
under_name-IsOrdered m name new_name now model r =
    put_versions-IsRegistry
      (Dict.put (Dict.remove m.models name) new_name (model_named new_name now model))
      (Dict.remove m.versions name) new_name (map (version_named new_name now) (versions_of m name))
      (rw (Dict.get-put_same (Dict.remove m.models name) new_name (model_named new_name now model))
        refl)
      (NumberedFrom-map (version_named new_name now) name new_name (λ v _. (refl, refl)) 1
        (versions_of m name) (r.in_order name))
      (put_model-IsRegistry (Dict.remove m.models name) (Dict.remove m.versions name) new_name
        (model_named new_name now model) refl (remove-IsRegistry m.models m.versions name r))

renamed-IsOrdered :
    {F : Type 0} (m : Mlflow F) (name new_name : String) (now : ℕ) (wrote : Bool)
    (found : Option RegisteredModel)
    → IsOrdered m
    → IsOrdered (model_renamed m name new_name now wrote found).0
unfolding model_renamed
renamed-IsOrdered m name new_name now wrote none r = r
renamed-IsOrdered m name new_name now wrote (some model) r =
    elim (Bool-cases (is_some (Dict.get m.models new_name) && not (new_name == name))) [
      | inl taken ↦ rw taken r
      | inr free ↦ rw free (
          persist-IsOrdered (under_name m name new_name now model) wrote
            (model_named new_name now model) (under_name-IsOrdered m name new_name now model r))
    ]

-- The versions of a model that is there, with one of them replaced.
set_versions-IsOrdered :
    {F : Type 0} (m : Mlflow F) (name version : String) (f : ModelVersion → ModelVersion)
    (l : List ModelVersion)
    → is_some (Dict.get m.models name) ≡ true
    → ((v : ModelVersion) → ((f v).name ≡ v.name) × ((f v).version ≡ v.version))
    → NumberedFrom name 1 l
    → IsOrdered m
    → IsOrdered (set_versions m name (update_version version f l))
set_versions-IsOrdered m name version f l there keeps order r =
    put_versions-IsRegistry m.models m.versions name (update_version version f l) there
      (NumberedFrom-update f version name keeps 1 l order) r

updated-IsOrdered :
    {F : Type 0} (m : Mlflow F) (name version description : String) (now : ℕ) (wrote : Bool)
    (found : Result MlError ModelVersion)
    → version_locked m name version ≡ found
    → IsOrdered m
    → IsOrdered (version_updated m name version description now wrote found).0
unfolding version_updated
updated-IsOrdered m name version description now wrote (err e) locked r = r
updated-IsOrdered m name version description now wrote (ok v) locked r =
    persist-IsOrdered
      (set_versions m name
        (update_version version (version_described description now) (versions_of m name)))
      wrote (version_described description now v)
      (set_versions-IsOrdered m name version (version_described description now)
        (versions_of m name) (located m name version v locked).0 (λ v. (refl, refl))
        (r.in_order name) r)

created-IsOrdered :
    {F : Type 0} (m : Mlflow F) (name : String) (q : VersionRequest) (now : ℕ) (wrote : Bool)
    (found : Option RegisteredModel)
    → Dict.get m.models name ≡ found
    → IsOrdered m
    → IsOrdered (version_created m name q now wrote found).0
unfolding version_created
created-IsOrdered m name q now wrote none there r = r
created-IsOrdered m name q now wrote (some model) there r =
    elim (Bool-cases (not (q.run_id == "") && not (is_some (Dict.get m.runs q.run_id)))) [
      | inl lost ↦ rw lost r
      | inr known ↦
          let v = new_version name (length (versions_of m name) + 1) q now in
          rw known (
            persist-IsOrdered (with_version m name now model v) wrote v (
              put_versions-IsRegistry (Dict.put m.models name (touched now model)) m.versions name
                (versions_of m name ++ v ∷ [])
                (rw (Dict.get-put_same m.models name (touched now model)) refl)
                (NumberedFrom-append name 1 (versions_of m name) v (r.in_order name) refl refl)
                (put_model-IsRegistry m.models m.versions name (touched now model)
                  (r.keyed name model there) r)))
    ]

touched-IsOrdered :
    {F : Type 0} (m : Mlflow F) (name : String) (now : ℕ) (found : Option RegisteredModel)
    → Dict.get m.models name ≡ found
    → IsOrdered m
    → IsOrdered (touched_models m name now found)
unfolding touched_models
touched-IsOrdered m name now none there r = r
touched-IsOrdered m name now (some model) there r =
    put_model-IsRegistry m.models m.versions name (touched now model) (r.keyed name model there) r

archived-keeps :
    (version stage : String) (now : ℕ) (v : ModelVersion)
    → ((archived version stage now v).name ≡ v.name)
      × ((archived version stage now v).version ≡ v.version)
archived-keeps version stage now v =
    elim (Bool-cases (not (v.version == version) && v.stage == stage)) [
      | inl moved ↦ rw moved (refl, refl)
      | inr kept ↦ rw kept (refl, refl)
    ]

archiving-NumberedFrom :
    (name version stage : String) (archive : Bool) (now : ℕ) (l : List ModelVersion)
    → NumberedFrom name 1 l
    → NumberedFrom name 1 (if archive then map (archived version stage now) l else l)
archiving-NumberedFrom name version stage true now l h =
    NumberedFrom-map (archived version stage now) name name
      (λ v named.
        ((archived-keeps version stage now v).0 ∙ named, (archived-keeps version stage now v).1))
      1 l h
archiving-NumberedFrom name version stage false now l h = h

moved-IsOrdered :
    {F : Type 0} (m : Mlflow F) (name version stage : String) (archive : Bool) (now : ℕ)
    (wrote : Bool) (found : Result MlError ModelVersion)
    → version_locked m name version ≡ found
    → IsOrdered m
    → IsOrdered (transitioned m name version stage archive now wrote found).0
unfolding transitioned moved_versions
moved-IsOrdered m name version stage archive now wrote (err e) locked r = r
moved-IsOrdered m name version stage archive now wrote (ok v) locked r =
    let moved =
      set_versions m name (moved_versions version stage archive now (versions_of m name)) in
    persist-IsOrdered (touched_models moved name now (Dict.get m.models name)) wrote
      (staged stage now v)
      (touched-IsOrdered moved name now (Dict.get m.models name) refl (
        set_versions-IsOrdered m name version (staged stage now)
          (if archive
            then map (archived version stage now) (versions_of m name)
            else versions_of m name)
          (located m name version v locked).0 (λ v. (refl, refl))
          (archiving-NumberedFrom name version stage archive now (versions_of m name)
            (r.in_order name))
          r))

-- Every operation of the registry, refused or not, saved or not, keeps each model under its name,
-- and the versions of each model numbered from 1 in the order in which they were created.
pub registry_step-IsOrdered :
    {F : Type 0} (m : Mlflow F) (o : RegistryOp) (now : ℕ) (wrote : Bool)
    → IsOrdered m
    → IsOrdered (registry_step m o now wrote)
unfolding registry_step create_model update_model rename_model delete_model create_model_version
    update_model_version transition_stage
registry_step-IsOrdered m (creates_model name description user tags) now wrote r =
    elim (Bool-cases (◌==◌ {K = String} (trim_space name) "")) [
      | inl empty ↦ rw (registry_step, empty) r
      | inr given ↦ elim (Bool-cases (is_some (Dict.get m.models (trim_space name)))) [
        | inl taken ↦ rw (registry_step, given, taken) r
        | inr free ↦
            let model = new_model (trim_space name) description user tags now in
            rw (registry_step, given, free)
              (persist-IsOrdered (record m { models = Dict.put m.models (trim_space name) model })
                wrote model
                (put_model-IsRegistry m.models m.versions (trim_space name) model refl r))
      ]
    ]
registry_step-IsOrdered m (updates_model name description) now wrote r =
    model_updated-IsOrdered m name description now wrote r
registry_step-IsOrdered m (renames_model name new_name) now wrote r =
    elim (Bool-cases (◌==◌ {K = String} (trim_space new_name) "")) [
      | inl empty ↦ rw (registry_step, empty) r
      | inr given ↦
          rw (registry_step, given)
            (renamed-IsOrdered m name (trim_space new_name) now wrote (Dict.get m.models name) r)
    ]
registry_step-IsOrdered m (deletes_model name) now wrote r =
    elim (Bool-cases (is_some (Dict.get m.models name))) [
      | inl there ↦
          rw (registry_step, there)
            (persist-IsOrdered
              (record m {
                models = Dict.remove m.models name;
                versions = Dict.remove m.versions name;
              })
              wrote tt (remove-IsRegistry m.models m.versions name r))
      | inr gone ↦ rw (registry_step, gone) r
    ]
registry_step-IsOrdered m (creates_version name q) now wrote r = elim (Bool-cases (blank name)) [
  | inl empty ↦ rw (registry_step, empty) r
  | inr given ↦ elim (Bool-cases (blank q.source)) [
    | inl bare ↦ rw (registry_step, given, bare) r
    | inr sourced ↦
        rw (registry_step, given, sourced)
          (created-IsOrdered m name q now wrote (Dict.get m.models name) refl r)
  ]
]
registry_step-IsOrdered m (updates_version name version description) now wrote r =
    updated-IsOrdered m name version description now wrote (version_locked m name version) refl r
registry_step-IsOrdered m (moves_version name version stage archive) now wrote r =
    elim (Bool-cases (is_stage stage)) [
      | inr strange ↦ rw (registry_step, strange) r
      | inl known ↦ elim (Bool-cases (archive && not (archives stage))) [
        | inl idle ↦ rw (registry_step, known, idle) r
        | inr fine ↦
            rw (registry_step, known, fine)
              (moved-IsOrdered m name version stage archive now wrote
                (version_locked m name version) refl r)
      ]
    ]

pub new_mlflow-IsOrdered : (F : Type 0) → IsOrdered {F = F} new_mlflow
unfolding new_mlflow Dict.get Dict.empty NumberedFrom
new_mlflow-IsOrdered F = record {
  keyed = λ k m at. absurd (cc at);
  owned = λ k _. refl;
  in_order = λ k. tt;
}
