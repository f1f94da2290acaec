-- ===== src/Store/Mlflow/Registry/Stages.antt =====
-- internal/store/mlflow.go: moving a version to a stage.
use databricks_emulator.Base.{
  ℕ, ◌≡◌, ◌≢◌, refl, sym, ap, ◌∙◌, Bool, true, false, ◌&&◌, not, Option, none, some, List, [], ◌∷◌,
  map, String, arith, Bool-cases, Option-cases, inl, inr, if◌then◌else◌, is_some, All,
}
use databricks_emulator.Base.Eq.{◌==◌, string_comparable}
use databricks_emulator.Base.Result.{Result, ok, err}
use databricks_emulator.Dict
use databricks_emulator.Store.Mlflow.{
  Mlflow, MlError, RegisteredModel, ModelVersion, ml_invalid, persist,
}
use databricks_emulator.Store.Mlflow.Registry.{
  is_stage, archives, archived, staged, touched, update_version, find_version, version_locked,
  versions_of, get_model_version, found_version,
}

-- The versions that the transition leaves.
unfoldable pub moved_versions : String → String → Bool → ℕ → List ModelVersion → List ModelVersion
moved_versions version stage archive now l =
    update_version version (staged stage now)
      (if archive then map (archived version stage now) l else l)

module _ {F : Type 0} where
  -- The model of the version, if it is there, is touched.
  unfoldable pub touched_models : Mlflow F → String → ℕ → Option RegisteredModel → Mlflow F
  touched_models m name now none = m
  touched_models m name now (some model) = record m {
    models = Dict.put m.models name (touched now model);
  }

  unfoldable pub transitioned :
      Mlflow F
      → String
      → String
      → String
      → Bool
      → ℕ
      → Bool
      → Result MlError ModelVersion
      → Mlflow F × Result MlError ModelVersion
  unfolding touched_models
  transitioned m name version stage archive now wrote (err e) = (m, err e)
  transitioned m name version stage archive now wrote (ok v) =
      let moved : Mlflow F = record m {
        versions =
            Dict.put m.versions name
              (moved_versions version stage archive now (versions_of m name));
      } in
      persist (touched_models moved name now (Dict.get m.models name)) wrote (staged stage now v)

  unfoldable pub transition_stage :
      Mlflow F → String → String → String → Bool → ℕ → Bool → Mlflow F × Result MlError ModelVersion
  unfolding transitioned
  transition_stage m name version stage archive now wrote =
      if not (is_stage stage)
      then (m, err (ml_invalid stage))
      else if archive && not (archives stage)
      then (m, err (ml_invalid "archive_existing_versions only for Staging or Production"))
      else transitioned m name version stage archive now wrote (version_locked m name version)

-- In the stage, there is the version alone.
abbrev pub Alone : String → String → ModelVersion → Type 0
Alone version stage v = v.stage ≡ stage → v.version ≡ version

archived-Alone :
    (version stage : String) (now : ℕ) (l : List ModelVersion)
    → ◌≢◌ {A = String} "Archived" stage
    → All (Alone version stage) (map (archived version stage now) l)
archived-Alone version stage now [] other = tt
archived-Alone version stage now (v ∷ l) other = (
  elim (Bool-cases (not (v.version == version) && v.stage == stage)) [
    | inl moved ↦ rw moved (λ same. absurd (other same))
    | inr kept ↦ rw kept (λ same. ground (
      arith,
      string_comparable.equal_iff v.version version,
      string_comparable.equal_iff v.stage stage,
    ))
  ],
  archived-Alone version stage now l other,
)

update-Alone :
    (version stage : String) (now : ℕ) (l : List ModelVersion)
    → All (Alone version stage) l
    → All (Alone version stage) (update_version version (staged stage now) l)
unfolding update_version
update-Alone version stage now [] all = tt
update-Alone version stage now (v ∷ l) all = elim (Bool-cases (v.version == version)) [
  | inl hit ↦ rw hit (λ _. (string_comparable.equal_iff v.version version).0 hit, all.1)
  | inr miss ↦ rw miss (all.0, update-Alone version stage now l all.1)
]

archives-other : (stage : String) → archives stage ≡ true → ◌≢◌ {A = String} "Archived" stage
archives-other stage active same = absurd (cc (active, ap archives same))

find-archived :
    (version stage : String) (now : ℕ) (l : List ModelVersion)
    → find_version version (map (archived version stage now) l) ≡ find_version version l
unfolding find_version
find-archived version stage now [] = refl
find-archived version stage now (v ∷ l) = elim (Bool-cases (v.version == version)) [
  | inl hit ↦ rw hit (rw hit refl)
  | inr miss ↦ elim (Bool-cases (v.stage == stage)) [
    | inl moved ↦ rw (miss, moved) (rw miss (find-archived version stage now l))
    | inr kept ↦ rw (miss, kept) (rw miss (find-archived version stage now l))
  ]
]

find-update :
    (version stage : String) (now : ℕ) (l : List ModelVersion) (v : ModelVersion)
    → find_version version l ≡ some v
    → find_version version (update_version version (staged stage now) l) ≡ some (staged stage now v)
unfolding find_version update_version
find-update version stage now [] v found = absurd (cc found)
find-update version stage now (w ∷ l) v found = elim (Bool-cases (w.version == version)) [
  | inl hit ↦ rw (hit, hit) (ground (arith, rw hit at found))
  | inr miss ↦ rw (miss, miss) (find-update version stage now l v (rw miss at found))
]

-- What it takes to locate a version.
pub located :
    {F : Type 0} (m : Mlflow F) (name version : String) (w : ModelVersion)
    → version_locked m name version ≡ ok w
    → (is_some (Dict.get m.models name) ≡ true)
      × (find_version version (versions_of m name) ≡ some w)
unfolding version_locked found_version
located m name version w locked = elim (Option-cases (Dict.get m.models name)) [
  | inl e ↦ absurd (cc (rw e at locked))
  | inr (model, e) ↦ elim (Option-cases (find_version version (versions_of m name))) [
    | inl none_there ↦ absurd (cc (rw (e, none_there) at locked))
    | inr (u, there) ↦ (rw e refl, there ∙ ground (arith, rw (e, there) at locked))
  ]
]

abbrev Settled : {F : Type 0} → Mlflow F → String → String → String → ModelVersion → Type 0
Settled m name version stage v =
    All (Alone version stage) (versions_of m name)
    × (get_model_version m name version ≡ ok v)
    × (v.stage ≡ stage)

written-Settled :
    {F : Type 0} (m : Mlflow F) (name version stage : String) (now : ℕ) (v w : ModelVersion)
    (found : Option RegisteredModel)
    → is_some found ≡ true
    → find_version version (versions_of m name) ≡ some w
    → ◌≢◌ {A = String} "Archived" stage
    → staged stage now w ≡ v
    → Settled
        (touched_models
          (record m {
            versions =
                Dict.put m.versions name
                  (moved_versions version stage true now (versions_of m name));
          })
          name
          now
          found)
        name
        version
        stage
        v
unfolding touched_models moved_versions get_model_version version_locked found_version
written-Settled m name version stage now v w none there_is at other same = absurd (cc there_is)
written-Settled m name version stage now v w (some model) there_is at other same =
    rw
      (
        Dict.get-put_same m.versions name
            (moved_versions version stage true now (versions_of m name)),
        Dict.get-put_same m.models name (touched now model),
        find-update version stage now (map (archived version stage now) (versions_of m name)) w
            (find-archived version stage now (versions_of m name) ∙ at),
        same,
      )
      (
        update-Alone version stage now (map (archived version stage now) (versions_of m name))
            (archived-Alone version stage now (versions_of m name) other),
        refl,
        ap (λ (u : ModelVersion). u.stage) (sym same),
      )

transitioned-Settled :
    {F : Type 0} (m : Mlflow F) (name version stage : String) (now : ℕ) (wrote : Bool)
    (found : Result MlError ModelVersion) (v : ModelVersion)
    → version_locked m name version ≡ found
    → ◌≢◌ {A = String} "Archived" stage
    → (transitioned m name version stage true now wrote found).1 ≡ ok v
    → Settled (transitioned m name version stage true now wrote found).0 name version stage v
unfolding transitioned persist Dict.get get_model_version version_locked
transitioned-Settled m name version stage now wrote (err e) v locked other answered =
    absurd (cc answered)
transitioned-Settled m name version stage now false (ok w) v locked other answered =
    absurd (cc answered)
transitioned-Settled m name version stage now true (ok w) v locked other answered =
    let (there, at) = located m name version w locked in
    written-Settled m name version stage now v w (Dict.get m.models name) there at other
      (ground (arith, answered))

-- A transition that archives and answers with a version: no other version of the model is in the
-- stage, and a lookup of the version finds the answer, which is in the stage.
pub transition_stage-Alone :
    {F : Type 0} (m : Mlflow F) (name version stage : String) (now : ℕ) (wrote : Bool)
    (v : ModelVersion)
    → (transition_stage m name version stage true now wrote).1 ≡ ok v
    → All
        (Alone version stage)
        (versions_of (transition_stage m name version stage true now wrote).0 name)
      × (get_model_version (transition_stage m name version stage true now wrote).0 name version
          ≡ ok v)
      × (v.stage ≡ stage)
unfolding transition_stage
transition_stage-Alone m name version stage now wrote v answered =
    elim (Bool-cases (is_stage stage)) [
      | inr no_stage ↦ absurd (cc (rw no_stage at answered))
      | inl known ↦ elim (Bool-cases (archives stage)) [
        | inr idle ↦ absurd (cc (rw (known, idle) at answered))
        | inl active ↦
            rw (known, active)
              (transitioned-Settled m name version stage now wrote (version_locked m name version) v
                refl (archives-other stage active) (rw (known, active) at answered))
      ]
    ]
