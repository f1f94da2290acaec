-- ===== src/Store/Mlflow/Registry/Append.antt =====
-- internal/store/mlflow.go: a created version is found under its number.
use databricks_emulator.Base.{
  ℕ, suc, ◌+◌, ◌≡◌, ◌≢◌, refl, sym, ap, ◌∙◌, Bool, true, false, ◌&&◌, not, Option, none, some, List,
  [], ◌∷◌, ◌++◌, String, arith, Bool-cases, inl, inr, is_some, length, subst,
}
use databricks_emulator.Base.Eq.{◌==◌, string_comparable}
use databricks_emulator.Base.Result.{ok}
use databricks_emulator.Text.{decimal}
use databricks_emulator.Text.Decimal.{decimal_injective}
use databricks_emulator.Dict
use databricks_emulator.Store.Mlflow.{Mlflow, RegisteredModel, ModelVersion, persist}
use databricks_emulator.Store.Mlflow.Runs.{blank}
use databricks_emulator.Store.Mlflow.Registry.{
  touched, VersionRequest, new_version, find_version, versions_of, create_model_version,
  version_created, version_locked, with_version, get_model_version, found_version,
}
use databricks_emulator.Store.Mlflow.Registry.Numbering.{NumberedFrom}
use databricks_emulator.Store.Mlflow.Registry.Order.{IsOrdered}

find-append :
    (k : String) (n : ℕ) (l : List ModelVersion) (v : ModelVersion)
    → NumberedFrom k n l
    → v.version ≡ decimal (length l + n)
    → find_version v.version (l ++ v ∷ []) ≡ some v
unfolding find_version NumberedFrom
find-append k n [] v h number = ground (arith, string_comparable.equal_iff v.version v.version)
find-append k n (w ∷ l) v (own, num, rest) number = elim (Bool-cases (w.version == v.version)) [
  | inl hit ↦
      let same = (string_comparable.equal_iff w.version v.version).0 hit in
      let equal = decimal_injective n (length (w ∷ l) + n) (sym num ∙ (same ∙ number)) in
      absurd (omega arith)
  | inr miss ↦ rw miss (find-append k (suc n) l v rest (number ∙ ap decimal (omega arith)))
]

find-append_other :
    (version : String) (l : List ModelVersion) (v : ModelVersion)
    → version ≢ v.version
    → find_version version (l ++ v ∷ []) ≡ find_version version l
unfolding find_version
find-append_other version [] v other =
    ground (arith, string_comparable.equal_iff v.version version, other)
find-append_other version (w ∷ l) v other = rw (find-append_other version l v other) refl

abbrev Appended : {F : Type 0} → Mlflow F → Mlflow F → String → ModelVersion → Type 0
Appended m m' name v =
    (v.version ≡ decimal (length (versions_of m name) + 1))
    × (get_model_version m' name v.version ≡ ok v)
    × ((version : String)
        → version ≢ v.version
        → get_model_version m' name version ≡ get_model_version m name version)

with_version-Appended :
    {F : Type 0} (m : Mlflow F) (name : String) (now : ℕ) (model : RegisteredModel)
    (q : VersionRequest)
    → Dict.get m.models name ≡ some model
    → IsOrdered m
    → Appended m
        (with_version m name now model (new_version name (length (versions_of m name) + 1) q now))
        name
        (new_version name (length (versions_of m name) + 1) q now)
unfolding get_model_version version_locked found_version
with_version-Appended m name now model q there r =
    let v = new_version name (length (versions_of m name) + 1) q now in
    (
      refl,
      rw
          (
            Dict.get-put_same m.models name (touched now model),
            Dict.get-put_same m.versions name (versions_of m name ++ v ∷ []),
            find-append name 1 (versions_of m name) v (r.in_order name) refl,
          )
          refl,
      λ version other.
          rw
            (
              Dict.get-put_same m.models name (touched now model),
              Dict.get-put_same m.versions name (versions_of m name ++ v ∷ []),
              find-append_other version (versions_of m name) v other,
              there,
            )
            refl,
    )

version_created-Appended :
    {F : Type 0} (m : Mlflow F) (name : String) (q : VersionRequest) (now : ℕ) (wrote : Bool)
    (v : ModelVersion) (found : Option RegisteredModel)
    → Dict.get m.models name ≡ found
    → IsOrdered m
    → (version_created m name q now wrote found).1 ≡ ok v
    → Appended m (version_created m name q now wrote found).0 name v
unfolding version_created persist get_model_version version_locked
version_created-Appended m name q now wrote v none there r answered = absurd (cc answered)
version_created-Appended m name q now false v (some model) there r answered =
    (ground (arith, answered))
version_created-Appended m name q now true v (some model) there r answered =
    elim (Bool-cases (not (q.run_id == "") && not (is_some (Dict.get m.runs q.run_id)))) [
      | inl lost ↦ absurd (cc (rw lost at answered))
      | inr known ↦
          let made = new_version name (length (versions_of m name) + 1) q now in
          let same : made ≡ v = ground (arith, rw known at answered) in
          rw known (
            subst (λ w. Appended m (with_version m name now model made) name w) same
              (with_version-Appended m name now model q there r))
    ]

-- A version that is created in a registry whose versions are numbered has the next number, a lookup
-- of that number finds it, and every other version of the model is found as before.
pub create_model_version_appended :
    {F : Type 0} (m : Mlflow F) (name : String) (q : VersionRequest) (now : ℕ) (wrote : Bool)
    (v : ModelVersion)
    → IsOrdered m
    → (create_model_version m name q now wrote).1 ≡ ok v
    → (v.version ≡ decimal (length (versions_of m name) + 1))
      × (get_model_version (create_model_version m name q now wrote).0 name v.version ≡ ok v)
      × ((version : String)
          → version ≢ v.version
          → get_model_version (create_model_version m name q now wrote).0 name version
            ≡ get_model_version m name version)
unfolding create_model_version
create_model_version_appended m name q now wrote v r answered = elim (Bool-cases (blank name)) [
  | inl empty ↦ absurd (cc (rw empty at answered))
  | inr given ↦ elim (Bool-cases (blank q.source)) [
    | inl bare ↦ absurd (cc (rw (given, bare) at answered))
    | inr sourced ↦
        rw (given, sourced)
          (version_created-Appended m name q now wrote v (Dict.get m.models name) refl r
            (rw (given, sourced) at answered))
  ]
]
