-- ===== src/Store/Mlflow/Registry/Numbering.antt =====
-- internal/store/mlflow.go: the versions of a model are numbered from 1.
use databricks_emulator.Base.{
  ℕ, suc, ◌+◌, ◌≡◌, refl, sym, ap, ◌∙◌, true, none, some, List, [], ◌∷◌, ◌++◌, map, String, arith,
  Bool-cases, inl, inr, or_else, is_some, length, subst,
}
use databricks_emulator.Base.Eq.{◌==◌, string_comparable}
use databricks_emulator.Text.{decimal}
use databricks_emulator.Dict
use databricks_emulator.Dict.{Dict}
use databricks_emulator.Store.Mlflow.{RegisteredModel, ModelVersion}
use databricks_emulator.Store.Mlflow.Registry.{update_version}

-- The versions of the model `k`, numbered one after another from `n`.
unfoldable pub NumberedFrom : String → ℕ → List ModelVersion → Type 0
NumberedFrom k n [] = Unit
NumberedFrom k n (v ∷ l) = (v.name ≡ k) × (v.version ≡ decimal n) × NumberedFrom k (suc n) l

pub NumberedFrom-map :
    (f : ModelVersion → ModelVersion) (k j : String)
    → ((v : ModelVersion) → v.name ≡ k → ((f v).name ≡ j) × ((f v).version ≡ v.version))
    → (n : ℕ) (l : List ModelVersion) → NumberedFrom k n l
    → NumberedFrom j n (map f l)
unfolding NumberedFrom
NumberedFrom-map f k j keeps n [] h = tt
NumberedFrom-map f k j keeps n (v ∷ l) (named, number, rest) =
    let (name, version) = keeps v named in
    (name, version ∙ number, NumberedFrom-map f k j keeps (suc n) l rest)

pub NumberedFrom-update :
    (f : ModelVersion → ModelVersion) (version k : String)
    → ((v : ModelVersion) → ((f v).name ≡ v.name) × ((f v).version ≡ v.version))
    → (n : ℕ) (l : List ModelVersion) → NumberedFrom k n l
    → NumberedFrom k n (update_version version f l)
unfolding NumberedFrom update_version
NumberedFrom-update f version k keeps n [] h = tt
NumberedFrom-update f version k keeps n (v ∷ l) (named, number, rest) =
    elim (Bool-cases (v.version == version)) [
      | inl hit ↦ rw hit ((keeps v).0 ∙ named, (keeps v).1 ∙ number, rest)
      | inr miss ↦ rw miss (named, number, NumberedFrom-update f version k keeps (suc n) l rest)
    ]

pub NumberedFrom-append :
    (k : String) (n : ℕ) (l : List ModelVersion) (v : ModelVersion)
    → NumberedFrom k n l
    → v.name ≡ k
    → v.version ≡ decimal (length l + n)
    → NumberedFrom k n (l ++ v ∷ [])
unfolding NumberedFrom
NumberedFrom-append k n [] v h named number = (named, number ∙ ap decimal (omega arith), tt)
NumberedFrom-append k n (w ∷ l) v (own, num, rest) named number =
    (own, num, NumberedFrom-append k (suc n) l v rest named (number ∙ ap decimal (omega arith)))

abbrev pub versions_at : Dict String (List ModelVersion) → String → List ModelVersion
versions_at versions k = or_else (Dict.get versions k) []

-- Models stand under their own names; only a model has versions, and they are numbered from 1.
pub record IsRegistry (models : Dict String RegisteredModel)
    (versions : Dict String (List ModelVersion)) : Type 0 where
  pub keyed : (k : String) (m : RegisteredModel) → Dict.get models k ≡ some m → m.name ≡ k
  pub owned : (k : String) → Dict.get models k ≡ none → versions_at versions k ≡ []
  pub in_order : (k : String) → NumberedFrom k 1 (versions_at versions k)

pub put_model-IsRegistry :
    (models : Dict String RegisteredModel) (versions : Dict String (List ModelVersion)) (k : String)
    (m : RegisteredModel)
    → m.name ≡ k
    → IsRegistry models versions
    → IsRegistry (Dict.put models k m) versions
put_model-IsRegistry models versions k m own r = record {
  keyed = λ j w at.
      ground (arith, r.keyed j w, Dict.get-put models k m j, string_comparable.equal_iff k j);
  owned = λ j gone. r.owned j (ground (arith, Dict.get-put models k m j, gone));
  in_order = r.in_order;
}

pub put_versions-IsRegistry :
    (models : Dict String RegisteredModel) (versions : Dict String (List ModelVersion)) (k : String)
    (l : List ModelVersion)
    → is_some (Dict.get models k) ≡ true
    → NumberedFrom k 1 l
    → IsRegistry models versions
    → IsRegistry models (Dict.put versions k l)
put_versions-IsRegistry models versions k l there order r = record {
  keyed = r.keyed;
  owned = λ j gone. elim (Bool-cases (k == j)) [
    | inl hit ↦
        absurd (ground (arith, rw (sym ((string_comparable.equal_iff k j).0 hit)) at gone, there))
    | inr miss ↦ rw (Dict.get-put versions k l j, miss) (r.owned j gone)
  ];
  in_order = λ j. elim (Bool-cases (k == j)) [
    | inl hit ↦
        rw (Dict.get-put versions k l j, hit)
          (subst (λ i. NumberedFrom i 1 l) ((string_comparable.equal_iff k j).0 hit) order)
    | inr miss ↦ rw (Dict.get-put versions k l j, miss) (r.in_order j)
  ];
}

pub remove-IsRegistry :
    (models : Dict String RegisteredModel) (versions : Dict String (List ModelVersion)) (k : String)
    → IsRegistry models versions
    → IsRegistry (Dict.remove models k) (Dict.remove versions k)
unfolding NumberedFrom
remove-IsRegistry models versions k r = record {
  keyed = λ j w at. r.keyed j w (ground (arith, Dict.get-remove models k j));
  owned = λ j gone. elim (Bool-cases (k == j)) [
    | inl hit ↦ rw (Dict.get-remove versions k j, hit) refl
    | inr miss ↦
        rw (Dict.get-remove versions k j, miss)
          (r.owned j (ground (arith, Dict.get-remove models k j, gone)))
  ];
  in_order = λ j. elim (Bool-cases (k == j)) [
    | inl hit ↦ rw (Dict.get-remove versions k j, hit) tt
    | inr miss ↦ rw (Dict.get-remove versions k j, miss) (r.in_order j)
  ];
}
