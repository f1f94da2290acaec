-- ===== src/Store/Mlflow/Runs/Params.antt =====
-- internal/store/mlflow.go: a parameter is logged once.
use databricks_emulator.Base.{
  ℕ, ◌≡◌, ap, ◌∙◌, Bool, true, false, Option, none, some, List, [], ◌∷◌, ◌++◌, map, String, arith,
  Bool-cases, Option-cases, inl, inr, if◌then◌else◌, All, subst,
}
use databricks_emulator.Base.Eq.{◌==◌, string_comparable, nat_comparable}
use databricks_emulator.Dict
use databricks_emulator.Store.Mlflow.{
  Mlflow, MlRun, MlMetric, MlParam, MlTag, MlError, Experiment, persist, ml_active, ml_deleted, ms,
}
use databricks_emulator.Store.Mlflow.Runs.Step.{
  Op, creates, updates, deletes, restores, logs_metric, logs_param, sets_tag, drops_tag, logs_batch,
  IsFresh, step,
}
use databricks_emulator.Store.Mlflow.Runs.{
  keyed_change, done, new_run, name_from, Change, change_run, changed, saved, run_locked, found_run,
  in_turn, continued, logging_param, logging_metric, setting_tag, dropping_tag, tag_dropped,
  batching, updating, moving, blank, differs, create_ml_run, run_created, update_ml_run,
  delete_ml_run, restore_ml_run, log_metric, log_param, set_tag, delete_tag, log_batch,
}

module _ {F : Type 0} (key value : String) where
  abbrev pub Logged : MlRun F → Type 0
  Logged r = Dict.get r.params key ≡ some value

  abbrev Keeps : Change F → Type 0
  Keeps f = (r : MlRun F) → Logged r → Logged (f r).0

  Logged-again :
      (k v : String) (r : MlRun F)
      → Logged r
      → differs (Dict.get r.params k) v ≡ false
      → (if k == key then some v else Dict.get r.params key) ≡ some value
  Logged-again k v r h same = elim (Bool-cases (k == key)) [
    | inl hit ↦
        let there : Dict.get r.params k ≡ some value =
          ap (Dict.get r.params) ((string_comparable.equal_iff k key).0 hit) ∙ h in
        rw hit (ground (arith, rw there at same, string_comparable.equal_iff value v))
    | inr miss ↦ rw miss h
  ]

  logging_param-Keeps : (k v : String) → Keeps (logging_param k v)
  unfolding logging_param
  logging_param-Keeps k v r h = elim (Bool-cases (blank k)) [
    | inl empty ↦ rw empty h
    | inr given ↦ elim (Bool-cases (differs (Dict.get r.params k) v)) [
      | inl other ↦ rw (given, other) h
      | inr same ↦ rw (given, same, Dict.get-put r.params k v key) (Logged-again k v r h same)
    ]
  ]

  logging_metric-Keeps : (p : MlMetric F) → Keeps (logging_metric p)
  unfolding logging_metric
  logging_metric-Keeps p r h = ground arith

  setting_tag-Keeps : (k v : String) → Keeps (setting_tag k v)
  unfolding setting_tag
  setting_tag-Keeps k v r h = ground arith

  dropping_tag-Keeps : (k : String) → Keeps (dropping_tag k)
  unfolding dropping_tag
  dropping_tag-Keeps k r h = elim (Option-cases (Dict.get r.tags k)) [
    | inl e ↦ rw (e, tag_dropped) h
    | inr (v, e) ↦ rw (e, tag_dropped) h
  ]

  updating-Keeps :
      (status name : String) (end_time now : ℕ) → Keeps (updating status name end_time now)
  unfolding updating
  updating-Keeps status name end_time now r h = ground arith

  continued-Logged :
      (step : MlRun F × Option MlError) (rest : Change F)
      → Keeps rest
      → Logged step.0
      → Logged (continued step rest).0
  unfolding continued
  continued-Logged (r, none) rest keeps h = keeps r h
  continued-Logged (r, some e) rest keeps h = h

  in_turn-Keeps : (fs : List (Change F)) → All Keeps fs → Keeps (in_turn fs)
  unfolding in_turn
  in_turn-Keeps [] all r h = h
  in_turn-Keeps (f ∷ fs) all r h =
      continued-Logged (f r) (in_turn fs) (in_turn-Keeps fs all.1) (all.0 r h)

  All-map-Keeps :
      {X : Type 0} (f : X → Change F) (xs : List X)
      → ((x : X) → Keeps (f x))
      → (gs : List (Change F)) → All Keeps gs
      → All Keeps (map f xs ++ gs)
  All-map-Keeps f [] keeps gs all = all
  All-map-Keeps f (x ∷ xs) keeps gs all = (keeps x, All-map-Keeps f xs keeps gs all)

  metrics-Keep : (metrics : List (MlMetric F)) → All Keeps (map logging_metric metrics)
  metrics-Keep [] = tt
  metrics-Keep (p ∷ metrics) = (logging_metric-Keeps p, metrics-Keep metrics)

  batching-Keeps :
      (metrics : List (MlMetric F)) (params : List MlParam) (tags : List MlTag)
      → Keeps (batching metrics params tags)
  unfolding batching
  batching-Keeps metrics params tags =
      in_turn-Keeps
        (map (λ (p : MlParam). logging_param p.key p.value) params
          ++ (map (λ (t : MlTag). setting_tag t.key t.value) tags ++ map logging_metric metrics))
        (All-map-Keeps (λ (p : MlParam). logging_param p.key p.value) params
          (λ p. logging_param-Keeps p.key p.value)
          (map (λ (t : MlTag). setting_tag t.key t.value) tags ++ map logging_metric metrics)
          (All-map-Keeps (λ (t : MlTag). setting_tag t.key t.value) tags
            (λ t. setting_tag-Keeps t.key t.value) (map logging_metric metrics)
            (metrics-Keep metrics)))

  -- Some run of the id has the parameter.
  abbrev pub HasParam : Mlflow F → String → Type 0
  HasParam m id = (r : MlRun F) × (Dict.get m.runs id ≡ some r) × Logged r

  persist-HasParam {ℓ} :
      {A : Type ℓ} (m : Mlflow F) (wrote : Bool) (answer : A) (id : String)
      → HasParam m id
      → HasParam (persist m wrote answer).0 id
  unfolding persist
  persist-HasParam m true answer id h = h
  persist-HasParam m false answer id h = h

  saved-HasParam {ℓ} :
      {A : Type ℓ} (m : Mlflow F) (wrote : Bool) (answer : MlRun F → A)
      (step : MlRun F × Option MlError) (id : String)
      → HasParam m id
      → HasParam (saved m wrote answer step).0 id
  unfolding saved
  saved-HasParam m wrote answer (r, none) id h = persist-HasParam m wrote (answer r) id h
  saved-HasParam m wrote answer (r, some e) id h = h

  change_run-HasParam {ℓ} :
      {A : Type ℓ} (m : Mlflow F) (i : String) (wrote : Bool) (answer : MlRun F → A) (f : Change F)
      (id : String)
      → Keeps f
      → HasParam m id
      → HasParam (change_run m i wrote answer f).0 id
  unfolding change_run changed run_locked found_run
  change_run-HasParam m i wrote answer f id keeps (r, at, logged) =
      elim (Bool-cases (◌==◌ {K = String} i "")) [
        | inl empty ↦ rw empty (r, at, logged)
        | inr named ↦ elim (Option-cases (Dict.get m.runs i)) [
          | inl e ↦ rw (named, e) (r, at, logged)
          | inr (q, e) ↦
              rw (named, e)
                (saved-HasParam (record m { runs = Dict.put m.runs i (f q).0 }) wrote answer (f q)
                  id
                  (elim (Bool-cases (i == id)) [
                    | inl hit ↦
                        let same : r ≡ q =
                          ground (arith, string_comparable.equal_iff i id, at, e) in
                        (
                          (f q).0,
                          ground (arith, Dict.get-put m.runs i (f q).0 id),
                          keeps q (subst Logged same logged),
                        )
                    | inr miss ↦ (r, ground (arith, Dict.get-put m.runs i (f q).0 id, at), logged)
                  ]))
        ]
      ]

  keyed-HasParam :
      (k message : String) (m : Mlflow F) (i : String) (wrote : Bool) (f : Change F) (id : String)
      → Keeps f
      → HasParam m id
      → HasParam (keyed_change k message m i wrote f).0 id
  keyed-HasParam k message m i wrote f id keeps h = elim (Bool-cases (blank k)) [
    | inl empty ↦ rw empty h
    | inr given ↦ rw given (change_run-HasParam m i wrote done f id keeps h)
  ]

  created-HasParam :
      (m : Mlflow F) (experiment_id name user : String) (start : ℕ) (tags : List MlTag) (now : ℕ)
      (new : Option String) (wrote : Bool) (id : String) (found : Option Experiment)
      → IsFresh m (creates experiment_id name user start tags new)
      → HasParam m id
      → HasParam (run_created m experiment_id name user start tags now new wrote found).0 id
  unfolding run_created
  created-HasParam m x name user start tags now new wrote id none fresh h = h
  created-HasParam m x name user start tags now none wrote id (some e) fresh h =
      elim (Bool-cases (◌==◌ {K = String} e.lifecycle ml_active)) [
        | inl active ↦ rw active h
        | inr gone ↦ rw gone h
      ]
  created-HasParam m x name user start tags now (some new) wrote id (some e) fresh h =
      elim (Bool-cases (◌==◌ {K = String} e.lifecycle ml_active)) [
        | inr gone ↦ rw gone h
        | inl active ↦
            let (r, at, logged) = h in
            rw active (
              persist-HasParam _ wrote _ id (
                r,
                ground (
                  arith,
                  at,
                  fresh,
                  Dict.get-put m.runs new
                      (new_run new x e (name_from name tags) user
                        (if start == 0 then ms now else start) tags)
                      id,
                  string_comparable.equal_iff new id,
                ),
                logged,
              ))
      ]

  -- A parameter of a run, once logged, has the same value after every operation on runs, refused
  -- or not, saved or not.
  pub step-HasParam :
      (m : Mlflow F) (o : Op F) (now : ℕ) (wrote : Bool) (id : String)
      → IsFresh m o
      → HasParam m id
      → HasParam (step m o now wrote) id
  unfolding step create_ml_run update_ml_run delete_ml_run restore_ml_run log_metric log_param
      set_tag delete_tag log_batch
  step-HasParam m (creates x name user start tags new) now wrote id fresh h =
      elim (Bool-cases (◌==◌ {K = String} x "")) [
        | inl empty ↦ rw (step, empty) h
        | inr named ↦
            rw (step, named)
              (created-HasParam m x name user start tags now new wrote id (Dict.get m.experiments x)
                fresh h)
      ]
  step-HasParam m (updates i status name end_time) now wrote id fresh h =
      change_run-HasParam m i wrote (λ r. r) (updating status name end_time now) id
        (updating-Keeps status name end_time now) h
  step-HasParam m (deletes i) now wrote id fresh h =
      change_run-HasParam m i wrote done (moving ml_deleted) id (λ r logged. logged) h
  step-HasParam m (restores i) now wrote id fresh h =
      change_run-HasParam m i wrote done (moving ml_active) id (λ r logged. logged) h
  step-HasParam m (logs_metric i p) now wrote id fresh h =
      keyed-HasParam p.key "metric key is required" m i wrote (logging_metric p) id
        (logging_metric-Keeps p) h
  step-HasParam m (logs_param i k v) now wrote id fresh h =
      keyed-HasParam k "param key is required" m i wrote (logging_param k v) id
        (logging_param-Keeps k v) h
  step-HasParam m (sets_tag i k v) now wrote id fresh h =
      keyed-HasParam k "tag key is required" m i wrote (setting_tag k v) id (setting_tag-Keeps k v)
        h
  step-HasParam m (drops_tag i k) now wrote id fresh h =
      change_run-HasParam m i wrote done (dropping_tag k) id (dropping_tag-Keeps k) h
  step-HasParam m (logs_batch i metrics params tags) now wrote id fresh h =
      change_run-HasParam m i wrote done (batching metrics params tags) id
        (batching-Keeps metrics params tags) h
