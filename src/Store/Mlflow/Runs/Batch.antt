-- ===== src/Store/Mlflow/Runs/Batch.antt =====
-- internal/store/mlflow.go: what a batch writes, entry by entry, and where it stops.
use databricks_emulator.Base.{
  ◌≡◌, refl, ap, Bool, true, false, Option, none, some, List, [], ◌∷◌, ◌++◌, map, String, arith,
  if◌then◌else◌, Bool-cases, inl, inr,
}
use databricks_emulator.Base.Eq.{◌==◌, string_comparable}
use databricks_emulator.Base.Result.{Result, ok, err}
use databricks_emulator.Dict
use databricks_emulator.Store.Mlflow.{
  Mlflow, MlRun, MlMetric, MlParam, MlTag, MlError, ml_invalid, ml_exists, not_written, persist,
}
use databricks_emulator.Store.Mlflow.Runs.{
  log_batch, batching, change_run, changed, saved, done, run_locked, Change, in_turn, continued,
  blank, differs, run_name_tag, logging_param, logging_metric, setting_tag,
}

-- An entry of a batch.
pub data Entry (F : Type 0) : Type 0 where
  param_entry : (key value : String) → Entry F
  tag_entry : (key value : String) → Entry F
  metric_entry : MlMetric F → Entry F

module _ {F : Type 0} where
  -- A batch in the order in which it is written: parameters, then tags, then metrics.
  abbrev pub entries : List (MlMetric F) → List MlParam → List MlTag → List (Entry F)
  entries metrics params tags =
      map (λ (p : MlParam). param_entry p.key p.value) params
      ++ (map (λ (t : MlTag). tag_entry t.key t.value) tags ++ map metric_entry metrics)

  -- What an accepted entry does to a run.
  pub data Wrote (r : MlRun F) : Entry F → MlRun F → Type 0 where
    wrote_param :
        (key value : String)
        → blank key ≡ false
        → differs (Dict.get r.params key) value ≡ false
        → Wrote r (param_entry key value) (record r { params = Dict.put r.params key value })
    wrote_tag :
        (key value : String)
        → blank key ≡ false
        → Wrote r (tag_entry key value) (record r {
          tags = Dict.put r.tags key value;
          name = if key == run_name_tag then value else r.name;
        })
    wrote_metric :
        (point : MlMetric F)
        → blank point.key ≡ false
        → Wrote r (metric_entry point) (record r { metrics = r.metrics ++ point ∷ [] })

  -- Why an entry is refused.
  pub data Refused (r : MlRun F) : Entry F → MlError → Type 0 where
    blank_param :
        (key value : String)
        → blank key ≡ true
        → Refused r (param_entry key value) (ml_invalid "param key is required")
    other_value :
        (key value : String)
        → blank key ≡ false
        → differs (Dict.get r.params key) value ≡ true
        → Refused r (param_entry key value) (ml_exists key)
    blank_tag :
        (key value : String)
        → blank key ≡ true
        → Refused r (tag_entry key value) (ml_invalid "tag key is required")
    blank_metric :
        (point : MlMetric F)
        → blank point.key ≡ true
        → Refused r (metric_entry point) (ml_invalid "metric key is required")

  -- Every entry is written, one after the other.
  pub data Written : MlRun F → List (Entry F) → MlRun F → Type 0 where
    none_left : (r : MlRun F) → Written r [] r
    one_more :
        (r q t : MlRun F) (e : Entry F) (es : List (Entry F))
        → Wrote r e q
        → Written q es t
        → Written r (e ∷ es) t

  -- The entries before a refused one are written, and none behind it.
  pub data Stopped : MlRun F → List (Entry F) → MlRun F → MlError → Type 0 where
    stops :
        (r : MlRun F) (e : Entry F) (es : List (Entry F)) (error : MlError)
        → Refused r e error
        → Stopped r (e ∷ es) r error
    goes_on :
        (r q t : MlRun F) (e : Entry F) (es : List (Entry F)) (error : MlError)
        → Wrote r e q
        → Stopped q es t error
        → Stopped r (e ∷ es) t error

  abbrev OneTold : Entry F → MlRun F → MlRun F × Option MlError → Type 0
  OneTold e r (t, none) = Wrote r e t
  OneTold e r (t, some error) = (t ≡ r) × Refused r e error

  abbrev Told : List (Entry F) → MlRun F → MlRun F × Option MlError → Type 0
  Told es r (t, none) = Written r es t
  Told es r (t, some error) = Stopped r es t error

  abbrev change_of : Entry F → Change F
  change_of (param_entry key value) = logging_param key value
  change_of (tag_entry key value) = setting_tag key value
  change_of (metric_entry point) = logging_metric point

  change_of-OneTold : (e : Entry F) (r : MlRun F) → OneTold e r (change_of e r)
  unfolding logging_param setting_tag logging_metric
  change_of-OneTold (param_entry key value) r = elim (Bool-cases (blank key)) [
    | inl empty ↦ rw empty (refl, blank_param key value empty)
    | inr given ↦ elim (Bool-cases (differs (Dict.get r.params key) value)) [
      | inl other ↦ rw (given, other) (refl, other_value key value given other)
      | inr same ↦ rw (given, same) (wrote_param key value given same)
    ]
  ]
  change_of-OneTold (tag_entry key value) r = elim (Bool-cases (blank key)) [
    | inl empty ↦ rw empty (refl, blank_tag key value empty)
    | inr given ↦
        let wrote : Wrote r (tag_entry key value) (record r {
          tags = Dict.put r.tags key value;
          name = if key == run_name_tag then value else r.name;
        }) =
          wrote_tag key value given in
        elim (Bool-cases (key == run_name_tag)) [
          | inl names ↦ rw (given, names) (rw names at wrote)
          | inr plain ↦ rw (given, plain) (rw plain at wrote)
        ]
  ]
  change_of-OneTold (metric_entry point) r = elim (Bool-cases (blank point.key)) [
    | inl empty ↦ rw empty (refl, blank_metric point empty)
    | inr given ↦ rw given (wrote_metric point given)
  ]

  continued-Told :
      (e : Entry F) (es : List (Entry F)) (r : MlRun F) (step : MlRun F × Option MlError)
      (rest : Change F)
      → OneTold e r step
      → ((q : MlRun F) → Told es q (rest q))
      → Told (e ∷ es) r (continued step rest)
  unfolding continued
  continued-Told e es r (q, none) rest wrote more = rest_told (rest q) (more q)
    where
      rest_told : (step : MlRun F × Option MlError) → Told es q step → Told (e ∷ es) r step
      rest_told (t, none) told = one_more r q t e es wrote told
      rest_told (t, some error) told = goes_on r q t e es error wrote told
  continued-Told e es r (t, some error) rest (same, refused) more =
      rw same (stops r e es error refused)

  in_turn-Told : (es : List (Entry F)) (r : MlRun F) → Told es r (in_turn (map change_of es) r)
  unfolding in_turn
  in_turn-Told [] r = none_left r
  in_turn-Told (e ∷ es) r =
      continued-Told e es r (change_of e r) (in_turn (map change_of es)) (change_of-OneTold e r)
        (in_turn-Told es)

  map-change_of :
      {X : Type 0} (f : X → Entry F) (xs : List X) (es : List (Entry F))
      → map change_of (map f xs ++ es) ≡ map (λ x. change_of (f x)) xs ++ map change_of es
  map-change_of f [] es = refl
  map-change_of f (x ∷ xs) es = ap (λ l. change_of (f x) ∷ l) (map-change_of f xs es)

  map_metrics :
      (metrics : List (MlMetric F))
      → map change_of (map metric_entry metrics) ≡ map logging_metric metrics
  map_metrics [] = refl
  map_metrics (p ∷ metrics) = ap (λ l. logging_metric p ∷ l) (map_metrics metrics)

  batching-Told :
      (metrics : List (MlMetric F)) (params : List MlParam) (tags : List MlTag) (r : MlRun F)
      → Told (entries metrics params tags) r (batching metrics params tags r)
  unfolding batching
  batching-Told metrics params tags r =
      let params_first =
        map-change_of (λ (p : MlParam). param_entry p.key p.value) params
          (map (λ (t : MlTag). tag_entry t.key t.value) tags ++ map metric_entry metrics) in
      let tags_next =
        map-change_of (λ (t : MlTag). tag_entry t.key t.value) tags (map metric_entry metrics) in
      let told = in_turn-Told (entries metrics params tags) r in
      rw (params_first, tags_next, map_metrics metrics) at told

  -- What LogBatch leaves and answers for a run that is there.
  pub data Batched (m : Mlflow F) (id : String) (es : List (Entry F)) (wrote : Bool) (r : MlRun F)
      (t : Mlflow F) (answer : Result {0, 0} MlError Unit) : Type 0 where
    accepted :
        (q : MlRun F)
        → Written r es q
        → Dict.get t.runs id ≡ some q
        → answer ≡ (if wrote then ok tt else err not_written)
        → Batched m id es wrote r t answer
    refused :
        (q : MlRun F) (error : MlError)
        → Stopped r es q error
        → Dict.get t.runs id ≡ some q
        → answer ≡ err error
        → t.file ≡ m.file
        → Batched m id es wrote r t answer

  saved-Batched :
      (m : Mlflow F) (id : String) (es : List (Entry F)) (wrote : Bool) (r : MlRun F)
      (step : MlRun F × Option MlError) (after : Mlflow F)
      → Told es r step
      → Dict.get after.runs id ≡ some step.0
      → after.file ≡ m.file
      → Batched m id es wrote r
          (saved {0} after wrote done step).0
          (saved {0} after wrote done step).1
  unfolding saved persist
  saved-Batched m id es true r (q, none) after told at file = accepted q told at refl
  saved-Batched m id es false r (q, none) after told at file = accepted q told at refl
  saved-Batched m id es wrote r (q, some error) after told at file =
      refused q error told at refl file

  -- A batch on a run that is there is written in the order of parameters, tags and metrics, each
  -- entry on the run that those before it leave. Where every entry is accepted the answer says
  -- whether the file could be written. At the first entry that is refused the batch stops: the answer
  -- is the error of that entry, the file is as before, and the run in memory has what the entries
  -- before it wrote.
  pub log_batch_lem :
      (m : Mlflow F) (id : String) (metrics : List (MlMetric F)) (params : List MlParam)
      (tags : List MlTag) (wrote : Bool) (r : MlRun F)
      → run_locked m id ≡ ok r
      → Batched m id
          (entries metrics params tags)
          wrote
          r
          (log_batch m id metrics params tags wrote).0
          (log_batch m id metrics params tags wrote).1
  unfolding log_batch change_run changed
  log_batch_lem m id metrics params tags wrote r located =
      let step = batching metrics params tags r in
      rw located (
        saved-Batched m id (entries metrics params tags) wrote r step
          (record m { runs = Dict.put m.runs id step.0 }) (batching-Told metrics params tags r)
          (ground (arith, Dict.get-put m.runs id step.0 id, string_comparable.equal_iff id id))
          refl)
