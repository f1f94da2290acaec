-- ===== src/Store/Mlflow/Runs/Changes.antt =====
-- internal/store/mlflow.go: what the operations on runs make of a run.
use databricks_emulator.Base.{
  ℕ, ◌^◌, Bool, false, ◌&&◌, ◌||◌, not, Option, none, some, List, [], ◌∷◌, ◌++◌, String,
  if◌then◌else◌, ltb, map,
}
use databricks_emulator.Base.Eq.{◌==◌, string_comparable, nat_comparable}
use databricks_emulator.Text.{trim_space}
use databricks_emulator.Dict
use databricks_emulator.Dict.{Dict}
use databricks_emulator.Store.Mlflow.{
  MlRun, MlTag, MlMetric, MlParam, MlError, ml_exists, ml_not_found, ml_invalid, ms,
}

abbrev pub run_name_tag : String
run_name_tag = "mlflow.runName"

-- The statuses that end a run, and all of them.
abbrev pub is_over : String → Bool
is_over status = status == "FINISHED" || (status == "FAILED" || status == "KILLED")

abbrev pub is_status : String → Bool
is_status status = status == "RUNNING" || (status == "SCHEDULED" || is_over status)

-- A positive int64.
abbrev pub positive : ℕ → Bool
positive t = ltb 0 t && ltb t (2 ^ 63)

-- The map that a list of tags makes, and the name that it gives to a run without one.
unfoldable pub tag_map : Dict String String → List MlTag → Dict String String
tag_map d [] = d
tag_map d (t ∷ tags) = tag_map (Dict.put d t.key t.value) tags

unfoldable pub name_from : String → List MlTag → String
name_from name [] = name
name_from name (t ∷ tags) =
    name_from (if t.key == run_name_tag && name == "" then t.value else name) tags

abbrev pub blank : String → Bool
blank key = trim_space key == ""

-- A value that is stored under the key already and is another one.
abbrev pub differs : Option String → String → Bool
differs none value = false
differs (some old) value = not (old == value)

-- What an operation makes of the run: the run that it leaves, and the error of a refusal.
abbrev pub Change : Type 0 → Type 0
Change F = MlRun F → MlRun F × Option MlError

module _ {F : Type 0} where
  abbrev pub with_name : MlRun F → String → MlRun F
  with_name r name =
      if name == "" then r else record r { name = name; tags = Dict.put r.tags run_name_tag name }

  abbrev pub with_end : MlRun F → String → ℕ → ℕ → MlRun F
  with_end r status end_time now =
      if positive end_time
      then record r { end_time = end_time }
      else if is_over status
      then record r { end_time = ms now }
      else r

  -- An empty status leaves the one that is there.
  unfoldable pub updating : String → String → ℕ → ℕ → Change F
  updating status name end_time now r =
      if status == ""
      then (with_name (with_end r status end_time now) name, none)
      else if is_status status
      then (with_name (with_end (record r { status = status }) status end_time now) name, none)
      else (r, some (ml_invalid status))

  abbrev pub moving : String → Change F
  moving lifecycle r = (record r { lifecycle = lifecycle }, none)

  unfoldable pub logging_metric : MlMetric F → Change F
  logging_metric point r =
      if blank point.key
      then (r, some (ml_invalid "metric key is required"))
      else (record r { metrics = r.metrics ++ point ∷ [] }, none)

  unfoldable pub logging_param : String → String → Change F
  logging_param key value r =
      if blank key
      then (r, some (ml_invalid "param key is required"))
      else if differs (Dict.get r.params key) value
      then (r, some (ml_exists key))
      else (record r { params = Dict.put r.params key value }, none)

  unfoldable pub setting_tag : String → String → Change F
  setting_tag key value r =
      if blank key
      then (r, some (ml_invalid "tag key is required"))
      else if key == run_name_tag
      then (record r { tags = Dict.put r.tags key value; name = value }, none)
      else (record r { tags = Dict.put r.tags key value }, none)

  unfoldable pub tag_dropped : String → MlRun F → Option String → MlRun F × Option MlError
  tag_dropped key r none = (r, some (ml_not_found key))
  tag_dropped key r (some value) = (record r { tags = Dict.remove r.tags key }, none)

  unfoldable pub dropping_tag : String → Change F
  unfolding tag_dropped
  dropping_tag key r = tag_dropped key r (Dict.get r.tags key)

  unfoldable pub continued : MlRun F × Option MlError → Change F → MlRun F × Option MlError
  continued (r, none) rest = rest r
  continued (r, some e) rest = (r, some e)

  -- One change after another, until one refuses.
  unfoldable pub in_turn : List (Change F) → Change F
  unfolding continued
  in_turn [] r = (r, none)
  in_turn (f ∷ fs) r = continued (f r) (in_turn fs)

  -- The loops of LogBatch: parameters, then tags, then metrics.
  unfoldable pub batching : List (MlMetric F) → List MlParam → List MlTag → Change F
  unfolding in_turn
  batching metrics params tags r =
      in_turn
        (map (λ (p : MlParam). logging_param p.key p.value) params
          ++ (map (λ (t : MlTag). setting_tag t.key t.value) tags ++ map logging_metric metrics))
        r
