-- ===== src/Tests/Mlflow.antt =====
-- The MLflow store with natural numbers for the values of metrics.
use databricks_emulator.Base.{
  ℕ, ◌+◌, ◌≡◌, ◌≢◌, refl, true, false, some, [], ◌∷◌, String, arith, All, or_else, length,
}
use databricks_emulator.Base.Eq.{string_comparable}
use databricks_emulator.Base.Result.{ok}
use databricks_emulator.Text.{trim_space, decimal}
use databricks_emulator.Dict
use databricks_emulator.Store.Mlflow.{Mlflow, MlMetric, MlRun, new_mlflow, persist, open_mlflow}
use databricks_emulator.Store.Mlflow.Experiments.Names.{
  IsCatalog, creates, apply, apply-IsCatalog, new_mlflow-IsCatalog,
}
use databricks_emulator.Store.Mlflow.Runs.{log_batch, run_locked}
use databricks_emulator.Store.Mlflow.Runs.Step.{step, logs_batch}
use databricks_emulator.Store.Mlflow.Runs.Params.{HasParam, step-HasParam}
use databricks_emulator.Store.Mlflow.Runs.Batch.{Batched, entries, log_batch_lem}
use databricks_emulator.Store.Mlflow.Registry.{
  VersionRequest, version_locked, find_version, update_version, staged, new_version, create_model,
  create_model_version, get_model_version, versions_of,
}
use databricks_emulator.Store.Mlflow.Registry.Stages.{
  Alone, moved_versions, transition_stage, transition_stage-Alone,
}
use databricks_emulator.Store.Mlflow.Registry.Step.{
  registry_step, creates_model, creates_version, moves_version,
}
use databricks_emulator.Store.Mlflow.Registry.Order.{
  IsOrdered, registry_step-IsOrdered, new_mlflow-IsOrdered,
}
use databricks_emulator.Store.Mlflow.Registry.Append.{create_model_version_appended}
use databricks_emulator.Store.Mlflow.Reopen.{IsKeyed, open_mlflow-persist}
use databricks_emulator.Base.{ltb, List, ◌-◌, ◌^◌}
use databricks_emulator.Store.Mlflow.Latest.{
  IsOrder, best_metrics, Latest, Covers, best_metrics_lem, lt64, same64,
}

abbrev nothing : Mlflow ℕ
nothing = new_mlflow

abbrev one_experiment : Mlflow ℕ
one_experiment = apply nothing (creates "iris" "" []) 7 true

abbrev test_run : MlRun ℕ
test_run = record {
  id = "r1";
  experiment_id = "1";
  name = "";
  user_id = "ana";
  status = "RUNNING";
  lifecycle = "active";
  artifact_uri = "dbfs:/databricks/mlflow-tracking/1/r1/artifacts";
  start_time = 7000;
  end_time = 0;
  metrics = [];
  params = Dict.put Dict.empty "lr" "0.1";
  tags = Dict.empty;
}

abbrev one_run : Mlflow ℕ
one_run = record nothing { runs = Dict.put Dict.empty "r1" test_run }

abbrev bad_point : MlMetric ℕ
bad_point = record { key = " "; value = 3; timestamp = 7000; step = 0 }

apply-IsCatalog_example : IsCatalog (apply nothing (creates " iris " "" []) 7 false)
unfolding new_mlflow
apply-IsCatalog_example =
    apply-IsCatalog nothing (creates " iris " "" []) 7 false (omega arith) new_mlflow-IsCatalog

-- The batch has the logged parameter with another value.
step-HasParam_example :
    HasParam "lr" "0.1"
      (step one_run (logs_batch "r1" [] (record { key = "lr"; value = "0.2" } ∷ []) []) 8 true)
      "r1"
unfolding Dict.get Dict.put Dict.empty
step-HasParam_example =
    step-HasParam "lr" "0.1" one_run
      (logs_batch "r1" [] (record { key = "lr"; value = "0.2" } ∷ []) []) 8 true "r1" tt
      (test_run, refl, refl)

-- The parameter is written before the metric without a key is refused.
log_batch_lem_example :
    Batched one_run "r1"
      (entries (bad_point ∷ []) (record { key = "depth"; value = "3" } ∷ []) [])
      true
      test_run
      (log_batch one_run "r1"
        (bad_point ∷ [])
        (record { key = "depth"; value = "3" } ∷ [])
        []
        true).0
      (log_batch one_run "r1"
        (bad_point ∷ [])
        (record { key = "depth"; value = "3" } ∷ [])
        []
        true).1
unfolding Dict.get Dict.put Dict.empty run_locked
log_batch_lem_example =
    log_batch_lem one_run "r1" (bad_point ∷ []) (record { key = "depth"; value = "3" } ∷ []) [] true
      test_run refl

abbrev forest : VersionRequest
forest = record {
  source = "dbfs:/m";
  run_id = "";
  run_link = "";
  description = "";
  user_id = "ana";
  tags = [];
}

abbrev one_model : Mlflow ℕ
one_model = registry_step nothing (creates_model "iris" "" "ana" []) 7 true

abbrev two_versions : Mlflow ℕ
two_versions =
    registry_step (registry_step one_model (creates_version "iris" forest) 8 true)
      (creates_version "iris" forest) 9 true

abbrev first_staged : Mlflow ℕ
first_staged = registry_step two_versions (moves_version "iris" "1" "Staging" false) 10 true

two_versions-IsOrdered : IsOrdered two_versions
two_versions-IsOrdered =
    registry_step-IsOrdered (registry_step one_model (creates_version "iris" forest) 8 true)
      (creates_version "iris" forest) 9 true
      (registry_step-IsOrdered one_model (creates_version "iris" forest) 8 true (
        registry_step-IsOrdered nothing (creates_model "iris" "" "ana" []) 7 true
          (new_mlflow-IsOrdered ℕ)))

registry_step-IsOrdered_example :
    IsOrdered (registry_step two_versions (moves_version "iris" "2" "Staging" true) 10 true)
registry_step-IsOrdered_example =
    registry_step-IsOrdered two_versions (moves_version "iris" "2" "Staging" true) 10 true
      two_versions-IsOrdered

-- The second version goes to the stage of the first.
transition_stage-Alone_example :
    All
      (Alone "2" "Staging")
      (versions_of (transition_stage first_staged "iris" "2" "Staging" true 11 true).0 "iris")
    × (get_model_version
          (transition_stage first_staged "iris" "2" "Staging" true 11 true).0
          "iris"
          "2"
        ≡ ok (staged "Staging" 11 (new_version "iris" 2 forest 9)))
    × (◌≡◌ {A = String} "Staging" "Staging")
unfolding transition_stage version_locked Dict.get registry_step create_model_version trim_space
    create_model new_mlflow Dict.empty persist Dict.put find_version decimal moved_versions
    update_version
transition_stage-Alone_example =
    transition_stage-Alone first_staged "iris" "2" "Staging" 11 true
      (staged "Staging" 11 (new_version "iris" 2 forest 9)) refl

create_model_version_appended_example :
    ((new_version "iris" 3 forest 10).version
      ≡ decimal (length (versions_of two_versions "iris") + 1))
    × (get_model_version (create_model_version two_versions "iris" forest 10 true).0 "iris" "3"
        ≡ ok (new_version "iris" 3 forest 10))
    × ((version : String)
        → ◌≢◌ {A = String} version "3"
        → get_model_version
            (create_model_version two_versions "iris" forest 10 true).0
            "iris"
            version
          ≡ get_model_version two_versions "iris" version)
unfolding transition_stage version_locked Dict.get registry_step create_model_version trim_space
    create_model new_mlflow Dict.empty persist Dict.put find_version decimal moved_versions
    update_version
create_model_version_appended_example =
    create_model_version_appended two_versions "iris" forest 10 true
      (new_version "iris" 3 forest 10) two_versions-IsOrdered refl

run-IsKeyed : IsKeyed one_run
unfolding Dict.get Dict.empty new_mlflow
run-IsKeyed = record {
  by_id = λ k e at. absurd (cc at);
  by_run = λ k r at. ground (
    arith,
    at,
    Dict.get-put (Dict.empty {K = String}) "r1" test_run k,
    string_comparable.equal_iff "r1" k,
  );
  by_name = λ k x at. absurd (cc at);
  by_model = λ k l at. absurd (cc at);
}

open_mlflow-persist_example :
    ((open_mlflow (persist one_run true true).0).next_exp ≡ one_run.next_exp)
    × ((k : String)
        → (Dict.get (open_mlflow (persist one_run true true).0).experiments k
            ≡ Dict.get one_run.experiments k)
          × (Dict.get (open_mlflow (persist one_run true true).0).runs k ≡ Dict.get one_run.runs k)
          × (Dict.get (open_mlflow (persist one_run true true).0).models k
              ≡ Dict.get one_run.models k)
          × (or_else (Dict.get (open_mlflow (persist one_run true true).0).versions k) []
              ≡ or_else (Dict.get one_run.versions k) []))
open_mlflow-persist_example = open_mlflow-persist one_run true run-IsKeyed

-- Natural numbers are ordered.
above-IsOrder : IsOrder {F = ℕ} (λ x y. ltb y x)
above-IsOrder = record { one_way = λ x y h. ground arith; not_greater = λ x y z h g. ground arith }

abbrev loss : ℕ → ℕ → MlMetric ℕ
loss value timestamp = record { key = "loss"; value = value; timestamp = timestamp; step = 0 }

abbrev losses : List (MlMetric ℕ)
losses = loss 5 100 ∷ loss 3 200 ∷ loss 4 200 ∷ loss 9 (2 ^ 64 - 1) ∷ []

-- The last point has a time before 1970.
best_loss : Dict.get (best_metrics (λ x y. ltb y x) Dict.empty losses) "loss" ≡ some (loss 4 200)
unfolding best_metrics Dict.get Dict.empty Dict.put lt64 same64
best_loss = refl

best_metrics_lem_example :
    Latest (λ x y. ltb y x) (best_metrics (λ x y. ltb y x) Dict.empty losses) losses
    × Covers (λ x y. ltb y x) (best_metrics (λ x y. ltb y x) Dict.empty losses) losses
best_metrics_lem_example = best_metrics_lem (λ x y. ltb y x) above-IsOrder losses
