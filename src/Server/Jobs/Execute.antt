-- ===== src/Server/Jobs/Execute.antt =====
-- internal/server/jobs.go: `executeRun`.
--
-- `levels` counts the nested runs that are still possible; where none is left, `bottom` stands for
-- a run that goes on without end. `Execute.Depth` proves that it is never reached.
pub mod Depth
pub mod Published
pub mod Settled
pub mod Summary
use databricks_emulator.Base.{
  ℕ, zero, suc, ◌+◌, Bool, true, false, ◌||◌, Option, none, some, List, [], ◌∷◌, String, ◌<>◌,
  if◌then◌else◌,
}
use databricks_emulator.Base.Eq.{◌==◌, string_comparable}
use databricks_emulator.Dict
use databricks_emulator.Dict.{Dict}
use databricks_emulator.Store.Jobs.{
  Job, Task, TaskRun, Run, spec, report, update_run, get_run, tasks_now, result_canceled,
}
use databricks_emulator.Server.Jobs.Conditions.{Floats}
use databricks_emulator.Server.Jobs.Dependencies.{Results, result_of}
use databricks_emulator.Server.Jobs.Waves.{
  Progress, Outcome, finished, interrupted, out_of_fuel, initial, rounds,
}
use databricks_emulator.Server.Jobs.World.{World, Services}
use databricks_emulator.Server.Jobs.Tasks.{run_task}

-- The loop over the job's tasks at the end.
unfoldable pub collect_runs : List Task → Results → List TaskRun
collect_runs [] results = []
collect_runs (t ∷ ts) results = result_of results (spec t).key ∷ collect_runs ts results

unfoldable pub any_failed : List TaskRun → Bool
any_failed [] = false
any_failed (r ∷ rs) = (report r).result_state == "FAILED" || any_failed rs

unfoldable pub stdout_of : List TaskRun → String
stdout_of [] = ""
stdout_of (r ∷ rs) = (report r).stdout <> stdout_of rs

unfoldable pub stderr_of : List TaskRun → String
stderr_of [] = ""
stderr_of (r ∷ rs) = (report r).stderr <> stderr_of rs

-- The run that is published when the loop has ended.
unfoldable pub summary : Run → List Task → Results → Run
unfolding collect_runs any_failed stdout_of stderr_of
summary run tasks results =
    let runs = collect_runs tasks results in
    record run {
      tasks = runs;
      stdout = stdout_of runs;
      stderr = stderr_of runs;
      life_cycle = "TERMINATED";
      result_state = if any_failed runs then "FAILED" else "SUCCESS";
    }

abbrev pub started : Run → Run
started run = record run {
  life_cycle = "RUNNING";
  executed_by = "the emulator's Spark engine, not a Databricks cluster";
}

abbrev pub no_engine : Run → Run
no_engine run = record run {
  life_cycle = "TERMINATED";
  result_state = "FAILED";
  state_message = "no Spark engine is attached — set DATABRICKS_SPARK_CONNECT_URL";
}

is_canceled : Option Run → Bool
is_canceled none = false
is_canceled (some r) = r.result_state == result_canceled

module _ {E : Type 0} where
  unfoldable pub publish : Run → World E → World E
  publish run w = record w { jobs = update_run w.jobs run }

  -- runCancelled
  unfoldable pub run_cancelled : ℕ → World E → Bool
  unfolding is_canceled
  run_cancelled id w = is_canceled (get_run w.jobs id)

  -- What follows the loop. The job is read through its pointer.
  unfoldable pub conclude : Run → Job → Outcome (World E) → World E → World E
  unfolding publish summary
  conclude run job (finished results w) before =
      publish (summary run (tasks_now w.jobs job) results) w
  conclude run job (interrupted w) before = w
  conclude run job out_of_fuel before = before

module _ (fl : Floats) {E : Type 0} (sv : Services E) where
  -- The loop over the tasks, each run by `runner`. It has fuel for more rounds than tasks.
  unfoldable pub run_all :
      (Task → World E → TaskRun × World E) → List Task → ℕ → World E → Outcome (World E)
  unfolding rounds initial run_cancelled
  run_all runner tasks id w =
      let start = initial tasks Dict.empty in
      rounds fl runner (run_cancelled id) (suc (Dict.size start))
        (record { remaining = start; results = Dict.empty; world = w })

  -- The loop, for the runs that child jobs are given by `child`.
  unfoldable pub run_waves :
      (Job → Run → ℕ → World E → World E) → List Task → ℕ → ℕ → World E → Outcome (World E)
  unfolding run_all run_task
  run_waves child tasks id depth w = run_all (λ t. run_task sv child t depth) tasks id w

  unfoldable pub execute_with :
      (Job → Run → ℕ → World E → World E) → Job → Run → ℕ → World E → World E
  unfolding run_waves publish conclude
  execute_with child job run depth w =
      let run' = started run in
      let w' = publish run' w in
      if sv.attached
      then conclude run' job (run_waves child (tasks_now w'.jobs job) run.id depth w') w'
      else publish (no_engine run') w'

module _ (fl : Floats) {E : Type 0} (sv : Services E)
    (bottom : Job → Run → ℕ → World E → World E) where
  unfoldable pub execute_run : ℕ → Job → Run → ℕ → World E → World E
  unfolding execute_with
  execute_run zero job run depth w = bottom job run depth w
  execute_run (suc levels) job run depth w = execute_with fl sv (execute_run levels) job run depth w
