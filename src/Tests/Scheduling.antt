-- ===== src/Tests/Scheduling.antt =====
-- The scheduler on the sample job: the branch not taken is skipped, a failure is reported, and a
-- task that waits for an unknown key is skipped.
use databricks_emulator.Base.{
  ℕ, ◌≡◌, ◌↔◌, ◌⊎◌, refl, true, false, Option, none, some, List, [], ◌∷◌, String, map, arith, All,
  Any, is_some, keep, Bool-cases, inl, inr,
}
use databricks_emulator.Base.Eq.{string_comparable, nat_comparable}
use databricks_emulator.Dict
use databricks_emulator.Store.Jobs.{
  Job, Run, Condition, report, pending_run, get_run, tasks_now, update_run, new_jobs,
}
use databricks_emulator.Server.Jobs.Conditions.{eval_condition}
use databricks_emulator.Server.Jobs.Conditions.Meaning.{
  Holds, operator_of, eval_condition-iff-Holds,
}
use databricks_emulator.Server.Jobs.Dependencies.{
  Results, deps_satisfied, should_run, result_of, zero_run, branches_taken, run_if_allows, tally,
  count_result,
}
use databricks_emulator.Server.Jobs.Dependencies.Stability.{Extends, should_run-Extends}
use databricks_emulator.Server.Jobs.Dependencies.RunIf.{Runs, should_run-iff-Runs}
use databricks_emulator.Server.Jobs.Waves.{
  rounds, skip_all, ready_tasks, wave, dispatch, initial, finished, terminated,
}
use databricks_emulator.Server.Jobs.Waves.Invariant.{key}
use databricks_emulator.Server.Jobs.Waves.Complete.{Ends}
use databricks_emulator.Server.Jobs.World.{Services}
use databricks_emulator.Server.Jobs.Execute.{
  execute_run, execute_with, run_waves, run_cancelled, publish, summary,
}
use databricks_emulator.Server.Jobs.Execute.Depth.{execute_run_depth}
use databricks_emulator.Server.Jobs.Execute.Published.{runner, run_waves-Ends, run_waves-results}
use databricks_emulator.Server.Jobs.Execute.Settled.{Settled, execute_with-Settled}
use databricks_emulator.Server.Jobs.Tasks.{run_task, code_path, task_result}
use databricks_emulator.Text.{trim_space, is_space}
use databricks_emulator.Server.Jobs.Execute.Summary.{summary_state, summary_unrun}
use databricks_emulator.Tests.Samples.{
  check_size, digits_only, branches, failing, branch_job, quiet, no_child, notebook, on,
}

abbrev states : Option Run → Option (String × List String)
states none = none
states (some r) = some (r.result_state, map (λ t. (report t).result_state) r.tasks)

branch_run :
    states (
      get_run
        (execute_run digits_only failing no_child 6 branch_job (pending_run 7 1) 0 quiet).jobs
        7)
    ≡ some ("FAILED", "FAILED" ∷ "SKIPPED" ∷ "SUCCESS" ∷ "FAILED" ∷ "SKIPPED" ∷ [])
unfolding execute_run run_waves get_run Dict.get Dict.values tasks_now update_run new_jobs
    Dict.empty Dict.put ready_tasks keep deps_satisfied Dict.size wave dispatch should_run
    Dict.remove branches_taken run_if_allows tally count_result rounds summary eval_condition
    trim_space skip_all is_space run_task code_path task_result
branch_run = refl

abbrev less : Condition
less = record { op = "LESS_THAN"; left = " 1"; right = "2" }

eval_condition-iff-Holds_example :
    (eval_condition digits_only less ≡ "true") ↔ Holds digits_only (operator_of "LESS_THAN") less
eval_condition-iff-Holds_example = eval_condition-iff-Holds digits_only less

abbrev checked : Results
checked = Dict.put Dict.empty "check" (terminated "check" "SUCCESS" "true")

should_run-iff-Runs_example :
    (should_run (notebook "large" (on "check" "false" ∷ []) "ALL_SUCCESS") checked ≡ true)
    ↔ Runs (notebook "large" (on "check" "false" ∷ []) "ALL_SUCCESS") checked
should_run-iff-Runs_example =
    should_run-iff-Runs (notebook "large" (on "check" "false" ∷ []) "ALL_SUCCESS") checked

abbrev more : Results
more = Dict.put checked "other" zero_run

checked_other : Dict.get checked "other" ≡ none
unfolding Dict.get Dict.put Dict.empty
checked_other = refl

checked-more : Extends checked more
checked-more k r found = elim (Bool-cases (string_comparable.equal "other" k)) [
  | inl hit ↦ let e = (string_comparable.equal_iff "other" k).0 hit in absurd (cc checked_other)
  | inr miss ↦ rw (Dict.get-put checked "other" zero_run k, miss) found
]

run_waves-Ends_example :
    Ends digits_only
      (runner digits_only failing no_child 0)
      (initial branches Dict.empty)
      (run_cancelled 7)
      (run_waves digits_only failing no_child branches 7 0 quiet)
run_waves-Ends_example = run_waves-Ends digits_only failing no_child branches 7 0 quiet

execute_run_depth_example :
    execute_run digits_only failing no_child 6 branch_job (pending_run 7 1) 0 quiet
    ≡ execute_run digits_only failing
        (λ job run depth w. quiet)
        6
        branch_job
        (pending_run 7 1)
        0
        quiet
execute_run_depth_example =
    execute_run_depth digits_only failing no_child (λ job run depth w. quiet) 6 0 branch_job
      (pending_run 7 1) quiet (omega arith) (omega arith)

summary_state_example :
    ((summary (pending_run 7 1) branches checked).life_cycle ≡ "TERMINATED")
    × (((summary (pending_run 7 1) branches checked).result_state ≡ "FAILED")
        ↔ Any (λ t. (report (result_of checked (key t))).result_state ≡ "FAILED") branches)
    × (((summary (pending_run 7 1) branches checked).result_state ≡ "FAILED")
        ⊎ ((summary (pending_run 7 1) branches checked).result_state ≡ "SUCCESS"))
summary_state_example = summary_state (pending_run 7 1) branches checked

should_run-Extends_example :
    should_run (notebook "large" (on "check" "false" ∷ []) "ALL_SUCCESS") more
    ≡ should_run (notebook "large" (on "check" "false" ∷ []) "ALL_SUCCESS") checked
unfolding deps_satisfied Dict.get Dict.put Dict.empty
should_run-Extends_example =
    should_run-Extends checked more checked-more
      (notebook "large" (on "check" "false" ∷ []) "ALL_SUCCESS") refl

abbrev check_job : Job
check_job = record { id = 1; name = "check"; tasks = check_size ∷ [] }

check_waves_quiet :
    run_waves digits_only failing no_child (check_size ∷ []) 7 0 quiet ≡ finished checked quiet
unfolding run_waves get_run Dict.get Dict.values new_jobs Dict.empty Dict.put ready_tasks keep
    deps_satisfied Dict.size wave dispatch should_run Dict.remove rounds eval_condition trim_space
    is_space
check_waves_quiet = refl

results_of_checked : (is_some (Dict.get checked "check") ≡ true) × Unit {0}
results_of_checked =
    run_waves-results digits_only failing no_child (check_size ∷ []) 7 0 quiet quiet checked
      check_waves_quiet

execute_with-Settled_example :
    (r : Run) × (get_run
        (execute_with digits_only failing no_child branch_job (pending_run 7 1) 0 quiet).jobs
        7
      ≡ some r)
    × Settled digits_only failing no_child
        (pending_run 7 1)
        (tasks_now
          (execute_with digits_only failing no_child branch_job (pending_run 7 1) 0 quiet).jobs
          branch_job)
        r
execute_with-Settled_example =
    execute_with-Settled digits_only failing no_child branch_job (pending_run 7 1) 0 quiet

abbrev detached_engine : Services ℕ
detached_engine = record failing { attached = false }

detached_run :
    states (
      get_run
        (execute_with digits_only detached_engine no_child check_job (pending_run 7 1) 0 quiet).jobs
        7)
    ≡ some ("FAILED", [])
unfolding execute_with get_run Dict.get update_run publish Dict.put Dict.empty new_jobs
detached_run = refl

summary_unrun_example :
    ((summary (pending_run 7 1) (notebook "new" [] "" ∷ []) checked).result_state ≡ "SUCCESS")
    × All (λ r. r ≡ zero_run) (summary (pending_run 7 1) (notebook "new" [] "" ∷ []) checked).tasks
unfolding Dict.get Dict.put Dict.empty
summary_unrun_example =
    summary_unrun (pending_run 7 1) (notebook "new" [] "" ∷ []) checked (refl, tt)
