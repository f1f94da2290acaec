-- ===== src/Server/Jobs/Tasks/Child.antt =====
-- internal/server/jobs.go: `runTask` runs a child job only under the guard of `runJobTask` on the
-- depth.
use databricks_emulator.Base.{
  ℕ, ◌+◌, ◌≤◌, ◌≡◌, refl, ap, fun_ext, Option, none, some, List, [], ◌∷◌, String, arith, ltb,
  Bool-cases, inl, inr,
}
use databricks_emulator.Base.Eq.{string_comparable}
use databricks_emulator.Base.Result.{Result, ok, err}
use databricks_emulator.Dict.{Dict}
use databricks_emulator.Store.Jobs.{
  Job, Task, TaskSpec, RunJob, Dbt, TaskRun, Run, plain, for_each, spec, get_job,
}
use databricks_emulator.Server.Jobs.World.{World, Services}
use databricks_emulator.Server.Jobs.Tasks.{
  max_run_job_depth, run_task, run_as, run_plain, run_loop, with_env, run_job_task, run_child,
  start_child, iterate,
}

module _ {E : Type 0} (sv : Services E) (child child' : Job → Run → ℕ → World E → World E)
    (depth : ℕ) where
  -- Two ways to run a child that agree wherever the guard on the depth lets one be run.
  abbrev pub Agree : Type 0
  Agree =
      (job : Job) (run : Run) (w : World E)
      → depth + 1 ≤ max_run_job_depth
      → child job run (depth + 1) w ≡ child' job run (depth + 1) w

  module _ (agree : Agree) where
    run_child-Agree :
        (t : TaskSpec) (rj : RunJob) (job : Option Job) (w : World E)
        → run_child sv child t rj depth job w ≡ run_child sv child' t rj depth job w
    unfolding run_child start_child
    run_child-Agree t rj none w = refl
    run_child-Agree t rj (some job) w = elim (Bool-cases (ltb max_run_job_depth (depth + 1))) [
      | inl deep ↦ rw deep
      | inr fits ↦ rw fits (rw (agree job _ _ (ground arith)) refl)
    ]

    iterate-Agree :
        (run run' : TaskSpec → World E → TaskRun × World E)
        → run ≡ run'
        → (inner : TaskSpec) (key : String) (inputs : List String) (w : World E)
        → iterate sv child run inner key inputs w ≡ iterate sv child' run' inner key inputs w
    unfolding iterate
    iterate-Agree run run' e inner key [] w = refl
    iterate-Agree run run' e inner key (input ∷ inputs) w =
        rw (e, iterate-Agree run run' e inner key inputs _) refl

    run_plain-Agree :
        (t : TaskSpec) (env : Dict String String) (rj : Option RunJob) (w : World E)
        → run_plain sv child t env rj depth w ≡ run_plain sv child' t env rj depth w
    unfolding run_plain run_job_task
    run_plain-Agree t env none w = refl
    run_plain-Agree t env (some rj) w = run_child-Agree t rj (get_job w.jobs rj.job_id) w

    run_loop-Agree :
        (run run' : TaskSpec → World E → TaskRun × World E)
        → run ≡ run'
        → (inner t : TaskSpec) (inputs : List String) (rj : Option RunJob) (w : World E)
        → run_loop sv child run inner t inputs rj depth w
          ≡ run_loop sv child' run' inner t inputs rj depth w
    unfolding run_loop run_job_task
    run_loop-Agree run run' e inner t inputs none w =
        rw (iterate-Agree run run' e inner t.key inputs w) refl
    run_loop-Agree run run' e inner t inputs (some rj) w =
        run_child-Agree t rj (get_job w.jobs rj.job_id) w

    with_env-Agree :
        (t : TaskSpec) (rest rest' : Dict String String → World E → TaskRun × World E)
        → ((env : Dict String String) (w : World E) → rest env w ≡ rest' env w)
        → (env : Result String (Dict String String)) (dbt : Option Dbt) (w : World E)
        → with_env sv child t rest env dbt w ≡ with_env sv child' t rest' env dbt w
    unfolding with_env
    with_env-Agree t rest rest' e (err x) dbt w = refl
    with_env-Agree t rest rest' e (ok env) (some d) w = refl
    with_env-Agree t rest rest' e (ok env) none w = e env w

    run_as-Agree : (t : Task) → run_as sv child t depth ≡ run_as sv child' t depth
    unfolding run_as
    run_as-Agree (plain s) = fun_ext λ t.
        fun_ext λ w. with_env-Agree t _ _ (λ env w'. run_plain-Agree t env t.run_job w') _ t.dbt _
    run_as-Agree (for_each s l inner) =
        let ih = run_as-Agree inner in
        fun_ext λ t. fun_ext λ w.
          with_env-Agree t _ _
            (λ env w'. run_loop-Agree _ _ ih (spec inner) t l.inputs t.run_job w') _ t.dbt _

    -- So the task's run is the same for both.
    pub run_task-Agree :
        (t : Task) (w : World E) → run_task sv child t depth w ≡ run_task sv child' t depth w
    unfolding run_task
    run_task-Agree t w = ap (λ run. run (spec t) w) (run_as-Agree t)
