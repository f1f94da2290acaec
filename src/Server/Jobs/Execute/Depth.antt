-- ===== src/Server/Jobs/Execute/Depth.antt =====
-- internal/server/jobs.go: `maxRunJobDepth` bounds how deep runs nest, so `executeRun` needs no
-- more levels than that bound.
use databricks_emulator.Base.{
  ℕ, zero, suc, ◌+◌, ◌≤◌, ◌<◌, ◌≡◌, ap, fun_ext, List, arith, if◌then◌else◌,
}
use databricks_emulator.Store.Jobs.{Job, Task, TaskRun, Run, tasks_now}
use databricks_emulator.Server.Jobs.Conditions.{Floats}
use databricks_emulator.Server.Jobs.Waves.{Outcome}
use databricks_emulator.Server.Jobs.World.{World, Services}
use databricks_emulator.Server.Jobs.Tasks.{max_run_job_depth}
use databricks_emulator.Server.Jobs.Tasks.Child.{Agree, run_task-Agree}
use databricks_emulator.Server.Jobs.Execute.{
  execute_run, execute_with, run_waves, run_all, publish, conclude, started, no_engine,
}

module _ (fl : Floats) {E : Type 0} (sv : Services E)
    (child child' : Job → Run → ℕ → World E → World E) (depth : ℕ) where
  module _ (agree : Agree sv child child' depth) where
    run_waves-Agree :
        (tasks : List Task) (id : ℕ) (w : World E)
        → run_waves fl sv child tasks id depth w ≡ run_waves fl sv child' tasks id depth w
    unfolding run_waves
    run_waves-Agree tasks id w =
        ap (λ (runner : Task → World E → TaskRun × World E). run_all fl sv runner tasks id w)
          (fun_ext λ t. fun_ext λ v. run_task-Agree sv child child' depth agree t v)

    execute_with-Agree :
        (job : Job) (run : Run) (w : World E)
        → execute_with fl sv child job run depth w ≡ execute_with fl sv child' job run depth w
    unfolding execute_with
    execute_with-Agree job run w =
        let w' = publish (started run) w in
        ap
          (λ (o : Outcome (World E)).
            if sv.attached
            then conclude (started run) job o w'
            else publish (no_engine (started run)) w')
          (run_waves-Agree (tasks_now w'.jobs job) run.id w')

module _ (fl : Floats) {E : Type 0} (sv : Services E)
    (bottom bottom' : Job → Run → ℕ → World E → World E) where
  -- With as many levels as the depth bound leaves, no run goes deeper than the levels: the result
  -- does not depend on what would be run there. So a job that runs itself, directly or through a
  -- cycle, terminates.
  pub execute_run_depth :
      (levels depth : ℕ) (job : Job) (run : Run) (w : World E)
      → max_run_job_depth < levels + depth
      → depth ≤ max_run_job_depth
      → execute_run fl sv bottom levels job run depth w
        ≡ execute_run fl sv bottom' levels job run depth w
  unfolding execute_run
  execute_run_depth zero depth job run w enough h = absurd (omega arith)
  execute_run_depth (suc levels) depth job run w enough h =
      execute_with-Agree fl sv (execute_run fl sv bottom levels) (execute_run fl sv bottom' levels)
        depth
        (λ job' run' w' fits.
          execute_run_depth levels (depth + 1) job' run' w' (omega arith) (omega arith))
        job run w
