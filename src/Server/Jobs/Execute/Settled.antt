-- ===== src/Server/Jobs/Execute/Settled.antt =====
-- internal/server/jobs.go: how `executeRun` leaves the run, whatever happens meanwhile.
use mathlib.Core.Bool.{false≢true}
use databricks_emulator.Base.{
  length, ap, if◌then◌else◌, Any, false, Bool, Option-cases, ℕ, suc, ◌≡◌, subst, refl, inl, inr,
  true, false, some, List, [], ◌∷◌, String, arith, All, Bool-cases,
}
use databricks_emulator.Base.Eq.{◌==◌, string_comparable, nat_comparable}
use databricks_emulator.Dict
use databricks_emulator.Dict.{Dict}
use databricks_emulator.Store.Jobs.{
  Job, Task, TaskRun, Run, report, result_canceled, get_run, update_run, tasks_now,
}
use databricks_emulator.Server.Jobs.Conditions.{Floats}
use databricks_emulator.Server.Jobs.Dependencies.{Results}
use databricks_emulator.Server.Jobs.Waves.{Outcome, initial, finished, interrupted, out_of_fuel}
use databricks_emulator.Server.Jobs.Waves.Complete.{Ends}
use databricks_emulator.Server.Jobs.World.{World, Services}
use databricks_emulator.Server.Jobs.Execute.{
  execute_with, run_waves, run_cancelled, is_canceled, publish, conclude, started, no_engine,
  summary, collect_runs, any_failed,
}
use databricks_emulator.Server.Jobs.Execute.Published.{runner, run_waves-Ends}

length-collect_runs :
    (tasks : List Task) (results : Results) → length (collect_runs tasks results) ≡ length tasks
unfolding collect_runs
length-collect_runs [] results = refl
length-collect_runs (t ∷ ts) results = ap suc (length-collect_runs ts results)

any_failed-Any :
    (rs : List TaskRun) → any_failed rs ≡ true → Any (λ t. (report t).result_state ≡ "FAILED") rs
unfolding any_failed
any_failed-Any [] h = absurd (false≢true h)
any_failed-Any (r ∷ rs) h = elim (Bool-cases ((report r).result_state == "FAILED")) [
  | inl hit ↦ inl ((string_comparable.equal_iff (report r).result_state "FAILED").0 hit)
  | inr miss ↦ inr (any_failed-Any rs (rw miss at h))
]

any_failed-All :
    (rs : List TaskRun)
    → any_failed rs ≡ false
    → All (λ t. ¬ ((report t).result_state ≡ "FAILED")) rs
unfolding any_failed
any_failed-All [] h = tt
any_failed-All (r ∷ rs) h = elim (Bool-cases ((report r).result_state == "FAILED")) [
  | inl hit ↦ absurd (ground arith)
  | inr miss ↦ (
    λ same. ground (arith, string_comparable.equal_iff (report r).result_state "FAILED"),
    any_failed-All rs (rw miss at h),
  )
]

module _ (fl : Floats) {E : Type 0} (sv : Services E)
    (child : Job → Run → ℕ → World E → World E) where
  -- A run as executeRun leaves it: found cancelled, or TERMINATED; with no engine attached it FAILED
  -- with the message and with the task results that it began with, and with one attached it has a
  -- result for each of the tasks, FAILED if one of the results is FAILED, and is a SUCCESS if none is.
  pub data Settled (run : Run) (tasks : List Task) (r : Run) : Type 0 where
    canceled : r.result_state ≡ result_canceled → Settled run tasks r
    detached :
        sv.attached ≡ false
        → r.life_cycle ≡ "TERMINATED"
        → r.result_state ≡ "FAILED"
        → r.state_message ≡ "no Spark engine is attached — set DATABRICKS_SPARK_CONNECT_URL"
        → r.tasks ≡ run.tasks
        → Settled run tasks r
    failed :
        sv.attached ≡ true
        → r.life_cycle ≡ "TERMINATED"
        → r.result_state ≡ "FAILED"
        → length r.tasks ≡ length tasks
        → Any (λ t. (report t).result_state ≡ "FAILED") r.tasks
        → Settled run tasks r
    passed :
        sv.attached ≡ true
        → r.life_cycle ≡ "TERMINATED"
        → r.result_state ≡ "SUCCESS"
        → length r.tasks ≡ length tasks
        → All (λ t. ¬ ((report t).result_state ≡ "FAILED")) r.tasks
        → Settled run tasks r

  abbrev Stored : Job → Run → World E → Type 0
  Stored job run w =
      (r : Run) × (get_run w.jobs run.id ≡ some r) × Settled run (tasks_now w.jobs job) r

  cancelled-Stored :
      (job : Job) (run : Run) (w : World E) → run_cancelled run.id w ≡ true → Stored job run w
  unfolding run_cancelled
  cancelled-Stored job run w h = elim (Option-cases (get_run w.jobs run.id)) [
    | inl e ↦ absurd (false≢true (rw (e, is_canceled) at h))
    | inr (r, e) ↦ (
      r,
      e,
      canceled ((string_comparable.equal_iff r.result_state _).0 (rw (e, is_canceled) at h)),
    )
  ]

  -- A publish stores the run, or leaves the one that is found cancelled.
  publish-Stored :
      (job : Job) (run r : Run) (w : World E)
      → r.id ≡ run.id
      → Settled run (tasks_now w.jobs job) r
      → Stored job run (publish r w)
  unfolding publish update_run get_run run_cancelled tasks_now
  publish-Stored job run r w same settled = elim (Bool-cases (run_cancelled r.id w)) [
    | inl over ↦
        rw over (cancelled-Stored job run w (subst (λ i. run_cancelled i w ≡ true) same over))
    | inr live ↦ rw live (r, ground (arith, same, Dict.get-put w.jobs.runs r.id r run.id), settled)
  ]

  concluded-Stored :
      (job : Job) (run : Run) (before : World E) (start : Dict String Task) (depth : ℕ)
      (out : Outcome (World E))
      → sv.attached ≡ true
      → Ends fl (runner fl sv child depth) start (run_cancelled run.id) out
      → Stored job run (conclude (started run) job out before)
  unfolding conclude summary
  concluded-Stored job run before start depth (finished results w) on ends =
      let reports = collect_runs (tasks_now w.jobs job) results in
      let sized = length-collect_runs (tasks_now w.jobs job) results in
      publish-Stored job run (summary (started run) (tasks_now w.jobs job) results) w refl
        (elim (Bool-cases (any_failed reports)) [
          | inl bad ↦ failed on refl (rw bad refl) sized (any_failed-Any reports bad)
          | inr good ↦ passed on refl (rw good refl) sized (any_failed-All reports good)
        ])
  concluded-Stored job run before start depth (interrupted w) on ends =
      cancelled-Stored job run w ends
  concluded-Stored job run before start depth out_of_fuel on ends = absurd ends

  branch-Stored :
      (flag : Bool) (job : Job) (run : Run) (a b : World E)
      → (flag ≡ true → Stored job run a)
      → (flag ≡ false → Stored job run b)
      → Stored job run (if flag then a else b)
  branch-Stored true job run a b on off = on refl
  branch-Stored false job run a b on off = off refl

  -- Whatever the tasks and the store do, executeRun ends with the run stored: either it was found
  -- cancelled, or it is TERMINATED. With no engine attached it then FAILED with the message for that
  -- and with the task results that it began with. With one attached it has as many task
  -- results as its job has tasks by then, FAILED where one of them is FAILED, and is a SUCCESS where
  -- none is.
  pub execute_with-Settled :
      (job : Job) (run : Run) (depth : ℕ) (w : World E)
      → (r : Run) × (get_run (execute_with fl sv child job run depth w).jobs run.id ≡ some r)
        × Settled run (tasks_now (execute_with fl sv child job run depth w).jobs job) r
  unfolding execute_with
  execute_with-Settled job run depth w =
      let begun = publish (started run) w in
      branch-Stored sv.attached job run _ _
        (λ on.
          concluded-Stored job run begun (initial (tasks_now begun.jobs job) Dict.empty) depth
            (run_waves fl sv child (tasks_now begun.jobs job) run.id depth begun) on
            (run_waves-Ends fl sv child (tasks_now begun.jobs job) run.id depth begun))
        (λ off.
          publish-Stored job run (no_engine (started run)) begun refl
            (detached off refl refl refl refl))
