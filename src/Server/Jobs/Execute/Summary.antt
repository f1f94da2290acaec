-- ===== src/Server/Jobs/Execute/Summary.antt =====
-- internal/server/jobs.go: the run that `executeRun` puts together from the results of the tasks.
use mathlib.Core.Bool.{false≢true}
use databricks_emulator.Base.{
  ◌≡◌, ◌≢◌, ◌↔◌, ◌⊎◌, ◌∙◌, sym, refl, inl, inr, Bool, true, false, ◌||◌, none, List, [], ◌∷◌,
  String, All, Any, Bool-cases,
}
use databricks_emulator.Base.Eq.{◌==◌, string_comparable, nat_comparable}
use databricks_emulator.Dict
use databricks_emulator.Dict.{Dict}
use databricks_emulator.Store.Jobs.{Task, Run, report}
use databricks_emulator.Server.Jobs.Dependencies.{Results, result_of, zero_run}
use databricks_emulator.Server.Jobs.Waves.Invariant.{key}
use databricks_emulator.Server.Jobs.Execute.{summary, collect_runs, any_failed}

any_failed_iff :
    (tasks : List Task) (results : Results)
    → (any_failed (collect_runs tasks results) ≡ true)
      ↔ Any (λ t. (report (result_of results (key t))).result_state ≡ "FAILED") tasks
unfolding any_failed collect_runs
any_failed_iff [] results = (λ h. absurd (false≢true h), λ h. absurd h)
any_failed_iff (t ∷ ts) results =
    let rest = any_failed_iff ts results in
    let state = (report (result_of results (key t))).result_state in
    let here = string_comparable.equal_iff state "FAILED" in
    (
      λ h. elim (Bool-cases (state == "FAILED")) [
        | inl hit ↦ inl (here.0 hit)
        | inr miss ↦ inr (rest.0 (rw miss at h))
      ],
      λ h. elim h [
        | inl now ↦ rw (here.1 now)
        | inr later ↦
            or_true (state == "FAILED") (any_failed (collect_runs ts results)) (rest.1 later)
      ],
    )
  where
    or_true : (a b : Bool) → b ≡ true → a || b ≡ true
    or_true true b h = refl
    or_true false b h = h

-- The run that is put together when the loop of executeRun has ended is TERMINATED, and it FAILED
-- exactly if the result of some task of the job is FAILED; otherwise it is a SUCCESS, also where
-- tasks were skipped.
pub summary_state :
    (run : Run) (tasks : List Task) (results : Results)
    → ((summary run tasks results).life_cycle ≡ "TERMINATED")
      × (((summary run tasks results).result_state ≡ "FAILED")
          ↔ Any (λ t. (report (result_of results (key t))).result_state ≡ "FAILED") tasks)
      × (((summary run tasks results).result_state ≡ "FAILED")
          ⊎ ((summary run tasks results).result_state ≡ "SUCCESS"))
unfolding summary
summary_state run tasks results = elim (Bool-cases (any_failed (collect_runs tasks results))) [
  | inl failed ↦
      rw failed (refl, (λ _. (any_failed_iff tasks results).0 failed, λ _. refl), inl refl)
  | inr passed ↦ rw passed (
    refl,
    (
      λ h. absurd (success_failed h),
      λ h. absurd (false≢true (sym passed ∙ (any_failed_iff tasks results).1 h)),
    ),
    inr refl,
  )
]
  where
    success_failed : ◌≢◌ {A = String} "SUCCESS" "FAILED"
    success_failed h = false≢true ((string_comparable.equal_iff "SUCCESS" "FAILED").1 h)

collect_unrun :
    (tasks : List Task) (results : Results)
    → All (λ t. Dict.get results (key t) ≡ none) tasks
    → (any_failed (collect_runs tasks results) ≡ false)
      × All (λ r. r ≡ zero_run) (collect_runs tasks results)
unfolding any_failed collect_runs
collect_unrun [] results h = (refl, tt)
collect_unrun (t ∷ ts) results h =
    let (passed, zeros) = collect_unrun ts results h.1 in rw h.0 (passed, (refl, zeros))

-- A run that is summed up over tasks none of which has a result is a SUCCESS with empty results.
pub summary_unrun :
    (run : Run) (tasks : List Task) (results : Results)
    → All (λ t. Dict.get results (key t) ≡ none) tasks
    → ((summary run tasks results).result_state ≡ "SUCCESS")
      × All (λ r. r ≡ zero_run) (summary run tasks results).tasks
unfolding summary
summary_unrun run tasks results h =
    let (passed, zeros) = collect_unrun tasks results h in (rw passed, zeros)
