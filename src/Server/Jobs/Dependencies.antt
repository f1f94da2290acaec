-- ===== src/Server/Jobs/Dependencies.antt =====
-- internal/server/jobs.go: `depsSatisfied` and `shouldRun`.
pub mod Stability
pub mod RunIf
use databricks_emulator.Base.{
  ℕ, zero, suc, ◌+◌, Bool, true, false, not, ◌&&◌, ◌||◌, Option, none, some, List, [], ◌∷◌, String,
  all, if◌then◌else◌, is_some, leb,
}
use databricks_emulator.Base.Eq.{◌==◌, nat_comparable, string_comparable}
use databricks_emulator.Dict
use databricks_emulator.Dict.{Dict}
use databricks_emulator.Store.Jobs.{Dependency, Task, TaskRun, single, spec, report}

abbrev pub Results : Type 0
Results = Dict String TaskRun

-- TaskRun{}, which a map yields for a key that is missing.
abbrev pub zero_run : TaskRun
zero_run = single (record {
  key = "";
  life_cycle = "";
  result_state = "";
  condition_outcome = "";
  child_run_id = 0;
  stdout = "";
  stderr = "";
  dbt_artifacts = Dict.empty;
})

abbrev pub or_zero : Option TaskRun → TaskRun
or_zero none = zero_run
or_zero (some r) = r

-- done[k]
abbrev pub result_of : Results → String → TaskRun
result_of done k = or_zero (Dict.get done k)

unfoldable pub deps_finished : List Dependency → Results → Bool
deps_finished [] done = true
deps_finished (d ∷ ds) done = is_some (Dict.get done d.key) && deps_finished ds done

unfoldable pub deps_satisfied : Task → Results → Bool
unfolding deps_finished
deps_satisfied t done = deps_finished (spec t).depends_on done

-- The first loop of `shouldRun`: an edge that names an outcome wants its condition to have it.
unfoldable pub branches_taken : List Dependency → Results → Bool
branches_taken [] done = true
branches_taken (d ∷ ds) done =
    let rest = branches_taken ds done in
    if d.outcome == ""
    then rest
    else if (report (result_of done d.key)).condition_outcome == d.outcome
    then rest
    else false

pub record Tally : Type 0 where
  pub success : ℕ
  pub failed : ℕ
  pub finished : ℕ

-- One round of the second loop.
unfoldable pub count_result : TaskRun → Tally → Tally
count_result tr n =
    if (report tr).result_state == "SUCCESS"
    then record n { success = n.success + 1; finished = n.finished + 1 }
    else if (report tr).result_state == "FAILED"
    then record n { failed = n.failed + 1; finished = n.finished + 1 }
    else record n { finished = n.finished + 1 }

unfoldable pub tally : List Dependency → Results → Tally → Tally
tally [] done n = n
tally (d ∷ ds) done n = tally ds done (count_result (result_of done d.key) n)

-- The switch on `run_if`.
unfoldable pub run_if_allows : String → Tally → Bool
run_if_allows rule n =
    if rule == "ALL_DONE"
    then true
    else if rule == "AT_LEAST_ONE_SUCCESS"
    then leb 1 n.success
    else if rule == "ALL_FAILED"
    then n.failed == n.finished
    else if rule == "AT_LEAST_ONE_FAILED"
    then leb 1 n.failed
    else if rule == "NONE_FAILED"
    then n.failed == 0
    else n.success == n.finished

should_run_deps : List Dependency → String → Results → Bool
should_run_deps [] rule done = true
should_run_deps (d ∷ ds) rule done =
    if branches_taken (d ∷ ds) done
    then run_if_allows rule (tally (d ∷ ds) done (record { success = 0; failed = 0; finished = 0 }))
    else false

unfoldable pub should_run : Task → Results → Bool
unfolding should_run_deps
should_run t done = should_run_deps (spec t).depends_on (spec t).run_if done
