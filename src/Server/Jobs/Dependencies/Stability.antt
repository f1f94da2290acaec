-- ===== src/Server/Jobs/Dependencies/Stability.antt =====
-- internal/server/jobs.go: decisions about a task read the results of its dependencies only, so a
-- result that is added later does not change them.
use databricks_emulator.Base.{
  ◌≡◌, refl, true, some, List, [], ◌∷◌, String, arith, is_some, Option-cases, inl, inr,
}
use databricks_emulator.Base.Eq.{string_comparable}
use databricks_emulator.Dict
use databricks_emulator.Store.Jobs.{Dependency, Task, TaskRun, spec}
use databricks_emulator.Server.Jobs.Dependencies.{
  Results, result_of, deps_finished, deps_satisfied, branches_taken, Tally, tally, count_result,
  should_run, should_run_deps,
}

-- `after` has every result of `before`, unchanged.
abbrev pub Extends : Results → Results → Type 0
Extends before after =
    (k : String) (r : TaskRun) → Dict.get before k ≡ some r → Dict.get after k ≡ some r

module _ (before after : Results) (ext : Extends before after) where
  get-Extends :
      (k : String) → is_some (Dict.get before k) ≡ true → Dict.get after k ≡ Dict.get before k
  get-Extends k h = elim (Option-cases (Dict.get before k)) [
    | inl absent ↦ absurd (ground arith)
    | inr (r, found) ↦ ground (arith, ext k r found)
  ]

  deps_finished-Extends :
      (ds : List Dependency) → deps_finished ds before ≡ true → deps_finished ds after ≡ true
  unfolding deps_finished
  deps_finished-Extends [] h = refl
  deps_finished-Extends (d ∷ ds) h = ground (arith, get-Extends d.key, deps_finished-Extends ds)

  branches_taken-Extends :
      (ds : List Dependency)
      → deps_finished ds before ≡ true
      → branches_taken ds after ≡ branches_taken ds before
  unfolding deps_finished branches_taken
  branches_taken-Extends [] h = refl
  branches_taken-Extends (d ∷ ds) h =
      rw (get-Extends d.key (ground arith), branches_taken-Extends ds (ground arith)) refl

  tally-Extends :
      (ds : List Dependency) (n : Tally)
      → deps_finished ds before ≡ true
      → tally ds after n ≡ tally ds before n
  unfolding deps_finished tally
  tally-Extends [] n h = refl
  tally-Extends (d ∷ ds) n h =
      rw (get-Extends d.key (ground arith))
        (tally-Extends ds (count_result (result_of before d.key) n) (ground arith))

  should_run_deps-Extends :
      (ds : List Dependency) (rule : String)
      → deps_finished ds before ≡ true
      → should_run_deps ds rule after ≡ should_run_deps ds rule before
  unfolding should_run_deps
  should_run_deps-Extends [] rule h = refl
  should_run_deps-Extends (d ∷ ds) rule h =
      rw (branches_taken-Extends (d ∷ ds) h, tally-Extends (d ∷ ds) _ h) refl

  -- Once its dependencies have results, a task stays ready, whatever else finishes.
  pub deps_satisfied-Extends :
      (t : Task) → deps_satisfied t before ≡ true → deps_satisfied t after ≡ true
  unfolding deps_satisfied
  deps_satisfied-Extends t h = deps_finished-Extends (spec t).depends_on h

  -- Once the dependencies of a task have results, results that are added later do not change
  -- whether it runs.
  pub should_run-Extends :
      (t : Task) → deps_satisfied t before ≡ true → should_run t after ≡ should_run t before
  unfolding deps_satisfied should_run
  should_run-Extends t h = should_run_deps-Extends (spec t).depends_on (spec t).run_if h
