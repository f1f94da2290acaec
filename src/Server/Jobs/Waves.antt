-- ===== src/Server/Jobs/Waves.antt =====
-- internal/server/jobs.go: the loop of `executeRun`, which runs a job's tasks in waves.
--
-- The section's parameters are what the loop calls: `runner` is `runTask`, and `cancelled` is
-- `runCancelled` at this run's id. Both act on the world `W`, which the loop never looks into. The
-- goroutines of one wave write distinct keys of `results`, and no decision of a wave reads a key
-- that the wave writes, so they run here one after the other, in the order of `ready`.
pub mod Invariant
pub mod Complete
use databricks_emulator.Base.{
  ℕ, zero, suc, Bool, Option, none, some, List, [], ◌∷◌, String, keep, if◌then◌else◌,
}
use databricks_emulator.Base.Eq.{string_comparable}
use databricks_emulator.Dict
use databricks_emulator.Dict.{Dict}
use databricks_emulator.Store.Jobs.{Task, TaskRun, Condition, single, spec}
use databricks_emulator.Server.Jobs.Conditions.{Floats, eval_condition}
use databricks_emulator.Server.Jobs.Dependencies.{Results, deps_satisfied, should_run}

-- A terminated result with no output.
abbrev pub terminated : String → String → String → TaskRun
terminated key result outcome = single (record {
  key = key;
  life_cycle = "TERMINATED";
  result_state = result;
  condition_outcome = outcome;
  child_run_id = 0;
  stdout = "";
  stderr = "";
  dbt_artifacts = Dict.empty;
})

abbrev pub skipped : Task → TaskRun
skipped t = terminated (spec t).key "SKIPPED" ""

-- The loop's variables, and the world.
pub record Progress (W : Type 0) : Type 0 where
  pub remaining : Dict String Task
  pub results : Results
  pub world : W

-- How the loop ends: by itself, by `return` on a cancelled run, or (in the model) out of fuel.
pub data Outcome (W : Type 0) : Type 0 where
  finished : Results → W → Outcome W
  interrupted : W → Outcome W
  out_of_fuel : Outcome W

-- remaining[t.Key] = t, for every task of the job.
unfoldable pub initial : List Task → Dict String Task → Dict String Task
initial [] m = m
initial (t ∷ ts) m = initial ts (Dict.put m (spec t).key t)

unfoldable pub skip_all : List Task → Results → Results
skip_all [] results = results
skip_all (t ∷ ts) results = skip_all ts (Dict.put results (spec t).key (skipped t))

unfoldable pub ready_tasks : Dict String Task → Results → List Task
ready_tasks remaining results = keep (λ t. deps_satisfied t results) (Dict.values remaining)

module _ (fl : Floats) {W : Type 0} (runner : Task → W → TaskRun × W) where
  -- What a task that is to run yields: a condition is decided at once.
  unfoldable pub perform : Task → Option Condition → W → TaskRun × W
  perform t (some c) w = (terminated (spec t).key "SUCCESS" (eval_condition fl c), w)
  perform t none w = runner t w

  -- The body of the loop over `ready`.
  unfoldable pub dispatch : Task → Progress W → Progress W
  unfolding perform
  dispatch t p =
      let (tr, w) = perform t (spec t).condition p.world in
      if should_run t p.results
      then record {
        remaining = Dict.remove p.remaining (spec t).key;
        results = Dict.put p.results (spec t).key tr;
        world = w;
      }
      else record {
        remaining = Dict.remove p.remaining (spec t).key;
        results = Dict.put p.results (spec t).key (skipped t);
        world = p.world;
      }

  unfoldable pub wave : List Task → Progress W → Progress W
  wave [] p = p
  wave (t ∷ ts) p = wave ts (dispatch t p)

  -- One round of the loop, for the ready tasks; `next` is the rest of the loop.
  round : List Task → Progress W → (Progress W → Outcome W) → Outcome W
  round [] p next = finished (skip_all (Dict.values p.remaining) p.results) p.world
  round (t ∷ ts) p next = next (wave (t ∷ ts) p)

module _ (fl : Floats) {W : Type 0} (runner : Task → W → TaskRun × W) (cancelled : W → Bool) where
  rounds_from : List Task → Progress W → (Progress W → Outcome W) → Outcome W
  unfolding round
  rounds_from [] p next = finished p.results p.world
  rounds_from (t ∷ ts) p next =
      if cancelled p.world
      then interrupted p.world
      else round fl runner (ready_tasks p.remaining p.results) p next

  -- for len(remaining) > 0 { … }
  unfoldable pub rounds : ℕ → Progress W → Outcome W
  unfolding rounds_from
  rounds zero p = out_of_fuel
  rounds (suc fuel) p = rounds_from (Dict.values p.remaining) p (rounds fuel)
