-- ===== src/Tests/JobsStore.antt =====
-- The jobs store at a small history.
use mathlib.Core.Bool.{false≢true}
use databricks_emulator.Base.{◌≡◌, refl, some, [], ◌∷◌, String, arith}
use databricks_emulator.Base.Eq.{string_comparable, nat_comparable}
use databricks_emulator.Base.Int64.{incr64}
use databricks_emulator.Dict
use databricks_emulator.Store.Jobs.{
  Jobs, Run, create, new_run, get_run, new_jobs, pending_run, canceled_run, cancel_run,
}
use databricks_emulator.Store.Jobs.Cancel.{starts, updates, cancels, cancel_run_final, apply_all}
use databricks_emulator.Tests.Samples.{branches}

-- A job, and a run of it.
abbrev busy : Jobs
busy = (new_run (create new_jobs "j" branches).0 1).0

abbrev succeeded : Run
succeeded = record (pending_run 2 1) { life_cycle = "TERMINATED"; result_state = "SUCCESS" }

cancel_run_final_example :
    get_run (apply_all (cancel_run busy 2).0 (starts 1 ∷ updates succeeded ∷ cancels 2 ∷ [])) 2
    ≡ some (canceled_run (pending_run 2 1))
unfolding get_run Dict.get Dict.put Dict.empty new_run create new_jobs incr64
cancel_run_final_example =
    cancel_run_final busy 2 (pending_run 2 1) (starts 1 ∷ updates succeeded ∷ cancels 2 ∷ []) refl
      pending_live (omega arith) (omega arith)
  where
    pending_live : ◌≡◌ {A = String} "PENDING" "TERMINATED" → ⊥
    pending_live e = false≢true ((string_comparable.equal_iff "PENDING" "TERMINATED").1 e)
