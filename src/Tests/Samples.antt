-- ===== src/Tests/Samples.antt =====
-- Sample data: a job with a condition and two branches, and services that fail one task.
use databricks_emulator.Base.{ℕ, true, none, some, List, [], ◌∷◌, String, ltb, leb, if◌then◌else◌}
use databricks_emulator.Base.Eq.{◌==◌, string_comparable, nat_comparable}
use databricks_emulator.Base.Result.{ok, err}
use databricks_emulator.Dict
use databricks_emulator.Store.Jobs.{Dependency, Task, Job, Run, plain, new_jobs}
use databricks_emulator.Server.Jobs.Conditions.{Floats}
use databricks_emulator.Server.Jobs.World.{World, Services}
use databricks_emulator.Server.Jobs.Tasks.{outcome}

-- One-digit numbers stand for float64.
abbrev pub digits_only : Floats
digits_only = record {
  F = ℕ;
  parse_float = λ s. if s == "1" then some 1 else if s == "2" then some 2 else none;
  lt = ltb;
  le = leb;
}

abbrev pub notebook : String → List Dependency → String → Task
notebook key deps rule = plain (record {
  key = key;
  depends_on = deps;
  run_if = rule;
  notebook_path = "/";
  notebook_params = Dict.empty;
  python_file = "";
  python_params = [];
  sql_file = "";
  condition = none;
  dbt = none;
  run_job = none;
  spark_env_vars = Dict.empty;
})

abbrev pub after : String → Dependency
after key = record { key = key; outcome = "" }

abbrev pub on : String → String → Dependency
on key outcome = record { key = key; outcome = outcome }

abbrev pub check_size : Task
check_size = plain (record {
  key = "check";
  depends_on = [];
  run_if = "ALL_SUCCESS";
  notebook_path = "";
  notebook_params = Dict.empty;
  python_file = "";
  python_params = [];
  sql_file = "";
  condition = some (record { op = "LESS_THAN"; left = " 1"; right = "2" });
  dbt = none;
  run_job = none;
  spark_env_vars = Dict.empty;
})

abbrev pub branches : List Task
branches =
    notebook "small" (on "check" "true" ∷ []) "ALL_SUCCESS"
    ∷ notebook "large" (on "check" "false" ∷ []) "ALL_SUCCESS"
    ∷ check_size
    ∷ notebook "report" (after "small" ∷ after "large" ∷ []) "AT_LEAST_ONE_FAILED"
    ∷ notebook "lost" (after "nowhere" ∷ []) "ALL_DONE"
    ∷ []

-- An engine that answers every notebook with an error.
abbrev pub failing : Services ℕ
failing = record {
  attached = true;
  spark_run = λ r w. (err "boom", w);
  resolve_secrets = λ vars w. (ok vars, w);
  run_dbt_task = λ t env w. (outcome t.key "FAILED" "" "no dbt", w);
  dbfs_get = λ p w. ok "";
  workspace_get = λ p w. ok "pass";
  quote_map = λ m. "";
  quote_list = λ l. "";
  sql_request = λ s. record { session = "sql-warehouse"; code = s; kind = "python" };
}

abbrev pub branch_job : Job
branch_job = record { id = 1; name = "branches"; tasks = branches }

abbrev pub quiet : World ℕ
quiet = record { jobs = new_jobs; outside = 0 }

abbrev pub no_child : Job → Run → ℕ → World ℕ → World ℕ
no_child job run depth w = w
