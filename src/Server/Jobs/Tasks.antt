-- ===== src/Server/Jobs/Tasks.antt =====
-- internal/server/jobs.go: `runTask` and what it runs. The run of a child job is an argument,
-- `child`, which `Server.Jobs.Execute` closes.
pub mod Child
use databricks_emulator.Base.{
  ℕ, zero, suc, ◌+◌, Bool, true, false, not, ◌&&◌, Option, none, some, List, [], ◌∷◌, String, ◌<>◌,
  map, ltb, if◌then◌else◌, length, any,
}
use databricks_emulator.Base.Eq.{◌==◌, nat_comparable, string_comparable}
use databricks_emulator.Base.Result.{Result, ok, err}
use databricks_emulator.Text.{has_prefix, replace_all, decimal, show_int64}
use databricks_emulator.Dict
use databricks_emulator.Dict.{Dict}
use databricks_emulator.Store.Jobs.{
  Job, Jobs, Task, TaskSpec, Loop, RunJob, Run, Dbt, TaskRun, RunReport, Iterations, plain,
  for_each, single, iterated, done, iteration, spec, report, get_job, new_run, get_run,
}
use databricks_emulator.Server.Jobs.World.{World, Services, Request, Answer}

-- `{{input}}` replaced in the parameters of one iteration's copy of the nested task.
unfoldable pub substitute_input : TaskSpec → String → String → TaskSpec
substitute_input t parent_key input = record t {
  key = parent_key <> "_" <> input;
  python_params = map (λ p. replace_all p "{{input}}" input) t.python_params;
  notebook_params = Dict.map_values (λ v. replace_all v "{{input}}" input) t.notebook_params;
}

abbrev pub outcome : String → String → String → String → TaskRun
outcome key result stdout stderr = single (record {
  key = key;
  life_cycle = "TERMINATED";
  result_state = result;
  condition_outcome = "";
  child_run_id = 0;
  stdout = stdout;
  stderr = stderr;
  dbt_artifacts = Dict.empty;
})

-- runDepth bounds run_job_task nesting.
abbrev pub max_run_job_depth : ℕ
max_run_job_depth = 5

-- The path of the task's code: the first of the three that is set.
unfoldable pub code_path : TaskSpec → String
code_path t =
    if not (t.notebook_path == "")
    then t.notebook_path
    else if not (t.python_file == "")
    then t.python_file
    else t.sql_file

all_stdout : Iterations → String
all_stdout done = ""
all_stdout (iteration r i) = (report r).stdout <> all_stdout i

all_stderr : Iterations → String
all_stderr done = ""
all_stderr (iteration r i) = (report r).stderr <> all_stderr i

unfoldable pub count_iterations : Iterations → ℕ
count_iterations done = 0
count_iterations (iteration r i) = suc (count_iterations i)

unfoldable pub count_failed : Iterations → ℕ
count_failed done = 0
count_failed (iteration r i) =
    let rest = count_failed i in if (report r).result_state == "SUCCESS" then rest else suc rest

-- The result of a for_each_task, from those of its iterations.
unfoldable pub loop_result : String → Iterations → TaskRun
unfolding all_stdout all_stderr count_failed
loop_result key i =
    iterated
      (record {
        key = key;
        life_cycle = "TERMINATED";
        result_state = if ltb 0 (count_failed i) then "FAILED" else "SUCCESS";
        condition_outcome = "";
        child_run_id = 0;
        stdout = all_stdout i;
        stderr =
            if ltb 0 (count_failed i)
            then decimal (count_failed i)
              <> " of "
              <> decimal (count_iterations i)
              <> " iterations failed\n"
              <> all_stderr i
            else all_stderr i;
        dbt_artifacts = Dict.empty;
      })
      i

-- The engine's answer to the task's request.
unfoldable pub task_result : String → Result String Answer → TaskRun
task_result key (err e) = outcome key "FAILED" "" e
task_result key (ok a) =
    if a.succeeded
    then outcome key "SUCCESS" a.stdout a.e_value
    else outcome key "FAILED" a.stdout (if a.e_value == "" then a.e_name else a.e_value)

module _ {E : Type 0} (sv : Services E) where
  -- argv or notebook parameters, and the environment, as Python before the task's code.
  python_preamble : TaskSpec → String → Dict String String → String
  python_preamble t path env =
      "import json, os, sys\n"
      <> (if not (t.notebook_path == "")
          then "for __k, __v in json.loads("
            <> sv.quote_map t.notebook_params
            <> ").items():\n    globals()[__k] = __v\n"
          else "sys.argv = json.loads(" <> sv.quote_list (path ∷ t.python_params) <> ")\n")
      <> (if ltb 0 (Dict.size env)
          then "os.environ.update(json.loads(" <> sv.quote_map env <> "))\n"
          else "")

  load_task_code : TaskSpec → World E → Result String String
  load_task_code t w =
      if has_prefix (code_path t) "dbfs:"
      then sv.dbfs_get (code_path t) w
      else sv.workspace_get (code_path t) w

  task_request : TaskSpec → Dict String String → String → Request
  unfolding python_preamble
  task_request t env code = if not (t.sql_file == "") then sv.sql_request code else record {
    session = "job-" <> t.key;
    code = python_preamble t (code_path t) env <> code;
    kind = "python";
  }

  -- The end of `runTask`: the code is loaded and sent to the engine.
  run_code : TaskSpec → Dict String String → Result String String → World E → TaskRun × World E
  unfolding task_request
  run_code t env (err e) w = (outcome t.key "FAILED" "" e, w)
  run_code t env (ok code) w =
      let (answer, w') = sv.spark_run (task_request t env code) w in (task_result t.key answer, w')

  -- What executing a child job does: `executeRun(child, run, depth)`.
  module _ (child : Job → Run → ℕ → World E → World E) where
    child_result : String → ℕ → Option Run → TaskRun
    child_result key id none = single (record {
      key = key;
      life_cycle = "TERMINATED";
      result_state = "FAILED";
      condition_outcome = "";
      child_run_id = id;
      stdout = "";
      stderr = "child run " <> show_int64 id <> " vanished";
      dbt_artifacts = Dict.empty;
    })
    child_result key id (some r) = single (record {
      key = key;
      life_cycle = "TERMINATED";
      result_state = r.result_state;
      condition_outcome = "";
      child_run_id = id;
      stdout = r.stdout;
      stderr = r.stderr;
      dbt_artifacts = Dict.empty;
    })

    start_child : String → Job → ℕ → World E → TaskRun × World E
    unfolding child_result
    start_child key job depth w =
        let (jobs, run) = new_run w.jobs job.id in
        let w' = child job run (depth + 1) (record w { jobs = jobs }) in
        (child_result key run.id (get_run w'.jobs run.id), w')

    run_child : TaskSpec → RunJob → ℕ → Option Job → World E → TaskRun × World E
    unfolding start_child
    run_child t rj depth none w = (
      outcome t.key "FAILED" ""
          ("run_job_task.job_id " <> show_int64 rj.job_id <> " does not exist"),
      w,
    )
    run_child t rj depth (some job) w =
        if ltb max_run_job_depth (depth + 1)
        then (
          outcome t.key "FAILED" "" (
              "run_job_task nested deeper than "
              <> decimal max_run_job_depth
              <> ": a job that runs itself, directly or through a cycle, would not terminate"),
          w,
        )
        else start_child t.key job depth w

    run_job_task : TaskSpec → RunJob → ℕ → World E → TaskRun × World E
    unfolding run_child
    run_job_task t rj depth w = run_child t rj depth (get_job w.jobs rj.job_id) w

    -- The loop over the inputs: the copy for each input is run after the one before it.
    iterate :
        (TaskSpec → World E → TaskRun × World E)
        → TaskSpec
        → String
        → List String
        → World E
        → Iterations × World E
    unfolding substitute_input
    iterate run inner key [] w = (done, w)
    iterate run inner key (input ∷ inputs) w =
        let (tr, w') = run (substitute_input inner key input) w in
        let (rest, w'') = iterate run inner key inputs w' in (iteration tr rest, w'')

    -- What `runTask` does with the environment, for a task that is no loop.
    run_plain : TaskSpec → Dict String String → Option RunJob → ℕ → World E → TaskRun × World E
    unfolding run_job_task run_code load_task_code
    run_plain t env (some rj) depth w = run_job_task t rj depth w
    run_plain t env none depth w = run_code t env (load_task_code t w) w

    -- The same for a for_each_task; a run_job_task is looked for first.
    run_loop :
        (TaskSpec → World E → TaskRun × World E)
        → TaskSpec
        → TaskSpec
        → List String
        → Option RunJob
        → ℕ
        → World E
        → TaskRun × World E
    unfolding run_job_task iterate loop_result
    run_loop run inner t inputs (some rj) depth w = run_job_task t rj depth w
    run_loop run inner t inputs none depth w =
        let (i, w') = iterate run inner t.key inputs w in (loop_result t.key i, w')

    -- The start of `runTask`: secrets are resolved, and a dbt_task is run.
    with_env :
        TaskSpec
        → (Dict String String → World E → TaskRun × World E)
        → Result String (Dict String String)
        → Option Dbt
        → World E
        → TaskRun × World E
    with_env t rest (err e) dbt w = (outcome t.key "FAILED" "" e, w)
    with_env t rest (ok env) (some d) w = sv.run_dbt_task t env w
    with_env t rest (ok env) none w = rest env w

    -- `runTask` on a task whose own fields are replaced by `t`.
    run_as : Task → ℕ → TaskSpec → World E → TaskRun × World E
    unfolding run_plain run_loop with_env
    run_as (plain s) depth t w =
        let (env, w') = sv.resolve_secrets t.spark_env_vars w in
        with_env t (λ vars. run_plain t vars t.run_job depth) env t.dbt w'
    run_as (for_each s l inner) depth t w =
        let (env, w') = sv.resolve_secrets t.spark_env_vars w in
        with_env t (λ vars. run_loop (run_as inner depth) (spec inner) t l.inputs t.run_job depth)
          env t.dbt w'

    unfoldable pub run_task : Task → ℕ → World E → TaskRun × World E
    unfolding run_as
    run_task t depth w = run_as t depth (spec t) w
