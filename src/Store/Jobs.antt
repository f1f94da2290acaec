-- ===== src/Store/Jobs.antt =====
-- internal/store/jobs.go: job definitions, runs, and the store that holds them.
--
-- Runs are copied on the way in and out, so they are values. A job is handed out as the pointer to
-- the stored object: what a reader sees through it later is `tasks_now`.
pub mod Cancel
pub mod Fresh
use databricks_emulator.Base.{
  ℕ, Bool, true, false, ◌||◌, Option, none, some, List, [], String, if◌then◌else◌, keep, or_else,
}
use databricks_emulator.Base.Eq.{◌==◌, nat_comparable, string_comparable}
use databricks_emulator.Base.Int64.{ℤ, incr64}
use databricks_emulator.Dict
use databricks_emulator.Dict.{Dict}

-- One edge into a task; `outcome` is the branch of a condition that it follows, or empty.
pub record Dependency : Type 0 where
  pub key : String
  pub outcome : String

pub record Condition : Type 0 where
  pub op : String
  pub left : String
  pub right : String

pub record Dbt : Type 0 where
  pub commands : List String
  pub catalog : String
  pub schema : String
  pub project_directory : String
  pub profiles_directory : String
  pub warehouse_id : String

pub record RunJob : Type 0 where
  pub job_id : ℕ
  pub params : Dict String String

-- The fields of a task but `ForEach`, which holds another task.
pub record TaskSpec : Type 0 where
  pub key : String
  pub depends_on : List Dependency
  pub run_if : String
  pub notebook_path : String
  pub notebook_params : Dict String String
  pub python_file : String
  pub python_params : List String
  pub sql_file : String
  pub condition : Option Condition
  pub dbt : Option Dbt
  pub run_job : Option RunJob
  pub spark_env_vars : Dict String String

pub record Loop : Type 0 where
  pub inputs : List String
  pub concurrency : ℤ

-- A task, by whether its `ForEach` is nil.
pub data Task : Type 0 where
  plain : TaskSpec → Task
  for_each : TaskSpec → Loop → Task → Task

abbrev pub spec : Task → TaskSpec
spec (plain s) = s
spec (for_each s l t) = s

pub record Job : Type 0 where
  pub id : ℕ
  pub name : String
  pub tasks : List Task

-- The fields of a task's result but `Iterations`, which holds other results.
pub record RunReport : Type 0 where
  pub key : String
  pub life_cycle : String
  pub result_state : String
  pub condition_outcome : String
  pub child_run_id : ℕ
  pub stdout : String
  pub stderr : String
  pub dbt_artifacts : Dict String String

-- A task's result, by whether its `Iterations` are nil.
mutual
  pub data TaskRun : Type 0 where
    single : RunReport → TaskRun
    iterated : RunReport → Iterations → TaskRun

  pub data Iterations : Type 0 where
    done : Iterations
    iteration : TaskRun → Iterations → Iterations

abbrev pub report : TaskRun → RunReport
report (single r) = r
report (iterated r i) = r

pub record Run : Type 0 where
  pub id : ℕ
  pub job_id : ℕ
  pub life_cycle : String
  pub result_state : String
  pub state_message : String
  pub executed_by : String
  pub tasks : List TaskRun
  pub stdout : String
  pub stderr : String

pub record Jobs : Type 0 where
  pub next_id : ℕ
  pub jobs : Dict ℕ Job
  -- Jobs that were deleted: a run that still executes holds a pointer to its job.
  pub detached : Dict ℕ Job
  pub runs : Dict ℕ Run

abbrev pub result_canceled : String
result_canceled = "CANCELED"

unfoldable pub new_jobs : Jobs
new_jobs = record { next_id = 0; jobs = Dict.empty; detached = Dict.empty; runs = Dict.empty }

unfoldable pub create : Jobs → String → List Task → Jobs × Job
create j name tasks =
    let id = incr64 j.next_id in
    let job : Job = record { id = id; name = name; tasks = tasks } in
    (record j { next_id = id; jobs = Dict.put j.jobs id job }, job)

unfoldable pub get_job : Jobs → ℕ → Option Job
get_job j id = Dict.get j.jobs id

-- job.Tasks, through the pointer that `Get` returned: `Reset` writes it in place.
unfoldable pub tasks_now : Jobs → Job → List Task
tasks_now j job =
    (or_else (Dict.get j.jobs job.id) (or_else (Dict.get j.detached job.id) job)).tasks

unfoldable pub list_jobs : Jobs → List Job
list_jobs j = Dict.values j.jobs

delete_found : Jobs → ℕ → Option Job → Jobs × Bool
delete_found j id none = (j, false)
delete_found j id (some job) =
    (record j { jobs = Dict.remove j.jobs id; detached = Dict.put j.detached id job }, true)

unfoldable pub delete_job : Jobs → ℕ → Jobs × Bool
unfolding delete_found
delete_job j id = delete_found j id (Dict.get j.jobs id)

reset_found : Jobs → ℕ → String → List Task → Option Job → Jobs × Bool
reset_found j id name tasks none = (j, false)
reset_found j id name tasks (some job) =
    (record j { jobs = Dict.put j.jobs id (record job { name = name; tasks = tasks }) }, true)

unfoldable pub reset_job : Jobs → ℕ → String → List Task → Jobs × Bool
unfolding reset_found
reset_job j id name tasks = reset_found j id name tasks (Dict.get j.jobs id)

-- Run{}, with its id and its job.
abbrev pub pending_run : ℕ → ℕ → Run
pending_run id job_id = record {
  id = id;
  job_id = job_id;
  life_cycle = "PENDING";
  result_state = "";
  state_message = "";
  executed_by = "";
  tasks = [];
  stdout = "";
  stderr = "";
}

unfoldable pub new_run : Jobs → ℕ → Jobs × Run
new_run j job_id =
    let id = incr64 j.next_id in
    let run : Run = pending_run id job_id in
    (record j { next_id = id; runs = Dict.put j.runs id run }, run)

unfoldable pub get_run : Jobs → ℕ → Option Run
get_run j id = Dict.get j.runs id

-- A cancelled run is final: a later publish of it is dropped.
is_canceled : Option Run → Bool
is_canceled none = false
is_canceled (some cur) = cur.result_state == result_canceled

unfoldable pub update_run : Jobs → Run → Jobs
unfolding is_canceled
update_run j run =
    if is_canceled (Dict.get j.runs run.id)
    then j
    else record j { runs = Dict.put j.runs run.id run }

unfoldable pub list_runs : Jobs → ℕ → List Run
list_runs j job_id = keep (λ r. job_id == 0 || r.job_id == job_id) (Dict.values j.runs)

abbrev pub canceled_run : Run → Run
canceled_run run = record run { life_cycle = "TERMINATED"; result_state = result_canceled }

cancel_found : Jobs → ℕ → Option Run → Jobs × Bool
cancel_found j id none = (j, false)
cancel_found j id (some run) =
    if run.life_cycle == "TERMINATED"
    then (j, true)
    else (record j { runs = Dict.put j.runs id (canceled_run run) }, true)

unfoldable pub cancel_run : Jobs → ℕ → Jobs × Bool
unfolding cancel_found
cancel_run j id = cancel_found j id (Dict.get j.runs id)
