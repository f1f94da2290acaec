-- ===== src/Server/Jobs/World.antt =====
-- internal/server/jobs.go: what running a task acts on, and what it calls.
use databricks_emulator.Base.{Bool, String, List}
use databricks_emulator.Base.Eq.{string_comparable}
use databricks_emulator.Base.Result.{Result}
use databricks_emulator.Dict.{Dict}
use databricks_emulator.Store.Jobs.{Jobs, TaskSpec, TaskRun}

-- The jobs store, and all else that handlers and the engine can change.
pub record World (E : Type 0) : Type 0 where
  pub jobs : Jobs
  pub outside : E

-- internal/spark: a request to the engine, and its answer.
pub record Request : Type 0 where
  pub session : String
  pub code : String
  pub kind : String

pub record Answer : Type 0 where
  pub succeeded : Bool
  pub stdout : String
  pub e_name : String
  pub e_value : String

-- The attached engine, the other stores, and the JSON literals of the generated code. A call may
-- change the world in any way: while the engine works, handlers serve other requests.
pub record Services (E : Type 0) : Type 0 where
  -- s.Spark != nil
  pub attached : Bool
  pub spark_run : Request → World E → Result String Answer × World E
  pub resolve_secrets : Dict String String → World E → Result String (Dict String String) × World E
  pub run_dbt_task : TaskSpec → Dict String String → World E → TaskRun × World E
  pub dbfs_get : String → World E → Result String String
  pub workspace_get : String → World E → Result String String
  -- `%q` of `json.Marshal`, for a map and for a list of strings.
  pub quote_map : Dict String String → String
  pub quote_list : List String → String
  -- sparkSQLRequest: the warehouse's request for a SQL text.
  pub sql_request : String → Request
