-- ===== src/Store/Sql.antt =====
-- internal/store/sql.go: warehouses, statements and saved queries; the query history is in
-- `History`. The objects are kept by pointer in the source, and are values here: what a handler
-- writes through a pointer counts as an update of the entry.
pub mod History
pub mod Names
pub mod Listing
use databricks_emulator.Base.{
  ℕ, zero, suc, ◌+◌, ◌^◌, ◌<>◌, Bool, true, false, ◌&&◌, not, Option, none, some, List, [], ◌∷◌,
  String, if◌then◌else◌, ltb,
}
use databricks_emulator.Base.Eq.{◌==◌, string_comparable}
use databricks_emulator.Base.Int64.{incr64}
use databricks_emulator.Text.{numbered, decimal}
use databricks_emulator.Dict
use databricks_emulator.Dict.{Dict}
use History.{QueryHistory}

pub record Warehouse : Type 0 where
  pub id : String
  pub name : String
  pub cluster_size : String
  pub state : String

pub record Statement : Type 0 where
  pub id : String
  pub warehouse_id : String
  pub sql : String
  pub status : String
  pub error : String
  pub stdout : String
  pub dialect : String
  pub executed_by : String
  pub user_name : String

-- `P` is the type of a query's parameters, which the store only carries.
pub record Query (P : Type 0) : Type 0 where
  pub id : String
  pub display_name : String
  pub query_text : String
  pub warehouse_id : String
  pub description : String
  pub catalog : String
  pub schema : String
  pub parent_path : String
  pub tags : List String
  pub parameters : List P
  pub apply_auto_limit : Bool
  pub run_as_mode : String
  pub lifecycle_state : String
  pub create_time : String
  pub update_time : String
  pub owner_user_name : String
  pub last_modifier_user_name : String

pub record Sql (P : Type 0) : Type 0 where
  pub next_id : ℕ
  pub wh : Dict String Warehouse
  pub stmt : Dict String Statement
  pub queries : Dict String (Query P)
  pub history : List QueryHistory

abbrev pub running_warehouse : ℕ → String → String → Warehouse
running_warehouse n name size = record {
  id = numbered "wh-" n;
  name = name;
  cluster_size = size;
  state = "RUNNING";
}

abbrev pub pending_statement : ℕ → String → String → Statement
pending_statement n warehouse_id sql = record {
  id = numbered "stmt-" n;
  warehouse_id = warehouse_id;
  sql = sql;
  status = "PENDING";
  error = "";
  stdout = "";
  dialect = "spark-sql";
  executed_by = "the emulator's Spark engine (Spark SQL), not Photon";
  user_name = "";
}

abbrev pub moved : Warehouse → String → Warehouse
moved w state = record w { state = state }

first_running : List Warehouse → Option Warehouse
first_running [] = none
first_running (w ∷ l) = let rest = first_running l in if w.state == "RUNNING" then some w else rest

-- The n-th name that is tried in place of one that is taken.
abbrev pub candidate : String → ℕ → String
candidate name n = name <> " (" <> decimal n <> ")"

module _ {P : Type 0} where
  unfoldable pub new_sql : Sql P
  new_sql = record {
    next_id = 0;
    wh = Dict.empty;
    stmt = Dict.empty;
    queries = Dict.empty;
    history = [];
  }

  unfoldable pub create_warehouse : Sql P → String → String → Sql P × Warehouse
  create_warehouse s name size =
      let id = incr64 s.next_id in
      let w = running_warehouse id name size in
      (record s { next_id = id; wh = Dict.put s.wh (numbered "wh-" id) w }, w)

  unfoldable pub get_warehouse : Sql P → String → Option Warehouse
  get_warehouse s id = Dict.get s.wh id

  -- One of the RUNNING warehouses: the first that iteration meets.
  unfoldable pub find_running : Sql P → Option Warehouse
  unfolding first_running
  find_running s = first_running (Dict.values s.wh)

  unfoldable pub list_warehouses : Sql P → List Warehouse
  list_warehouses s = Dict.values s.wh

  warehouse_deleted : Sql P → String → Option Warehouse → Sql P × Bool
  warehouse_deleted s id none = (s, false)
  warehouse_deleted s id (some w) = (record s { wh = Dict.remove s.wh id }, true)

  unfoldable pub delete_warehouse : Sql P → String → Sql P × Bool
  unfolding warehouse_deleted
  delete_warehouse s id = warehouse_deleted s id (Dict.get s.wh id)

  warehouse_moved : Sql P → String → String → Option Warehouse → Sql P × Bool
  warehouse_moved s id state none = (s, false)
  warehouse_moved s id state (some w) = (record s { wh = Dict.put s.wh id (moved w state) }, true)

  unfoldable pub set_warehouse_state : Sql P → String → String → Sql P × Bool
  unfolding warehouse_moved
  set_warehouse_state s id state = warehouse_moved s id state (Dict.get s.wh id)

  unfoldable pub new_statement : Sql P → String → String → Sql P × Statement
  new_statement s warehouse_id sql =
      let id = incr64 s.next_id in
      let st = pending_statement id warehouse_id sql in
      (record s { next_id = id; stmt = Dict.put s.stmt (numbered "stmt-" id) st }, st)

  unfoldable pub get_statement : Sql P → String → Option Statement
  get_statement s id = Dict.get s.stmt id

  unfoldable pub update_statement : Sql P → Statement → Sql P
  update_statement s st = record s { stmt = Dict.put s.stmt st.id st }

  -- The query that CreateQuery stores: its id is set, and its state and mode where they are empty.
  abbrev pub saved_query : ℕ → Query P → Query P
  saved_query n q = record q {
    id = numbered "qry-" n;
    lifecycle_state = if q.lifecycle_state == "" then "ACTIVE" else q.lifecycle_state;
    run_as_mode = if q.run_as_mode == "" then "OWNER" else q.run_as_mode;
  }

  unfoldable pub create_query : Sql P → Query P → Sql P × Query P
  create_query s q =
      let id = incr64 s.next_id in
      let saved = saved_query id q in
      (record s { next_id = id; queries = Dict.put s.queries (numbered "qry-" id) saved }, saved)

  unfoldable pub get_query : Sql P → String → Option (Query P)
  get_query s id = Dict.get s.queries id

  -- The query in front of the others, if there is one and it is ACTIVE.
  listed : Option (Query P) → List (Query P) → List (Query P)
  listed none rest = rest
  listed (some q) rest = if q.lifecycle_state == "ACTIVE" then q ∷ rest else rest

  -- The loop of ListQueries, over `todo` ids from `i` on.
  list_from : Sql P → ℕ → ℕ → List (Query P)
  unfolding listed
  list_from s i zero = []
  list_from s i (suc todo) =
      listed (Dict.get s.queries (numbered "qry-" i)) (list_from s (i + 1) todo)

  -- The loop makes no round when the counter is negative.
  unfoldable pub list_queries : Sql P → List (Query P)
  unfolding list_from
  list_queries s = let all = list_from s 1 s.next_id in if ltb s.next_id (2 ^ 63) then all else []

  unfoldable pub update_query : Sql P → Query P → Sql P
  update_query s q = record s { queries = Dict.put s.queries q.id q }

  abbrev pub trashed : Query P → Query P
  trashed q = record q { lifecycle_state = "TRASHED" }

  query_trashed : Sql P → String → Option (Query P) → Sql P × Bool
  query_trashed s id none = (s, false)
  query_trashed s id (some q) =
      if q.lifecycle_state == "TRASHED"
      then (s, false)
      else (record s { queries = Dict.put s.queries id (trashed q) }, true)

  unfoldable pub trash_query : Sql P → String → Sql P × Bool
  unfolding query_trashed
  trash_query s id = query_trashed s id (Dict.get s.queries id)

  -- An ACTIVE query of this name, other than the one with the id.
  abbrev pub clashes : String → String → Query P → Bool
  clashes name except_id q =
      q.lifecycle_state == "ACTIVE" && (q.display_name == name && not (q.id == except_id))

  unfoldable pub display_name_taken : Sql P → String → String → Bool
  display_name_taken s name except_id = Dict.any_value (clashes name except_id) s.queries

  -- The loop over candidates, for `todo` numbers from `n` on.
  resolve_from : Sql P → String → String → ℕ → ℕ → Option String
  resolve_from s name except_id n zero = none
  resolve_from s name except_id n (suc todo) =
      let rest = resolve_from s name except_id (n + 1) todo in
      if display_name_taken s (candidate name n) except_id then rest else some (candidate name n)

  unfoldable pub resolve_display_name : Sql P → String → Bool → String → Option String
  unfolding resolve_from
  resolve_display_name s name auto except_id =
      if display_name_taken s name except_id
      then (if auto then resolve_from s name except_id 1 999 else none)
      else some name

  unfoldable pub record_history : Sql P → QueryHistory → Sql P
  record_history s h = record s { history = h ∷ s.history }
