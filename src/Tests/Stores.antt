-- ===== src/Tests/Stores.antt =====
-- The stores of commands, clusters and SQL objects at small states.
use databricks_emulator.Base.{
  ℕ, ◌+◌, ◌≤◌, ◌<◌, ◌≡◌, ◌↔◌, refl, none, some, true, false, [], ◌∷◌, String, arith, length, Any,
  is_some, if◌then◌else◌, List, Option,
}
use databricks_emulator.Base.Eq.{◌==◌, string_comparable, nat_comparable}
use databricks_emulator.Base.Int64.{incr64, pos}
use databricks_emulator.Dict
use databricks_emulator.Dict.{map_option, keep_option}
use databricks_emulator.Store.Commands.{
  ExecCommand, Commands, Outcome, new_commands, create_context, create_command, destroy_context,
  cancel_command, finish_command, get_context, get_command,
}
use databricks_emulator.Store.Commands.Lifecycle.{finish-cancel, destroy_context_lem}
use databricks_emulator.Store.Clusters.{ClusterRequest, new_clusters, create_cluster, get_cluster}
use databricks_emulator.Store.Clusters.Handles as Handles
use databricks_emulator.Store.Sql.{
  Query, Sql, new_sql, create_query, display_name_taken, resolve_display_name, candidate,
  list_queries,
}
use databricks_emulator.Store.Sql.History.{QueryHistory, HistoryFilter, matching}
use databricks_emulator.Store.Sql.History.Pages.{walk, walk-matching}
use databricks_emulator.Store.Sql.Names as Names
use databricks_emulator.Store.Sql.Listing.{list_queries_iff}

-- A context with a running command.
abbrev one_command : Commands
one_command =
    (create_command (create_context new_commands "cluster-1" "python").0 "cluster-1" "ctx-1"
      "python" "1 + 1").0

abbrev printed : Outcome
printed = record {
  status = "Finished";
  result_type = "text";
  output = "2";
  summary = "";
  cause = "";
}

finish-cancel_example :
    get_command (finish_command (cancel_command one_command "cmd-2").0 "cmd-2" printed).0 "cmd-2"
    ≡ get_command (finish_command one_command "cmd-2" printed).0 "cmd-2"
finish-cancel_example = finish-cancel one_command "cmd-2" "cmd-2" printed

destroy_context_lem_example :
    ((destroy_context one_command "ctx-1").1 ≡ is_some (get_context one_command "ctx-1"))
    × (get_context (destroy_context one_command "ctx-1").0 "cmd-2"
        ≡ (if ◌==◌ {K = String} "ctx-1" "cmd-2" then none else get_context one_command "cmd-2"))
    × ((cmd : ExecCommand)
        → (get_command (destroy_context one_command "ctx-1").0 "cmd-2" ≡ some cmd) ↔ (
            (get_command one_command "cmd-2" ≡ some cmd)
            × (is_some (get_context one_command "ctx-1") ≡ true → ¬ (cmd.context_id ≡ "ctx-1"))))
destroy_context_lem_example = destroy_context_lem one_command "ctx-1" "cmd-2"

abbrev small : ClusterRequest
small = record {
  name = "small";
  spark_version = "15.4";
  node_type = "local";
  workers = pos 1;
  creator = "me";
  policy_id = "";
}

get_cluster-apply_example :
    get_cluster
      (Handles.apply
        (create_cluster new_clusters small).0
        (Handles.sets "cluster-1" "RUNNING" "up"))
      "cluster-1"
    ≡ Handles.effect
        (create_cluster new_clusters small).0
        (Handles.sets "cluster-1" "RUNNING" "up")
        "cluster-1"
        (get_cluster (create_cluster new_clusters small).0 "cluster-1")
unfolding create_cluster new_clusters incr64
get_cluster-apply_example =
    Handles.get_cluster-apply (create_cluster new_clusters small).0
      (Handles.sets "cluster-1" "RUNNING" "up") "cluster-1" (omega arith)

abbrev execution : String → QueryHistory
execution id = record {
  query_id = id;
  warehouse_id = "wh-1";
  query_text = "SELECT 1";
  status = "FINISHED";
  error_message = "";
  query_start_time_ms = pos 10;
  query_end_time_ms = pos 20;
  execution_end_time_ms = pos 20;
  duration = pos 10;
  is_final = true;
  user_name = "me";
  statement_type = "SELECT";
}

abbrev everything : HistoryFilter
everything = record {
  warehouse_ids = [];
  statuses = "FINISHED" ∷ [];
  statement_ids = [];
  start_time_ms = pos 5;
  end_time_ms = pos 0;
}

abbrev past : List QueryHistory
past = execution "stmt-3" ∷ execution "stmt-2" ∷ execution "stmt-1" ∷ []

walk-matching_example :
    walk ◌==◌ past everything (length (matching ◌==◌ past everything) + 1) 2 0
    ≡ some (matching ◌==◌ past everything)
unfolding matching databricks_emulator.Base.keep
    databricks_emulator.Store.Sql.History.history_matches
    databricks_emulator.Store.Sql.History.contains_fold databricks_emulator.Base.any
walk-matching_example = walk-matching ◌==◌ past everything 2 (omega arith) (omega arith)

abbrev question : Query ℕ
question = record {
  id = "";
  display_name = "daily";
  query_text = "SELECT 1";
  warehouse_id = "";
  description = "";
  catalog = "";
  schema = "";
  parent_path = "";
  tags = [];
  parameters = [];
  apply_auto_limit = false;
  run_as_mode = "";
  lifecycle_state = "";
  create_time = "";
  update_time = "";
  owner_user_name = "me";
  last_modifier_user_name = "me";
}

abbrev one_query : Sql ℕ
one_query = (create_query new_sql question).0

resolve_display_name_lem_example :
    ((found : String)
      → resolve_display_name one_query "daily" true "" ≡ some found
      → display_name_taken one_query found "" ≡ false)
    × (resolve_display_name one_query "daily" true "" ≡ none
        → (display_name_taken one_query "daily" "" ≡ true)
          × (true ≡ true
              → (i : ℕ) → 1 ≤ i
              → i < 1000
              → display_name_taken one_query (candidate "daily" i) "" ≡ true))
resolve_display_name_lem_example = Names.resolve_display_name_lem one_query "daily" true ""

abbrev saved : Query ℕ
saved = (create_query new_sql question).1

one_query-IsNamed : Names.IsNamed one_query
unfolding new_sql resolve_display_name display_name_taken Dict.any_value Dict.empty
one_query-IsNamed =
    Names.Step-IsNamed new_sql one_query (omega arith) Names.new_sql-IsNamed
      (Names.creates question false "daily" refl)

list_queries_iff_example : Any (λ r. r ≡ saved) (list_queries one_query) ↔ (
    (k : String) × (Dict.get one_query.queries k ≡ some saved) × (saved.lifecycle_state ≡ "ACTIVE"))
unfolding new_sql create_query incr64
list_queries_iff_example = list_queries_iff one_query saved (omega arith) one_query-IsNamed.issued
