-- ===== src/Tests/QueryHandlers.antt =====
-- The query handlers at a store with one query.
use databricks_emulator.Base.{ℕ, ◌≡◌, refl, true, false, none, some, [], ◌∷◌, String, arith}
use databricks_emulator.Base.Eq.{string_comparable, nat_comparable}
use databricks_emulator.Base.Int64.{incr64}
use databricks_emulator.Dict
use databricks_emulator.Text.{trim_space}
use databricks_emulator.Store.Sql.{
  Query, Sql, new_sql, create_query, get_query, get_warehouse, resolve_display_name,
  display_name_taken,
}
use databricks_emulator.Store.Sql.Names.{IsNamed, new_sql-IsNamed, Step-IsNamed, creates}
use databricks_emulator.Server.Queries.{
  QueryBody, undisturbed, applies, drafted, sql_create_query, sql_update_query, sql_delete_query,
  update_mask_fields, warehouse_missing,
}
use databricks_emulator.Server.Queries.Named.{handlers-IsNamed}
use databricks_emulator.Server.Queries.Refused.{HalfWritten, update_refused}

abbrev body : QueryBody ℕ
body = record {
  apply_auto_limit = none;
  catalog = "";
  description = "";
  display_name = "daily";
  parameters = [];
  parent_path = "";
  query_text = "SELECT 2";
  run_as_mode = "";
  schema = "";
  tags = [];
  warehouse_id = "wh-9";
}

abbrev stored : Sql ℕ
stored = (create_query new_sql (drafted body "daily" "then" "me")).0

abbrev stored_query : Query ℕ
stored_query = (create_query new_sql (drafted body "daily" "then" "me")).1

stored-IsNamed : IsNamed stored
unfolding new_sql resolve_display_name display_name_taken Dict.any_value Dict.empty
stored-IsNamed =
    Step-IsNamed new_sql stored (omega arith) new_sql-IsNamed
      (creates (drafted body "daily" "then" "me") false "daily" refl)

handlers-IsNamed_example :
    IsNamed (sql_create_query undisturbed stored true body "now" "me").0
    × IsNamed (sql_update_query undisturbed stored "qry-1" true "*" body "now" "me").0
    × IsNamed (sql_delete_query stored "qry-1").0
unfolding new_sql create_query incr64
handlers-IsNamed_example =
    handlers-IsNamed stored "qry-1" true "*" body "now" "me" (omega arith) stored-IsNamed

abbrev half_mask : String
half_mask = "query_text, warehouse_id"

update_refused_example :
    (applies (update_mask_fields half_mask) "warehouse_id" ≡ true)
    × HalfWritten stored "qry-1" false
        (update_mask_fields half_mask)
        body
        stored_query
        (sql_update_query undisturbed stored "qry-1" false half_mask body "now" "me").0
unfolding new_sql create_query incr64 get_query Dict.get Dict.put Dict.empty trim_space
    update_mask_fields warehouse_missing get_warehouse databricks_emulator.Base.keep
    databricks_emulator.Base.any databricks_emulator.Text.numbered sql_update_query
update_refused_example =
    update_refused stored "qry-1" false half_mask body "now" "me" stored_query refl refl refl

abbrev no_warehouse : QueryBody ℕ
no_warehouse = record body { warehouse_id = "" }
