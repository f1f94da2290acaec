-- ===== src/Server/Queries/Race.antt =====
-- internal/server/queries.go: two requests that create a query at the same time.
use databricks_emulator.Base.{◌≡◌, Bool, some, String}
use databricks_emulator.Dict
use databricks_emulator.Store.Sql.{Query, Sql, get_query}
use databricks_emulator.Server.Queries.{QueryBody, sql_create_query, undisturbed}

module _ {P : Type 0} where
  -- Two queries with a name that are ACTIVE under different ids.
  pub record Duplicates (t : Sql P) (name : String) (q r : Query P) : Type 0 where
    pub different : ¬ (q.id ≡ r.id)
    pub first_stored : get_query t q.id ≡ some q
    pub second_stored : get_query t r.id ≡ some r
    pub first_active : q.lifecycle_state ≡ "ACTIVE"
    pub second_active : r.lifecycle_state ≡ "ACTIVE"
    pub first_named : q.display_name ≡ name
    pub second_named : r.display_name ≡ name

  -- One request runs as a whole while the other has its name and has not written it.
  abbrev pub meanwhile : Bool → QueryBody P → String → String → Sql P → Sql P
  meanwhile auto b now user s = (sql_create_query undisturbed s auto b now user).0
