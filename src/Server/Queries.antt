-- ===== src/Server/Queries.antt =====
-- internal/server/queries.go: the handlers that create, update and trash saved queries, behind
-- authentication and the decoding of the body.
--
-- GetQuery hands out the stored query by pointer, so what sqlUpdateQuery writes before it refuses
-- stays: the model writes the store at each of these points.
--
-- ResolveDisplayName lets go of the store's lock before the name is written. `others` is what other
-- requests do to the store between the two; `undisturbed` stands for none. At every other point the
-- handlers are modelled as if no other request ran.
pub mod Named
pub mod Refused
pub mod Race
use Prim.Native.Char.{Char, code}
use databricks_emulator.Base.{
  Bool, true, false, ◌||◌, ◌&&◌, not, Option, none, some, List, [], ◌∷◌, map, String, if◌then◌else◌,
  keep, any, or_else, is_some,
}
use databricks_emulator.Base.Eq.{◌==◌, string_comparable, nat_comparable}
use databricks_emulator.Text.{trim_space}
use databricks_emulator.Store.Sql.{
  Query, Sql, create_query, get_query, get_warehouse, update_query, trash_query,
  resolve_display_name, Warehouse,
}

pub record QueryBody (P : Type 0) : Type 0 where
  pub apply_auto_limit : Option Bool
  pub catalog : String
  pub description : String
  pub display_name : String
  pub parameters : List P
  pub parent_path : String
  pub query_text : String
  pub run_as_mode : String
  pub schema : String
  pub tags : List String
  pub warehouse_id : String

-- The answers, by status code.
pub data Reply (P : Type 0) : Type 0 where
  replied : Query P → Reply P
  no_content : Reply P
  bad_request : String → Reply P
  not_found : String → Reply P
  conflict : String → Reply P

-- strings.Split(mask, ",")
glue : Char → List String → List String
glue c [] = String.◌∷◌ c "" ∷ []
glue c (field ∷ fields) = String.◌∷◌ c field ∷ fields

split_comma : String → List String
unfolding glue
split_comma String.[] = "" ∷ []
split_comma (String.◌∷◌ c s) =
    let rest = split_comma s in if code c == 44 then "" ∷ rest else glue c rest

unfoldable pub update_mask_fields : String → List String
unfolding split_comma
update_mask_fields mask =
    keep (λ f. not (◌==◌ {K = String} f "")) (map trim_space (split_comma mask))

abbrev pub applies : List String → String → Bool
applies fields name = any (λ f. f == name) fields || any (λ f. ◌==◌ {K = String} f "*") fields

module _ {P : Type 0} where
  -- A warehouse that is named must exist.
  unfoldable pub warehouse_missing : Sql P → String → Bool
  warehouse_missing s id = not (id == "") && not (is_some (get_warehouse s id))

  abbrev pub drafted : QueryBody P → String → String → String → Query P
  drafted q name now user = record {
    id = "";
    display_name = name;
    query_text = q.query_text;
    warehouse_id = q.warehouse_id;
    description = q.description;
    catalog = q.catalog;
    schema = q.schema;
    parent_path = q.parent_path;
    tags = q.tags;
    parameters = q.parameters;
    apply_auto_limit = or_else q.apply_auto_limit false;
    run_as_mode = q.run_as_mode;
    lifecycle_state = "";
    create_time = now;
    update_time = now;
    owner_user_name = user;
    last_modifier_user_name = user;
  }

  -- No other request.
  abbrev pub undisturbed : Sql P → Sql P
  undisturbed s = s

  saved : (Sql P → Sql P) → Sql P → QueryBody P → String → String → Option String → Sql P × Reply P
  saved others s q now user none = (s, conflict "display_name already exists")
  saved others s q now user (some name) =
      let (t, created) = create_query (others s) (drafted q name now user) in (t, replied created)

  -- The body is `auto` and `q`; `now` is the time of the server's clock as text.
  unfoldable pub sql_create_query :
      (Sql P → Sql P) → Sql P → Bool → QueryBody P → String → String → Sql P × Reply P
  unfolding saved
  sql_create_query others s auto q now user =
      if q.display_name == "" || q.query_text == ""
      then (s, bad_request "query.display_name and query.query_text are required")
      else if warehouse_missing s q.warehouse_id
      then (s, not_found "warehouse not found")
      else saved others s q now user (resolve_display_name s q.display_name auto "")

  -- The query behind the pointer: the stored one, since no operation takes a query out of the map.
  abbrev pub current : Sql P → Query P → Query P
  current s q = or_else (get_query s q.id) q

  abbrev pub with_name : Query P → String → Query P
  with_name q name = record q { display_name = name }

  abbrev pub with_text : List String → QueryBody P → Query P → Query P
  with_text fields b q = record q {
    query_text = if applies fields "query_text" then b.query_text else q.query_text;
  }

  abbrev pub with_rest : List String → QueryBody P → String → String → Query P → Query P
  with_rest fields b now user q = record q {
    warehouse_id = if applies fields "warehouse_id" then b.warehouse_id else q.warehouse_id;
    description = if applies fields "description" then b.description else q.description;
    catalog = if applies fields "catalog" then b.catalog else q.catalog;
    schema = if applies fields "schema" then b.schema else q.schema;
    parent_path = if applies fields "parent_path" then b.parent_path else q.parent_path;
    tags = if applies fields "tags" then b.tags else q.tags;
    parameters = if applies fields "parameters" then b.parameters else q.parameters;
    apply_auto_limit =
        if applies fields "apply_auto_limit"
        then or_else b.apply_auto_limit false
        else q.apply_auto_limit;
    run_as_mode = if applies fields "run_as_mode" then b.run_as_mode else q.run_as_mode;
    update_time = now;
    last_modifier_user_name = user;
  }

  -- From the query's text on.
  write_fields : Sql P → List String → QueryBody P → String → String → Query P → Sql P × Reply P
  write_fields s fields b now user q =
      let texted = with_text fields b q in
      let t = update_query s texted in
      let whole = with_rest fields b now user texted in
      if applies fields "warehouse_id" && warehouse_missing s b.warehouse_id
      then (t, not_found "warehouse not found")
      else (update_query t whole, replied whole)

  write_name :
      (Sql P → Sql P)
      → Sql P
      → List String
      → QueryBody P
      → String
      → String
      → Query P
      → Option String
      → Sql P × Reply P
  unfolding write_fields
  write_name others s fields b now user q none = (s, conflict "display_name already exists")
  write_name others s fields b now user q (some name) =
      let t = others s in
      let renamed = with_name (current t q) name in
      write_fields (update_query t renamed) fields b now user renamed

  update_found :
      (Sql P → Sql P)
      → Sql P
      → Bool
      → List String
      → QueryBody P
      → String
      → String
      → Option (Query P)
      → Sql P × Reply P
  unfolding write_name write_fields
  update_found others s auto fields b now user none = (s, not_found "query not found")
  update_found others s auto fields b now user (some q) =
      if q.lifecycle_state == "TRASHED"
      then (s, not_found "query not found")
      else if applies fields "display_name"
      then write_name others s fields b now user q (resolve_display_name s b.display_name auto q.id)
      else write_fields s fields b now user q

  unfoldable pub sql_update_query :
      (Sql P → Sql P)
      → Sql P
      → String
      → Bool
      → String
      → QueryBody P
      → String
      → String
      → Sql P × Reply P
  unfolding update_found
  sql_update_query others s id auto mask b now user =
      if trim_space mask == ""
      then (s, bad_request "update_mask is required")
      else update_found others s auto (update_mask_fields mask) b now user (get_query s id)

  unfoldable pub sql_delete_query : Sql P → String → Sql P × Reply P
  sql_delete_query s id =
      let (t, found) = trash_query s id in
      (t, if found then no_content else not_found "query not found")
