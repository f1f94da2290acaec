-- ===== src/Server/Queries/Named.antt =====
-- internal/server/queries.go: a handler that runs alone keeps the names of the
-- store's queries apart.
use databricks_emulator.Base.{
  ◌+◌, ◌^◌, ◌<◌, ◌≡◌, refl, ap, ◌∙◌, Bool, ◌||◌, ◌&&◌, some, List, String, arith, Bool-cases,
  Option-cases, inl, inr,
}
use databricks_emulator.Base.Eq.{◌==◌, string_comparable}
use databricks_emulator.Text.{trim_space}
use databricks_emulator.Dict
use databricks_emulator.Store.Sql.{
  Query, Sql, create_query, get_query, update_query, trash_query, resolve_display_name,
}
use databricks_emulator.Store.Sql.Names.{
  IsNamed, creates, renames, edits, trashes, Step-IsNamed, renamed,
}
use databricks_emulator.Server.Queries.{
  QueryBody, sql_create_query, saved, drafted, sql_update_query, update_found, write_name,
  write_fields, with_text, with_rest, applies, warehouse_missing, sql_delete_query, undisturbed,
  update_mask_fields,
}

module _ {P : Type 0} where
  get-update_query : (s : Sql P) (q : Query P) → get_query (update_query s q) q.id ≡ some q
  unfolding get_query update_query
  get-update_query s q =
      ground (arith, Dict.get-put s.queries q.id q q.id, string_comparable.equal_iff q.id q.id)

  same_counter :
      (s : Sql P) (q : Query P) → s.next_id + 1 < 2 ^ 63 → (update_query s q).next_id + 1 < 2 ^ 63
  unfolding update_query
  same_counter s q room = room

  write_fields-IsNamed :
      (s : Sql P) (fields : List String) (b : QueryBody P) (now user : String) (q : Query P)
      → s.next_id + 1 < 2 ^ 63
      → IsNamed s
      → get_query s q.id ≡ some q
      → IsNamed (write_fields s fields b now user q).0
  unfolding write_fields
  write_fields-IsNamed s fields b now user q room n at =
      let texted = with_text fields b q in
      let t = update_query s texted in
      let whole = with_rest fields b now user texted in
      let written : IsNamed t = Step-IsNamed s t room n (edits q texted at refl refl refl) in
      elim (Bool-cases (applies fields "warehouse_id" && warehouse_missing s b.warehouse_id)) [
        | inl missing ↦ rw missing written
        | inr there ↦ rw there (
            Step-IsNamed t (update_query t whole) (same_counter s texted room) written
              (edits texted whole (get-update_query s texted) refl refl refl))
      ]

  update_found-IsNamed :
      (s : Sql P) (auto : Bool) (fields : List String) (b : QueryBody P) (now user : String)
      (q : Query P)
      → s.next_id + 1 < 2 ^ 63
      → IsNamed s
      → get_query s q.id ≡ some q
      → IsNamed (update_found undisturbed s auto fields b now user (some q)).0
  unfolding update_found write_name
  update_found-IsNamed s auto fields b now user q room n at =
      elim (Bool-cases (q.lifecycle_state == "TRASHED")) [
        | inl over ↦ rw over n
        | inr live ↦ elim (Bool-cases (applies fields "display_name")) [
          | inr kept ↦ rw (live, kept) (write_fields-IsNamed s fields b now user q room n at)
          | inl asked ↦
              rw (live, asked)
                (elim (Option-cases (resolve_display_name s b.display_name auto q.id)) [
                  | inl refused ↦ rw refused n
                  | inr (name, given) ↦
                      let t = update_query s (renamed q name) in
                      rw (given, at)
                        (write_fields-IsNamed t fields b now user (renamed q name)
                          (same_counter s (renamed q name) room)
                          (Step-IsNamed s t room n (renames q b.display_name auto name at given))
                          (get-update_query s (renamed q name)))
                ])
        ]
      ]

  sql_update_query-IsNamed :
      (s : Sql P) (id : String) (auto : Bool) (mask : String) (b : QueryBody P) (now user : String)
      → s.next_id + 1 < 2 ^ 63
      → IsNamed s
      → IsNamed (sql_update_query undisturbed s id auto mask b now user).0
  unfolding sql_update_query get_query
  sql_update_query-IsNamed s id auto mask b now user room n =
      elim (Bool-cases (◌==◌ {K = String} (trim_space mask) "")) [
        | inl blank ↦ rw blank n
        | inr named ↦ elim (Option-cases (Dict.get s.queries id)) [
          | inl e ↦ rw (named, e, update_found) n
          | inr (q, e) ↦
              rw (named, e)
                (update_found-IsNamed s auto (update_mask_fields mask) b now user q room n
                  (ap (Dict.get s.queries) (n.keyed id q e) ∙ e))
        ]
      ]

  sql_create_query-IsNamed :
      (s : Sql P) (auto : Bool) (b : QueryBody P) (now user : String)
      → s.next_id + 1 < 2 ^ 63
      → IsNamed s
      → IsNamed (sql_create_query undisturbed s auto b now user).0
  unfolding sql_create_query saved
  sql_create_query-IsNamed s auto b now user room n =
      elim (Bool-cases (b.display_name == "" || b.query_text == "")) [
        | inl empty ↦ rw empty n
        | inr filled ↦ elim (Bool-cases (warehouse_missing s b.warehouse_id)) [
          | inl missing ↦ rw (filled, missing) n
          | inr there ↦ elim (Option-cases (resolve_display_name s b.display_name auto "")) [
            | inl refused ↦ rw (filled, there, refused) n
            | inr (name, given) ↦
                rw (filled, there, given)
                  (Step-IsNamed s (create_query s (drafted b name now user)).0 room n
                    (creates (drafted b b.display_name now user) auto name given))
          ]
        ]
      ]

  -- A handler that no other request disturbs between the choice of a name and its write leaves the
  -- ACTIVE queries under different display names, whatever it answers, where they had different names
  -- before, queries stand under their own numbered ids, and the counter has room.
  pub handlers-IsNamed :
      (s : Sql P) (id : String) (auto : Bool) (mask : String) (b : QueryBody P) (now user : String)
      → s.next_id + 1 < 2 ^ 63
      → IsNamed s
      → IsNamed (sql_create_query undisturbed s auto b now user).0
        × IsNamed (sql_update_query undisturbed s id auto mask b now user).0
        × IsNamed (sql_delete_query s id).0
  unfolding sql_delete_query
  handlers-IsNamed s id auto mask b now user room n = (
    sql_create_query-IsNamed s auto b now user room n,
    sql_update_query-IsNamed s id auto mask b now user room n,
    Step-IsNamed s (trash_query s id).0 room n (trashes id),
  )
