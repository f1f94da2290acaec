-- ===== src/Server/Queries/Refused.antt =====
-- internal/server/queries.go: what an update leaves that is refused for its warehouse.
use mathlib.Core.Bool.{false≢true}
use databricks_emulator.Base.{
  ◌≡◌, refl, ap, ◌∙◌, Bool, true, false, some, List, String, arith, Bool-cases, Option-cases, inl,
  inr, if◌then◌else◌,
}
use databricks_emulator.Base.Eq.{◌==◌, string_comparable}
use databricks_emulator.Text.{trim_space}
use databricks_emulator.Dict
use databricks_emulator.Store.Sql.{Query, Sql, get_query, update_query, resolve_display_name}
use databricks_emulator.Server.Queries.{
  QueryBody, Reply, replied, no_content, bad_request, not_found, conflict, sql_update_query,
  update_found, write_name, write_fields, with_text, with_name, applies, warehouse_missing,
  update_mask_fields, undisturbed,
}

abbrev is_warehouse_refusal : {P : Type 0} → Reply P → Bool
is_warehouse_refusal (not_found message) = message == "warehouse not found"
is_warehouse_refusal (replied q) = false
is_warehouse_refusal no_content = false
is_warehouse_refusal (bad_request message) = false
is_warehouse_refusal (conflict message) = false

other_message : ◌==◌ {K = String} "query not found" "warehouse not found" ≡ false
other_message = refl

module _ {P : Type 0} where
  -- The query that was stored as `q` under `id`, with the name that it was given if it was, and the
  -- text of the body if that was asked for; nothing else of it is changed.
  abbrev pub HalfWritten :
      Sql P → String → Bool → List String → QueryBody P → Query P → Sql P → Type 0
  HalfWritten s id auto fields b q t =
      (name : String) × (if applies fields "display_name"
        then resolve_display_name s b.display_name auto q.id ≡ some name
        else name ≡ q.display_name)
      × (get_query t id
          ≡ some (record q {
            display_name = name;
            query_text = if applies fields "query_text" then b.query_text else q.query_text;
          }))

  abbrev Half :
      Sql P → String → Bool → List String → QueryBody P → Query P → Sql P × Reply P → Type 0
  Half s id auto fields b q (t, reply) =
      is_warehouse_refusal reply ≡ true
      → (applies fields "warehouse_id" ≡ true) × HalfWritten s id auto fields b q t

  write_fields-Half :
      (s : Sql P) (fields : List String) (b : QueryBody P) (now user id : String) (q : Query P)
      → q.id ≡ id
      → is_warehouse_refusal (write_fields s fields b now user q).1 ≡ true
      → (applies fields "warehouse_id" ≡ true)
        × (get_query (write_fields s fields b now user q).0 id
            ≡ some (record q {
              query_text = if applies fields "query_text" then b.query_text else q.query_text;
            }))
  unfolding write_fields get_query update_query
  write_fields-Half s fields b now user id q own h =
      elim (Bool-cases (applies fields "warehouse_id")) [
        | inr kept ↦ absurd (false≢true (rw kept at h))
        | inl named ↦ elim (Bool-cases (warehouse_missing s b.warehouse_id)) [
          | inr there ↦ absurd (false≢true (rw (named, there) at h))
          | inl missing ↦
              rw (named, missing)
                (
                  refl,
                  ground (
                    arith,
                    own,
                    Dict.get-put s.queries q.id (with_text fields b q) id,
                    string_comparable.equal_iff q.id id,
                  ),
                )
        ]
      ]

  update_found-Half :
      (s : Sql P) (auto : Bool) (fields : List String) (b : QueryBody P) (now user id : String)
      (q : Query P)
      → q.id ≡ id
      → get_query s q.id ≡ some q
      → Half s id auto fields b q (update_found undisturbed s auto fields b now user (some q))
  unfolding update_found write_name
  update_found-Half s auto fields b now user id q own at =
      elim (Bool-cases (q.lifecycle_state == "TRASHED")) [
        | inl over ↦ rw (over, other_message) (λ h. absurd (false≢true h))
        | inr live ↦ elim (Bool-cases (applies fields "display_name")) [
          | inr kept ↦
              rw (live, kept)
                (λ h.
                  let (asked, left) = write_fields-Half s fields b now user id q own h in
                  (asked, (q.display_name, refl, left)))
          | inl named ↦
              rw (live, named)
                (elim (Option-cases (resolve_display_name s b.display_name auto q.id)) [
                  | inl taken ↦ rw taken (λ h. absurd (false≢true h))
                  | inr (name, given) ↦
                      rw (given, at)
                        (λ h.
                          let (asked, left) =
                            write_fields-Half (update_query s (with_name q name)) fields b now user
                              id (with_name q name) own h in
                          (asked, (name, refl, left)))
                ])
        ]
      ]

  -- An undisturbed update that is answered with 404 for its warehouse, of a query that is stored
  -- under its own id, has changed the query all the same: the query has the name that was resolved
  -- for it, where the mask applies to the name, and the text of the body, where the mask applies to
  -- the text; every other field is as before. Such a mask applies to the warehouse.
  pub update_refused :
      (s : Sql P) (id : String) (auto : Bool) (mask : String) (b : QueryBody P) (now user : String)
      (q : Query P)
      → get_query s id ≡ some q
      → q.id ≡ id
      → (sql_update_query undisturbed s id auto mask b now user).1 ≡ not_found "warehouse not found"
      → (applies (update_mask_fields mask) "warehouse_id" ≡ true)
        × HalfWritten s id auto
            (update_mask_fields mask)
            b
            q
            (sql_update_query undisturbed s id auto mask b now user).0
  unfolding sql_update_query
  update_refused s id auto mask b now user q at own refused =
      let claimed : is_warehouse_refusal (sql_update_query undisturbed s id auto mask b now user).1
          ≡ true =
        ap is_warehouse_refusal refused in
      elim (Bool-cases (◌==◌ {K = String} (trim_space mask) "")) [
        | inl blank ↦ absurd (false≢true (rw blank at claimed))
        | inr asks ↦
            let found = rw (asks, at) at claimed in
            rw (asks, at)
              (update_found-Half s auto (update_mask_fields mask) b now user id q own
                (ap (get_query s) own ∙ at) found)
      ]
