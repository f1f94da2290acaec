-- ===== src/Store/Sql/Names.antt =====
-- internal/store/sql.go: the display names of saved queries, as the query handlers of
-- internal/server/queries.go choose them.
use databricks_emulator.Base.{
  subst, ℕ, zero, suc, ◌+◌, ◌^◌, ◌≤◌, ◌<◌, ◌≡◌, ◌≢◌, sym, ap, ◌∙◌, Bool, true, false, none, some,
  String, arith, Bool-cases, Option-cases, inl, inr,
}
use databricks_emulator.Base.Eq.{◌==◌, string_comparable, nat_comparable}
use databricks_emulator.Base.Int64.{incr64_room}
use databricks_emulator.Dict
use databricks_emulator.Store.Numbered as Numbered
use databricks_emulator.Store.Sql.{
  Query, Sql, saved_query, create_query, update_query, trash_query, query_trashed, trashed,
  get_query, clashes, display_name_taken, candidate, resolve_from, resolve_display_name, new_sql,
}

gone : ◌≢◌ {A = String} "TRASHED" "ACTIVE"
gone same = absurd (cc ((string_comparable.equal_iff "TRASHED" "ACTIVE").1 same))

module _ {P : Type 0} where
  resolve_from-free :
      (s : Sql P) (name except_id found : String) (n todo : ℕ)
      → resolve_from s name except_id n todo ≡ some found
      → display_name_taken s found except_id ≡ false
  unfolding resolve_from
  resolve_from-free s name except_id found n zero h = absurd (cc)
  resolve_from-free s name except_id found n (suc todo) h =
      elim (Bool-cases (display_name_taken s (candidate name n) except_id)) [
        | inl taken ↦ resolve_from-free s name except_id found (n + 1) todo (ground arith)
        | inr free ↦
            let same : candidate name n ≡ found = ground arith in
            sym (ap (λ t. display_name_taken s t except_id) same) ∙ free
      ]

  resolve_from-refused :
      (s : Sql P) (name except_id : String) (n todo i : ℕ)
      → resolve_from s name except_id n todo ≡ none
      → n ≤ i
      → i < n + todo
      → display_name_taken s (candidate name i) except_id ≡ true
  unfolding resolve_from
  resolve_from-refused s name except_id n zero i h above below = absurd (omega arith)
  resolve_from-refused s name except_id n (suc todo) i h above below =
      elim (Bool-cases (display_name_taken s (candidate name n) except_id)) [
        | inl taken ↦ elim (Bool-cases (n == i)) [
          | inl e ↦
              subst (λ m. display_name_taken s (candidate name m) except_id ≡ true) (ground arith)
                taken
          | inr e ↦
              let later : n + 1 ≤ i = ground (arith, nat_comparable.equal_iff n i) in
              resolve_from-refused s name except_id (n + 1) todo i (ground arith) later
                (omega arith)
        ]
        | inr free ↦ absurd (ground arith)
      ]

  -- A name that is given out is free.
  resolve_display_name-free :
      (s : Sql P) (name : String) (auto : Bool) (except_id found : String)
      → resolve_display_name s name auto except_id ≡ some found
      → display_name_taken s found except_id ≡ false
  unfolding resolve_display_name
  resolve_display_name-free s name auto except_id found h =
      elim (Bool-cases (display_name_taken s name except_id)) [
        | inl taken ↦ elim (Bool-cases auto) [
          | inl on ↦ resolve_from-free s name except_id found 1 999 (ground arith)
          | inr off ↦ absurd (ground arith)
        ]
        | inr free ↦
            let same : name ≡ found = ground arith in
            sym (ap (λ t. display_name_taken s t except_id) same) ∙ free
      ]

  -- A free name names no other ACTIVE query.
  free_name :
      (s : Sql P) (name except_id k : String) (q : Query P)
      → display_name_taken s name except_id ≡ false
      → Dict.get s.queries k ≡ some q
      → q.lifecycle_state ≡ "ACTIVE"
      → q.display_name ≡ name
      → q.id ≡ except_id
  unfolding display_name_taken
  free_name s name except_id k q free at active same = ground (
    arith,
    Dict.any_value-of_get (clashes name except_id) s.queries k q at,
    string_comparable.equal_iff q.lifecycle_state "ACTIVE",
    string_comparable.equal_iff q.display_name name,
    string_comparable.equal_iff q.id except_id,
  )

  -- Queries stand under their own numbered ids, and no two ACTIVE ones have the same name.
  pub record IsNamed (s : Sql P) : Type 0 where
    pub issued : Numbered.IsNumbered {V = Query P} "qry-" s.next_id s.queries
    pub keyed : (k : String) (q : Query P) → Dict.get s.queries k ≡ some q → q.id ≡ k
    pub unique :
        (k j : String) (q r : Query P)
        → Dict.get s.queries k ≡ some q
        → Dict.get s.queries j ≡ some r
        → q.lifecycle_state ≡ "ACTIVE"
        → r.lifecycle_state ≡ "ACTIVE"
        → q.display_name ≡ r.display_name
        → k ≡ j

  abbrev pub renamed : Query P → String → Query P
  renamed q name = record q { display_name = name }

  -- What a handler that runs alone makes of a store: each name is one that ResolveDisplayName gave
  -- out for the same store, and an edit leaves the name and the state.
  pub data Step (s : Sql P) : Sql P → Type 0 where
    creates :
        (q : Query P) (auto : Bool) (name : String)
        → resolve_display_name s q.display_name auto "" ≡ some name
        → Step s (create_query s (renamed q name)).0
    renames :
        (q : Query P) (asked : String) (auto : Bool) (name : String)
        → get_query s q.id ≡ some q
        → resolve_display_name s asked auto q.id ≡ some name
        → Step s (update_query s (renamed q name))
    edits :
        (q r : Query P)
        → get_query s q.id ≡ some q
        → r.id ≡ q.id
        → r.display_name ≡ q.display_name
        → r.lifecycle_state ≡ q.lifecycle_state
        → Step s (update_query s r)
    trashes : (id : String) → Step s (trash_query s id).0

  put-IsNamed :
      (s : Sql P) (bound : ℕ) (q : Query P)
      → IsNamed s
      → ((k : String) (r : Query P)
          → Dict.get s.queries k ≡ some r
          → q.lifecycle_state ≡ "ACTIVE"
          → r.lifecycle_state ≡ "ACTIVE"
          → r.display_name ≡ q.display_name
          → k ≡ q.id)
      → Numbered.IsNumbered {V = Query P} "qry-" bound (Dict.put s.queries q.id q)
      → IsNamed (record s { next_id = bound; queries = Dict.put s.queries q.id q })
  put-IsNamed s bound q n free numbers = record {
    issued = numbers;
    keyed = λ k r at.
        ground
          (arith, n.keyed k r, Dict.get-put s.queries q.id q k, string_comparable.equal_iff q.id k);
    unique = λ k j r t at_k at_j active_k active_j same. ground (
      arith,
      n.unique k j r t,
      free k r,
      free j t,
      Dict.get-put s.queries q.id q k,
      Dict.get-put s.queries q.id q j,
      string_comparable.equal_iff q.id k,
      string_comparable.equal_iff q.id j,
    );
  }

  -- A display name that is given out is in use by no ACTIVE query but the excepted one; a refused
  -- name is in use, and where a suffix may be added so are the 999 names with a suffix.
  pub resolve_display_name_lem :
      (s : Sql P) (name : String) (auto : Bool) (except_id : String)
      → ((found : String)
          → resolve_display_name s name auto except_id ≡ some found
          → display_name_taken s found except_id ≡ false)
        × (resolve_display_name s name auto except_id ≡ none
            → (display_name_taken s name except_id ≡ true)
              × (auto ≡ true
                  → (i : ℕ) → 1 ≤ i
                  → i < 1000
                  → display_name_taken s (candidate name i) except_id ≡ true))
  unfolding resolve_display_name
  resolve_display_name_lem s name auto except_id = (
    resolve_display_name-free s name auto except_id,
    λ refused. (
      ground arith,
      λ on i above below.
          resolve_from-refused s name except_id 1 999 i (ground arith) above (omega arith),
    ),
  )

  -- Every step of a handler that runs alone keeps the ACTIVE queries of the store under different display
  -- names, and each query under its own id, while the id counter has room.
  pub Step-IsNamed : (s t : Sql P) → s.next_id + 1 < 2 ^ 63 → IsNamed s → Step s t → IsNamed t
  unfolding create_query update_query trash_query get_query
  Step-IsNamed s t room n (creates q auto name given) =
      let free = resolve_display_name-free s q.display_name auto "" name given in
      rw (create_query, incr64_room s.next_id (omega arith))
        (put-IsNamed s (s.next_id + 1) (saved_query (s.next_id + 1) (renamed q name)) n
          (λ k r at _ active same.
            let no_id : r.id ≡ "" = free_name s name "" k r free at active same in
            let (m, above, le, e) = n.issued k r at in
            absurd (
              Numbered.numbered-ne-nil "qry-" m (omega arith)
                (sym e ∙ (sym (n.keyed k r at) ∙ no_id))))
          (Numbered.put_next-IsNumbered "qry-" s.next_id s.queries
            (saved_query (s.next_id + 1) (renamed q name)) n.issued))
  Step-IsNamed s t room n (renames q asked auto name at given) =
      let free = resolve_display_name-free s asked auto q.id name given in
      put-IsNamed s s.next_id (renamed q name) n
        (λ k r found _ active same.
          sym (n.keyed k r found) ∙ free_name s name q.id k r free found active same)
        (Numbered.put_old-IsNumbered "qry-" s.next_id s.queries q.id q (renamed q name) n.issued at)
  Step-IsNamed s t room n (edits q r at id name state) =
      put-IsNamed s s.next_id r n
        (λ k u found active_r active same.
          n.unique k q.id u q found at active (sym state ∙ active_r) (same ∙ name) ∙ sym id)
        (Numbered.put_old-IsNumbered "qry-" s.next_id s.queries r.id q r n.issued
          (ap (Dict.get s.queries) id ∙ at))
  Step-IsNamed s t room n (trashes id) = elim (Option-cases (Dict.get s.queries id)) [
    | inl e ↦ rw (trash_query, e, query_trashed) n
    | inr (q, e) ↦ elim (Bool-cases (q.lifecycle_state == "TRASHED")) [
      | inl over ↦ rw (trash_query, e, query_trashed, over) n
      | inr live ↦
          rw (trash_query, e, query_trashed, live)
            (subst (λ k. IsNamed (record s { queries = Dict.put s.queries k (trashed q) }))
              (n.keyed id q e)
              (put-IsNamed s s.next_id (trashed q) n (λ k r at active _ _. absurd (gone active))
                (Numbered.put_old-IsNumbered "qry-" s.next_id s.queries q.id q (trashed q) n.issued
                  (ap (Dict.get s.queries) (n.keyed id q e) ∙ e))))
    ]
  ]

  pub new_sql-IsNamed : IsNamed new_sql
  unfolding new_sql
  new_sql-IsNamed = record {
    issued = Numbered.empty-IsNumbered "qry-";
    keyed = λ k q at. let e = Dict.get-empty {V = Query P} k in absurd (cc e);
    unique = λ k j q r at _ _ _ _. let e = Dict.get-empty {V = Query P} k in absurd (cc e);
  }
