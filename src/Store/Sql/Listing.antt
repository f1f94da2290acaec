-- ===== src/Store/Sql/Listing.antt =====
-- internal/store/sql.go: the listing of saved queries.
use databricks_emulator.Base.{
  ℕ, zero, suc, ◌+◌, ◌^◌, ◌≤◌, ◌<◌, ◌≡◌, ◌↔◌, refl, sym, ap, ◌∙◌, true, Option, none, some, String,
  List, Any, arith, Bool-cases, Option-cases, inl, inr, ltb,
}
use databricks_emulator.Base.Eq.{◌==◌, string_comparable, nat_comparable}
use databricks_emulator.Text.{numbered}
use databricks_emulator.Dict
use databricks_emulator.Store.Numbered as Numbered
use databricks_emulator.Store.Sql.{Query, Sql, list_queries, list_from, listed}

module _ {P : Type 0} where
  list_from_sound :
      (s : Sql P) (i todo : ℕ) (q : Query P)
      → Any (λ r. r ≡ q) (list_from s i todo)
      → (k : String) × (Dict.get s.queries k ≡ some q) × (q.lifecycle_state ≡ "ACTIVE")
  unfolding list_from
  list_from_sound s i zero q h = absurd h
  list_from_sound s i (suc todo) q h =
      elim (Option-cases (Dict.get s.queries (numbered "qry-" i))) [
        | inl e ↦ list_from_sound s (i + 1) todo q (rw (list_from, e, listed) at h)
        | inr (r, e) ↦ elim (Bool-cases (r.lifecycle_state == "ACTIVE")) [
          | inl active ↦ elim (rw (list_from, e, listed, active) at h) [
            | inl same ↦ (
              numbered "qry-" i,
              e ∙ ap (λ u. some u) same,
              ap (λ (u : Query P). u.lifecycle_state) (sym same)
                  ∙ (string_comparable.equal_iff r.lifecycle_state "ACTIVE").0 active,
            )
            | inr later ↦ list_from_sound s (i + 1) todo q later
          ]
          | inr idle ↦ list_from_sound s (i + 1) todo q (rw (list_from, e, listed, idle) at h)
        ]
      ]

  listed-behind :
      (found : Option (Query P)) (q : Query P) (rest : List (Query P))
      → Any (λ r. r ≡ q) rest
      → Any (λ r. r ≡ q) (listed found rest)
  unfolding listed
  listed-behind none q rest h = h
  listed-behind (some r) q rest h = elim (Bool-cases (r.lifecycle_state == "ACTIVE")) [
    | inl active ↦ rw active (inr h)
    | inr idle ↦ rw idle h
  ]

  list_from_complete :
      (s : Sql P) (i todo n : ℕ) (q : Query P)
      → i ≤ n
      → n < i + todo
      → Dict.get s.queries (numbered "qry-" n) ≡ some q
      → q.lifecycle_state ≡ "ACTIVE"
      → Any (λ r. r ≡ q) (list_from s i todo)
  unfolding list_from
  list_from_complete s i zero n q above below at active = absurd (omega arith)
  list_from_complete s i (suc todo) n q above below at active = elim (Bool-cases (i == n)) [
    | inl hit ↦
        let same : i ≡ n = (nat_comparable.equal_iff i n).0 hit in
        let here : Dict.get s.queries (numbered "qry-" i) ≡ some q =
          ap (λ m. Dict.get s.queries (numbered "qry-" m)) same ∙ at in
        rw (here, listed, (string_comparable.equal_iff q.lifecycle_state "ACTIVE").1 active)
          (inl refl)
    | inr miss ↦
        let later : i + 1 ≤ n = ground (arith, nat_comparable.equal_iff i n) in
        let rest = list_from_complete s (i + 1) todo n q later (omega arith) at active in
        listed-behind (Dict.get s.queries (numbered "qry-" i)) q (list_from s (i + 1) todo) rest
  ]

  -- Where the ids of the queries come from the counter, which is not negative, the listing holds
  -- exactly the queries of the store that are ACTIVE.
  pub list_queries_iff :
      (s : Sql P) (q : Query P)
      → s.next_id < 2 ^ 63
      → Numbered.IsNumbered {V = Query P} "qry-" s.next_id s.queries
      → Any (λ r. r ≡ q) (list_queries s)
        ↔ ((k : String) × (Dict.get s.queries k ≡ some q) × (q.lifecycle_state ≡ "ACTIVE"))
  unfolding list_queries
  list_queries_iff s q room numbers =
      let counts : ltb s.next_id (2 ^ 63) ≡ true = ground arith in
      (
        λ h. list_from_sound s 1 s.next_id q (rw (list_queries, counts) at h),
        λ (k, at, active).
            let (n, above, le, e) = numbers k q at in
            rw (list_queries, counts)
              (list_from_complete s 1 s.next_id n q above (omega arith)
                (ap (Dict.get s.queries) (sym e) ∙ at) active),
      )
