-- ===== src/Dict/Rows.antt =====
-- Maps that a loop fills from a list of rows, as the values of a map or joined from its lists.
use databricks_emulator.Base.{
  append_assoc, append_nil, keep-append, Bool, ◌++◌, or_else, keep, All, ◌≡◌, refl, sym, ◌∙◌,
  Option, none, some, List, [], ◌∷◌, if◌then◌else◌, arith, Bool-cases, inl, inr,
}
use databricks_emulator.Base.Eq.{Comparable, ◌==◌}
use databricks_emulator.Dict.{Dict, get, put, values, get-put, empty, get-empty}
use databricks_emulator.Dict.Assoc.{entry_at, values_of, Distinct}

-- The first of two values that is there.
abbrev pub either {ℓ} : {V : Type ℓ} → Option V → Option V → Option V
either none w = w
either (some v) w = some v

either-none {ℓ} : {V : Type ℓ} → (v : Option V) → either v none ≡ v
either-none none = refl
either-none (some v) = refl

unfoldable pub concat {ℓ} : {A : Type ℓ} → List (List A) → List A
concat [] = []
concat (l ∷ ls) = l ++ concat ls

module _ {ℓ κ} {K : Type ℓ} {V : Type κ} ⦃c : Comparable K⦄ (id : V → K) where
  -- for _, row := range rows { m[id(row)] = row }
  unfoldable pub put_rows : Dict K V → List V → Dict K V
  put_rows d [] = d
  put_rows d (row ∷ rows) = put_rows (put d (id row) row) rows

  -- for _, row := range rows { m[id(row)] = append(m[id(row)], row) }
  unfoldable pub append_rows : Dict K (List V) → List V → Dict K (List V)
  append_rows d [] = d
  append_rows d (row ∷ rows) =
      append_rows (put d (id row) (or_else (get d (id row)) [] ++ row ∷ [])) rows

  abbrev has_id : K → V → Bool
  has_id k v = id v == k

  get-append_rows_of :
      (d : Dict K (List V)) (rows : List V) (k : K)
      → or_else (get (append_rows d rows) k) [] ≡ or_else (get d k) [] ++ keep (has_id k) rows
  unfolding append_rows keep
  get-append_rows_of d [] k = sym (append_nil (or_else (get d k) []))
  get-append_rows_of d (row ∷ rows) k =
      let grown = or_else (get d (id row)) [] ++ row ∷ [] in
      get-append_rows_of (put d (id row) grown) rows k ∙ elim (Bool-cases (id row == k)) [
        | inl hit ↦
            let same : id row ≡ k = (c.equal_iff (id row) k).0 hit in
            rw (get-put d (id row) grown k, hit, same)
              (append_assoc (or_else (get d k) []) (row ∷ []) (keep (has_id k) rows))
        | inr miss ↦ rw (get-put d (id row) grown k, miss) refl
      ]

  keep-of_id :
      (k j : K) (l : List V)
      → All (λ v. id v ≡ j) l
      → keep (has_id k) l ≡ (if j == k then l else [])
  unfolding keep
  keep-of_id k j [] all = ground arith
  keep-of_id k j (v ∷ l) all =
      let rest = keep-of_id k j l all.1 in
      let own : id v ≡ j = all.0 in
      elim (Bool-cases (j == k)) [
        | inl hit ↦ rw (own, hit, rest, hit) refl
        | inr miss ↦ rw (own, miss, rest, miss) refl
      ]

  keep-concat_of :
      (l : List (K × List V)) (k : K)
      → Distinct l
      → ((j : K) (vs : List V) → entry_at j l ≡ some vs → All (λ v. id v ≡ j) vs)
      → keep (has_id k) (concat (values_of l)) ≡ or_else (entry_at k l) []
  unfolding keep concat values_of entry_at
  keep-concat_of [] k distinct keyed = refl
  keep-concat_of ((j, vs) ∷ l) k distinct keyed =
      let own = keep-of_id k j vs (keyed j vs (ground (arith, c.equal_iff j j))) in
      let rest =
        keep-concat_of l k distinct.1
          (λ i w at. keyed i w (ground (arith, c.equal_iff j i, distinct.0))) in
      elim (Bool-cases (j == k)) [
        | inl hit ↦
            let same : j ≡ k = (c.equal_iff j k).0 hit in
            let gone : entry_at k l ≡ none = rw (sym same) distinct.0 in
            rw (keep-append (has_id k) vs (concat (values_of l)), own, hit, rest, gone)
              (append_nil vs)
        | inr miss ↦ rw (keep-append (has_id k) vs (concat (values_of l)), own, miss, rest) refl
      ]

  -- The rows are the lists of a map, joined, in which each row stands under its own key.
  pub get-append_rows :
      (d : Dict K (List V)) (k : K)
      → ((j : K) (vs : List V) → get d j ≡ some vs → All (λ v. id v ≡ j) vs)
      → or_else (get (append_rows empty (concat (values d))) k) [] ≡ or_else (get d k) []
  unfolding get values
  get-append_rows d k keyed =
      get-append_rows_of empty (concat (values_of d.entries)) k
      ∙ rw (get-empty {V = List V} k) (keep-concat_of d.entries k d.distinct keyed)

  get-put_rows_of :
      (d : Dict K V) (l : List (K × V)) (k : K)
      → Distinct l
      → ((j : K) (v : V) → entry_at j l ≡ some v → id v ≡ j)
      → get (put_rows d (values_of l)) k ≡ either (entry_at k l) (get d k)
  unfolding put_rows values_of entry_at
  get-put_rows_of d [] k distinct keyed = refl
  get-put_rows_of d ((j, v) ∷ l) k distinct keyed =
      let own : id v ≡ j = keyed j v (ground (arith, c.equal_iff j j)) in
      let rest =
        get-put_rows_of (put d (id v) v) l k distinct.1
          (λ i w at. keyed i w (ground (arith, c.equal_iff j i, distinct.0))) in
      rest ∙ elim (Bool-cases (j == k)) [
        | inl hit ↦
            let same : j ≡ k = (c.equal_iff j k).0 hit in
            let gone : entry_at k l ≡ none = rw (sym same) distinct.0 in
            rw (own, gone, get-put d j v k, hit) refl
        | inr miss ↦ rw (own, get-put d j v k, miss) refl
      ]

  -- The rows are the values of a map in which each stands under its own key.
  pub get-put_rows :
      (d : Dict K V) (k : K)
      → ((j : K) (v : V) → get d j ≡ some v → id v ≡ j)
      → get (put_rows empty (values d)) k ≡ get d k
  unfolding get values
  get-put_rows d k keyed =
      get-put_rows_of empty d.entries k d.distinct keyed
      ∙ rw (get-empty {V = V} k) (either-none (entry_at k d.entries))
