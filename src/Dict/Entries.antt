-- ===== src/Dict/Entries.antt =====
-- Loops over the keys and values of a map.
use databricks_emulator.Base.{
  subst, ◌≡◌, refl, ap, ◌∙◌, Bool, true, false, ◌&&◌, Option, none, some, List, [], ◌∷◌, arith,
  Bool-cases, inl, inr,
}
use databricks_emulator.Base.Eq.{Comparable, ◌==◌}
use databricks_emulator.Dict.{Dict, get, put, get-put, empty, get-empty}
use databricks_emulator.Dict.Assoc.{entry_at, Distinct}

module _ {ℓ κ} {K : Type ℓ} {V : Type κ} ⦃c : Comparable K⦄ where
  all_of : (K → V → Bool) → List (K × V) → Bool
  all_of p [] = true
  all_of p ((j, v) ∷ l) = p j v && all_of p l

  -- for k, v := range m { if !p(k, v) { return err } }
  unfoldable pub all_entries : (K → V → Bool) → Dict K V → Bool
  unfolding all_of
  all_entries p d = all_of p d.entries

  all_of-entry :
      (p : K → V → Bool) (l : List (K × V)) (k : K) (v : V)
      → all_of p l ≡ true
      → entry_at k l ≡ some v
      → p k v ≡ true
  unfolding all_of entry_at
  all_of-entry p [] k v h at = absurd (cc at)
  all_of-entry p ((j, w) ∷ l) k v h at = elim (Bool-cases (j == k)) [
    | inl hit ↦
        let same : j ≡ k = (c.equal_iff j k).0 hit in
        let value : some w ≡ some v = rw hit at at in
        let here : p j w ≡ true = ground (arith, h) in ground (arith, here, same, value)
    | inr miss ↦ all_of-entry p l k v (ground (arith, h)) (rw miss at at)
  ]

  pub all_entries-get :
      (p : K → V → Bool) (d : Dict K V) (k : K) (v : V)
      → all_entries p d ≡ true
      → get d k ≡ some v
      → p k v ≡ true
  unfolding all_entries get
  all_entries-get p d k v h at = all_of-entry p d.entries k v h at

module _ {ℓ μ} {K : Type ℓ} {W : Type μ} ⦃c : Comparable K⦄ where
  with_option : Dict K W → K → Option W → Dict K W
  with_option d k none = d
  with_option d k (some w) = put d k w

  get-with_option_hit :
      (d : Dict K W) (j k : K) (w : Option W)
      → get d k ≡ none
      → (j == k) ≡ true
      → get (with_option d j w) k ≡ w
  unfolding with_option
  get-with_option_hit d j k none gone hit = gone
  get-with_option_hit d j k (some w) gone hit = get-put d j w k ∙ rw hit refl

  get-with_option_miss :
      (d : Dict K W) (j k : K) (w : Option W)
      → (j == k) ≡ false
      → get (with_option d j w) k ≡ get d k
  unfolding with_option
  get-with_option_miss d j k none miss = refl
  get-with_option_miss d j k (some w) miss = get-put d j w k ∙ rw miss refl

module _ {ℓ κ μ} {K : Type ℓ} {V : Type κ} {W : Type μ} ⦃c : Comparable K⦄ where
  found_of : (K → V → Option W) → List (K × V) → Dict K W
  unfolding with_option
  found_of f [] = empty
  found_of f ((j, v) ∷ l) = with_option (found_of f l) j (f j v)

  -- for k, v := range m { if … { out[k] = w } }, from an empty `out`.
  unfoldable pub found_entries : (K → V → Option W) → Dict K V → Dict K W
  unfolding found_of
  found_entries f d = found_of f d.entries

  abbrev pub at_key : (K → V → Option W) → K → Option V → Option W
  at_key f k none = none
  at_key f k (some v) = f k v

  get-found_of :
      (f : K → V → Option W) (l : List (K × V)) (k : K)
      → Distinct l
      → get (found_of f l) k ≡ at_key f k (entry_at k l)
  unfolding found_of entry_at
  get-found_of f [] k d = get-empty {V = W} k
  get-found_of f ((j, v) ∷ l) k d = elim (Bool-cases (j == k)) [
    | inl hit ↦
        let same : j ≡ k = (c.equal_iff j k).0 hit in
        let gone : entry_at k l ≡ none = subst (λ i. entry_at i l ≡ none) same d.0 in
        rw hit (
          get-with_option_hit (found_of f l) j k (f j v)
            (get-found_of f l k d.1 ∙ ap (at_key f k) gone) hit
          ∙ ap (λ i. f i v) same)
    | inr miss ↦
        rw miss (get-with_option_miss (found_of f l) j k (f j v) miss ∙ get-found_of f l k d.1)
  ]

  pub get-found_entries :
      (f : K → V → Option W) (d : Dict K V) (k : K)
      → get (found_entries f d) k ≡ at_key f k (get d k)
  unfolding found_entries get
  get-found_entries f d k = get-found_of f d.entries k d.distinct
