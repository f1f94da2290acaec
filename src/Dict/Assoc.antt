-- ===== src/Dict/Assoc.antt =====
-- Association lists with distinct keys: the representation of a map.
use mathlib.Core.List.{List, [], ◌∷◌, cons≢nil}
use databricks_emulator.Base.{
  ◌≤◌, ◌<◌, ◌≢◌, length, Any, Separated, ◌≡◌, refl, subst, Option, none, some, Bool, true, false,
  inl, inr, ◌||◌, if◌then◌else◌, arith, Bool-cases, All,
}
use databricks_emulator.Base.Eq.{Comparable, ◌==◌}

abbrev pub map_option {ℓ} : {V : Type ℓ} → (V → V) → Option V → Option V
map_option f none = none
map_option f (some v) = some (f v)

module _ {ℓ κ} {K : Type ℓ} {V : Type κ} ⦃c : Comparable K⦄ where
  unfoldable pub entry_at : K → List (K × V) → Option V
  entry_at k [] = none
  entry_at k ((j, v) ∷ l) = if j == k then some v else entry_at k l

  unfoldable pub drop_key : K → List (K × V) → List (K × V)
  drop_key k [] = []
  drop_key k ((j, v) ∷ l) = let rest = drop_key k l in if j == k then rest else (j, v) ∷ rest

  unfoldable pub keep_entries : (K → V → Bool) → List (K × V) → List (K × V)
  keep_entries p [] = []
  keep_entries p ((j, v) ∷ l) = let rest = keep_entries p l in if p j v then (j, v) ∷ rest else rest

  abbrev pub Distinct : List (K × V) → Type κ
  Distinct [] = Unit
  Distinct ((j, v) ∷ l) = (entry_at j l ≡ none) × Distinct l

  pub entry_at-drop_key :
      (k j : K) (l : List (K × V))
      → entry_at j (drop_key k l) ≡ (if k == j then none else entry_at j l)
  unfolding entry_at drop_key
  entry_at-drop_key k j [] = ground arith
  entry_at-drop_key k j ((i, v) ∷ l) =
      ground (arith, entry_at-drop_key k j l, c.equal_iff i k, c.equal_iff i j, c.equal_iff k j)

  pub entry_at-without_self : (k : K) (l : List (K × V)) → entry_at k (drop_key k l) ≡ none
  entry_at-without_self k l = ground (arith, entry_at-drop_key k k l, c.equal_iff k k)

  pub drop_key-Distinct : (k : K) (l : List (K × V)) → Distinct l → Distinct (drop_key k l)
  unfolding drop_key
  drop_key-Distinct k [] d = tt
  drop_key-Distinct k ((j, v) ∷ l) d =
      ground (arith, entry_at-drop_key k j l, drop_key-Distinct k l d.1)

  -- What a filter by key and value leaves at a key.
  abbrev pub keep_option : (K → V → Bool) → K → Option V → Option V
  keep_option p k none = none
  keep_option p k (some v) = if p k v then some v else none

  pub entry_at-keep_entries :
      (p : K → V → Bool) (k : K) (l : List (K × V))
      → Distinct l
      → entry_at k (keep_entries p l) ≡ keep_option p k (entry_at k l)
  unfolding entry_at keep_entries
  entry_at-keep_entries p k [] d = refl
  entry_at-keep_entries p k ((j, v) ∷ l) d =
      ground (arith, entry_at-keep_entries p k l d.1, c.equal_iff j k)

  pub keep_entries-Distinct :
      (p : K → V → Bool) (l : List (K × V)) → Distinct l → Distinct (keep_entries p l)
  unfolding keep_entries
  keep_entries-Distinct p [] d = tt
  keep_entries-Distinct p ((j, v) ∷ l) d =
      ground (arith, entry_at-keep_entries p j l d.1, keep_entries-Distinct p l d.1)

  -- A test that some value passes, and the values in the order of the entries.
  unfoldable pub any_entry : (V → Bool) → List (K × V) → Bool
  any_entry p [] = false
  any_entry p ((j, v) ∷ l) = p v || any_entry p l

  unfoldable pub values_of : List (K × V) → List V
  values_of [] = []
  values_of ((j, v) ∷ l) = v ∷ values_of l

  pub any_entry-find :
      (p : V → Bool) (l : List (K × V))
      → Distinct l
      → any_entry p l ≡ true
      → (k : K) × (v : V) × (entry_at k l ≡ some v) × (p v ≡ true)
  unfolding entry_at any_entry
  any_entry-find p [] d h = cc
  any_entry-find p ((j, v) ∷ l) d h = elim (Bool-cases (p v)) [
    | inl hit ↦ (j, v, ground (arith, c.equal_iff j j), hit)
    | inr miss ↦
        let (k, w, found, passed) = any_entry-find p l d.1 (ground arith) in
        (k, w, ground (arith, c.equal_iff j k), passed)
  ]

  pub any_entry-of_lookup :
      (p : V → Bool) (l : List (K × V)) (k : K) (v : V)
      → entry_at k l ≡ some v
      → p v ≡ true
      → any_entry p l ≡ true
  unfolding entry_at any_entry
  any_entry-of_lookup p [] k v found passed = cc
  any_entry-of_lookup p ((j, w) ∷ l) k v found passed =
      ground (arith, any_entry-of_lookup p l k v, c.equal_iff j k)

  -- Every entry that iteration meets is the one that a entry_at finds, and every key is met.
  pub All-values_of {μ} :
      (P : V → Type μ) (l : List (K × V))
      → Distinct l
      → ((k : K) (v : V) → entry_at k l ≡ some v → P v)
      → All P (values_of l)
  unfolding values_of entry_at
  All-values_of P [] d h = tt
  All-values_of P ((j, v) ∷ l) d h = (
    h j v (ground (arith, c.equal_iff j j)),
    All-values_of P l d.1 λ k w found. h k w (ground (arith, c.equal_iff j k)),
  )

  pub entry_at-All {μ} :
      (P : V → Type μ) (l : List (K × V))
      → All P (values_of l)
      → (k : K) (v : V) → entry_at k l ≡ some v
      → P v
  unfolding values_of entry_at
  entry_at-All P [] h k v found = absurd (cc)
  entry_at-All P ((j, w) ∷ l) h k v found = elim (Bool-cases (j == k)) [
    | inl hit ↦ subst P (ground arith) h.0
    | inr miss ↦ entry_at-All P l h.1 k v (ground arith)
  ]

  pub entry_at-of_values_nil : (l : List (K × V)) (k : K) → values_of l ≡ [] → entry_at k l ≡ none
  unfolding values_of entry_at
  entry_at-of_values_nil [] k h = refl
  entry_at-of_values_nil ((j, v) ∷ l) k h = absurd (cons≢nil h)

  pub length-drop_key-le : (k : K) (l : List (K × V)) → length (drop_key k l) ≤ length l
  unfolding drop_key
  length-drop_key-le k [] = omega arith
  length-drop_key-le k ((j, v) ∷ l) = ground (arith, length-drop_key-le k l)

  pub length-drop_key-lt :
      (k : K) (l : List (K × V)) (v : V) → entry_at k l ≡ some v → length (drop_key k l) < length l
  unfolding entry_at drop_key
  length-drop_key-lt k [] v h = absurd (cc)
  length-drop_key-lt k ((j, w) ∷ l) v h =
      ground (arith, length-drop_key-lt k l v, length-drop_key-le k l)

module _ {ℓ κ} {K : Type ℓ} {V : Type κ} ⦃c : Comparable K⦄ where
  unfoldable pub map_entries : (V → V) → List (K × V) → List (K × V)
  map_entries f [] = []
  map_entries f ((j, v) ∷ l) = (j, f v) ∷ map_entries f l

  pub entry_at-map_entries :
      (f : V → V) (k : K) (l : List (K × V))
      → entry_at k (map_entries f l) ≡ map_option f (entry_at k l)
  unfolding entry_at map_entries
  entry_at-map_entries f k [] = refl
  entry_at-map_entries f k ((j, v) ∷ l) = ground (arith, entry_at-map_entries f k l)

  pub map_entries-Distinct :
      (f : V → V) (l : List (K × V)) → Distinct l → Distinct (map_entries f l)
  unfolding map_entries
  map_entries-Distinct f [] d = tt
  map_entries-Distinct f ((j, v) ∷ l) d =
      (ground (arith, entry_at-map_entries f j l, d.0), map_entries-Distinct f l d.1)

module _ {K V : Type 0} ⦃c : Comparable K⦄ where
  pub Any-values_of :
      (l : List (K × V)) (k : K) (v : V) → entry_at k l ≡ some v → Any (λ w. w ≡ v) (values_of l)
  unfolding entry_at values_of
  Any-values_of [] k v h = absurd (cc)
  Any-values_of ((j, w) ∷ l) k v h = elim (Bool-cases (j == k)) [
    | inl hit ↦ inl (ground arith)
    | inr miss ↦ inr (Any-values_of l k v (ground arith))
  ]

  -- Where each value carries its key, the values that iteration meets carry different keys.
  pub values_of-Separated :
      (name : V → K) (l : List (K × V))
      → Distinct l
      → ((k : K) (v : V) → entry_at k l ≡ some v → name v ≡ k)
      → Separated name (values_of l)
  unfolding entry_at values_of
  values_of-Separated name [] d h = tt
  values_of-Separated name ((j, v) ∷ l) d h = (
    All-values_of (λ w. name w ≢ name v) l d.1
        (λ k w found same.
          let w_name : name w ≡ k = h k w (ground (arith, c.equal_iff j k)) in
          let v_name : name v ≡ j = h j v (ground (arith, c.equal_iff j j)) in
          absurd (ground arith)),
    values_of-Separated name l d.1 (λ k w found. h k w (ground (arith, c.equal_iff j k))),
  )
