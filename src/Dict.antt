-- ===== src/Dict.antt =====
-- Go's maps (`map[K]V`). The entries have distinct keys; the order in which they stand is the
-- order of iteration, which Go leaves unspecified, so no client depends on it.
mod Assoc
pub mod Rows
pub mod Entries
use databricks_emulator.Base.{
  ℕ, ◌+◌, ◌≤◌, ◌<◌, length, Any, Separated, ◌≡◌, refl, Option, none, some, Bool, true, List, [],
  ◌∷◌, if◌then◌else◌, arith, All,
}
use databricks_emulator.Base.Eq.{Comparable, ◌==◌}
pub use Assoc.{map_option, keep_option}
use Assoc.{
  entry_at, drop_key, keep_entries, map_entries, entry_at-map_entries, map_entries-Distinct,
  any_entry, values_of, Distinct, entry_at-drop_key, entry_at-without_self, drop_key-Distinct,
  entry_at-keep_entries, keep_entries-Distinct, any_entry-find, any_entry-of_lookup,
  length-drop_key-le, length-drop_key-lt, entry_at-of_values_nil, Any-values_of,
  values_of-Separated, All-values_of, entry_at-All,
}

pub record Dict {ℓ κ} (K : Type ℓ) (V : Type κ) ⦃c : Comparable K⦄ : Type (ℓ ⊔ κ) where
  entries : List (K × V)
  distinct : Distinct entries

module _ {ℓ κ} {K : Type ℓ} {V : Type κ} ⦃c : Comparable K⦄ where
  -- map[K]V{}
  unfoldable pub empty : Dict K V
  empty = record { entries = []; distinct = tt }

  -- v, ok := m[k]
  unfoldable pub get : Dict K V → K → Option V
  unfolding entry_at
  get d k = entry_at k d.entries

  -- delete(m, k)
  unfoldable pub remove : Dict K V → K → Dict K V
  unfolding drop_key
  remove d k = record {
    entries = drop_key k d.entries;
    distinct = drop_key-Distinct k d.entries d.distinct;
  }

  -- m[k] = v
  unfoldable pub put : Dict K V → K → V → Dict K V
  unfolding drop_key
  put d k v = record {
    entries = (k, v) ∷ drop_key k d.entries;
    distinct = (entry_at-without_self k d.entries, drop_key-Distinct k d.entries d.distinct);
  }

  -- for k, v := range m { if … { delete(m, k) } }: keeps the entries that pass the test.
  unfoldable pub retain : (K → V → Bool) → Dict K V → Dict K V
  unfolding keep_entries
  retain p d = record {
    entries = keep_entries p d.entries;
    distinct = keep_entries-Distinct p d.entries d.distinct;
  }

  -- A map with the same keys, and `f v` for each value `v`.
  unfoldable pub map_values : (V → V) → Dict K V → Dict K V
  unfolding map_entries
  map_values f d = record {
    entries = map_entries f d.entries;
    distinct = map_entries-Distinct f d.entries d.distinct;
  }

  pub get-map_values :
      (f : V → V) (d : Dict K V) (k : K) → get (map_values f d) k ≡ map_option f (get d k)
  unfolding get map_values
  get-map_values f d k = entry_at-map_entries f k d.entries

  -- for _, v := range m: the values in some order, and a search among them.
  unfoldable pub values : Dict K V → List V
  unfolding values_of
  values d = values_of d.entries

  unfoldable pub any_value : (V → Bool) → Dict K V → Bool
  unfolding any_entry
  any_value p d = any_entry p d.entries

  pub get-empty : (k : K) → get empty k ≡ none
  unfolding get empty
  get-empty k = refl

  pub get-remove :
      (d : Dict K V) (k j : K) → get (remove d k) j ≡ (if k == j then none else get d j)
  unfolding get remove
  get-remove d k j = entry_at-drop_key k j d.entries

  pub get-put :
      (d : Dict K V) (k : K) (v : V) (j : K)
      → get (put d k v) j ≡ (if k == j then some v else get d j)
  unfolding get put
  get-put d k v j = ground (arith, entry_at-drop_key k j d.entries)

  pub get-put_same : (d : Dict K V) (k : K) (v : V) → get (put d k v) k ≡ some v
  get-put_same d k v = ground (arith, get-put d k v k, c.equal_iff k k)

  pub get-retain :
      (p : K → V → Bool) (d : Dict K V) (k : K) → get (retain p d) k ≡ keep_option p k (get d k)
  unfolding get retain
  get-retain p d k = entry_at-keep_entries p k d.entries d.distinct

  pub any_value-find :
      (p : V → Bool) (d : Dict K V)
      → any_value p d ≡ true
      → (k : K) × (v : V) × (get d k ≡ some v) × (p v ≡ true)
  unfolding get any_value
  any_value-find p d h = any_entry-find p d.entries d.distinct h

  pub any_value-of_get :
      (p : V → Bool) (d : Dict K V) (k : K) (v : V)
      → get d k ≡ some v
      → p v ≡ true
      → any_value p d ≡ true
  unfolding get any_value
  any_value-of_get p d k v = any_entry-of_lookup p d.entries k v

  pub All-values {μ} :
      (P : V → Type μ) (d : Dict K V)
      → ((k : K) (v : V) → get d k ≡ some v → P v)
      → All P (values d)
  unfolding get values
  All-values P d h = All-values_of P d.entries d.distinct h

  pub get-All {μ} :
      (P : V → Type μ) (d : Dict K V) (k : K) (v : V) → All P (values d) → get d k ≡ some v → P v
  unfolding get values
  get-All P d k v h found = entry_at-All P d.entries h k v found

  rekey_from : (K → K) → List (K × V) → Dict K V
  rekey_from f [] = empty
  rekey_from f ((j, v) ∷ l) = put (rekey_from f l) (f j) v

  -- for k, v := range m { out[f(k)] = v }, from an empty `out`.
  unfoldable pub rekey : (K → K) → Dict K V → Dict K V
  unfolding rekey_from
  rekey f d = rekey_from f d.entries

  get-rekey_from :
      (f : K → K) (l : List (K × V)) (k : K)
      → ((j : K) (v : V) → entry_at j l ≡ some v → f j ≡ j)
      → Distinct l
      → get (rekey_from f l) k ≡ entry_at k l
  unfolding rekey_from entry_at
  get-rekey_from f [] k fixed d = get-empty k
  get-rekey_from f ((j, v) ∷ l) k fixed d =
      let here : f j ≡ j = fixed j v (ground (arith, c.equal_iff j j)) in
      let rest = get-rekey_from f l k (λ i w at. fixed i w (ground (arith, c.equal_iff j i))) d.1 in
      rw (get-put (rekey_from f l) (f j) v k, here, rest) refl

  -- Keys that the function leaves as they are.
  pub get-rekey :
      (f : K → K) (d : Dict K V) (k : K)
      → ((j : K) (v : V) → get d j ≡ some v → f j ≡ j)
      → get (rekey f d) k ≡ get d k
  unfolding rekey get
  get-rekey f d k fixed = get-rekey_from f d.entries k fixed d.distinct

  -- len(m)
  unfoldable pub size : Dict K V → ℕ
  size d = length d.entries

  pub size-remove-le : (d : Dict K V) (k : K) → size (remove d k) ≤ size d
  unfolding size remove
  size-remove-le d k = length-drop_key-le k d.entries

  pub size-remove-lt :
      (d : Dict K V) (k : K) (v : V) → get d k ≡ some v → size (remove d k) < size d
  unfolding size remove get
  size-remove-lt d k v h = length-drop_key-lt k d.entries v h

  pub size-put-le : (d : Dict K V) (k : K) (v : V) → size (put d k v) ≤ size d + 1
  unfolding size put
  size-put-le d k v = omega (arith, length-drop_key-le k d.entries)

  -- A map with no values has no entries.
  pub get-of_values_nil : (d : Dict K V) (k : K) → values d ≡ [] → get d k ≡ none
  unfolding values get
  get-of_values_nil d k h = entry_at-of_values_nil d.entries k h

module _ {K V : Type 0} ⦃c : Comparable K⦄ where
  pub Any-values : (d : Dict K V) (k : K) (v : V) → get d k ≡ some v → Any (λ w. w ≡ v) (values d)
  unfolding get values
  Any-values d k v h = Any-values_of d.entries k v h

  pub values-Separated :
      (name : V → K) (d : Dict K V)
      → ((k : K) (v : V) → get d k ≡ some v → name v ≡ k)
      → Separated name (values d)
  unfolding get values
  values-Separated name d h = values_of-Separated name d.entries d.distinct h

pub ruleset dict_laws = (get-empty, get-put, get-remove, get-retain)
