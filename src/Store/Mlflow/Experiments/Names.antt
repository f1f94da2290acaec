-- ===== src/Store/Mlflow/Experiments/Names.antt =====
-- internal/store/mlflow.go: the names of active experiments.
use databricks_emulator.Base.{
  ℕ, ◌+◌, ◌^◌, ◌<◌, ◌≡◌, refl, sym, ◌∙◌, Bool, true, false, some, List, String, arith, Bool-cases,
  Option-cases, inl, inr, subst, ◌≢◌,
}
use databricks_emulator.Base.Eq.{◌==◌, string_comparable}
use databricks_emulator.Base.Int64.{incr64_room}
use databricks_emulator.Text.{trim_space, numbered}
use databricks_emulator.Dict
use databricks_emulator.Dict.{Dict}
use databricks_emulator.Store.Numbered as Numbered
use databricks_emulator.Store.Named as Named
use databricks_emulator.Store.Mlflow.{
  new_mlflow, Mlflow, Experiment, MlTag, persist, ml_active, ml_deleted,
}
use databricks_emulator.Store.Mlflow.Experiments.{
  active_named, other_named, new_experiment, renamed_experiment, in_lifecycle, create_experiment,
  update_experiment, experiment_renamed, delete_experiment, experiment_deleted, restore_experiment,
  experiment_restored, store_experiment,
}

abbrev is_active : Experiment → Bool
is_active e = e.lifecycle == ml_active

abbrev IsNamed : Dict String Experiment → Type 0
IsNamed = Named.IsNamed (λ e. e.id) (λ e. e.name) is_active

-- The operations on experiments.
pub data Op : Type 0 where
  creates : (name artifact : String) → List MlTag → Op
  updates : (id new_name : String) → Op
  deletes : (id : String) → Op
  restores : (id : String) → Op

-- A name that the test of an operation passes is the name of no other active experiment.
no_active :
    (d : Dict String Experiment) (name k : String) (w : Experiment)
    → Dict.any_value (active_named name) d ≡ false
    → Dict.get d k ≡ some w
    → is_active w ≡ true
    → w.name ≢ name
no_active d name k w free at active same = absurd (
    ground (
      arith,
      Dict.any_value-of_get (active_named name) d k w at,
      string_comparable.equal_iff w.name name,
    ))

no_other :
    (d : Dict String Experiment) (id name k : String) (w : Experiment)
    → Dict.any_value (other_named id name) d ≡ false
    → Dict.get d k ≡ some w
    → is_active w ≡ true
    → w.name ≡ name
    → w.id ≡ id
no_other d id name k w free at active same = ground (
  arith,
  Dict.any_value-of_get (other_named id name) d k w at,
  string_comparable.equal_iff w.name name,
  string_comparable.equal_iff w.id id,
)

module _ {F : Type 0} where
  -- Experiments stand under their own numbered ids, and no two active ones have the same name.
  pub record IsCatalog (m : Mlflow F) : Type 0 where
    pub issued : Numbered.IsNumbered {V = Experiment} "" m.next_exp m.experiments
    pub named : Named.IsNamed (λ (e : Experiment). e.id) (λ e. e.name) is_active m.experiments

  persist-IsCatalog {ℓ} :
      {A : Type ℓ} (m : Mlflow F) (wrote : Bool) (answer : A)
      → IsCatalog m
      → IsCatalog (persist m wrote answer).0
  unfolding persist
  persist-IsCatalog m true answer c = record { issued = c.issued; named = c.named }
  persist-IsCatalog m false answer c = c

  unfoldable pub apply : Mlflow F → Op → ℕ → Bool → Mlflow F
  apply m (creates name artifact tags) now wrote =
      (create_experiment m name artifact tags now wrote).0
  apply m (updates id new_name) now wrote = (update_experiment m id new_name now wrote).0
  apply m (deletes id) now wrote = (delete_experiment m id now wrote).0
  apply m (restores id) now wrote = (restore_experiment m id now wrote).0

  -- An experiment that is put in the place of another, and saved or not.
  changed-IsCatalog {ℓ} :
      {A : Type ℓ} (m : Mlflow F) (id : String) (old e : Experiment) (wrote : Bool) (answer : A)
      → Dict.get m.experiments id ≡ some old
      → IsCatalog m
      → e.id ≡ old.id
      → ((k : String) (w : Experiment)
          → Dict.get m.experiments k ≡ some w
          → is_active e ≡ true
          → is_active w ≡ true
          → w.name ≡ e.name
          → k ≡ e.id)
      → IsCatalog (store_experiment m id e wrote answer).0
  changed-IsCatalog m id old e wrote answer at c own free =
      persist-IsCatalog (record m { experiments = Dict.put m.experiments id e }) wrote answer
        (record {
          issued = Numbered.put_old-IsNumbered "" m.next_exp m.experiments id old e c.issued at;
          named =
              subst (λ k. IsNamed (Dict.put m.experiments k e)) (own ∙ c.named.keyed id old at)
                (Named.put-IsNamed (λ e. e.id) (λ e. e.name) is_active m.experiments e c.named
                  free);
        })

  -- Every operation on experiments, saved or not, refused or not, keeps the active experiments
  -- under different names and each experiment under its own id, while the counter has room.
  pub apply-IsCatalog :
      (m : Mlflow F) (o : Op) (now : ℕ) (wrote : Bool)
      → m.next_exp + 1 < 2 ^ 63
      → IsCatalog m
      → IsCatalog (apply m o now wrote)
  unfolding apply create_experiment update_experiment delete_experiment restore_experiment
      experiment_renamed experiment_deleted experiment_restored
  apply-IsCatalog m (creates name artifact tags) now wrote room c =
      elim (Bool-cases (◌==◌ {K = String} (trim_space name) "")) [
        | inl blank ↦ rw (apply, blank) c
        | inr given ↦
            elim (Bool-cases (Dict.any_value (active_named (trim_space name)) m.experiments)) [
              | inl taken ↦ rw (apply, given, taken) c
              | inr free ↦
                  rw (apply, given, free, incr64_room m.next_exp (omega arith))
                    (let made =
                        new_experiment (m.next_exp + 1) (trim_space name) artifact tags now in
                      persist-IsCatalog
                        (record m {
                          next_exp = m.next_exp + 1;
                          experiments = Dict.put m.experiments (numbered "" (m.next_exp + 1)) made;
                        })
                        wrote made
                        (record {
                          issued =
                              Numbered.put_next-IsNumbered "" m.next_exp m.experiments made
                                c.issued;
                          named =
                              Named.put-IsNamed (λ e. e.id) (λ e. e.name) is_active m.experiments
                                made c.named
                                (λ k w at _ active same. absurd (
                                  no_active m.experiments (trim_space name) k w free at active
                                    same));
                        }))
            ]
      ]
  apply-IsCatalog m (updates id new_name) now wrote room c =
      elim (Bool-cases (◌==◌ {K = String} (trim_space new_name) "")) [
        | inl blank ↦ rw (apply, blank) c
        | inr given ↦ elim (Option-cases (Dict.get m.experiments id)) [
          | inl e ↦ rw (apply, given, e, experiment_renamed) c
          | inr (x, e) ↦
              elim (Bool-cases
                (Dict.any_value (other_named id (trim_space new_name)) m.experiments)) [
                  | inl taken ↦ rw (apply, given, e, experiment_renamed, taken) c
                  | inr free ↦
                      rw (apply, given, e, experiment_renamed, free)
                        (changed-IsCatalog m id x (renamed_experiment x (trim_space new_name) now)
                          wrote (renamed_experiment x (trim_space new_name) now) e c refl
                          (λ k w at _ active same.
                            sym (c.named.keyed k w at)
                            ∙ (no_other m.experiments id (trim_space new_name) k w free at active
                                  same
                                ∙ sym (c.named.keyed id x e))))
                ]
        ]
      ]
  apply-IsCatalog m (deletes id) now wrote room c =
      elim (Option-cases (Dict.get m.experiments id)) [
        | inl e ↦ rw (apply, e, experiment_deleted) c
        | inr (x, e) ↦
            rw (apply, e, experiment_deleted)
              (changed-IsCatalog m id x (in_lifecycle x ml_deleted now) wrote tt e c refl
                (λ k w at gone _ _. absurd (cc gone)))
      ]
  apply-IsCatalog m (restores id) now wrote room c =
      elim (Option-cases (Dict.get m.experiments id)) [
        | inl e ↦ rw (apply, e, experiment_restored) c
        | inr (x, e) ↦ elim (Bool-cases (Dict.any_value (other_named id x.name) m.experiments)) [
          | inl taken ↦ rw (apply, e, experiment_restored, taken) c
          | inr free ↦
              rw (apply, e, experiment_restored, free)
                (changed-IsCatalog m id x (in_lifecycle x ml_active now) wrote tt e c refl
                  (λ k w at _ active same.
                    sym (c.named.keyed k w at)
                    ∙ (no_other m.experiments id x.name k w free at active same
                        ∙ sym (c.named.keyed id x e))))
        ]
      ]

  pub new_mlflow-IsCatalog : IsCatalog new_mlflow
  unfolding new_mlflow
  new_mlflow-IsCatalog = record {
    issued = Numbered.empty-IsNumbered "";
    named = Named.empty-IsNamed (λ (e : Experiment). e.id) (λ e. e.name) is_active;
  }
