-- ===== src/Server/Jobs/Execute/Published.antt =====
-- internal/server/jobs.go: the loop of `executeRun` ends, with a result for every task.
use databricks_emulator.Base.{
  All-imp, Option-cases, ℕ, suc, ◌≡◌, subst, inl, inr, true, some, List, [], ◌∷◌, String, arith,
  All, Bool-cases, is_some,
}
use databricks_emulator.Base.Eq.{string_comparable, nat_comparable}
use databricks_emulator.Dict
use databricks_emulator.Dict.{Dict}
use databricks_emulator.Store.Jobs.{Job, Task, TaskRun, Run}
use databricks_emulator.Server.Jobs.Conditions.{Floats}
use databricks_emulator.Server.Jobs.Dependencies.{Results}
use databricks_emulator.Server.Jobs.Waves.{initial, finished}
use databricks_emulator.Server.Jobs.Waves.Invariant.{key, Keyed, start-Inv}
use databricks_emulator.Server.Jobs.Waves.Complete.{Complete, Ends, rounds-Ends}
use databricks_emulator.Server.Jobs.World.{World, Services}
use databricks_emulator.Server.Jobs.Tasks.{run_task}
use databricks_emulator.Server.Jobs.Execute.{run_waves, run_all, run_cancelled}

initial-Keyed : (ts : List Task) (m : Dict String Task) → Keyed m → Keyed (initial ts m)
unfolding initial
initial-Keyed [] m h = h
initial-Keyed (t ∷ ts) m h = initial-Keyed ts (Dict.put m (key t) t) (λ k u at. put_keyed k u at)
  where
    put_keyed : (k : String) (u : Task) → Dict.get (Dict.put m (key t) t) k ≡ some u → key u ≡ k
    put_keyed k u at = elim (Bool-cases (string_comparable.equal (key t) k)) [
      | inl hit ↦
          let e = Dict.get-put m (key t) t k in
          let same : t ≡ u = ground (arith, e) in
          subst (λ v. key v ≡ k) same ((string_comparable.equal_iff (key t) k).0 hit)
      | inr miss ↦ h k u (ground (arith, Dict.get-put m (key t) t k))
    ]

empty-Keyed : Keyed Dict.empty
empty-Keyed k t at = let e = Dict.get-empty {V = Task} k in absurd (cc e)

-- A key that is put stays.
initial-keeps :
    (ts : List Task) (m : Dict String Task) (k : String)
    → is_some (Dict.get m k) ≡ true
    → is_some (Dict.get (initial ts m) k) ≡ true
unfolding initial
initial-keeps [] m k h = h
initial-keeps (t ∷ ts) m k h =
    initial-keeps ts (Dict.put m (key t) t) k (ground (arith, Dict.get-put m (key t) t k))

initial-covers :
    (ts : List Task) (m : Dict String Task)
    → All (λ t. is_some (Dict.get (initial ts m) (key t)) ≡ true) ts
unfolding initial
initial-covers [] m = tt
initial-covers (t ∷ ts) m = (
  initial-keeps ts (Dict.put m (key t) t) (key t) (
      ground
        (arith, Dict.get-put m (key t) t (key t), string_comparable.equal_iff (key t) (key t))),
  initial-covers ts (Dict.put m (key t) t),
)

module _ (fl : Floats) {E : Type 0} (sv : Services E)
    (child : Job → Run → ℕ → World E → World E) where
  abbrev pub runner : ℕ → Task → World E → TaskRun × World E
  runner depth t = run_task sv child t depth

  -- Whatever the tasks do, the loop ends. Unless it found the run cancelled, every task of the job
  -- has the result that the results of its dependencies ask for, or is skipped because it waits
  -- for a result that never comes.
  pub run_waves-Ends :
      (tasks : List Task) (id depth : ℕ) (w : World E)
      → Ends fl
          (runner depth)
          (initial tasks Dict.empty)
          (run_cancelled id)
          (run_waves fl sv child tasks id depth w)
  unfolding run_waves run_all
  run_waves-Ends tasks id depth w =
      let start = initial tasks Dict.empty in
      let keyed = initial-Keyed tasks Dict.empty empty-Keyed in
      rounds-Ends fl (runner depth) start keyed (run_cancelled id) (suc (Dict.size start)) _
        (start-Inv fl (runner depth) start w) (omega arith)

  -- So every task of the job has a result.
  pub run_waves-results :
      (tasks : List Task) (id depth : ℕ) (w w' : World E) (results : Results)
      → run_waves fl sv child tasks id depth w ≡ finished results w'
      → All (λ t. is_some (Dict.get results (key t)) ≡ true) tasks
  run_waves-results tasks id depth w w' results e =
      let (settled, complete) =
        subst (Ends fl (runner depth) (initial tasks Dict.empty) (run_cancelled id)) e
          (run_waves-Ends tasks id depth w) in
      All-imp _ _ (λ t. has_result settled results complete t) tasks
        (initial-covers tasks Dict.empty)
    where
      has_result :
          (settled final : Results)
          → Complete fl (runner depth) (initial tasks Dict.empty) settled final
          → (t : Task) → is_some (Dict.get (initial tasks Dict.empty) (key t)) ≡ true
          → is_some (Dict.get final (key t)) ≡ true
      has_result settled final complete t there =
          elim (Option-cases (Dict.get (initial tasks Dict.empty) (key t))) [
            | inl absent ↦ absurd (ground arith)
            | inr (u, at) ↦ elim (complete.each (key t) u at) [
              | inl (d, stored) ↦ rw stored
              | inr stuck ↦ rw stuck.skip
            ]
          ]
