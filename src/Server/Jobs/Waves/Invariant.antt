-- ===== src/Server/Jobs/Waves/Invariant.antt =====
-- internal/server/jobs.go: what holds between two steps of the loop of `executeRun`.
use mathlib.Core.Path.{subst₂}
use databricks_emulator.Base.{
  ◌<◌, ◌≤◌, ◌≡◌, ◌≢◌, ◌⊎◌, refl, ◌∙◌, inl, inr, true, false, none, some, List, [], ◌∷◌, String,
  arith, All, Separated, Bool-cases, if◌then◌else◌,
}
use databricks_emulator.Base.Eq.{string_comparable}
use databricks_emulator.Dict
use databricks_emulator.Dict.{Dict}
use databricks_emulator.Store.Jobs.{Task, TaskRun, spec}
use databricks_emulator.Server.Jobs.Conditions.{Floats}
use databricks_emulator.Server.Jobs.Dependencies.{Results, deps_satisfied, should_run}
use databricks_emulator.Server.Jobs.Dependencies.Stability.{
  Extends, deps_satisfied-Extends, should_run-Extends,
}
use databricks_emulator.Server.Jobs.Waves.{Progress, perform, dispatch, wave, skipped}

abbrev pub key : Task → String
key t = (spec t).key

-- Every task of the map stands at its own key.
abbrev pub Keyed : Dict String Task → Type 0
Keyed m = (k : String) (t : Task) → Dict.get m k ≡ some t → key t ≡ k

module _ (fl : Floats) {W : Type 0} (runner : Task → W → TaskRun × W)
    (start : Dict String Task) where
  -- `r` is what running `t` in some world yields, or a skip, as the results of the dependencies say.
  abbrev pub Performed : Task → TaskRun → Results → Type 0
  Performed t r results =
      ((should_run t results ≡ true) × (w : W) × (r ≡ (perform fl runner t (spec t).condition w).0))
      ⊎ ((should_run t results ≡ false) × (r ≡ skipped t))

  pub record Done (k : String) (t : Task) (results : Results) : Type 0 where
    pub result : TaskRun
    pub stored : Dict.get results k ≡ some result
    pub ready : deps_satisfied t results ≡ true
    pub performed : Performed t result results

  abbrev Pending : String → Task → Progress W → Type 0
  Pending k t p = (Dict.get p.remaining k ≡ some t) × (Dict.get p.results k ≡ none)

  abbrev Finished : String → Task → Progress W → Type 0
  Finished k t p = (Dict.get p.remaining k ≡ none) × Done k t p.results

  -- A task of the job is either still to do, or has its final result; nothing else is stored.
  pub record Inv (p : Progress W) : Type 0 where
    pub cases : (k : String) (t : Task) → Dict.get start k ≡ some t → Pending k t p ⊎ Finished k t p
    pub inside :
        (k : String) (t : Task) → Dict.get p.remaining k ≡ some t → Dict.get start k ≡ some t
    pub outside : (k : String) → Dict.get start k ≡ none → Dict.get p.results k ≡ none

  Performed-Extends :
      (t : Task) (r : TaskRun) (before after : Results)
      → Extends before after
      → deps_satisfied t before ≡ true
      → Performed t r before
      → Performed t r after
  Performed-Extends t r before after ext ready performed =
      let same = should_run-Extends before after ext t ready in
      elim performed [
        | inl (run, w, e) ↦ inl (same ∙ run, w, e)
        | inr (skip, e) ↦ inr (same ∙ skip, e)
      ]

  Done-Extends :
      (k : String) (t : Task) (before after : Results)
      → Extends before after
      → Done k t before
      → Done k t after
  Done-Extends k t before after ext d = record {
    result = d.result;
    stored = ext k d.result d.stored;
    ready = deps_satisfied-Extends before after ext t d.ready;
    performed = Performed-Extends t d.result before after ext d.ready d.performed;
  }

  -- A task that is about to be dispatched.
  pub record Ready (p : Progress W) (t : Task) : Type 0 where
    pub waiting : Dict.get p.remaining (key t) ≡ some t
    pub no_result : Dict.get p.results (key t) ≡ none
    pub deps : deps_satisfied t p.results ≡ true

  remaining-dispatch :
      (p : Progress W) (t : Task) (k : String)
      → Dict.get (dispatch fl runner t p).remaining k
        ≡ (if string_comparable.equal (key t) k then none else Dict.get p.remaining k)
  unfolding dispatch
  remaining-dispatch p t k = elim (Bool-cases (should_run t p.results)) [
    | inl e ↦ rw e (Dict.get-remove p.remaining (key t) k)
    | inr e ↦ rw e (Dict.get-remove p.remaining (key t) k)
  ]

  size-dispatch-le :
      (p : Progress W) (t : Task)
      → Dict.size (dispatch fl runner t p).remaining ≤ Dict.size p.remaining
  unfolding dispatch
  size-dispatch-le p t = elim (Bool-cases (should_run t p.results)) [
    | inl e ↦ rw e (Dict.size-remove-le p.remaining (key t))
    | inr e ↦ rw e (Dict.size-remove-le p.remaining (key t))
  ]

  size-dispatch-lt :
      (p : Progress W) (t : Task)
      → Ready p t
      → Dict.size (dispatch fl runner t p).remaining < Dict.size p.remaining
  unfolding dispatch
  size-dispatch-lt p t ready = elim (Bool-cases (should_run t p.results)) [
    | inl e ↦ rw e (Dict.size-remove-lt p.remaining (key t) t ready.waiting)
    | inr e ↦ rw e (Dict.size-remove-lt p.remaining (key t) t ready.waiting)
  ]

  -- The dispatch writes one key, with a result that the decision asks for.
  dispatch_writes :
      (p : Progress W) (t : Task)
      → (r : TaskRun) × ((k : String)
          → Dict.get (dispatch fl runner t p).results k
            ≡ (if string_comparable.equal (key t) k then some r else Dict.get p.results k))
        × Performed t r p.results
  unfolding dispatch
  dispatch_writes p t = elim (Bool-cases (should_run t p.results)) [
    | inl e ↦ (
      (perform fl runner t (spec t).condition p.world).0,
      λ k. rw e (Dict.get-put p.results (key t) _ k),
      inl (e, p.world, refl),
    )
    | inr e ↦ (skipped t, λ k. rw e (Dict.get-put p.results (key t) _ k), inr (e, refl))
  ]

  dispatch-Extends :
      (p : Progress W) (t : Task) → Ready p t → Extends p.results (dispatch fl runner t p).results
  dispatch-Extends p t ready k r found =
      let (new, writes, _) = dispatch_writes p t in
      ground (arith, writes k, ready.no_result, string_comparable.equal_iff (key t) k)

  -- The dispatched task has its final result.
  dispatched : (p : Progress W) (t : Task) → Ready p t → Finished (key t) t (dispatch fl runner t p)
  dispatched p t ready =
      let ext = dispatch-Extends p t ready in
      let (new, writes, performed) = dispatch_writes p t in
      (
        ground (arith, remaining-dispatch p t (key t), string_comparable.equal_iff (key t) (key t)),
        record {
          result = new;
          stored = ground (arith, writes (key t), string_comparable.equal_iff (key t) (key t));
          ready = deps_satisfied-Extends _ _ ext t ready.deps;
          performed = Performed-Extends t new _ _ ext ready.deps performed;
        },
      )

  -- A task at another key keeps its case.
  undisturbed :
      (p : Progress W) (t : Task) (k : String) (u : Task)
      → Ready p t
      → key t ≢ k
      → Pending k u p ⊎ Finished k u p
      → Pending k u (dispatch fl runner t p) ⊎ Finished k u (dispatch fl runner t p)
  undisturbed p t k u ready other c =
      let (new, writes, performed) = dispatch_writes p t in
      let miss : string_comparable.equal (key t) k ≡ false =
        ground (arith, string_comparable.equal_iff (key t) k) in
      let left : Dict.get (dispatch fl runner t p).remaining k ≡ Dict.get p.remaining k =
        rw (remaining-dispatch p t k, miss) refl in
      let kept : Dict.get (dispatch fl runner t p).results k ≡ Dict.get p.results k =
        rw (writes k, miss) refl in
      elim c [
        | inl (waiting, empty) ↦ inl (left ∙ waiting, kept ∙ empty)
        | inr (gone, d) ↦ inr (left ∙ gone, Done-Extends k u _ _ (dispatch-Extends p t ready) d)
      ]

  dispatch-Inv : (p : Progress W) (t : Task) → Inv p → Ready p t → Inv (dispatch fl runner t p)
  dispatch-Inv p t inv ready =
      let (new, writes, performed) = dispatch_writes p t in
      let mine : Dict.get start (key t) ≡ some t = inv.inside (key t) t ready.waiting in
      record {
        cases = λ k u at. elim (Bool-cases (string_comparable.equal (key t) k)) [
          | inl hit ↦
              let same_key : key t ≡ k = (string_comparable.equal_iff (key t) k).0 hit in
              let same : t ≡ u = cc in
              inr (
                subst₂ (λ j v. Finished j v (dispatch fl runner t p)) same_key same
                  (dispatched p t ready))
          | inr miss ↦
              undisturbed p t k u ready (ground (arith, string_comparable.equal_iff (key t) k))
                (inv.cases k u at)
        ];
        inside = λ k u at. inv.inside k u (ground (arith, remaining-dispatch p t k));
        outside = λ k absent.
            ground
              (arith, writes k, inv.outside k absent, string_comparable.equal_iff (key t) k, mine);
      }

  -- The other tasks of the wave stay ready.
  dispatch-Ready :
      (p : Progress W) (t u : Task)
      → Ready p t
      → key u ≢ key t
      → Ready p u
      → Ready (dispatch fl runner t p) u
  dispatch-Ready p t u ready other r =
      let (new, writes, performed) = dispatch_writes p t in
      record {
        waiting = ground (
          arith,
          remaining-dispatch p t (key u),
          string_comparable.equal_iff (key t) (key u),
          r.waiting,
        );
        no_result =
            ground
              (arith, writes (key u), string_comparable.equal_iff (key t) (key u), r.no_result);
        deps = deps_satisfied-Extends _ _ (dispatch-Extends p t ready) u r.deps;
      }

  others-Ready :
      (p : Progress W) (t : Task) (ts : List Task)
      → Ready p t
      → All (λ u. key u ≢ key t) ts
      → All (Ready p) ts
      → All (Ready (dispatch fl runner t p)) ts
  others-Ready p t [] ready other rs = tt
  others-Ready p t (u ∷ us) ready other rs =
      (dispatch-Ready p t u ready other.0 rs.0, others-Ready p t us ready other.1 rs.1)

  -- A whole wave keeps the invariant.
  pub wave-Inv :
      (ts : List Task) (p : Progress W)
      → Inv p
      → All (Ready p) ts
      → Separated key ts
      → Inv (wave fl runner ts p)
  unfolding wave
  wave-Inv [] p inv ready sep = inv
  wave-Inv (t ∷ ts) p inv ready sep =
      wave-Inv ts (dispatch fl runner t p) (dispatch-Inv p t inv ready.0)
        (others-Ready p t ts ready.0 sep.0 ready.1) sep.1

  size-wave-le :
      (ts : List Task) (p : Progress W)
      → Dict.size (wave fl runner ts p).remaining ≤ Dict.size p.remaining
  unfolding wave
  size-wave-le [] p = omega arith
  size-wave-le (t ∷ ts) p =
      omega (arith, size-dispatch-le p t, size-wave-le ts (dispatch fl runner t p))

  -- A wave that is not empty leaves less to do.
  pub size-wave-lt :
      (t : Task) (ts : List Task) (p : Progress W)
      → Ready p t
      → Dict.size (wave fl runner (t ∷ ts) p).remaining < Dict.size p.remaining
  unfolding wave
  size-wave-lt t ts p ready =
      omega (arith, size-dispatch-lt p t ready, size-wave-le ts (dispatch fl runner t p))

  -- Before the first wave everything is still to do.
  pub start-Inv : (w : W) → Inv (record { remaining = start; results = Dict.empty; world = w })
  start-Inv w = record {
    cases = λ k t at. inl (at, Dict.get-empty k);
    inside = λ k t at. at;
    outside = λ k absent. Dict.get-empty k;
  }
