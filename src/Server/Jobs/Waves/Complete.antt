-- ===== src/Server/Jobs/Waves/Complete.antt =====
-- internal/server/jobs.go: what the loop of `executeRun` leaves in `results` when it ends.
use mathlib.Core.Path.{subst}
use databricks_emulator.Base.{
  ℕ, zero, suc, ◌<◌, ◌≡◌, ◌≢◌, ◌⊎◌, refl, sym, ◌∙◌, inl, inr, Bool, true, false, none, some, List,
  [], ◌∷◌, String, arith, All, Any, All-zip, All-keep, keep-All, keep-nil, Separated,
  Separated-keep, Bool-cases, Option-cases,
}
use databricks_emulator.Base.Eq.{string_comparable}
use databricks_emulator.Dict
use databricks_emulator.Dict.{Dict}
use databricks_emulator.Store.Jobs.{Task, TaskRun}
use databricks_emulator.Server.Jobs.Conditions.{Floats}
use databricks_emulator.Server.Jobs.Dependencies.{Results, deps_satisfied}
use databricks_emulator.Server.Jobs.Waves.{
  Progress, Outcome, finished, interrupted, out_of_fuel, wave, skipped, skip_all, ready_tasks,
  round, rounds, rounds_from,
}
use databricks_emulator.Server.Jobs.Waves.Invariant.{
  key, Keyed, Done, Inv, Ready, wave-Inv, size-wave-lt,
}

get-skip_all_other :
    (k : String) (ts : List Task) (results : Results)
    → All (λ t. key t ≢ k) ts
    → Dict.get (skip_all ts results) k ≡ Dict.get results k
unfolding skip_all
get-skip_all_other k [] results h = refl
get-skip_all_other k (t ∷ ts) results h = ground (
  arith,
  get-skip_all_other k ts (Dict.put results (key t) (skipped t)) h.1,
  Dict.get-put results (key t) (skipped t) k,
  string_comparable.equal_iff (key t) k,
)

get-skip_all :
    (t : Task) (ts : List Task) (results : Results)
    → Separated key ts
    → Any (λ u. u ≡ t) ts
    → Dict.get (skip_all ts results) (key t) ≡ some (skipped t)
unfolding skip_all
get-skip_all t [] results sep h = absurd h
get-skip_all t (u ∷ us) results sep (inl e) = rw (← e) (
    get-skip_all_other (key u) us (Dict.put results (key u) (skipped u)) sep.0
    ∙ ground (
      arith,
      Dict.get-put results (key u) (skipped u) (key u),
      string_comparable.equal_iff (key u) (key u),
    ))
get-skip_all t (u ∷ us) results sep (inr later) = get-skip_all t us _ sep.1 later

module _ (fl : Floats) {W : Type 0} (runner : Task → W → TaskRun × W)
    (start : Dict String Task) where
  -- A task that waits for a result that never comes: it depends on a key that the job does not
  -- have, on itself, or on another such task.
  pub record Stuck (k : String) (t : Task) (settled final : Results) : Type 0 where
    pub unsettled : Dict.get settled k ≡ none
    pub waits : deps_satisfied t settled ≡ false
    pub skip : Dict.get final k ≡ some (skipped t)

  -- What `final` holds, where `settled` are the results of the waves: for each task of the job the
  -- result that the results of its dependencies ask for, or a skip if it is stuck; and no more.
  pub record Complete (settled final : Results) : Type 0 where
    pub each :
        (k : String) (t : Task)
        → Dict.get start k ≡ some t
        → ((d : Done fl runner start k t settled) × (Dict.get final k ≡ some d.result))
          ⊎ Stuck k t settled final
    pub no_other : (k : String) → Dict.get start k ≡ none → Dict.get final k ≡ none

  abbrev pub Ends : (W → Bool) → Outcome W → Type 0
  Ends cancelled (finished final w) = (settled : Results) × Complete settled final
  Ends cancelled (interrupted w) = cancelled w ≡ true
  Ends cancelled out_of_fuel = ⊥

  module _ (keyed : Keyed start) where
    remaining-Keyed : (p : Progress W) → Inv fl runner start p → Keyed p.remaining
    remaining-Keyed p inv k t at = keyed k t (inv.inside k t at)

    remaining-Separated :
        (p : Progress W) → Inv fl runner start p → Separated key (Dict.values p.remaining)
    remaining-Separated p inv = Dict.values-Separated key p.remaining (remaining-Keyed p inv)

    waiting-no_result :
        (p : Progress W) (k : String) (t : Task)
        → Inv fl runner start p
        → Dict.get p.remaining k ≡ some t
        → Dict.get p.results k ≡ none
    waiting-no_result p k t inv at = elim (inv.cases k t (inv.inside k t at)) [
      | inl (_, empty) ↦ empty
      | inr (gone, _) ↦ absurd (cc)
    ]

    -- All that `ready` lists may be dispatched.
    Ready-Ready :
        (p : Progress W)
        → Inv fl runner start p
        → All (Ready fl runner start p) (ready_tasks p.remaining p.results)
    unfolding ready_tasks
    Ready-Ready p inv =
        All-zip _ _ _
          (λ t waiting deps. record {
            waiting = waiting;
            no_result = waiting-no_result p (key t) t inv waiting;
            deps = deps;
          })
          _
          (All-keep (λ t. Dict.get p.remaining (key t) ≡ some t) _ (Dict.values p.remaining)
            (Dict.All-values (λ t. Dict.get p.remaining (key t) ≡ some t) p.remaining
              (λ k t at.
                subst (λ j. Dict.get p.remaining j ≡ some t) (sym (remaining-Keyed p inv k t at))
                  at)))
          (keep-All (λ t. deps_satisfied t p.results) (Dict.values p.remaining))

    ready-Separated :
        (p : Progress W) → Inv fl runner start p → Separated key (ready_tasks p.remaining p.results)
    unfolding ready_tasks
    ready-Separated p inv =
        Separated-keep key _ (Dict.values p.remaining) (remaining-Separated p inv)

    -- The loop ends with nothing left to do.
    none_left :
        (p : Progress W)
        → Inv fl runner start p
        → Dict.values p.remaining ≡ []
        → Complete p.results p.results
    none_left p inv empty = record {
      each = λ k t at. elim (inv.cases k t at) [
        | inl (waiting, _) ↦ absurd (absent k t waiting)
        | inr (_, d) ↦ inl (d, d.stored)
      ];
      no_other = inv.outside;
    }
      where
        absent : (k : String) (t : Task) → Dict.get p.remaining k ≡ some t → ⊥
        absent k t waiting = let e = Dict.get-of_values_nil p.remaining k empty in cc

    -- The loop ends with tasks that wait for each other.
    all_stuck :
        (p : Progress W)
        → Inv fl runner start p
        → ready_tasks p.remaining p.results ≡ []
        → Complete p.results (skip_all (Dict.values p.remaining) p.results)
    unfolding ready_tasks
    all_stuck p inv none_ready = record {
      each = λ k t at. elim (inv.cases k t at) [
        | inl (waiting, empty) ↦ inr (record {
          unsettled = empty;
          waits =
              Dict.get-All (λ u. deps_satisfied u p.results ≡ false) p.remaining k t
                (keep-nil (λ u. deps_satisfied u p.results) (Dict.values p.remaining) none_ready)
                waiting;
          skip =
              subst
                (λ j. Dict.get (skip_all (Dict.values p.remaining) p.results) j ≡ some (skipped t))
                (keyed k t at)
                (get-skip_all t (Dict.values p.remaining) p.results (remaining-Separated p inv)
                  (Dict.Any-values p.remaining k t waiting));
        })
        | inr (gone, d) ↦ inl (d, untouched k gone ∙ d.stored)
      ];
      no_other = λ k outside. elim (Option-cases (Dict.get p.remaining k)) [
        | inl gone ↦ untouched k gone ∙ inv.outside k outside
        | inr (t, at) ↦ let inner = inv.inside k t at in absurd (cc inner)
      ];
    }
      where
        untouched :
            (k : String)
            → Dict.get p.remaining k ≡ none
            → Dict.get (skip_all (Dict.values p.remaining) p.results) k ≡ Dict.get p.results k
        untouched k gone = get-skip_all_other k (Dict.values p.remaining) p.results (
            Dict.All-values (λ t. key t ≢ k) p.remaining
              (λ j t at same. let e = remaining-Keyed p inv j t at in cc e))

    module _ (cancelled : W → Bool) where
      -- What `next` has to do with the progress that a wave makes.
      abbrev Continues : Progress W → (Progress W → Outcome W) → Type 0
      Continues p next =
          (q : Progress W)
          → Inv fl runner start q
          → Dict.size q.remaining < Dict.size p.remaining
          → Ends cancelled (next q)

      round-Ends :
          (p : Progress W) (next : Progress W → Outcome W) (ts : List Task)
          → Inv fl runner start p
          → ready_tasks p.remaining p.results ≡ ts
          → Continues p next
          → Ends cancelled (round fl runner ts p next)
      unfolding round
      round-Ends p next [] inv e continues = (p.results, all_stuck p inv e)
      round-Ends p next (t ∷ ts) inv e continues =
          let ready = subst (All (Ready fl runner start p)) e (Ready-Ready p inv) in
          let sep = subst (Separated key) e (ready-Separated p inv) in
          continues (wave fl runner (t ∷ ts) p) (wave-Inv fl runner start (t ∷ ts) p inv ready sep)
            (size-wave-lt fl runner start t ts p ready.0)

      rounds_from-Ends :
          (p : Progress W) (next : Progress W → Outcome W) (ts : List Task)
          → Inv fl runner start p
          → Dict.values p.remaining ≡ ts
          → Continues p next
          → Ends cancelled (rounds_from fl runner cancelled ts p next)
      unfolding rounds_from
      rounds_from-Ends p next [] inv e continues = (p.results, none_left p inv e)
      rounds_from-Ends p next (t ∷ ts) inv e continues = elim (Bool-cases (cancelled p.world)) [
        | inl stop ↦ rw stop stop
        | inr go ↦ rw go (round-Ends p next _ inv refl continues)
      ]

      -- With more fuel than tasks the loop ends, and leaves what `Complete` says, unless the run
      -- was found cancelled.
      pub rounds-Ends :
          (fuel : ℕ) (p : Progress W)
          → Inv fl runner start p
          → Dict.size p.remaining < fuel
          → Ends cancelled (rounds fl runner cancelled fuel p)
      unfolding rounds
      rounds-Ends zero p inv h = absurd (omega arith)
      rounds-Ends (suc fuel) p inv h =
          rounds_from-Ends p (rounds fl runner cancelled fuel) _ inv refl
            (λ q inv' smaller. rounds-Ends fuel q inv' (omega arith))
