-- ===== src/Server/Jobs/Dependencies/RunIf.antt =====
-- internal/server/jobs.go: what `shouldRun` answers for each `run_if` rule.
use databricks_emulator.Base.{
  suc, ◌+◌, ◌≡◌, ◌≢◌, ◌↔◌, ◌⊎◌, ◌∙◌, sym, refl, All-imp, Any-imp, Bool, true, false, List, [], ◌∷◌,
  String, arith, All, Any, inl, inr, Bool-cases, leb, if◌then◌else◌, length,
}
use mathlib.Core.Bool.{false≢true}
use databricks_emulator.Base.Eq.{◌==◌, string_comparable, nat_comparable}
use databricks_emulator.Base.Count.{
  count, All-of_count, count-of_All, Any-of_count, count-of_Any, None-of_count, count-of_None,
}
use databricks_emulator.Store.Jobs.{Dependency, Task, TaskRun, spec, report}
use databricks_emulator.Server.Jobs.Dependencies.{
  Results, result_of, branches_taken, Tally, tally, count_result, should_run, should_run_deps,
  run_if_allows,
}

abbrev pub state_of : Results → Dependency → String
state_of done d = (report (result_of done d.key)).result_state

abbrev pub has_state : String → Results → Dependency → Bool
has_state s done d = state_of done d == s

abbrev no_results : Tally
no_results = record { success = 0; failed = 0; finished = 0 }

abbrev totals : List Dependency → Results → Tally
totals ds done = record {
  success = count (has_state "SUCCESS" done) ds;
  failed = count (has_state "FAILED" done) ds;
  finished = length ds;
}

-- One round of the counting loop.
distinct_states : (s : String) → (s == "SUCCESS") ≡ true → (s == "FAILED") ≡ false
distinct_states s h = rw ((string_comparable.equal_iff s "SUCCESS").0 h) refl

count_result_lem :
    (r : TaskRun) (n : Tally)
    → ((count_result r n).success
        ≡ (if (report r).result_state == "SUCCESS" then suc n.success else n.success))
      × ((count_result r n).failed
          ≡ (if (report r).result_state == "FAILED" then suc n.failed else n.failed))
      × ((count_result r n).finished ≡ suc n.finished)
unfolding count_result
count_result_lem r n = elim (Bool-cases ((report r).result_state == "SUCCESS")) [
  | inl s ↦ rw (s, distinct_states (report r).result_state s) (omega arith)
  | inr s ↦ elim (Bool-cases ((report r).result_state == "FAILED")) [
    | inl f ↦ rw (s, f) (omega arith)
    | inr f ↦ rw (s, f) (omega arith)
  ]
]

-- The counting loop adds up the two counts and the length.
tally_lem :
    (ds : List Dependency) (done : Results) (n : Tally)
    → ((tally ds done n).success ≡ n.success + count (has_state "SUCCESS" done) ds)
      × ((tally ds done n).failed ≡ n.failed + count (has_state "FAILED" done) ds)
      × ((tally ds done n).finished ≡ n.finished + length ds)
unfolding tally
tally_lem [] done n = omega arith
tally_lem (d ∷ ds) done n = ground (
  arith,
  tally_lem ds done (count_result (result_of done d.key) n),
  count_result_lem (result_of done d.key) n,
)

-- The six rules, by the strings that the Jobs API gives them; any other string is ALL_SUCCESS.
pub data Rule : Type 0 where
  all_done at_least_one_success all_failed at_least_one_failed none_failed all_success : Rule

abbrev pub rule_of : String → Rule
rule_of s =
    if s == "ALL_DONE"
    then all_done
    else if s == "AT_LEAST_ONE_SUCCESS"
    then at_least_one_success
    else if s == "ALL_FAILED"
    then all_failed
    else if s == "AT_LEAST_ONE_FAILED"
    then at_least_one_failed
    else if s == "NONE_FAILED"
    then none_failed
    else all_success

-- What each rule asks of the results of the dependencies.
abbrev pub Means : Rule → Results → List Dependency → Type 0
Means all_done done ds = Unit
Means at_least_one_success done ds = Any (λ d. state_of done d ≡ "SUCCESS") ds
Means all_failed done ds = All (λ d. state_of done d ≡ "FAILED") ds
Means at_least_one_failed done ds = Any (λ d. state_of done d ≡ "FAILED") ds
Means none_failed done ds = All (λ d. state_of done d ≢ "FAILED") ds
Means all_success done ds = All (λ d. state_of done d ≡ "SUCCESS") ds

module _ (s : String) (done : Results) (ds : List Dependency) where
  All-iff : (count (has_state s done) ds == length ds) ≡ true ↔ All (λ d. state_of done d ≡ s) ds
  All-iff = (
    λ h.
        All-imp _ _ (λ d. (string_comparable.equal_iff (state_of done d) s).0) ds
          (All-of_count (has_state s done) ds ((nat_comparable.equal_iff _ _).0 h)),
    λ h. (nat_comparable.equal_iff _ _).1 (
        count-of_All (has_state s done) ds
          (All-imp _ _ (λ d. (string_comparable.equal_iff (state_of done d) s).1) ds h)),
  )

  Any-iff : leb 1 (count (has_state s done) ds) ≡ true ↔ Any (λ d. state_of done d ≡ s) ds
  Any-iff = (
    λ h.
        Any-imp _ _ (λ d. (string_comparable.equal_iff (state_of done d) s).0) ds
          (Any-of_count (has_state s done) ds (ground arith)),
    λ h. ground (
      arith,
      (count-of_Any (has_state s done) ds
          (Any-imp _ _ (λ d. (string_comparable.equal_iff (state_of done d) s).1) ds h)),
    ),
  )

  none_iff : (count (has_state s done) ds == 0) ≡ true ↔ All (λ d. state_of done d ≢ s) ds
  none_iff = (
    λ h.
        All-imp _ _
          (λ d miss e.
            true_false (sym ((string_comparable.equal_iff (state_of done d) s).1 e) ∙ miss))
          ds (None-of_count (has_state s done) ds ((nat_comparable.equal_iff _ _).0 h)),
    λ h.
        (nat_comparable.equal_iff _ _).1
          (count-of_None (has_state s done) ds (All-imp _ _ (λ d ne. miss_of_ne d ne) ds h)),
  )
    where
      true_false : true ≡ false → ⊥
      true_false e = cc

      miss_of_ne : (d : Dependency) → state_of done d ≢ s → has_state s done d ≡ false
      miss_of_ne d ne = elim (Bool-cases (has_state s done d)) [
        | inl hit ↦ absurd (ne ((string_comparable.equal_iff (state_of done d) s).0 hit))
        | inr miss ↦ miss
      ]

allows_iff :
    (rule : String) (done : Results) (ds : List Dependency)
    → (run_if_allows rule (totals ds done) ≡ true) ↔ Means (rule_of rule) done ds
unfolding run_if_allows
allows_iff rule done ds = elim (Bool-cases (rule == "ALL_DONE")) [
  | inl h ↦ rw h (λ _. tt, λ _. refl)
  | inr h₁ ↦ elim (Bool-cases (rule == "AT_LEAST_ONE_SUCCESS")) [
    | inl h ↦ rw (h₁, h) (Any-iff "SUCCESS" done ds)
    | inr h₂ ↦ elim (Bool-cases (rule == "ALL_FAILED")) [
      | inl h ↦ rw (h₁, h₂, h) (All-iff "FAILED" done ds)
      | inr h₃ ↦ elim (Bool-cases (rule == "AT_LEAST_ONE_FAILED")) [
        | inl h ↦ rw (h₁, h₂, h₃, h) (Any-iff "FAILED" done ds)
        | inr h₄ ↦ elim (Bool-cases (rule == "NONE_FAILED")) [
          | inl h ↦ rw (h₁, h₂, h₃, h₄, h) (none_iff "FAILED" done ds)
          | inr h₅ ↦ rw (h₁, h₂, h₃, h₄, h₅) (All-iff "SUCCESS" done ds)
        ]
      ]
    ]
  ]
]

-- An edge with an outcome wants the condition that it names to have produced it.
abbrev pub BranchTaken : Results → Dependency → Type 0
BranchTaken done d =
    (d.outcome ≡ "") ⊎ ((report (result_of done d.key)).condition_outcome ≡ d.outcome)

branches_iff :
    (ds : List Dependency) (done : Results)
    → (branches_taken ds done ≡ true) ↔ All (BranchTaken done) ds
unfolding branches_taken
branches_iff [] done = (λ _. tt, λ _. refl)
branches_iff (d ∷ ds) done =
    let rest = branches_iff ds done in
    let plain = string_comparable.equal_iff d.outcome "" in
    let taken =
      string_comparable.equal_iff (report (result_of done d.key)).condition_outcome d.outcome in
    (
      λ h. elim (Bool-cases (d.outcome == "")) [
        | inl e ↦ (inl (plain.0 e), rest.0 (rw e at h))
        | inr e ↦
            elim (Bool-cases ((report (result_of done d.key)).condition_outcome == d.outcome)) [
              | inl f ↦ (inr (taken.0 f), rest.0 (rw (e, f) at h))
              | inr f ↦ absurd (false≢true (rw (e, f) at h))
            ]
      ],
      λ (h, hs). elim h [
        | inl e ↦ rw (plain.1 e) (rest.1 hs)
        | inr e ↦ elim (Bool-cases (d.outcome == "")) [
          | inl plain_edge ↦ rw plain_edge (rest.1 hs)
          | inr named ↦ rw (named, taken.1 e) (rest.1 hs)
        ]
      ],
    )

-- The declared meaning of a task's edges and its `run_if`.
abbrev pub Runs : Task → Results → Type 0
Runs t done =
    ((spec t).depends_on ≡ [])
    ⊎ (All (BranchTaken done) (spec t).depends_on
        × Means (rule_of (spec t).run_if) done (spec t).depends_on)

tally-eq-totals :
    (ds : List Dependency) (done : Results) → tally ds done no_results ≡ totals ds done
tally-eq-totals ds done = ground (arith, tally_lem ds done no_results)

deps_iff :
    (ds : List Dependency) (rule : String) (done : Results)
    → (should_run_deps ds rule done ≡ true)
      ↔ ((ds ≡ []) ⊎ (All (BranchTaken done) ds × Means (rule_of rule) done ds))
unfolding should_run_deps
deps_iff [] rule done = (λ _. inl refl, λ _. refl)
deps_iff (d ∷ ds) rule done =
    rw (tally-eq-totals (d ∷ ds) done) (elim (Bool-cases (branches_taken (d ∷ ds) done)) [
      | inl taken ↦ rw taken (
        λ h. inr ((branches_iff (d ∷ ds) done).0 taken, (allows_iff rule done (d ∷ ds)).0 h),
        λ h. elim h [ inl empty ↦ absurd (cc) | inr (b, m) ↦ (allows_iff rule done (d ∷ ds)).1 m ],
      )
      | inr not_taken ↦ rw not_taken (
        λ h. absurd (false≢true h),
        λ h. elim h [
          | inl empty ↦ absurd (cc)
          | inr (b, m) ↦ sym not_taken ∙ (branches_iff (d ∷ ds) done).1 b
        ],
      )
    ])

-- A task runs exactly if it has no dependencies, or if every edge that names an outcome has its
-- condition's outcome and the results of the dependencies are what the `run_if` rule asks for.
pub should_run-iff-Runs : (t : Task) (done : Results) → (should_run t done ≡ true) ↔ Runs t done
unfolding should_run
should_run-iff-Runs t done = deps_iff (spec t).depends_on (spec t).run_if done
