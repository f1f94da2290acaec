-- ===== src/Store/Jobs/Cancel.antt =====
-- internal/store/jobs.go: a cancelled run is final.
use mathlib.Core.Bool.{false≢true}
use databricks_emulator.Base.{
  sym, ap, ◌∙◌, ℕ, ◌+◌, ◌^◌, ◌≤◌, ◌<◌, ◌≡◌, ◌≢◌, refl, true, false, Option, none, some, List, [],
  ◌∷◌, String, arith, length, Bool-cases, inl, inr, Option-cases,
}
use databricks_emulator.Base.Eq.{◌==◌, nat_comparable, string_comparable}
use databricks_emulator.Base.Int64.{incr64, incr64_room}
use databricks_emulator.Dict
use databricks_emulator.Dict.{Dict}
use databricks_emulator.Store.Jobs.{
  Job, Jobs, Task, Run, create, delete_job, delete_found, reset_job, reset_found, new_run,
  update_run, is_canceled, cancel_run, cancel_found, get_run, result_canceled, canceled_run,
  pending_run,
}

-- The operations of the store that change it.
pub data Op : Type 0 where
  creates : String → List Task → Op
  deletes : ℕ → Op
  resets : ℕ → String → List Task → Op
  starts : ℕ → Op
  updates : Run → Op
  cancels : ℕ → Op

unfoldable pub apply : Jobs → Op → Jobs
apply j (creates name tasks) = (create j name tasks).0
apply j (deletes id) = (delete_job j id).0
apply j (resets id name tasks) = (reset_job j id name tasks).0
apply j (starts job_id) = (new_run j job_id).0
apply j (updates run) = update_run j run
apply j (cancels id) = (cancel_run j id).0

unfoldable pub apply_all : Jobs → List Op → Jobs
apply_all j [] = j
apply_all j (o ∷ os) = apply_all (apply j o) os

-- A run that was cancelled, in a store whose counter has passed its id.
pub record IsCanceled (j : Jobs) (id : ℕ) (r : Run) : Type 0 where
  pub stored : Dict.get j.runs id ≡ some r
  pub canceled : r.result_state ≡ result_canceled
  pub terminated : r.life_cycle ≡ "TERMINATED"
  pub issued : id ≤ j.next_id

module _ (id : ℕ) (r : Run) where
  new_run-IsCanceled :
      (j : Jobs) (job_id : ℕ)
      → j.next_id + 1 < 2 ^ 64
      → IsCanceled j id r
      → IsCanceled (new_run j job_id).0 id r
  unfolding new_run
  new_run-IsCanceled j job_id room c =
      let e = incr64_room j.next_id room in
      let law = Dict.get-put j.runs (incr64 j.next_id) (pending_run (incr64 j.next_id) job_id) id in
      record {
        stored = ground (arith, law, e, c.stored, c.issued);
        canceled = c.canceled;
        terminated = c.terminated;
        issued = omega (arith, e, c.issued);
      }

  -- The test of `UpdateRun` sees it.
  seen : (j : Jobs) → IsCanceled j id r → is_canceled (Dict.get j.runs id) ≡ true
  unfolding is_canceled
  seen j c =
      rw (c.stored, is_canceled)
        ((string_comparable.equal_iff r.result_state result_canceled).1 c.canceled)

  update_run-IsCanceled :
      (j : Jobs) (run : Run) → IsCanceled j id r → IsCanceled (update_run j run) id r
  unfolding update_run
  update_run-IsCanceled j run c = elim (Bool-cases (is_canceled (Dict.get j.runs run.id))) [
    | inl dropped ↦ rw dropped c
    | inr live ↦
        let other : run.id ≢ id =
          λ e. false≢true (sym live ∙ ap (λ k. is_canceled (Dict.get j.runs k)) e ∙ seen j c) in
        rw live (record {
          stored = ground (arith, Dict.get-put j.runs run.id run id, c.stored, other);
          canceled = c.canceled;
          terminated = c.terminated;
          issued = c.issued;
        })
  ]

  cancel_run-IsCanceled :
      (j : Jobs) (k : ℕ) → IsCanceled j id r → IsCanceled (cancel_run j k).0 id r
  unfolding cancel_run
  cancel_run-IsCanceled j k c = elim (Option-cases (Dict.get j.runs k)) [
    | inl missing ↦ rw missing c
    | inr (q, found) ↦ elim (Bool-cases (q.life_cycle == "TERMINATED")) [
      | inl over ↦ rw (found, over) c
      | inr live ↦
          let other : k ≢ id = λ e.
            let same : q ≡ r = cc (c.stored) in
            false≢true (
              sym live
              ∙ (string_comparable.equal_iff q.life_cycle "TERMINATED").1
                  (ap (λ (x : Run). x.life_cycle) same ∙ c.terminated)) in
          rw (found, live)
            (record {
              stored = ground (arith, Dict.get-put j.runs k (canceled_run q) id, c.stored, other);
              canceled = c.canceled;
              terminated = c.terminated;
              issued = c.issued;
            })
    ]
  ]

  delete_found-IsCanceled :
      (j : Jobs) (k : ℕ) (job : Option Job)
      → IsCanceled j id r
      → IsCanceled (delete_found j k job).0 id r
  unfolding delete_found
  delete_found-IsCanceled j k none c = c
  delete_found-IsCanceled j k (some job) c = record {
    stored = c.stored;
    canceled = c.canceled;
    terminated = c.terminated;
    issued = c.issued;
  }

  reset_found-IsCanceled :
      (j : Jobs) (k : ℕ) (name : String) (tasks : List Task) (job : Option Job)
      → IsCanceled j id r
      → IsCanceled (reset_found j k name tasks job).0 id r
  unfolding reset_found
  reset_found-IsCanceled j k name tasks none c = c
  reset_found-IsCanceled j k name tasks (some job) c = record {
    stored = c.stored;
    canceled = c.canceled;
    terminated = c.terminated;
    issued = c.issued;
  }

  apply-IsCanceled :
      (j : Jobs) (o : Op) → j.next_id + 1 < 2 ^ 64 → IsCanceled j id r → IsCanceled (apply j o) id r
  unfolding apply create delete_job reset_job
  apply-IsCanceled j (creates name tasks) room c = record {
    stored = c.stored;
    canceled = c.canceled;
    terminated = c.terminated;
    issued = omega (arith, incr64_room j.next_id room, c.issued);
  }
  apply-IsCanceled j (deletes k) room c = delete_found-IsCanceled j k (Dict.get j.jobs k) c
  apply-IsCanceled j (resets k name tasks) room c =
      reset_found-IsCanceled j k name tasks (Dict.get j.jobs k) c
  apply-IsCanceled j (starts job_id) room c = new_run-IsCanceled j job_id room c
  apply-IsCanceled j (updates run) room c = update_run-IsCanceled j run c
  apply-IsCanceled j (cancels k) room c = cancel_run-IsCanceled j k c

  next_id-apply : (j : Jobs) (o : Op) → j.next_id + 1 < 2 ^ 64 → (apply j o).next_id ≤ j.next_id + 1
  unfolding apply create delete_job reset_job new_run update_run cancel_run delete_found reset_found
      cancel_found
  next_id-apply j (creates name tasks) room = omega (arith, incr64_room j.next_id room)
  next_id-apply j (deletes k) room = ground arith
  next_id-apply j (resets k name tasks) room = ground arith
  next_id-apply j (starts job_id) room = omega (arith, incr64_room j.next_id room)
  next_id-apply j (updates run) room = ground arith
  next_id-apply j (cancels k) room = ground arith

  apply_all-IsCanceled :
      (os : List Op) (j : Jobs)
      → j.next_id + length os < 2 ^ 64
      → IsCanceled j id r
      → IsCanceled (apply_all j os) id r
  unfolding apply_all
  apply_all-IsCanceled [] j room c = c
  apply_all-IsCanceled (o ∷ os) j room c =
      apply_all-IsCanceled os (apply j o) (omega (arith, next_id-apply j o (omega arith)))
        (apply-IsCanceled j o (omega arith) c)

cancel_run_live :
    (j : Jobs) (id : ℕ) (run : Run)
    → get_run j id ≡ some run
    → run.life_cycle ≢ "TERMINATED"
    → id ≤ j.next_id
    → IsCanceled (cancel_run j id).0 id (canceled_run run)
unfolding cancel_run get_run
cancel_run_live j id run found live issued =
    rw (found, cancel_found)
      (rw (ne_test run live) (record {
        stored = ground (arith, Dict.get-put j.runs id (canceled_run run) id);
        canceled = refl;
        terminated = refl;
        issued = issued;
      }))
  where
    ne_test : (run : Run) → run.life_cycle ≢ "TERMINATED" → (run.life_cycle == "TERMINATED") ≡ false
    ne_test run live = elim (Bool-cases (run.life_cycle == "TERMINATED")) [
      | inl hit ↦ absurd (live ((string_comparable.equal_iff run.life_cycle "TERMINATED").0 hit))
      | inr miss ↦ miss
    ]

next_id-cancel_run : (j : Jobs) (id : ℕ) → (cancel_run j id).0.next_id ≡ j.next_id
unfolding cancel_run cancel_found
next_id-cancel_run j id = ground arith

-- A run that is cancelled while it is live keeps that record for good, whatever operations follow,
-- its own closing publish among them, as long as the id counter does not wrap.
pub cancel_run_final :
    (j : Jobs) (id : ℕ) (run : Run) (os : List Op)
    → get_run j id ≡ some run
    → run.life_cycle ≢ "TERMINATED"
    → id ≤ j.next_id
    → j.next_id + length os < 2 ^ 64
    → get_run (apply_all (cancel_run j id).0 os) id ≡ some (canceled_run run)
unfolding get_run
cancel_run_final j id run os found live issued room =
    (apply_all-IsCanceled id (canceled_run run) os (cancel_run j id).0
      (omega (arith, next_id-cancel_run j id)) (cancel_run_live j id run found live issued)).stored
