-- ===== src/Store/Jobs/Fresh.antt =====
-- internal/store/jobs.go: jobs and runs are numbered by one counter, so a new id is in neither map.
use databricks_emulator.Base.{
  ℕ, ◌+◌, ◌^◌, ◌≤◌, ◌<◌, ◌≡◌, refl, Option, none, some, List, String, arith, Bool-cases, inl, inr,
  Option-cases,
}
use databricks_emulator.Base.Eq.{◌==◌, nat_comparable, string_comparable}
use databricks_emulator.Base.Int64.{incr64, incr64_room}
use databricks_emulator.Dict
use databricks_emulator.Dict.{Dict}
use databricks_emulator.Store.Jobs.{
  Job, Jobs, Task, Run, create, delete_job, delete_found, reset_job, reset_found, new_run,
  update_run, is_canceled, cancel_run, cancel_found, get_run, get_job, canceled_run, pending_run,
  new_jobs,
}
use databricks_emulator.Store.Jobs.Cancel.{
  Op, creates, deletes, resets, starts, updates, cancels, apply,
}

-- Every id that is in use was handed out by the counter, and each object carries its own id.
pub record IsNumbered (j : Jobs) : Type 0 where
  pub jobs_issued :
      (k : ℕ) (job : Job) → Dict.get j.jobs k ≡ some job → (k ≤ j.next_id) × (job.id ≡ k)
  pub runs_issued :
      (k : ℕ) (run : Run) → Dict.get j.runs k ≡ some run → (k ≤ j.next_id) × (run.id ≡ k)

-- A publish is of a run that the store created.
abbrev pub Issued : Jobs → Op → Type 0
Issued j (updates run) = run.id ≤ j.next_id
Issued j o = Unit

pub new_jobs-IsNumbered : IsNumbered new_jobs
unfolding new_jobs
new_jobs-IsNumbered = record {
  jobs_issued = λ k job at. let e = Dict.get-empty {V = Job} k in absurd (cc e);
  runs_issued = λ k run at. let e = Dict.get-empty {V = Run} k in absurd (cc e);
}

module _ (j : Jobs) (id : ℕ) (n : IsNumbered j) where
  delete_found-IsNumbered : (found : Option Job) → IsNumbered (delete_found j id found).0
  unfolding delete_found
  delete_found-IsNumbered none = n
  delete_found-IsNumbered (some job) = record {
    jobs_issued = λ k q at. n.jobs_issued k q (ground (arith, Dict.get-remove j.jobs id k));
    runs_issued = λ k q at. n.runs_issued k q at;
  }

  reset_found-IsNumbered :
      (name : String) (tasks : List Task) (found : Option Job)
      → Dict.get j.jobs id ≡ found
      → IsNumbered (reset_found j id name tasks found).0
  unfolding reset_found
  reset_found-IsNumbered name tasks none e = n
  reset_found-IsNumbered name tasks (some job) e = record {
    jobs_issued = λ k q at. ground (
      arith,
      n.jobs_issued id job e,
      n.jobs_issued k q,
      Dict.get-put j.jobs id (record job { name = name; tasks = tasks }) k,
    );
    runs_issued = λ k q at. n.runs_issued k q at;
  }

  cancel_found-IsNumbered :
      (found : Option Run) → Dict.get j.runs id ≡ found → IsNumbered (cancel_found j id found).0
  unfolding cancel_found
  cancel_found-IsNumbered none e = n
  cancel_found-IsNumbered (some q) e = elim (Bool-cases (q.life_cycle == "TERMINATED")) [
    | inl over ↦ rw over n
    | inr live ↦ rw live (record {
      jobs_issued = λ k job at. n.jobs_issued k job at;
      runs_issued = λ k r at. ground (
        arith,
        n.runs_issued id q e,
        n.runs_issued k r,
        Dict.get-put j.runs id (canceled_run q) k,
      );
    })
  ]

update_run-IsNumbered :
    (j : Jobs) (run : Run) → run.id ≤ j.next_id → IsNumbered j → IsNumbered (update_run j run)
unfolding update_run
update_run-IsNumbered j run issued n = elim (Bool-cases (is_canceled (Dict.get j.runs run.id))) [
  | inl dropped ↦ rw dropped n
  | inr live ↦ rw live (record {
    jobs_issued = λ k job at. n.jobs_issued k job at;
    runs_issued = λ k r at. ground (arith, n.runs_issued k r, Dict.get-put j.runs run.id run k);
  })
]

-- Every operation of the jobs store keeps each job and run under its own id and the ids below the
-- counter, for publishes of runs that the store created.
pub apply-IsNumbered :
    (j : Jobs) (o : Op)
    → j.next_id + 1 < 2 ^ 64
    → Issued j o
    → IsNumbered j
    → IsNumbered (apply j o)
unfolding apply create new_run delete_job reset_job cancel_run
apply-IsNumbered j (creates name tasks) room issued n =
    let e = incr64_room j.next_id room in
    record {
      jobs_issued = λ k job at. ground (
        arith,
        e,
        n.jobs_issued k job,
        Dict.get-put j.jobs (incr64 j.next_id)
            (record { id = incr64 j.next_id; name = name; tasks = tasks }) k,
      );
      runs_issued = λ k run at. ground (arith, e, n.runs_issued k run);
    }
apply-IsNumbered j (deletes id) room issued n = delete_found-IsNumbered j id n (Dict.get j.jobs id)
apply-IsNumbered j (resets id name tasks) room issued n =
    reset_found-IsNumbered j id n name tasks (Dict.get j.jobs id) refl
apply-IsNumbered j (starts job_id) room issued n =
    let e = incr64_room j.next_id room in
    record {
      jobs_issued = λ k job at. ground (arith, e, n.jobs_issued k job);
      runs_issued = λ k run at. ground (
        arith,
        e,
        n.runs_issued k run,
        Dict.get-put j.runs (incr64 j.next_id) (pending_run (incr64 j.next_id) job_id) k,
      );
    }
apply-IsNumbered j (updates run) room issued n = update_run-IsNumbered j run issued n
apply-IsNumbered j (cancels id) room issued n =
    cancel_found-IsNumbered j id n (Dict.get j.runs id) refl

-- In a store whose ids come from the counter, with room left, a new run and a new job get ids that
-- no run and no job has, and are found under them.
pub new_ids_fresh :
    (j : Jobs) (job_id : ℕ) (name : String) (tasks : List Task)
    → IsNumbered j
    → j.next_id + 1 < 2 ^ 64
    → (get_run j (new_run j job_id).1.id ≡ none)
      × (get_job j (create j name tasks).1.id ≡ none)
      × (get_run (new_run j job_id).0 (new_run j job_id).1.id ≡ some (new_run j job_id).1)
      × (get_job (create j name tasks).0 (create j name tasks).1.id ≡ some (create j name tasks).1)
unfolding new_run create get_run get_job
new_ids_fresh j job_id name tasks n room =
    let id = incr64 j.next_id in
    let e : id ≡ j.next_id + 1 = incr64_room j.next_id room in
    (
      fresh_run id (omega arith),
      fresh_job id (omega arith),
      ground (arith, Dict.get-put j.runs id (pending_run id job_id) id),
      ground (arith, Dict.get-put j.jobs id (record { id = id; name = name; tasks = tasks }) id),
    )
  where
    fresh_run : (id : ℕ) → j.next_id < id → Dict.get j.runs id ≡ none
    fresh_run id h = elim (Option-cases (Dict.get j.runs id)) [
      | inl e ↦ e
      | inr (r, at) ↦ absurd (omega (arith, (n.runs_issued id r at).0))
    ]

    fresh_job : (id : ℕ) → j.next_id < id → Dict.get j.jobs id ≡ none
    fresh_job id h = elim (Option-cases (Dict.get j.jobs id)) [
      | inl e ↦ e
      | inr (r, at) ↦ absurd (omega (arith, (n.jobs_issued id r at).0))
    ]
