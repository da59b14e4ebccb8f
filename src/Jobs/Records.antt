-- ===== src/Jobs/Records.antt =====
-- How `_update`, `_run` and `_finished` of jobs.py change the records.
use mathlib.Core.Option
use text.Mathlib.Text.{◌==◌}
use grag.Base.{
  ◌-◌, String, length, true, false, if◌then◌else◌, ◌≡◌, refl, Option-cases, inl, inr, arith, eq_iff,
}
use grag.Base.Dict.{Dict, lookup, has, lookup-insert}
use grag.Base.Dict.Unique.{length-insert-has}
use grag.Base.Result.{Result-cases}
use grag.Base.Values.{Props}
use grag.Limits.{Encoding, json_bytes}
use grag.Jobs.{
  JobRecord, FutureState, failed, cancelled, Outcome, gives, shut_down, fails, crashes, Ending, ran,
  was_cancelled, threw, is_active, update_record, complete, end_with, end_run, run_result, settle,
  max_response_bytes, result_too_large,
}
use grag.Jobs.Trim.{active_at, Owned, insert-Owned}

pub length-update_record :
    (id : String) (change : JobRecord → JobRecord) (jobs : Dict JobRecord)
    → length (update_record id change jobs) ≡ length jobs
unfolding update_record
length-update_record id change jobs = elim (Option-cases (lookup id jobs)) [
  | inl e ↦ rw (e, update_record) refl
  | inr (job, e) ↦
      rw (e, update_record) (length-insert-has id (change job) jobs (ground (arith, e)))
]

pub lookup-update_record :
    (id : String) (change : JobRecord → JobRecord) (jobs : Dict JobRecord) (j : String)
    → lookup j (update_record id change jobs)
      ≡ (if id == j then Option.map change (lookup j jobs) else lookup j jobs)
unfolding update_record
lookup-update_record id change jobs j = elim (Option-cases (lookup id jobs)) [
  | inl e ↦ rw (e, update_record) (ground (arith, eq_iff id j, e))
  | inr (job, e) ↦
      rw (e, update_record) (ground (arith, eq_iff id j, e, lookup-insert id j (change job) jobs))
]

pub update_record-Owned :
    (futures : Dict FutureState) (id : String) (change : JobRecord → JobRecord)
    (jobs : Dict JobRecord)
    → Owned futures jobs
    → ((job : JobRecord) → is_active (change job).status ≡ true → has id futures ≡ true)
    → Owned futures (update_record id change jobs)
unfolding update_record
update_record-Owned futures id change jobs o h = elim (Option-cases (lookup id jobs)) [
  | inl e ↦ rw (e, update_record) o
  | inr (job, e) ↦ rw (e, update_record) (insert-Owned futures jobs id (change job) o (h job))
]

-- A change that ends a job: its record is no longer active, the others are as they were.
pub record Settles (id : String) (before after : Dict JobRecord) : Type 0 where
  pub same_length : length after ≡ length before
  pub owned : (futures : Dict FutureState) → Owned futures before → Owned futures after
  pub ended : active_at id after ≡ false
  pub others : (j : String) → id == j ≡ false → lookup j after ≡ lookup j before

active_at-update_record :
    (id : String) (change : JobRecord → JobRecord) (jobs : Dict JobRecord)
    → ((job : JobRecord) → is_active (change job).status ≡ false)
    → active_at id (update_record id change jobs) ≡ false
unfolding update_record
active_at-update_record id change jobs h = elim (Option-cases (lookup id jobs)) [
  | inl e ↦ rw (e, update_record) (ground (arith, e))
  | inr (job, e) ↦
      rw (e, update_record)
        (ground (arith, eq_iff id id, e, lookup-insert id id (change job) jobs, h job))
]

pub update_record-Settles :
    (id : String) (change : JobRecord → JobRecord) (jobs : Dict JobRecord)
    → ((job : JobRecord) → is_active (change job).status ≡ false)
    → Settles id jobs (update_record id change jobs)
update_record-Settles id change jobs h = record {
  same_length = length-update_record id change jobs;
  owned =
      λ futures o. update_record-Owned futures id change jobs o (λ job t. ground (arith, h job, t));
  ended = active_at-update_record id change jobs h;
  others = λ j t. ground (arith, lookup-update_record id change jobs j, t);
}

run_result-Settles :
    (encode : JobRecord → Encoding) (id : String) (result : Props) (now later : String)
    (jobs : Dict JobRecord)
    → Settles id jobs (run_result encode id result now later jobs)
unfolding run_result
run_result-Settles encode id result now later jobs = elim (Option-cases (lookup id jobs)) [
  | inl e ↦
      rw (e, run_result)
        (update_record-Settles id (end_with failed later "KeyError") jobs (λ _. refl))
  | inr (job, e) ↦
      elim (Result-cases (
        json_bytes (encode (complete result now job)) (max_response_bytes - 128)
          "job_result_bytes")) [
            | inl (x, r) ↦
                rw (e, run_result, r)
                  (update_record-Settles id (complete result later) jobs (λ _. refl))
            | inr (x, r) ↦
                rw (e, run_result, r)
                  (update_record-Settles id (end_with failed later result_too_large) jobs
                    (λ _. refl))
          ]
]

pub end_run-Settles :
    (encode : JobRecord → Encoding) (id : String) (outcome : Outcome) (now later : String)
    (jobs : Dict JobRecord)
    → Settles id jobs (end_run encode id outcome now later jobs)
unfolding end_run
end_run-Settles encode id (gives result) now later jobs =
    run_result-Settles encode id result now later jobs
end_run-Settles encode id (shut_down text) now later jobs =
    update_record-Settles id (end_with cancelled later text) jobs (λ _. refl)
end_run-Settles encode id (fails text) now later jobs =
    update_record-Settles id (end_with failed later text) jobs (λ _. refl)
end_run-Settles encode id (crashes text) now later jobs =
    update_record-Settles id (end_with failed later text) jobs (λ _. refl)

pub settle-Settles :
    (id : String) (ending : Ending) (now : String) (jobs : Dict JobRecord)
    → (ending ≡ ran → active_at id jobs ≡ false)
    → Settles id jobs (settle id ending now jobs)
unfolding settle
settle-Settles id ran now jobs h = record {
  same_length = refl;
  owned = λ futures o. o;
  ended = h refl;
  others = λ j t. refl;
}
settle-Settles id was_cancelled now jobs h =
    update_record-Settles id
      (end_with cancelled now "Cancelled before execution during server shutdown.") jobs (λ _. refl)
settle-Settles id (threw text) now jobs h =
    update_record-Settles id (end_with failed now text) jobs (λ _. refl)
