-- ===== src/Jobs/Submit.antt =====
-- `JobManager.submit` of jobs.py, refused or admitted.
pub mod Answer
use text.Mathlib.Text.{◌==◌}
use grag.Base.{
  max, ◌+◌, ◌-◌, ◌≤◌, ◌<◌, ltb, String, length, some, true, false, ◌≡◌, ◌≢◌, refl, sym, ap, ◌∙◌,
  ◌⊎◌, Bool-cases, inl, inr, arith, eq_iff,
}
use grag.Base.Dict.{Dict, lookup, insert, has, lookup-insert, length-insert-le}
use grag.Base.Values.{Props}
use grag.Base.Result.{returned, raised, Result-cases, GragError, shutting_down, resource_limit}
use grag.Limits.{Encoding, json_bytes, check_size}
use grag.Jobs.{
  JobRecord, JobManager, failed, pending, started, Pool, takes, refuses, is_active, trim_loop,
  update_record, end_with, new_job, enqueue, admit, submit, max_response_bytes,
}
use grag.Jobs.Trim.{
  active_at, Owned, trim_loop-Owned, length-trim_loop, lookup-trim_loop_active,
  lookup-trim_loop_sub, insert-Owned,
}
use grag.Jobs.Records.{Settles, update_record-Settles}
use grag.Jobs.Invariant.{IsValid}

admit-cases :
    (job : JobRecord) (now : String) (pool : Pool) (m : JobManager)
    → ((e : GragError) × (admit job now pool m ≡ (raised e, m)))
      ⊎ ((admit job now pool m ≡ enqueue job now pool m)
          × (m.closed ≡ false)
          × (length m.futures + 1 ≤ m.max_pending))
unfolding admit check_size
admit-cases job now pool m = elim (Bool-cases m.closed) [
  | inl c ↦ inl (shutting_down, simp (admit, c))
  | inr c ↦ elim (Bool-cases (ltb m.max_pending (length m.futures + 1))) [
    | inl t ↦ inl (resource_limit "pending_jobs" m.max_pending, simp (admit, c, check_size, t))
    | inr t ↦ inr (simp (admit, c, check_size, t), c, ground (arith, t))
  ]
]

-- A submission raises and changes nothing, or the manager is open, has room for one more job, and
-- the rest of `submit` runs.
pub submit-cases :
    (encode : JobRecord → Encoding) (id kind : String) (params : Props) (now later : String)
    (pool : Pool) (m : JobManager)
    → ((e : GragError) × (submit encode id kind params now later pool m ≡ (raised e, m)))
      ⊎ ((submit encode id kind params now later pool m
            ≡ enqueue (new_job id kind params now) later pool m)
          × (m.closed ≡ false)
          × (length m.futures + 1 ≤ m.max_pending))
unfolding submit
submit-cases encode id kind params now later pool m =
    elim (Result-cases (
      json_bytes (encode (new_job id kind params now)) (max_response_bytes - 32_768)
        "job_record_bytes")) [
          | inr (e, j) ↦ inl (e, rw (submit, j) refl)
          | inl (x, j) ↦ rw (submit, j) (admit-cases (new_job id kind params now) later pool m)
        ]

-- What a submission does to the records and the futures that are there.
pub record Admits (id : String) (before after : JobManager) : Type 0 where
  pub valid : IsValid before → IsValid after
  pub same_futures :
      (j : String) → id == j ≡ false → lookup j after.futures ≡ lookup j before.futures
  pub new_future : lookup id after.futures ≡ some started → lookup id before.futures ≡ some started
  pub same_records :
      IsValid before
      → (j : String) → id == j ≡ false
      → active_at j before.jobs ≡ true
      → lookup j after.jobs ≡ lookup j before.jobs
  pub quiet :
      (j : String)
      → id == j ≡ false
      → active_at j before.jobs ≡ false
      → active_at j after.jobs ≡ false

-- The records once the new one is there and `_trim` is done.
abbrev with_job : JobRecord → JobManager → Dict JobRecord
with_job job m = trim_loop m.max_history (insert job.id job m.jobs) (insert job.id job m.jobs)

with_job-Owned :
    (job : JobRecord) (m : JobManager)
    → IsValid m
    → Owned (insert job.id pending m.futures) (insert job.id job m.jobs)
with_job-Owned job m v =
    insert-Owned (insert job.id pending m.futures) m.jobs job.id job
      (
        (v.owned).0,
        λ j t. ground (arith, (v.owned).1 j t, lookup-insert job.id j pending m.futures),
      )
      (λ _. ground (arith, lookup-insert job.id job.id pending m.futures, eq_iff job.id job.id))

length-with_job :
    (job : JobRecord) (m : JobManager)
    → IsValid m
    → length m.futures + 1 ≤ m.max_pending
    → length (with_job job m) ≤ max m.max_history m.max_pending
length-with_job job m v room = omega (
  arith,
  length-trim_loop m.max_history (insert job.id pending m.futures) (insert job.id job m.jobs)
      (with_job-Owned job m v),
  length-insert-le job.id pending m.futures,
  room,
)

lookup-with_job :
    (job : JobRecord) (m : JobManager) (j : String)
    → IsValid m
    → job.id == j ≡ false
    → active_at j m.jobs ≡ true
    → lookup j (with_job job m) ≡ lookup j m.jobs
lookup-with_job job m j v n a = ground (
  arith,
  lookup-trim_loop_active m.max_history (insert job.id job m.jobs) j ((with_job-Owned job m v).0),
  lookup-insert job.id j job m.jobs,
  n,
  a,
)

active_at-with_job :
    (job : JobRecord) (m : JobManager) (j : String)
    → job.id == j ≡ false
    → active_at j m.jobs ≡ false
    → active_at j (with_job job m) ≡ false
active_at-with_job job m j n a = ground (
  arith,
  lookup-trim_loop_sub m.max_history (insert job.id job m.jobs) (insert job.id job m.jobs) j,
  lookup-insert job.id j job m.jobs,
  n,
  a,
)

enqueue-takes-Admits :
    (job : JobRecord) (now : String) (m : JobManager)
    → length m.futures + 1 ≤ m.max_pending
    → Admits job.id m (enqueue job now takes m).1
unfolding enqueue
enqueue-takes-Admits job now m room = record {
  valid = λ v. record {
    owned =
        trim_loop-Owned m.max_history (insert job.id pending m.futures) (insert job.id job m.jobs)
          (with_job-Owned job m v);
    pending_bound = omega (arith, length-insert-le job.id pending m.futures, room);
    history_bound = length-with_job job m v room;
  };
  same_futures = λ j n. ground (arith, lookup-insert job.id j pending m.futures, n);
  new_future =
      λ t. ground (arith, lookup-insert job.id job.id pending m.futures, eq_iff job.id job.id, t);
  same_records = λ v j n a. lookup-with_job job m j v n a;
  quiet = λ j n a. active_at-with_job job m j n a;
}

enqueue-refuses-Admits :
    (job : JobRecord) (now text : String) (m : JobManager)
    → length m.futures + 1 ≤ m.max_pending
    → Admits job.id m (enqueue job now (refuses text) m).1
unfolding enqueue
enqueue-refuses-Admits job now text m room =
    let jobs = with_job job m in
    let s : Settles job.id jobs (update_record job.id (end_with failed now text) jobs) =
      update_record-Settles job.id (end_with failed now text) jobs (λ _. refl) in
    record {
      valid = λ v.
          let o = s.owned (insert job.id pending m.futures) (
            trim_loop-Owned m.max_history (insert job.id pending m.futures)
              (insert job.id job m.jobs) (with_job-Owned job m v)) in
          record {
            owned = (
              o.0,
              λ j t. ground (
                arith,
                o.1 j t,
                s.ended,
                t,
                lookup-insert job.id j pending m.futures,
                eq_iff job.id j,
              ),
            );
            pending_bound = v.pending_bound;
            history_bound = omega (arith, s.same_length, length-with_job job m v room);
          };
      same_futures = λ j n. refl;
      new_future = λ t. t;
      same_records = λ v j n a. s.others j n ∙ lookup-with_job job m j v n a;
      quiet = λ j n a. ground (arith, s.others j n, active_at-with_job job m j n a);
    }

pub submit-Admits :
    (encode : JobRecord → Encoding) (id kind : String) (params : Props) (now later : String)
    (pool : Pool) (m : JobManager)
    → Admits id m (submit encode id kind params now later pool m).1
submit-Admits encode id kind params now later pool m =
    elim (submit-cases encode id kind params now later pool m) [
      | inl (e, h) ↦ rw h (unchanged-Admits id m)
      | inr (h, c, room) ↦ rw h (enqueue-Admits (new_job id kind params now) later pool m room)
    ]
  where
    unchanged-Admits : (id : String) (m : JobManager) → Admits id m m
    unchanged-Admits id m = record {
      valid = λ v. v;
      same_futures = λ j n. refl;
      new_future = λ t. t;
      same_records = λ v j n a. refl;
      quiet = λ j n a. a;
    }

    enqueue-Admits :
        (job : JobRecord) (now : String) (pool : Pool) (m : JobManager)
        → length m.futures + 1 ≤ m.max_pending
        → Admits job.id m (enqueue job now pool m).1
    enqueue-Admits job now takes m room = enqueue-takes-Admits job now m room
    enqueue-Admits job now (refuses text) m room = enqueue-refuses-Admits job now text m room
