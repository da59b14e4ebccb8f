-- ===== src/Jobs/Submit/Answer.antt =====
-- What `submit` of jobs.py answers, and what it leaves of the other jobs.
use grag.Base.{
  ◌+◌, ◌<◌, String, length, some, true, false, ◌≡◌, ◌≢◌, refl, sym, ap, ◌∙◌, ◌⊎◌, inl, inr, arith,
  eq_iff,
}
use grag.Base.Dict.{lookup, insert, has, lookup-insert}
use grag.Base.Values.{Props}
use grag.Base.Result.{returned, raised, GragError}
use grag.Limits.{Encoding}
use grag.Jobs.{
  JobRecord, JobManager, pending, Pool, takes, refuses, is_active, new_job, enqueue, submit,
}
use grag.Jobs.Trim.{active_at, lookup-trim_loop_active}
use grag.Jobs.Invariant.{IsValid}
use grag.Jobs.Submit.{with_job-Owned, submit-cases, submit-Admits}

-- A closed manager, and one whose queue is full, raises an error for every submission and is left
-- as it is.
pub submit-refused :
    (encode : JobRecord → Encoding) (id kind : String) (params : Props) (now later : String)
    (pool : Pool) (m : JobManager)
    → (m.closed ≡ true) ⊎ (m.max_pending < length m.futures + 1)
    → (e : GragError) × (submit encode id kind params now later pool m ≡ (raised e, m))
submit-refused encode id kind params now later pool m h =
    elim (submit-cases encode id kind params now later pool m) [
      | inl r ↦ r
      | inr (t, c, room) ↦ absurd (ground (arith, c, room, h))
    ]

raised_ne : (e : GragError) (job : JobRecord) → raised e ≢ returned job
raised_ne e job h = cc

returned_inj : (a b : JobRecord) → returned a ≡ returned b → a ≡ b
returned_inj a b h = cc

enqueue-returned :
    (job : JobRecord) (now : String) (pool : Pool) (m : JobManager)
    → IsValid m
    → is_active job.status ≡ true
    → (answer : JobRecord) → (enqueue job now pool m).0 ≡ returned answer
    → (answer ≡ job)
      × (lookup job.id (enqueue job now pool m).1.jobs ≡ some answer)
      × (lookup job.id (enqueue job now pool m).1.futures ≡ some pending)
unfolding enqueue
enqueue-returned job now takes m v a answer e =
    let same : answer ≡ job = sym (returned_inj job answer e) in
    (
      same,
      ground (
        arith,
        lookup-trim_loop_active m.max_history (insert job.id job m.jobs) job.id
            ((with_job-Owned job m v).0),
        lookup-insert job.id job.id job m.jobs,
        eq_iff job.id job.id,
        a,
        same,
      ),
      ground (arith, lookup-insert job.id job.id pending m.futures, eq_iff job.id job.id),
    )
enqueue-returned job now (refuses text) m v a answer e = absurd (raised_ne _ answer e)

-- A submission to a valid manager, with an id that is not in use: where it returns a record, that
-- record is in the history as queued after the trimming, and its future waits; whatever it does, a
-- queued or running record of another job is kept as it was.
pub submit-admitted :
    (encode : JobRecord → Encoding) (id kind : String) (params : Props) (now later : String)
    (pool : Pool) (m : JobManager)
    → IsValid m
    → has id m.jobs ≡ false
    → let (answer, after) = submit encode id kind params now later pool m in
      ((job : JobRecord)
        → answer ≡ returned job
        → (job ≡ new_job id kind params now)
          × (lookup id after.jobs ≡ some job)
          × (lookup id after.futures ≡ some pending))
      × ((j : String) → active_at j m.jobs ≡ true → lookup j after.jobs ≡ lookup j m.jobs)
submit-admitted encode id kind params now later pool m v fresh = (
  λ job e. elim (submit-cases encode id kind params now later pool m) [
    | inl (x, r) ↦ absurd (raised_ne x job (sym (ap (λ p. p.0) r) ∙ e))
    | inr (r, c, room) ↦ rw r (
        enqueue-returned (new_job id kind params now) later pool m v refl job
          (sym (ap (λ p. p.0) r) ∙ e))
  ],
  λ j a.
      (submit-Admits encode id kind params now later pool m).same_records v j
        (ground (arith, eq_iff id j, a, fresh)) a,
)
