-- ===== src/Jobs/Tests.antt =====
-- A manager with two jobs, through the steps of its threads.
use grag.Base.{◌+◌, ◌<◌, String, length, [], ◌∷◌, none, some, true, false, ◌≡◌, refl, inr, arith}
use grag.Base.Dict.{lookup, insert, erase, has}
use grag.Base.Result.{GragError, returned, raised}
use grag.Limits.{Encoding, part, json_bytes, count_bytes, check_size}
use grag.Jobs.{
  JobRecord, JobManager, pending, gives, ran, takes, init, submit, admit, enqueue, new_job,
  trim_loop, update_record, take_future, run_begin, run_end, end_run, run_result, settle, finished,
  shutdown,
}
use grag.Jobs.Trim.{active_at}
use grag.Jobs.Invariant.{IsValid}
use grag.Jobs.System.{
  idle, calls, Reach, start, then_step, submits, takes_next, begins, ends, calls_back,
}
use grag.Jobs.Submit.Answer.{submit-refused, submit-admitted}
use grag.Jobs.Lifecycle.{IsCoupled, Reach-IsCoupled, shutdown-drains}

abbrev encode : JobRecord → Encoding
encode job = part 300 Encoding.done

abbrev open_manager : JobManager
open_manager = init 1 2

abbrev with_a : JobManager
with_a = (submit encode "a" "ingest" [] "09:00" "09:00" takes open_manager).1

abbrev with_both : JobManager
with_both = (submit encode "b" "ingest" [] "09:01" "09:01" takes with_a).1

abbrev running_a : JobManager
running_a = run_begin "a" "09:02" (take_future "a" with_both)

abbrev ended_a : JobManager
ended_a = run_end encode "a" (gives []) "09:03" "09:04" running_a

abbrev after_a : JobManager
after_a = finished "a" ran "09:05" ended_a

with_both_reached : Reach encode 1 2 (with_both, idle)
unfolding init submit admit enqueue json_bytes count_bytes check_size trim_loop lookup insert
with_both_reached =
    then_step (then_step start (submits "a" "ingest" [] "09:00" "09:00" takes refl refl))
      (submits "b" "ingest" [] "09:01" "09:01" takes refl refl)

running_a_reached : Reach encode 1 2 (running_a, calls "a")
unfolding init submit admit enqueue json_bytes count_bytes check_size trim_loop lookup insert
running_a_reached =
    then_step (then_step with_both_reached (takes_next "a" refl)) (begins "a" "09:02")

after_a_reached : Reach encode 1 2 (after_a, idle)
after_a_reached =
    then_step (then_step running_a_reached (ends "a" (gives []) "09:03" "09:04"))
      (calls_back "a" ran "09:05")

Reach-IsCoupled_example : IsCoupled (after_a, idle)
Reach-IsCoupled_example = Reach-IsCoupled encode 1 2 (after_a, idle) after_a_reached

shutdown-drains_example :
    (lookup "b" (shutdown "09:06" after_a).futures ≡ none)
    × (active_at "b" (shutdown "09:06" after_a).jobs ≡ false)
shutdown-drains_example = shutdown-drains encode 1 2 after_a "09:06" after_a_reached "b"

-- The history of one record keeps only the job that still waits.
after_a_jobs : after_a.jobs ≡ ("b", new_job "b" "ingest" [] "09:01") ∷ []
unfolding init submit admit enqueue json_bytes count_bytes check_size trim_loop lookup insert erase
    update_record end_run run_result settle
after_a_jobs = refl

with_a_reached : Reach encode 1 2 (with_a, idle)
unfolding init lookup
with_a_reached = then_step start (submits "a" "ingest" [] "09:00" "09:00" takes refl refl)

with_a-IsValid : IsValid with_a
with_a-IsValid = (Reach-IsCoupled encode 1 2 (with_a, idle) with_a_reached).valid

abbrev job_b : JobRecord
job_b = new_job "b" "ingest" [] "09:01"

no_b : has "b" with_a.jobs ≡ false
unfolding init submit admit enqueue json_bytes count_bytes check_size trim_loop lookup insert
no_b = refl

b_returned : (submit encode "b" "ingest" [] "09:01" "09:01" takes with_a).0 ≡ returned job_b
unfolding init submit admit enqueue json_bytes count_bytes check_size trim_loop lookup insert
b_returned = refl

submit-admitted_example :
    ((job : JobRecord)
      → returned job_b ≡ returned job
      → (job ≡ job_b)
        × (lookup "b" with_both.jobs ≡ some job)
        × (lookup "b" with_both.futures ≡ some pending))
    × ((j : String)
        → active_at j with_a.jobs ≡ true
        → lookup j with_both.jobs ≡ lookup j with_a.jobs)
unfolding init submit admit enqueue json_bytes count_bytes check_size trim_loop lookup insert
submit-admitted_example =
    submit-admitted encode "b" "ingest" [] "09:01" "09:01" takes with_a with_a-IsValid no_b

both_full : with_both.max_pending < length with_both.futures + 1
unfolding init submit admit enqueue json_bytes count_bytes check_size trim_loop lookup insert
both_full = omega arith

submit-refused_example :
    (e : GragError) × (submit encode "c" "ingest" [] "09:02" "09:02" takes with_both
      ≡ (raised e, with_both))
submit-refused_example =
    submit-refused encode "c" "ingest" [] "09:02" "09:02" takes with_both (inr both_full)
