-- ===== src/Jobs/System.antt =====
-- The threads of jobs.py: callers of `submit` and `shutdown`, and the pool's one worker, which takes
-- a waiting future, runs `_run` and then calls `_finished`. Each step is one hold of the lock.
use grag.Base.{ℕ, String, Option, none, some, false, ◌≡◌}
use grag.Base.Dict.{lookup, has}
use grag.Base.Values.{Props}
use grag.Limits.{Encoding}
use grag.Jobs.{
  JobRecord, JobManager, pending, Pool, Outcome, Ending, ran, threw, init, submit, take_future,
  run_begin, run_end, finished, shutdown,
}

-- Where the worker stands.
pub data Worker : Type 0 where
  idle : Worker
  takes_up : String → Worker
  calls : String → Worker
  leaves : String → Ending → Worker

-- The job that the worker holds.
abbrev pub held_job : Worker → Option String
held_job idle = none
held_job (takes_up id) = some id
held_job (calls id) = some id
held_job (leaves id ending) = some id

abbrev pub System : Type 0
System = JobManager × Worker

-- A new id, of 8 random bytes, is no id in use. `encode` gives the JSON of a record.
pub data Step (encode : JobRecord → Encoding) : System → System → Type 0 where
  submits :
      {m : JobManager} {w : Worker} (id kind : String) (params : Props) (now later : String)
      (pool : Pool)
      → has id m.jobs ≡ false
      → has id m.futures ≡ false
      → Step encode (m, w) ((submit encode id kind params now later pool m).1, w)
  takes_next :
      {m : JobManager} (id : String)
      → lookup id m.futures ≡ some pending
      → Step encode (m, idle) (take_future id m, takes_up id)
  begins :
      {m : JobManager} (id now : String)
      → Step encode (m, takes_up id) (run_begin id now m, calls id)
  ends :
      {m : JobManager} (id : String) (outcome : Outcome) (now later : String)
      → Step encode (m, calls id) (run_end encode id outcome now later m, leaves id ran)
  -- an exception that `_run` does not handle
  breaks :
      {m : JobManager} (id text : String) → Step encode (m, calls id) (m, leaves id (threw text))
  calls_back :
      {m : JobManager} (id : String) (ending : Ending) (now : String)
      → Step encode (m, leaves id ending) (finished id ending now m, idle)
  shuts_down : {m : JobManager} {w : Worker} (now : String) → Step encode (m, w) (shutdown now m, w)

pub data Reach (encode : JobRecord → Encoding) (max_history max_pending : ℕ) : System → Type 0 where
  start : Reach encode max_history max_pending (init max_history max_pending, idle)
  then_step :
      {s t : System}
      → Reach encode max_history max_pending s
      → Step encode s t
      → Reach encode max_history max_pending t
