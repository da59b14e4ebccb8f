-- ===== src/Jobs.antt =====
-- src/grag/jobs.py: `JobManager`, which queues ingests for one worker thread. A method is a function
-- of the manager; clock readings and ids are arguments. The `Future` of a job is its state, and the
-- worker's moves and the callback of a future are functions of their own.
pub mod Text
pub mod Trim
pub mod Records
pub mod System
pub mod Invariant
pub mod Submit
pub mod Shutdown
pub mod Lifecycle
mod Tests
use grag.Base.{
  ℕ, zero, suc, ◌+◌, ◌-◌, ◌*◌, max, ltb, leb, String, ◌<>◌, List, [], ◌∷◌, length, take, Option,
  none, some, Bool, true, false, ◌||◌, if◌then◌else◌,
}
use grag.Base.Dict.{Dict, lookup, insert, erase, keys}
use grag.Base.Values.{Props}
use grag.Base.Result.{GragError, grag_error, shutting_down, Result, returned, raised}
use grag.Limits.{Encoding, json_bytes, check_size}
use grag.Jobs.Text.{bounded_error}
use mathlib.Core.List.{reverse}

pub data JobStatus : Type 0 where
  queued running done failed cancelled : JobStatus

-- `JobRecord` of core/types.py
pub record JobRecord : Type 0 where
  pub id : String
  pub kind : String
  pub status : JobStatus
  pub created_at : String
  pub started_at : Option String
  pub finished_at : Option String
  pub params : Props
  pub result : Option Props
  pub error : Option String

-- The state of a future that is not done: it waits for the worker, or the worker runs it.
pub data FutureState : Type 0 where
  pending started : FutureState

pub record JobManager : Type 0 where
  pub max_pending : ℕ
  pub max_history : ℕ
  pub jobs : Dict JobRecord
  pub closed : Bool
  pub futures : Dict FutureState

abbrev pub max_response_bytes : ℕ
max_response_bytes = 1024 * 1024

-- `status in ("queued", "running")`
abbrev pub is_active : JobStatus → Bool
is_active queued = true
is_active running = true
is_active _ = false

unfoldable pub init : ℕ → ℕ → JobManager
init max_history max_pending = record {
  max_pending = max 1 max_pending;
  max_history = max 1 max_history;
  jobs = [];
  closed = false;
  futures = [];
}

-- The loop of `_trim` over the copy of the items that it takes first.
unfoldable pub trim_loop : ℕ → Dict JobRecord → Dict JobRecord → Dict JobRecord
trim_loop limit [] jobs = jobs
trim_loop limit ((key, job) ∷ items) jobs =
    let next = trim_loop limit items (if is_active job.status then jobs else erase key jobs) in
    if leb (length jobs) limit then jobs else next

abbrev pub trim : JobManager → JobManager
trim m = record m { jobs = trim_loop m.max_history m.jobs m.jobs }

-- `_update`, by the change that the fields make to the record
unfoldable pub update_record : String → (JobRecord → JobRecord) → Dict JobRecord → Dict JobRecord
update_record id change jobs = elim (lookup id jobs) [
  | none ↦ jobs
  | some job ↦ insert id (change job) jobs
]

abbrev pub update_job : String → (JobRecord → JobRecord) → JobManager → JobManager
update_job id change m = record m { jobs = update_record id change m.jobs }

-- `status=…, finished_at=…, error=…`
abbrev pub end_with : JobStatus → String → String → JobRecord → JobRecord
end_with status now error job = record job {
  status = status;
  finished_at = some now;
  error = some (bounded_error error);
}

abbrev pub new_job : String → String → Props → String → JobRecord
new_job id kind params now = record {
  id = id;
  kind = kind;
  status = queued;
  created_at = now;
  started_at = none;
  finished_at = none;
  params = params;
  result = none;
  error = none;
}

-- What the pool says: it takes the work, or raises a RuntimeError with this text.
pub data Pool : Type 0 where
  takes : Pool
  refuses : String → Pool

-- The part of `submit` under the lock, after its two tests.
unfoldable pub enqueue : JobRecord → String → Pool → JobManager → Result JobRecord × JobManager
enqueue job now takes m =
    let m' = trim (record m { jobs = insert job.id job m.jobs }) in
    (returned job, record m' { futures = insert job.id pending m'.futures })
enqueue job now (refuses text) m =
    let m' = trim (record m { jobs = insert job.id job m.jobs }) in
    (raised grag_error, update_job job.id (end_with failed now text) m')

unfoldable pub admit : JobRecord → String → Pool → JobManager → Result JobRecord × JobManager
admit job now pool m =
    if m.closed
    then (raised shutting_down, m)
    else elim (check_size "pending_jobs" (length m.futures + 1) m.max_pending) [
      | raised e ↦ (raised e, m)
      | returned _ ↦ enqueue job now pool m
    ]

-- `submit`. `encode` is the JSON of a record; `later` is the clock at a failure.
unfoldable pub submit :
    (JobRecord → Encoding)
    → String
    → String
    → Props
    → String
    → String
    → Pool
    → JobManager
    → Result JobRecord × JobManager
submit encode id kind params now later pool m =
    let job = new_job id kind params now in
    elim (json_bytes (encode job) (max_response_bytes - 32_768) "job_record_bytes") [
      | raised e ↦ (raised e, m)
      | returned _ ↦ admit job later pool m
    ]

-- How a future is done, where its callable has run: it returned, or an exception left it.
pub data Ending : Type 0 where
  ran : Ending
  was_cancelled : Ending
  threw : String → Ending

-- What the three cases of `_finished` do to the record.
unfoldable pub settle : String → Ending → String → Dict JobRecord → Dict JobRecord
settle id ran now jobs = jobs
settle id was_cancelled now jobs =
    update_record id (end_with cancelled now "Cancelled before execution during server shutdown.")
      jobs
settle id (threw text) now jobs = update_record id (end_with failed now text) jobs

-- `_finished`
abbrev pub finished : String → Ending → String → JobManager → JobManager
finished id ending now m =
    trim (record m { jobs = settle id ending now m.jobs; futures = erase id m.futures })

-- The worker takes a future that waits.
abbrev pub take_future : String → JobManager → JobManager
take_future id m = record m { futures = insert id started m.futures }

-- The first line of `_run`.
abbrev pub run_begin : String → String → JobManager → JobManager
run_begin id now = update_job id (λ job. record job { status = running; started_at = some now })

-- What `fn()` does, in the order of the handlers of `_run`. A GragError is given by its message
-- with its hint, an exception by the name of its type and its text.
pub data Outcome : Type 0 where
  gives : Props → Outcome
  shut_down fails crashes : String → Outcome

-- The message and the hint of the error that `json_bytes` raises for a result that is too large.
abbrev pub result_too_large : String
result_too_large =
    "Resource limit reached: job_result_bytes (maximum 1048448). (Narrow the labels, node IDs or query projection, reduce the batch, or page the requested text.)"

abbrev pub complete : Props → String → JobRecord → JobRecord
complete result now job = record job { status = done; finished_at = some now; result = some result }

-- The result of a job, where the record is there. The record that is measured has the clock of the
-- measuring; the one that is kept has a later one.
unfoldable pub run_result :
    (JobRecord → Encoding) → String → Props → String → String → Dict JobRecord → Dict JobRecord
run_result encode id result now later jobs = elim (lookup id jobs) [
  | none ↦ update_record id (end_with failed later "KeyError") jobs
  | some job ↦
      elim (json_bytes (encode (complete result now job)) (max_response_bytes - 128)
        "job_result_bytes") [
          | raised _ ↦ update_record id (end_with failed later result_too_large) jobs
          | returned _ ↦ update_record id (complete result later) jobs
        ]
]

-- What the rest of `_run` does to the records, once `fn()` is done. No other change to this job's
-- record can fall between.
unfoldable pub end_run :
    (JobRecord → Encoding) → String → Outcome → String → String → Dict JobRecord → Dict JobRecord
end_run encode id (gives result) now later jobs = run_result encode id result now later jobs
end_run encode id (shut_down text) now later jobs =
    update_record id (end_with cancelled later text) jobs
end_run encode id (fails text) now later jobs = update_record id (end_with failed later text) jobs
end_run encode id (crashes text) now later jobs = update_record id (end_with failed later text) jobs

abbrev pub run_end :
    (JobRecord → Encoding) → String → Outcome → String → String → JobManager → JobManager
run_end encode id outcome now later m = record m {
  jobs = end_run encode id outcome now later m.jobs;
}

-- `future.cancel()`: a waiting future is cancelled, and its callback is called at once.
unfoldable pub cancel : String → String → JobManager → JobManager
cancel now id m = elim (lookup id m.futures) [
  | none ↦ m
  | some f ↦ elim f [ pending ↦ finished id was_cancelled now m | started ↦ m ]
]

unfoldable pub cancel_all : String → List String → JobManager → JobManager
cancel_all now [] m = m
cancel_all now (id ∷ ids) m = cancel_all now ids (cancel now id m)

unfoldable pub shutdown : String → JobManager → JobManager
shutdown now m = cancel_all now (keys m.futures) (record m { closed = true })

-- `get`
unfoldable pub get_job : String → JobManager → Option JobRecord
get_job id m = lookup id m.jobs

unfoldable pub values : Dict JobRecord → List JobRecord
values [] = []
values ((key, job) ∷ jobs) = job ∷ values jobs

-- `list`: the newest first
unfoldable pub list_jobs : ℕ → JobManager → List JobRecord
list_jobs limit m = take (max 1 limit) (reverse (values m.jobs))
