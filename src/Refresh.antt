-- ===== src/Refresh.antt =====
-- src/grag/refresh.py: the verification of the code index, shared by the readers. A function here is
-- the code of one region that holds the condition lock; Refresh/Cycle has the job's own code. Times
-- are milliseconds, and the clock is read once for each region.
pub mod Cycle
pub mod Read
pub mod Backoff
mod Roots
mod Parts
mod Check
mod Job
mod Verified
pub mod Fresh
pub mod Waiting
mod Tests
use grag.Base.{
  ℕ, ◌+◌, ◌-◌, ◌*◌, ◌^◌, min, max, ltb, String, str_eq, List, [], ◌∷◌, Option, none, some, Bool,
  true, false, ◌&&◌, ◌||◌, not, if◌then◌else◌,
}
use grag.Base.Dict.{Dict}

-- `bool(text)` of a `str | None`
abbrev pub is_set : Option String → Bool
is_set none = false
is_set (some s) = not (str_eq s "")

-- `a == b` of two of them
abbrev pub same : Option String → Option String → Bool
same none none = true
same (some a) (some b) = str_eq a b
same _ _ = false

pub record RootState : Type 0 where
  pub options : Option String
  pub observed : Option String
  pub pending : Option String
  pub successful : Option String
  pub checked_at : Option String
  pub error : Option String
  pub unknown : Bool
  pub failures : ℕ
  pub retry_at : ℕ

abbrev pub new_root : RootState
new_root = record {
  options = none;
  observed = none;
  pending = none;
  successful = none;
  checked_at = none;
  error = none;
  unknown = false;
  failures = 0;
  retry_at = 0;
}

-- `cycle` is the argument of the job's function while the job has not ended.
pub record Refresher : Type 0 where
  pub interval : ℕ
  pub retry_base : ℕ
  pub retry_max : ℕ
  pub roots : Dict RootState
  pub checking : Bool
  pub running_root : Option String
  pub closed : Bool
  pub next_check : ℕ
  pub checked_at : Option String
  pub scan_error : Option String
  pub scan_failures : ℕ
  pub serial : ℕ
  pub completed : ℕ
  pub job_id : Option String
  pub rescan : Bool
  pub refreshes : ℕ
  pub cycle : Option ℕ

-- `__init__`; 0.01 seconds are the least base.
abbrev pub new_refresher : ℕ → ℕ → ℕ → Refresher
new_refresher interval retry_base retry_max = record {
  interval = interval;
  retry_base = max 10 retry_base;
  retry_max = max (max 10 retry_base) retry_max;
  roots = [];
  checking = false;
  running_root = none;
  closed = false;
  next_check = 0;
  checked_at = none;
  scan_error = none;
  scan_failures = 0;
  serial = 0;
  completed = 0;
  job_id = none;
  rescan = false;
  refreshes = 0;
  cycle = none;
}

-- What a call gives, or the exception that it raises, with its text.
pub data Problem : Type 0 where
  shut_down : Problem
  message : String → Problem

pub data Try {ℓ} (A : Type ℓ) : Type ℓ where
  value : A → Try A
  throws : Problem → Try A

abbrev pub text_of : Problem → String
text_of shut_down =
    "The server is shutting down; new work is not accepted.\nHINT: Wait for shutdown to finish, then reconnect to the restarted server."
text_of (message text) = text

abbrev pub close : Refresher → Refresher
close r = record r { closed = true }

abbrev pub invalidate : Refresher → Refresher
invalidate r = record r { next_check = 0; rescan = true }

-- `any(p(r) for r in self._roots.values())`
unfoldable pub any_root : (RootState → Bool) → Dict RootState → Bool
any_root p [] = false
any_root p ((path, s) ∷ roots) = p s || any_root p roots

abbrev pub has_failed : RootState → Bool
has_failed s = is_set s.error && not s.unknown

pub data FreshnessState : Type 0 where
  fresh checking refreshing stale error unknown disabled : FreshnessState

pub record FreshnessReport : Type 0 where
  pub status : FreshnessState
  pub checked_at : Option String
  pub timed_out : Bool

-- The state in `_report`
unfoldable pub state_of : Refresher → FreshnessState
state_of r =
    if r.closed
    then disabled
    else if is_running r.running_root
    then refreshing
    else if is_set r.scan_error || any_root has_failed r.roots
    then error
    else if any_root (λ s. s.unknown) r.roots
    then unknown
    else if any_root (λ s. is_set s.pending) r.roots
    then stale
    else if r.checking
    then FreshnessState.checking
    else if r.rescan
    then stale
    else elim r.checked_at [ none ↦ unknown | some _ ↦ fresh ]
  where
    is_running : Option String → Bool
    is_running none = false
    is_running (some _) = true

abbrev pub report : Bool → Refresher → FreshnessReport
report timed_out r = record {
  status = state_of r;
  checked_at = r.checked_at;
  timed_out = timed_out;
}

-- The roots that `_next_due` takes
unfoldable pub earliest : ℕ → Dict RootState → ℕ
earliest due [] = due
earliest due ((path, s) ∷ roots) =
    let rest = earliest due roots in
    if is_set s.pending || has_failed s then min s.retry_at rest else rest

abbrev pub next_due : Refresher → ℕ
next_due r = if is_set r.scan_error then r.next_check else earliest r.next_check r.roots

unfoldable pub backoff : Refresher → ℕ → ℕ
backoff r failures = min r.retry_max (r.retry_base * 2 ^ min (failures - 1) 20)

-- The three assignments of the handlers of `_schedule` and `_cycle`
abbrev pub scan_failed : ℕ → String → Refresher → Refresher
scan_failed now text r = record r {
  scan_error = some text;
  scan_failures = r.scan_failures + 1;
  next_check = now + backoff r (r.scan_failures + 1);
}

-- `_schedule`, with what `jobs.submit` gives: the id of the job.
unfoldable pub schedule : Bool → ℕ → Try String → Refresher → ℕ × Refresher
schedule force now submitted r =
    if r.checking || r.closed
    then (r.serial, r)
    else if is_set r.scan_error && ltb now (next_due r)
    then (r.serial, r)
    else if not force && ltb now (next_due r)
    then (r.serial, r)
    else (
      r.serial + 1,
      elim submitted [
        | value id ↦ record r {
          checking = true;
          serial = r.serial + 1;
          job_id = some id;
          cycle = some (r.serial + 1);
        }
        | throws p ↦ scan_failed now (text_of p) (record r { serial = r.serial + 1 })
      ],
    )

-- What other threads do while the job does not hold the lock.
pub data Other : Type 0 where
  closes invalidates : Other
  asks : Bool → ℕ → Try String → Other

abbrev pub act : Refresher → Other → Refresher
act r closes = close r
act r invalidates = invalidate r
act r (asks force now submitted) = (schedule force now submitted r).1
