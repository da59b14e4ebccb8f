-- ===== src/Jobs/Invariant.antt =====
-- What every step of the threads of jobs.py keeps.
use grag.Base.{
  max, ◌≤◌, String, List, [], ◌∷◌, length, some, true, false, ◌≡◌, ◌≢◌, Option-cases, inl, inr,
  arith, eq_iff,
}
use grag.Base.Dict.{Dict, lookup, erase, keys, lookup-insert, lookup-erase, length-erase-le}
use grag.Base.Dict.Unique.{length-insert-has}
use grag.Limits.{Encoding}
use grag.Jobs.{
  JobRecord, JobManager, FutureState, pending, started, running, Outcome, Ending, ran,
  was_cancelled, take_future, run_begin, run_end, finished, settle, cancel, cancel_all, shutdown,
}
use grag.Jobs.Trim.{active_at, Owned, trim_loop-Owned, length-trim_loop}
use grag.Jobs.Records.{end_run-Settles, settle-Settles, update_record-Owned, length-update_record}

pub record IsValid (m : JobManager) : Type 0 where
  pub owned : Owned m.futures m.jobs
  pub pending_bound : length m.futures ≤ m.max_pending
  pub history_bound : length m.jobs ≤ max m.max_history m.max_pending

erase-Owned :
    (id : String) (futures : Dict FutureState) (jobs : Dict JobRecord)
    → Owned futures jobs
    → active_at id jobs ≡ false
    → Owned (erase id futures) jobs
erase-Owned id futures jobs (u, o) h =
    (u, λ j t. ground (arith, o j t, h, t, lookup-erase id j futures, eq_iff id j))

-- The end of a job's future keeps the manager valid, and takes the future away.
pub finished-IsValid :
    (id : String) (ending : Ending) (now : String) (m : JobManager)
    → IsValid m
    → (ending ≡ ran → active_at id m.jobs ≡ false)
    → IsValid (finished id ending now m)
finished-IsValid id ending now m v h =
    let s = settle-Settles id ending now m.jobs h in
    let o : Owned (erase id m.futures) (settle id ending now m.jobs) =
      erase-Owned id m.futures (settle id ending now m.jobs) (s.owned m.futures v.owned) s.ended in
    record {
      owned = trim_loop-Owned m.max_history (erase id m.futures) (settle id ending now m.jobs) o;
      pending_bound = omega (arith, v.pending_bound, length-erase-le id m.futures);
      history_bound = omega (
        arith,
        length-trim_loop m.max_history (erase id m.futures) (settle id ending now m.jobs) o,
        v.pending_bound,
        length-erase-le id m.futures,
      );
    }

pub ending_ne : was_cancelled ≢ ran
ending_ne h = cc

pub cancel-IsValid : (now id : String) (m : JobManager) → IsValid m → IsValid (cancel now id m)
unfolding cancel
cancel-IsValid now id m v = elim (Option-cases (lookup id m.futures)) [
  | inl e ↦ rw (e, cancel) v
  | inr (pending, e) ↦
      rw (e, cancel) (finished-IsValid id was_cancelled now m v (λ h. absurd (ending_ne h)))
  | inr (started, e) ↦ rw (e, cancel) v
]

pub cancel_all-IsValid :
    (now : String) (ids : List String) (m : JobManager) → IsValid m → IsValid (cancel_all now ids m)
unfolding cancel_all
cancel_all-IsValid now [] m v = v
cancel_all-IsValid now (id ∷ ids) m v =
    cancel_all-IsValid now ids (cancel now id m) (cancel-IsValid now id m v)

pub shutdown-IsValid : (now : String) (m : JobManager) → IsValid m → IsValid (shutdown now m)
unfolding shutdown
shutdown-IsValid now m v =
    cancel_all-IsValid now (keys m.futures) (record m { closed = true })
      (record { owned = v.owned; pending_bound = v.pending_bound; history_bound = v.history_bound })

-- The other moves of the worker.
pub take_future-IsValid :
    (id : String) (m : JobManager)
    → lookup id m.futures ≡ some pending
    → IsValid m
    → IsValid (take_future id m)
take_future-IsValid id m h v = record {
  owned = (
    (v.owned).0,
    λ j t. ground (arith, (v.owned).1 j t, eq_iff id j, lookup-insert id j started m.futures),
  );
  pending_bound =
      omega (arith, v.pending_bound, length-insert-has id started m.futures (ground (arith, h)));
  history_bound = v.history_bound;
}

pub run_begin-IsValid :
    (id now : String) (m : JobManager)
    → lookup id m.futures ≡ some started
    → IsValid m
    → IsValid (run_begin id now m)
run_begin-IsValid id now m h v =
    let change : JobRecord → JobRecord =
      λ job. record job { status = running; started_at = some now } in
    record {
      owned = update_record-Owned m.futures id change m.jobs v.owned (λ job t. ground (arith, h));
      pending_bound = v.pending_bound;
      history_bound = omega (arith, v.history_bound, length-update_record id change m.jobs);
    }

pub run_end-IsValid :
    (encode : JobRecord → Encoding) (id : String) (outcome : Outcome) (now later : String)
    (m : JobManager)
    → IsValid m
    → IsValid (run_end encode id outcome now later m)
run_end-IsValid encode id outcome now later m v =
    let s = end_run-Settles encode id outcome now later m.jobs in
    record {
      owned = s.owned m.futures v.owned;
      pending_bound = v.pending_bound;
      history_bound = omega (arith, v.history_bound, s.same_length);
    }
