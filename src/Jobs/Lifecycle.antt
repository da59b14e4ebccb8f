-- ===== src/Jobs/Lifecycle.antt =====
-- Jobs from their submission to their end: what holds in every state that the threads reach.
use grag.Base.{ℕ, String, Option, none, some, false, ◌≡◌, refl, arith, eq_iff}
use grag.Base.Dict.{lookup, has, lookup-insert, lookup-erase}
use grag.Base.Values.{Props}
use grag.Limits.{Encoding}
use grag.Jobs.{
  JobRecord, JobManager, pending, started, Pool, Outcome, Ending, ran, was_cancelled, threw, init,
  submit, take_future, run_begin, run_end, finished, shutdown,
}
use grag.Jobs.Trim.{active_at}
use grag.Jobs.Records.{end_run-Settles}
use grag.Jobs.Invariant.{
  IsValid, finished-IsValid, shutdown-IsValid, take_future-IsValid, run_begin-IsValid,
  run_end-IsValid,
}
use grag.Jobs.Submit.{submit-Admits}
use grag.Jobs.Shutdown.{shutdown-Cancels, shutdown-futures}
use grag.Jobs.System.{
  System, Worker, idle, takes_up, calls, leaves, held_job, Step, submits, takes_next, begins, ends,
  breaks, calls_back, shuts_down, Reach, start, then_step,
}

-- The job whose `_run` has returned, while its callback has not been called.
abbrev ended_job : Worker → Option String
ended_job (leaves id ran) = some id
ended_job _ = none

-- The manager is valid, the one started future is the worker's, and `_run` has ended its record.
pub record IsCoupled (s : System) : Type 0 where
  pub valid : IsValid s.0
  pub held : (id : String) → held_job s.1 ≡ some id → lookup id s.0.futures ≡ some started
  pub only : (id : String) → lookup id s.0.futures ≡ some started → held_job s.1 ≡ some id
  pub ended : (id : String) → ended_job s.1 ≡ some id → active_at id s.0.jobs ≡ false

ended-held : (w : Worker) (id : String) → ended_job w ≡ some id → held_job w ≡ some id
ended-held idle id t = absurd cc
ended-held (takes_up j) id t = absurd cc
ended-held (calls j) id t = absurd cc
ended-held (leaves j ran) id t = t
ended-held (leaves j was_cancelled) id t = absurd cc
ended-held (leaves j (threw text)) id t = absurd cc

module _ (encode : JobRecord → Encoding) where
  submits-IsCoupled :
      (m : JobManager) (w : Worker) (id kind : String) (params : Props) (now later : String)
      (pool : Pool)
      → has id m.futures ≡ false
      → IsCoupled (m, w)
      → IsCoupled ((submit encode id kind params now later pool m).1, w)
  submits-IsCoupled m w id kind params now later pool fresh c =
      let a = submit-Admits encode id kind params now later pool m in
      record {
        valid = a.valid c.valid;
        held = λ j t. ground (arith, c.held j t, a.same_futures j, eq_iff id j, fresh);
        only =
            λ j t. ground (arith, c.only j, t, a.same_futures j, a.new_future, eq_iff id j, fresh);
        ended = λ j t.
            a.quiet j (ground (arith, c.held j (ended-held w j t), eq_iff id j, fresh))
              (c.ended j t);
      }

  takes_next-IsCoupled :
      (m : JobManager) (id : String)
      → lookup id m.futures ≡ some pending
      → IsCoupled (m, idle)
      → IsCoupled (take_future id m, takes_up id)
  takes_next-IsCoupled m id e c = record {
    valid = take_future-IsValid id m e c.valid;
    held = λ j t. ground (arith, lookup-insert id j started m.futures, eq_iff id j, t);
    only = λ j t. ground (arith, lookup-insert id j started m.futures, eq_iff id j, t, c.only j);
    ended = λ j t. absurd cc;
  }

  begins-IsCoupled :
      (m : JobManager) (id now : String)
      → IsCoupled (m, takes_up id)
      → IsCoupled (run_begin id now m, calls id)
  begins-IsCoupled m id now c = record {
    valid = run_begin-IsValid id now m (c.held id refl) c.valid;
    held = λ j t. c.held j t;
    only = λ j t. c.only j t;
    ended = λ j t. absurd cc;
  }

  ends-IsCoupled :
      (m : JobManager) (id : String) (outcome : Outcome) (now later : String)
      → IsCoupled (m, calls id)
      → IsCoupled (run_end encode id outcome now later m, leaves id ran)
  ends-IsCoupled m id outcome now later c =
      let s = end_run-Settles encode id outcome now later m.jobs in
      record {
        valid = run_end-IsValid encode id outcome now later m c.valid;
        held = λ j t. c.held j t;
        only = λ j t. c.only j t;
        ended = λ j t. ground (arith, s.ended, t);
      }

  breaks-IsCoupled :
      (m : JobManager) (id text : String)
      → IsCoupled (m, calls id)
      → IsCoupled (m, leaves id (threw text))
  breaks-IsCoupled m id text c = record {
    valid = c.valid;
    held = λ j t. c.held j t;
    only = λ j t. c.only j t;
    ended = λ j t. absurd cc;
  }

  calls_back-IsCoupled :
      (m : JobManager) (id : String) (ending : Ending) (now : String)
      → IsCoupled (m, leaves id ending)
      → IsCoupled (finished id ending now m, idle)
  calls_back-IsCoupled m id ending now c = record {
    valid = finished-IsValid id ending now m c.valid (λ h. c.ended id (rw h refl));
    held = λ j t. absurd cc;
    only = λ j t. ground (arith, c.only j, lookup-erase id j m.futures, eq_iff id j, t);
    ended = λ j t. absurd cc;
  }

  shuts_down-IsCoupled :
      (m : JobManager) (w : Worker) (now : String)
      → IsCoupled (m, w)
      → IsCoupled (shutdown now m, w)
  shuts_down-IsCoupled m w now c = record {
    valid = shutdown-IsValid now m c.valid;
    held = λ j t. (((shutdown-futures now m).1 j).0).1 (c.held j t);
    only = λ j t. c.only j ((((shutdown-futures now m).1 j).0).0 t);
    ended = λ j t. (shutdown-Cancels now m).quiet j (c.ended j t);
  }

  Step-IsCoupled : (s t : System) → Step encode s t → IsCoupled s → IsCoupled t
  Step-IsCoupled _ _ (submits {m} {w} id kind params now later pool h fresh) c =
      submits-IsCoupled m w id kind params now later pool fresh c
  Step-IsCoupled _ _ (takes_next {m} id e) c = takes_next-IsCoupled m id e c
  Step-IsCoupled _ _ (begins {m} id now) c = begins-IsCoupled m id now c
  Step-IsCoupled _ _ (ends {m} id outcome now later) c = ends-IsCoupled m id outcome now later c
  Step-IsCoupled _ _ (breaks {m} id text) c = breaks-IsCoupled m id text c
  Step-IsCoupled _ _ (calls_back {m} id ending now) c = calls_back-IsCoupled m id ending now c
  Step-IsCoupled _ _ (shuts_down {m} {w} now) c = shuts_down-IsCoupled m w now c

  -- In every state that the threads reach, in any order of their steps: an id has one record, a
  -- queued or running record has a future that is not done, there are at most `max_pending` such
  -- futures and at most the larger of `max_history` and `max_pending` records, the worker holds
  -- exactly the future that has been started, and `_run` does not return before its record is
  -- neither queued nor running.
  pub Reach-IsCoupled :
      (max_history max_pending : ℕ) (s : System)
      → Reach encode max_history max_pending s
      → IsCoupled s
  unfolding init lookup
  Reach-IsCoupled max_history max_pending _ start = record {
    valid = record {
      owned = (tt, λ id t. ground (arith, t));
      pending_bound = omega arith;
      history_bound = omega arith;
    };
    held = λ j t. absurd cc;
    only = λ j t. ground (arith, t);
    ended = λ j t. absurd cc;
  }
  Reach-IsCoupled max_history max_pending _ (then_step {s} {t} r step) =
      Step-IsCoupled s t step (Reach-IsCoupled max_history max_pending s r)

  -- Once the manager is shut down while the worker is idle, in any state that the threads reach, no
  -- future is left and no record is queued or running.
  pub shutdown-drains :
      (max_history max_pending : ℕ) (m : JobManager) (now : String)
      → Reach encode max_history max_pending (m, idle)
      → (id : String)
      → (lookup id (shutdown now m).futures ≡ none) × (active_at id (shutdown now m).jobs ≡ false)
  shutdown-drains max_history max_pending m now r id =
      let c =
        shuts_down-IsCoupled m idle now (Reach-IsCoupled max_history max_pending (m, idle) r) in
      let gone : lookup id (shutdown now m).futures ≡ none =
        ground (arith, ((shutdown-futures now m).1 id).1, c.only id) in
      (gone, ground (arith, (c.valid.owned).1 id, gone))
