-- ===== src/Jobs/Shutdown.antt =====
-- `JobManager.shutdown` of jobs.py: the futures that it leaves, and the records.
use text.Mathlib.Text.{◌==◌}
use grag.Base.{
  String, List, [], ◌∷◌, none, some, true, false, ◌≡◌, ◌≢◌, refl, ◌∙◌, ◌⊎◌, ◌↔◌, Option-cases,
  Bool-cases, inl, inr, arith, eq_iff,
}
use grag.Base.Dict.{Dict, lookup, has, keys, contains, lookup-erase}
use grag.Jobs.{
  JobManager, FutureState, pending, started, Ending, ran, was_cancelled, settle, finished, cancel,
  cancel_all, shutdown,
}
use grag.Jobs.Trim.{active_at, lookup-trim_loop_sub}
use grag.Jobs.Records.{settle-Settles}
use grag.Jobs.Invariant.{ending_ne}

-- No job becomes active by the end of another.
pub finished-quiet :
    (id : String) (ending : Ending) (now : String) (m : JobManager) (j : String)
    → (ending ≡ ran → active_at id m.jobs ≡ false)
    → active_at j m.jobs ≡ false
    → active_at j (finished id ending now m).jobs ≡ false
finished-quiet id ending now m j h a =
    let s = settle-Settles id ending now m.jobs h in
    let jobs = settle id ending now m.jobs in
    ground
      (arith, lookup-trim_loop_sub m.max_history jobs jobs j, s.ended, s.others j, eq_iff id j, a)

-- A cancellation takes away futures that wait, and no other.
pub record Cancels (before after : JobManager) : Type 0 where
  pub closed : after.closed ≡ before.closed
  pub futures :
      (j : String)
      → (lookup j after.futures ≡ lookup j before.futures)
        ⊎ ((lookup j before.futures ≡ some pending)
            × (lookup j after.futures ≡ none)
            × (active_at j after.jobs ≡ false))
  pub quiet : (j : String) → active_at j before.jobs ≡ false → active_at j after.jobs ≡ false

same-Cancels : (m : JobManager) → Cancels m m
same-Cancels m = record { closed = refl; futures = λ j. inl refl; quiet = λ j a. a }

cancelled-Cancels :
    (now id : String) (m : JobManager)
    → lookup id m.futures ≡ some pending
    → Cancels m (finished id was_cancelled now m)
cancelled-Cancels now id m e =
    let s = settle-Settles id was_cancelled now m.jobs (λ h. absurd (ending_ne h)) in
    let jobs = settle id was_cancelled now m.jobs in
    record {
      closed = refl;
      futures = λ j. ground (
        arith,
        lookup-erase id j m.futures,
        eq_iff id j,
        e,
        s.ended,
        lookup-trim_loop_sub m.max_history jobs jobs id,
      );
      quiet = λ j a. finished-quiet id was_cancelled now m j (λ h. absurd (ending_ne h)) a;
    }

cancel-Cancels : (now id : String) (m : JobManager) → Cancels m (cancel now id m)
unfolding cancel
cancel-Cancels now id m = elim (Option-cases (lookup id m.futures)) [
  | inl e ↦ rw (cancel, e) (same-Cancels m)
  | inr (pending, e) ↦ rw (cancel, e) (cancelled-Cancels now id m e)
  | inr (started, e) ↦ rw (cancel, e) (same-Cancels m)
]

cancel_all-Cancels :
    (now : String) (ids : List String) (m : JobManager) → Cancels m (cancel_all now ids m)
unfolding cancel_all
cancel_all-Cancels now [] m = same-Cancels m
cancel_all-Cancels now (id ∷ ids) m =
    let c = cancel-Cancels now id m in
    let d = cancel_all-Cancels now ids (cancel now id m) in
    record {
      closed = d.closed ∙ c.closed;
      futures = λ j. ground (arith, c.futures j, d.futures j, d.quiet j);
      quiet = λ j a. d.quiet j (c.quiet j a);
    }

cancel-asked :
    (now id : String) (m : JobManager) → lookup id (cancel now id m).futures ≢ some pending
unfolding cancel
cancel-asked now id m = elim (Option-cases (lookup id m.futures)) [
  | inl e ↦ rw (cancel, e) (λ t. ground (arith, e, t))
  | inr (pending, e) ↦
      rw (cancel, e) (λ t. ground (arith, lookup-erase id id m.futures, eq_iff id id, t))
  | inr (started, e) ↦ rw (cancel, e) (λ t. ground (arith, e, t))
]

-- Every future in the list that the loop goes through is asked.
cancel_all-asked :
    (now : String) (ids : List String) (m : JobManager) (j : String)
    → contains ids j ≡ true
    → lookup j (cancel_all now ids m).futures ≢ some pending
unfolding cancel_all contains
cancel_all-asked now [] m j h = absurd (ground (arith, h))
cancel_all-asked now (id ∷ ids) m j h = elim (Bool-cases (id == j)) [
  | inl e ↦ λ t.
      cancel-asked now id m (
        ground (arith, eq_iff id j, e, t, (cancel_all-Cancels now ids (cancel now id m)).futures j))
  | inr e ↦ cancel_all-asked now ids (cancel now id m) j (ground (arith, e, h))
]

contains-keys : (d : Dict FutureState) (j : String) → contains (keys d) j ≡ has j d
unfolding contains keys lookup
contains-keys [] j = refl
contains-keys ((k, f) ∷ d) j = ground (arith, contains-keys d j)

pub shutdown-Cancels :
    (now : String) (m : JobManager) → Cancels (record m { closed = true }) (shutdown now m)
unfolding shutdown
shutdown-Cancels now m = cancel_all-Cancels now (keys m.futures) (record m { closed = true })

shutdown-no_pending :
    (now : String) (m : JobManager) (id : String)
    → lookup id (shutdown now m).futures ≢ some pending
unfolding shutdown
shutdown-no_pending now m id t =
    let c = shutdown-Cancels now m in
    cancel_all-asked now (keys m.futures) (record m { closed = true }) id
      (contains-keys m.futures id ∙ ground (arith, c.futures id, t)) t

-- After a shutdown the manager is closed, no future waits, a future that the worker has taken is
-- still there, and each future that is gone belonged to a waiting job, whose record is no longer
-- queued or running.
pub shutdown-futures :
    (now : String) (m : JobManager)
    → ((shutdown now m).closed ≡ true)
      × ((id : String)
          → ((lookup id (shutdown now m).futures ≡ some started)
              ↔ (lookup id m.futures ≡ some started))
            × (lookup id (shutdown now m).futures ≢ some pending)
            × (lookup id m.futures ≡ some pending → active_at id (shutdown now m).jobs ≡ false))
shutdown-futures now m =
    let c = shutdown-Cancels now m in
    (
      c.closed,
      λ id. (
        ground (arith, c.futures id),
        shutdown-no_pending now m id,
        λ h. ground (arith, c.futures id, shutdown-no_pending now m id, h),
      ),
    )
