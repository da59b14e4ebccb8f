-- ===== src/Refresh/Read.antt =====
-- src/grag/refresh.py: `read`, which waits for a verification up to a deadline. What happens while it
-- waits is a sequence of wakes.
use grag.Base.{
  ℕ, ◌+◌, leb, String, List, [], ◌∷◌, Bool, true, false, ◌&&◌, ◌||◌, if◌then◌else◌, foldl,
}
use grag.Refresh.{
  Refresher, Try, FreshnessState, fresh, FreshnessReport, state_of, report, schedule,
}
use grag.Refresh.Cycle.{Event, happen}

pub data Freshness : Type 0 where
  allow_stale wait require : Freshness

-- The events before the condition wakes, the clock then, and what `jobs.submit` would give.
pub record Wake : Type 0 where
  pub events : List Event
  pub now : ℕ
  pub submitted : Try String

-- A report, a FreshnessError with its report, or the wait goes on.
pub data Answer : Type 0 where
  answers refuses : FreshnessReport → Answer
  waits : Answer

abbrev pub is_fresh : FreshnessState → Bool
is_fresh fresh = true
is_fresh _ = false

-- The report of an ended wait
abbrev pub give_up : Freshness → FreshnessReport → Answer
give_up require r = refuses r
give_up _ r = answers r

-- `status == "fresh" and self._completed >= ticket`
abbrev pub is_verified : ℕ → Refresher → Bool
is_verified ticket r = is_fresh (state_of r) && leb ticket r.completed

abbrev pub woken : ℕ → Wake → Refresher → Refresher
woken ticket w r =
    let r1 = foldl happen r w.events in
    if is_verified ticket r1 then r1 else (schedule false w.now w.submitted r1).1

unfoldable pub read_loop : Freshness → ℕ → ℕ → ℕ → List Wake → Refresher → Answer × Refresher
read_loop mode deadline ticket now [] r =
    if is_verified ticket r
    then (answers (report false r), r)
    else if leb deadline now || r.closed
    then (give_up mode (report (leb deadline now) r), r)
    else (waits, r)
read_loop mode deadline ticket now (w ∷ wakes) r =
    let rest = read_loop mode deadline ticket w.now wakes (woken ticket w r) in
    if is_verified ticket r
    then (answers (report false r), r)
    else if leb deadline now || r.closed
    then (give_up mode (report (leb deadline now) r), r)
    else rest

unfoldable pub read : Freshness → ℕ → ℕ → Try String → List Wake → Refresher → Answer × Refresher
read allow_stale timeout now submitted wakes r =
    let r1 = (schedule false now submitted r).1 in (answers (report false r1), r1)
read mode timeout now submitted wakes r =
    let (ticket, r1) = schedule true now submitted r in
    read_loop mode (now + timeout) ticket now wakes r1
