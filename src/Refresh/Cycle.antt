-- ===== src/Refresh/Cycle.antt =====
-- src/grag/refresh.py: `_cycle`, the job that verifies the roots, and the events of the refresher.
mod Root
unfoldable pub use Root.*
use grag.Base.{
  ℕ, ◌+◌, ltb, String, List, [], ◌∷◌, Option, none, some, Bool, false, ◌&&◌, ◌||◌, not,
  if◌then◌else◌, foldl,
}
use grag.Base.Dict.{Dict, lookup, insert}
use grag.Refresh.{
  is_set, same, RootState, new_root, Refresher, Problem, shut_down, message, Try, value, throws,
  invalidate, backoff, scan_failed, Other, act,
}

-- The environment of `_cycle`
pub record Round : Type 0 where
  pub listing : Call (Dict IndexRecord)
  pub visits : String → Visit
  pub last : List Other
  pub stamp : String
  pub ended_at : ℕ

-- `{p: self._roots.get(p, _RootState()) for p in records}`
unfoldable pub roots_of : Dict RootState → Dict IndexRecord → Dict RootState
roots_of roots [] = []
roots_of roots ((path, _) ∷ records) =
    let rest = roots_of roots records in
    elim (lookup path roots) [ none ↦ (path, new_root) ∷ rest | some s ↦ (path, s) ∷ rest ]

unfoldable pub check_roots : Round → Dict IndexRecord → Refresher → Option Problem × Refresher
check_roots e [] r = (none, r)
check_roots e ((path, record_) ∷ records) r =
    let (p, r1) = check_root (e.visits path) path record_ r in
    let rest = check_roots e records r1 in
    if r.closed then (some shut_down, r) else elim p [ none ↦ rest | some x ↦ (some x, r1) ]

-- The end of the body of `_cycle`
unfoldable pub conclude : Round → Refresher → Option Problem × Refresher
conclude e r = if r.closed then (some shut_down, r) else (
  none,
  record r {
    checked_at = some e.stamp;
    next_check = if r.rescan then 0 else e.ended_at + r.interval;
  },
)

-- Its part after the listing
unfoldable pub verify_records : Round → Dict IndexRecord → Refresher → Option Problem × Refresher
verify_records e records r =
    let (p, r1) =
      check_roots e records
        (record r { roots = roots_of r.roots records; scan_error = none; scan_failures = 0 }) in
    let rest = conclude e (foldl act r1 e.last) in elim p [ none ↦ rest | some x ↦ (some x, r1) ]

-- The body, without its handlers
unfoldable pub verify : Round → Refresher → Option Problem × Refresher
verify e r0 =
    let r1 : Refresher = record r0 { rescan = false } in
    let r = calling e.listing r1 in
    if r1.closed then (some shut_down, r1) else elim e.listing.outcome [
      | throws p ↦ (some p, r)
      | value records ↦ verify_records e records r
    ]

-- Its handlers, and its `finally`
unfoldable pub end_cycle : ℕ → ℕ → Option Problem × Refresher → Refresher
end_cycle serial now (p, r) = record (handled p r) {
  completed = serial;
  checking = false;
  running_root = none;
  cycle = none;
}
  where
    handled : Option Problem → Refresher → Refresher
    handled none r = r
    handled (some shut_down) r = r
    handled (some (message text)) r = scan_failed now text r

unfoldable pub run_cycle : Round → ℕ → Refresher → Refresher
run_cycle e serial r = end_cycle serial e.ended_at (verify e r)

-- The job of the cycle runs, or another thread acts.
pub data Event : Type 0 where
  acts : Other → Event
  runs : Round → Event

abbrev pub happen : Refresher → Event → Refresher
happen r (acts o) = act r o
happen r (runs e) = elim r.cycle [ none ↦ r | some serial ↦ run_cycle e serial r ]
