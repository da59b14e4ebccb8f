-- ===== src/Refresh/Cycle/Root.antt =====
-- src/grag/refresh.py: `_check_root`. What the calls of other modules give is in the environment, with
-- what other threads do meanwhile.
use grag.Base.{
  ℕ, ◌+◌, ltb, String, List, Option, none, some, Bool, ◌&&◌, ◌||◌, not, if◌then◌else◌, foldl,
}
use grag.Base.Dict.{lookup, insert}
use grag.Refresh.{
  is_set, same, RootState, Refresher, Problem, shut_down, message, Try, value, throws, invalidate,
  backoff, Other, act,
}

-- A record of the index in the database: `_index_options`, `_index_generation`, `_index_error`
pub record IndexRecord : Type 0 where
  pub options : Option String
  pub generation : Option String
  pub error : Option String

pub record Call (A : Type 0) : Type 0 where
  pub others : List Other
  pub outcome : Try A

abbrev pub calling : {A : Type 0} → Call A → Refresher → Refresher
calling c r = foldl act r c.others

-- The environment of `_check_root`: `scan` is `saved_request` and `scan_sources`, `latest` and `after`
-- are `index_records` before and after `ingest_code`, and `rescan` is the last `scan_sources`.
pub record Visit : Type 0 where
  pub begun_at : ℕ
  pub scanned_at : ℕ
  pub refreshed_at : ℕ
  pub failed_at : ℕ
  pub scan_stamp : String
  pub refresh_stamp : String
  pub scan : Call String
  pub latest : Call (Option IndexRecord)
  pub ingest : Call (Unit {0})
  pub after : Call IndexRecord
  pub rescan : Call String

abbrev pub legacy : String
legacy =
    "Legacy index has no saved scope/options. Run ingest_code once with the intended paths and options."

abbrev pub no_failures : RootState → RootState
no_failures s = record s { failures = 0; retry_at = 0; error = none }

-- The first region of `_check_root`
unfoldable pub register : IndexRecord → RootState → RootState
register record_ s =
    let s1 =
      if not (same s.options record_.options) || not (same s.successful record_.generation)
      then no_failures s
      else s in
    let s2 : RootState = record s1 {
      options = record_.options;
      successful = record_.generation;
      unknown = not (is_set record_.options);
    } in
    if s2.unknown then record s2 { error = some legacy } else s2

abbrev pub is_current : IndexRecord → String → RootState → Bool
is_current record_ generation s = same (some generation) s.successful && not (is_set record_.error)

-- The second region, after the scan
unfoldable pub observe : String → IndexRecord → String → RootState → RootState
observe stamp record_ generation s =
    let s1 = if not (same s.observed (some generation)) then no_failures s else s in
    let s2 : RootState = record s1 { observed = some generation; checked_at = some stamp } in
    if is_current record_ generation s2
    then record (no_failures s2) { pending = none }
    else record s2 { pending = some generation }

-- The regions after `ingest_code`
unfoldable pub refreshed : String → IndexRecord → String → RootState → RootState
refreshed stamp after current s = record s {
  successful = after.generation;
  observed = some current;
  checked_at = some stamp;
  pending = if same (some current) after.generation then none else some current;
}

abbrev pub succeeded : ℕ → RootState → RootState
succeeded now s = record s {
  error = none;
  failures = 0;
  retry_at = if is_set s.pending then now + 50 else 0;
}

abbrev pub failed : ℕ → String → Refresher → RootState → RootState
failed now text r s = record s {
  error = some text;
  failures = s.failures + 1;
  retry_at = now + backoff r (s.failures + 1);
}

abbrev pub store : String → RootState → Refresher → Refresher
store path s r = record r { roots = insert path s r.roots }

-- A part of `_check_root`: the exception that it ends with, if any, and the root's state.
abbrev pub Part : Type 0
Part = Option Problem × RootState × Refresher

abbrev pub error_text : Option String → String
error_text none = ""
error_text (some text) = text

-- What follows the assignment of `pending`
unfoldable pub finish_root : Visit → String → IndexRecord → RootState → Refresher → Part
finish_root v path after s r =
    if is_set after.error
    then (some (message (error_text after.error)), s, r)
    else (none, succeeded v.refreshed_at s, store path (succeeded v.refreshed_at s) r)

-- Under `code_ingest_lock`, when the options are as they were
unfoldable pub ingest_root : Visit → String → RootState → Refresher → Part
ingest_root v path s r0 =
    let r = calling v.ingest (record r0 { refreshes = r0.refreshes + 1 }) in
    elim v.ingest.outcome [
      | throws p ↦ (some p, s, r)
      | value _ ↦ elim v.after.outcome [
        | throws p ↦ (some p, s, calling v.after r)
        | value after ↦ elim v.rescan.outcome [
          | throws p ↦ (some p, s, calling v.rescan (calling v.after r))
          | value current ↦
              let s1 = refreshed v.refresh_stamp after current s in
              let r1 = store path s1 (calling v.rescan (calling v.after r)) in
              finish_root v path after s1 r1
        ]
      ]
    ]

-- The code with `_running_root`, whose `finally` is in `refresh_root`
unfoldable pub refresh_locked : Visit → String → IndexRecord → RootState → Refresher → Part
refresh_locked v path record_ s r0 =
    let r = calling v.latest r0 in
    elim v.latest.outcome [
      | throws p ↦ (some p, s, r)
      | value none ↦ (none, s, r)
      | value (some latest) ↦
          let next = ingest_root v path s r in
          if r.closed
          then (none, s, r)
          else if not (same latest.options record_.options)
          then (none, s, invalidate r)
          else next
    ]

unfoldable pub refresh_root : Visit → String → IndexRecord → RootState → Refresher → Part
refresh_root v path record_ s r =
    let (p, s1, r1) = refresh_locked v path record_ s (record r { running_root = some path }) in
    (p, s1, record r1 { running_root = none })

-- The outer `try`
unfoldable pub scan_root : Visit → String → IndexRecord → RootState → Refresher → Part
scan_root v path record_ s r0 =
    let r = calling v.scan r0 in
    elim v.scan.outcome [
      | throws p ↦ (some p, s, r)
      | value generation ↦
          let s1 = observe v.scan_stamp record_ generation s in
          let r1 = store path s1 r in
          let next = refresh_root v path record_ s1 r1 in
          if is_current record_ generation s
          then (none, s1, r1)
          else if ltb v.scanned_at s1.retry_at || r1.closed
          then (none, s1, r1)
          else next
    ]

-- Its handlers
unfoldable pub catch_failure : ℕ → String → Part → Option Problem × Refresher
catch_failure now path (none, s, r) = (none, r)
catch_failure now path (some shut_down, s, r) = (some shut_down, r)
catch_failure now path (some (message text), s, r) = (none, store path (failed now text r s) r)

-- `_check_root`
unfoldable pub check_root : Visit → String → IndexRecord → Refresher → Option Problem × Refresher
check_root v path record_ r = elim (lookup path r.roots) [
  | none ↦ (some (message "KeyError"), r)
  | some s0 ↦
      let s = register record_ s0 in
      let r1 = store path s r in
      let next = catch_failure v.failed_at path (scan_root v path record_ s r1) in
      if s.unknown
      then (none, r1)
      else if is_set s.error && ltb v.begun_at s.retry_at
      then (none, r1)
      else next
]
