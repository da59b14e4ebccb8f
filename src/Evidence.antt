-- ===== src/Evidence.antt =====
-- src/grag/core/evidence.py: which evidence a read leaves out (`exclusion_reason`), and the check of
-- a superseding node by `finish_update`. What the database says of a node, and what Python's text
-- and date functions make of a value, are parameters.
pub mod Supersession
mod Tests
use grag.Base.{
  ℕ, zero, suc, ◌+◌, leb, String, List, [], ◌∷◌, length, Option, none, some, Bool, true, false, not,
  ◌||◌, if◌then◌else◌, str_eq,
}
use grag.Base.Dict.{contains}
use grag.Base.Values.{Value, Props, get, str, truthy}
use grag.Base.Result.{GragError, schema_error, not_found, Result, returned, raised, ◌>>◌}
use grag.Limits.{check_size}

-- `datetime.fromisoformat` of a value: a ValueError or TypeError, a time without an offset, or a
-- time, in some unit.
pub data Parsed : Type 0 where
  malformed naive : Parsed
  instant : ℕ → Parsed

-- `fold` is `.strip().casefold()`.
pub record Texts : Type 0 where
  pub fold : String → String
  pub from_iso : Value → Parsed

abbrev pub ended_states : List String
ended_states = "superseded" ∷ "retracted" ∷ "expired" ∷ []

abbrev pub is_text : Value → String → Bool
is_text (str s) expected = str_eq s expected
is_text _ expected = false

-- `state.strip().casefold()` where it is one of the states
unfoldable pub ended_state : Texts → Value → Option String
ended_state t (str s) = if contains ended_states (t.fold s) then some (t.fold s) else none
ended_state t _ = none

unfoldable pub expiry_reason : Texts → Value → ℕ → Option String
expiry_reason t expiry now = if not (truthy expiry) then none else elim (t.from_iso expiry) [
  | malformed ↦ some "invalid_expiry"
  | naive ↦ some "invalid_expiry"
  | instant at ↦ if leb at now then some "expired" else none
]

unfoldable pub exclusion_reason : Texts → Props → ℕ → Option String
exclusion_reason t props now =
    let own = get props "_evidence_state" in
    let state = if truthy own then own else get props "status" in
    if is_text (get props "_document_state") "obsolete"
      || is_text (get props "_source_state") "obsolete"
    then some "obsolete_document"
    else elim (ended_state t state) [
      | some reason ↦ some reason
      | none ↦
          if is_text (get props "_review_state") "disputed"
          then some "disputed"
          else expiry_reason t (get props "_expires_at") now
    ]

-- What the database has for a node id: its label has no table, there is no such node, or there is
-- one with this `_superseded_by`.
pub data Target : Type 0 where
  unknown_label missing : Target
  found : Option String → Target

-- The test of `while successor`: neither None nor the empty text.
unfoldable pub present : Option String → Option String
present none = none
present (some s) = if str_eq s "" then none else some s

-- One round of the loop of `finish_update`: the successor of the node that is visited. `seen` is a
-- set, here a list without repetition; `steps` is the length of `chain_steps`, which the nodes of a
-- batch share.
unfoldable pub visit : (String → Target) → List String → ℕ → String → Result (Option String)
visit db seen steps id =
    check_size "supersession_steps" (steps + 1) 1024
    >> (check_size "supersession_depth" (length seen) 128
        >> (if contains seen id then raised schema_error else elim (db id) [
          | unknown_label ↦ raised schema_error
          | missing ↦ raised not_found
          | found next ↦ returned next
        ]))

-- The loop, on fuel. It returns the new length of `chain_steps`, and `none` where the fuel is out.
unfoldable pub follow : ℕ → (String → Target) → List String → ℕ → Option String → Option (Result ℕ)
follow zero db seen steps successor = none
follow (suc fuel) db seen steps successor = elim (present successor) [
  | none ↦ some (returned steps)
  | some id ↦ elim (visit db seen steps id) [
    | raised e ↦ some (raised e)
    | returned next ↦ follow fuel db (id ∷ seen) (steps + 1) next
  ]
]

-- The check of a node's successor: `resolves` is that its label has a table and its key is not
-- empty. 129 rounds are enough.
unfoldable pub check_successor :
    (String → Target) → (String → Bool) → String → Value → ℕ → Option String → Option (Result ℕ)
check_successor db resolves identity state steps successor = elim (present successor) [
  | none ↦ some (returned steps)
  | some id ↦
      if not (is_text state "superseded")
      then some (raised schema_error)
      else if not (resolves id) || str_eq id identity
      then some (raised schema_error)
      else follow 129 db (identity ∷ []) steps successor
]
