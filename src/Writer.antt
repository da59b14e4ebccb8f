-- ===== src/Writer.antt =====
-- src/grag/core/engine.py: the single writer of the database, `_run`, `execute_write`,
-- `write_transaction` and `atomic_writes`. The native connection is a parameter: what it answers is
-- a function of the statements that it has been sent, the latest first. Each call holds the write
-- lock, so calls of other threads fall before or after it.
pub mod Sending
pub mod Execute
pub mod Commit
pub mod Outcome
mod Tests
use grag.Base.{
  ℕ, zero, suc, ◌+◌, String, List, [], ◌∷◌, Option, none, some, str_eq, Bool, true, false, ◌&&◌,
  ◌||◌, not, if◌then◌else◌,
}
use grag.Base.{◌==◌ as nat_eq}
use grag.Base.Result.{
  GragError, resource_limit, configuration_error, query_interrupted, index_inconsistent,
  transaction_outcome_unknown, cypher_error, Result, returned, raised,
}
use grag.Limits.{Context, charge, charge_result}

-- A statement by its text; `other` is none of the first four, with whether it begins with one of the
-- words of a catalog change.
pub data Statement : Type 0 where
  begin_transaction commit rollback checkpoint : Statement
  other : Bool → String → Statement

abbrev pub is_completion : Statement → Bool
is_completion commit = true
is_completion rollback = true
is_completion checkpoint = true
is_completion _ = false

abbrev pub is_commit : Statement → Bool
is_commit commit = true
is_commit _ = false

-- The tuple of `startswith` in `execute_write`
abbrev pub changes_catalog : Statement → Bool
changes_catalog commit = true
changes_catalog rollback = true
changes_catalog (other ddl text) = ddl
changes_catalog _ = false

-- The exceptions that `_run` tells apart by their text.
pub data Failure : Type 0 where
  interrupted inconsistent_index buffer_full : Failure
  message : String → Failure

-- The rows of a result by the bytes of their JSON, or an exception.
pub data Answer : Type 0 where
  rows : List ℕ → Answer
  fails : Failure → Answer

pub record Native : Type 0 where
  pub answer : List Statement → Answer
  -- the exception of `configure_query_timeout`, if it raises for a number of milliseconds
  pub timeout_failure : List Statement → ℕ → Option Failure
  -- that the runtime has the internals of its cache of prepared statements
  pub has_cache : Bool
  pub buffer_bytes : ℕ
  pub statement_timeout : ℕ

-- The fields of `Engine` that the writer uses, with the context variables of the caller. A thread is
-- a number.
pub record Writer : Type 0 where
  pub sent : List Statement
  pub context : Context
  pub schema_cache : List String
  pub catalog_generation : ℕ
  pub prepared_catalog : Option ℕ
  pub configured_timeout : Option ℕ
  pub plan_cache_disabled : Bool
  pub owner : Option ℕ
  pub failed : Bool
  pub recovery_required : Bool

abbrev pub Act : Type 0 → Type 0
Act A = Writer → Result A × Writer

infixl 5 ◌>>◌
unfoldable pub ◌>>◌ : {A : Type 0} → Act (Unit {0}) → Act A → Act A
◌>>◌ m k w = let (r, w') = m w in elim r [ returned _ ↦ k w' | raised e ↦ (raised e, w') ]

-- A call of core/limits.py on the caller's context.
unfoldable pub charging : (Context → Result (Unit {0}) × Context) → Act (Unit {0})
charging action w = let (r, c) = action w.context in (r, record w { context = c })

abbrev pub eq_option : Option ℕ → ℕ → Bool
eq_option none n = false
eq_option (some m) n = nat_eq m n

module _ (n : Native) where
  -- `_clear_prepared_cache`
  unfoldable pub clear_prepared_cache : Act (Unit {0})
  clear_prepared_cache w =
      if w.plan_cache_disabled && eq_option w.prepared_catalog w.catalog_generation
      then (returned tt, w)
      else if not n.has_cache
      then (raised configuration_error, w)
      else (returned tt, record w { prepared_catalog = some w.catalog_generation })

  unfoldable pub read_rows : List ℕ → Act (Unit {0})
  read_rows [] w = (returned tt, w)
  read_rows (bytes ∷ more) w =
      let rest = read_rows more in
      (charging (charge "result_rows" 1) >> (charging (charge_result bytes) >> rest)) w

  -- The last part of the handler of `_run`
  abbrev pub error_of : Failure → GragError
  error_of interrupted = query_interrupted
  error_of inconsistent_index = index_inconsistent
  error_of buffer_full = resource_limit "native_buffer_bytes" n.buffer_bytes
  error_of (message text) = cypher_error text

  -- `_set_timeout`, whose exceptions the handler of `_run` takes
  unfoldable pub set_timeout : ℕ → Act (Unit {0})
  set_timeout milliseconds w =
      if eq_option w.configured_timeout milliseconds
      then (returned tt, w)
      else elim (n.timeout_failure w.sent milliseconds) [
        | some f ↦ (raised (error_of f), w)
        | none ↦ (returned tt, record w { configured_timeout = some milliseconds })
      ]

  -- `conn.execute` and the reading of its result
  unfoldable pub send : Statement → Act (Unit {0})
  send s w =
      let w' : Writer = record w { sent = s ∷ w.sent } in
      elim (n.answer (s ∷ w.sent)) [ rows r ↦ read_rows r w' | fails f ↦ (raised (error_of f), w') ]

  -- The handler of `_run` once a commit has been started
  unfoldable pub uncertain : Result (Unit {0}) × Writer → Result (Unit {0}) × Writer
  uncertain (returned x, w) = (returned x, w)
  uncertain (raised e, w) =
      (raised transaction_outcome_unknown, record w { recovery_required = true })

  -- `_run`, on the writer's connection
  unfoldable pub run : Statement → Act (Unit {0})
  run s =
      if is_completion s
      then set_timeout 0 >> (λ w. if is_commit s then uncertain (send s w) else send s w)
      else charging (charge "statements" 1) >> (set_timeout n.statement_timeout >> send s)

  -- An error within a transaction of this thread makes it a failed one.
  unfoldable pub poison : ℕ → Result (Unit {0}) × Writer → Result (Unit {0}) × Writer
  poison me (returned x, w) = (returned x, w)
  poison me (raised e, w) =
      (raised e, if eq_option w.owner me then record w { failed = true } else w)

  unfoldable pub execute_write : ℕ → Statement → Act (Unit {0})
  execute_write me s w =
      let w' : Writer = record w {
        schema_cache = [];
        catalog_generation =
            if changes_catalog s then w.catalog_generation + 1 else w.catalog_generation;
      } in
      if w.recovery_required
      then (raised transaction_outcome_unknown, w)
      else if w.failed
      then (
        raised (cypher_error "The write transaction has failed; further statements are refused."),
        w',
      )
      else poison me ((clear_prepared_cache >> run s) w')

-- The code under `with engine.write_transaction()`: it executes statements and goes on by their
-- results, which it may catch, enters `atomic_writes` or another `write_transaction`, and returns or
-- raises.
pub data Body : Type 0 where
  ends : Result (Unit {0}) → Body
  executes : Bool → String → (Result (Unit {0}) → Body) → Body
  joins : Body → (Result (Unit {0}) → Body) → Body
  nests : (Result (Unit {0}) → Body) → Body

abbrev pub nested : GragError
nested = cypher_error "Nested write transactions are not supported."

module _ (n : Native) (me : ℕ) where
  -- `atomic_writes` joins the transaction, and an error that leaves it poisons the transaction;
  -- `write_transaction` refuses.
  unfoldable pub run_body : Body → Act (Unit {0})
  run_body (ends r) w = (r, w)
  run_body (executes ddl text k) w =
      let (r, w') = execute_write n me (other ddl text) w in run_body (k r) w'
  run_body (joins b k) w = let (r, w') = poison n me (run_body b w) in run_body (k r) w'
  run_body (nests k) w = run_body (k (raised nested)) w

  abbrev pub nothing_to_roll_back : GragError → Bool
  nothing_to_roll_back (cypher_error text) = str_eq text "No active transaction for ROLLBACK."
  nothing_to_roll_back _ = false

  -- The handler of `write_transaction`
  unfoldable pub roll_back : GragError → Act (Unit {0})
  roll_back e w =
      let (r, w') = (clear_prepared_cache n >> run n rollback) w in
      elim r [
        | returned _ ↦ (raised e, w')
        | raised cleanup ↦
            if nothing_to_roll_back cleanup
            then (raised e, w')
            else (raised transaction_outcome_unknown, record w' { recovery_required = true })
      ]

  -- Its `finally`
  abbrev pub leave : Result (Unit {0}) × Writer → Result (Unit {0}) × Writer
  leave (r, w) =
      (r, record w { owner = none; failed = false; catalog_generation = w.catalog_generation + 1 })

  -- The body and the commit
  unfoldable pub attempt : Body → Act (Unit {0})
  attempt b = run_body b >> execute_write n me commit

  unfoldable pub inside : Body → Act (Unit {0})
  inside b w =
      let (r, w') = attempt b w in
      elim r [ returned _ ↦ leave (returned tt, w') | raised e ↦ leave (roll_back e w') ]

  unfoldable pub write_transaction : Body → Act (Unit {0})
  write_transaction b w = elim w.owner [
    | some _ ↦ (raised nested, w)
    | none ↦
        (execute_write n me begin_transaction >> (λ w'. inside b (record w' { owner = some me }))) w
  ]

  unfoldable pub atomic_writes : Body → Act (Unit {0})
  atomic_writes b w =
      if eq_option w.owner me then poison n me (run_body b w) else write_transaction b w
