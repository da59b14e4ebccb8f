-- ===== src/Writer/Tests.antt =====
-- A writer whose database answers each statement with no rows.
use grag.Base.{List, [], ◌∷◌, none, Bool, true, false, ◌≡◌, refl, foldl}
use grag.Base.Result.{raised, transaction_outcome_unknown}
use grag.Limits.{charge, charge_work}
use grag.Writer.{
  Statement, begin_transaction, commit, rollback, other, Answer, rows, fails, message, Native,
  Writer, Body, ends, executes, joins, nests, write_transaction, ◌>>◌, execute_write, poison,
  clear_prepared_cache, run, charging, set_timeout, send, read_rows, inside, attempt, run_body,
  uncertain, roll_back,
}
use grag.Writer.Sending.{is_returned, is_rows}
use grag.Writer.Commit.{commits, Committed, Uncommitted}
use grag.Writer.Outcome.{
  executes_write, transaction, atomic, use_writer, write_transaction_outcome, recovery_required_lem,
}

abbrev answering : (List Statement → Answer) → Native
answering answer = record {
  answer = answer;
  timeout_failure = λ log ms. none;
  has_cache = true;
  buffer_bytes = 1000;
  statement_timeout = 30;
}

abbrev quiet : Native
quiet = answering (λ log. rows [])

-- Its commits are lost.
abbrev lost_commit : List Statement → Answer
lost_commit (commit ∷ log) = fails (message "lost")
lost_commit log = rows []

abbrev idle : Bool → Writer
idle recovery = record {
  sent = [];
  context = record { source = none; work = none };
  schema_cache = [];
  catalog_generation = 0;
  prepared_catalog = none;
  configured_timeout = none;
  plan_cache_disabled = true;
  owner = none;
  failed = false;
  recovery_required = recovery;
}

-- It writes, ignores the result, enters `atomic_writes`, and returns.
abbrev body : Body
body =
    executes false "CREATE"
      (λ r. joins (executes true "ALTER" (λ q. ends q)) (λ q. nests (λ x. ends q)))

commits_once :
    (write_transaction quiet 1 body (idle false)).1.sent
    ≡ commit ∷ other true "ALTER" ∷ other false "CREATE" ∷ begin_transaction ∷ []
unfolding write_transaction ◌>>◌ execute_write poison clear_prepared_cache run charging charge
    charge_work set_timeout send read_rows inside attempt run_body uncertain roll_back
commits_once = refl

loses_commit :
    (write_transaction (answering lost_commit) 1 body (idle false)).0
    ≡ raised transaction_outcome_unknown
unfolding write_transaction ◌>>◌ execute_write poison clear_prepared_cache run charging charge
    charge_work set_timeout send read_rows inside attempt run_body uncertain roll_back
loses_commit = refl

rolls_back :
    (write_transaction quiet 1
      (executes false "CREATE" (λ r. ends (raised transaction_outcome_unknown)))
      (idle false)).1.sent
    ≡ rollback ∷ other false "CREATE" ∷ begin_transaction ∷ []
unfolding write_transaction ◌>>◌ execute_write poison clear_prepared_cache run charging charge
    charge_work set_timeout send read_rows inside attempt run_body uncertain roll_back
rolls_back = refl

write_transaction_outcome_example :
    let (r, after) = write_transaction quiet 1 body (idle false) in
    (is_returned r ≡ true
      → (is_rows (quiet.answer (begin_transaction ∷ [])) ≡ true)
        × Committed quiet (begin_transaction ∷ []) after)
    × (is_returned r ≡ false → Uncommitted (commits []) after)
    × (after.owner ≡ none)
    × (after.failed ≡ false)
write_transaction_outcome_example = write_transaction_outcome quiet 1 body (idle false) refl refl

recovery_required_lem_example :
    foldl
      (use_writer quiet)
      (idle true)
      (transaction 1 body ∷ executes_write 2 commit ∷ atomic 1 body ∷ [])
    ≡ idle true
recovery_required_lem_example =
    recovery_required_lem quiet (idle true)
      (transaction 1 body ∷ executes_write 2 commit ∷ atomic 1 body ∷ []) refl refl
