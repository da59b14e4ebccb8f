-- ===== src/Writer/Outcome.antt =====
-- Whole transactions, and a writer that takes no more statements.
use grag.Base.{ℕ, List, [], ◌∷◌, none, some, true, false, foldl, ◌≡◌, refl, ◌∙◌, inl, inr, arith}
use grag.Base.Result.{
  GragError, Result, returned, raised, Result-cases, transaction_outcome_unknown,
}
use grag.Writer.{
  Statement, begin_transaction, Native, Writer, ◌>>◌, execute_write, Body, inside,
  write_transaction, atomic_writes,
}
use grag.Writer.Sending.{is_returned, is_rows}
use grag.Writer.Execute.{execute_write-WroteBy}
use grag.Writer.Commit.{commits, same, Committed, Uncommitted, Inside, inside-Ended}

module _ (n : Native) (me : ℕ) (b : Body) (w : Writer) where
  abbrev begun : Result (Unit {0}) × Writer
  begun = execute_write n me begin_transaction w

  not_begun :
      (x : GragError)
      → w.owner ≡ none
      → begun.0 ≡ raised x
      → write_transaction n me b w ≡ (raised x, begun.1)
  unfolding write_transaction ◌>>◌
  not_begun x o e = simp (write_transaction, ◌>>◌, o, e)

  entered :
      (x : Unit {0})
      → w.owner ≡ none
      → begun.0 ≡ returned x
      → write_transaction n me b w ≡ inside n me b (record begun.1 { owner = some me })
  unfolding write_transaction ◌>>◌
  entered x o e = simp (write_transaction, ◌>>◌, o, e)

  entered-Inside :
      is_returned begun.0 ≡ true
      → w.failed ≡ false
      → (is_rows (n.answer (begin_transaction ∷ w.sent)) ≡ true)
        × Inside n me
            (begin_transaction ∷ w.sent)
            (commits w.sent)
            false
            (record begun.1 { owner = some me })
  unfolding commits
  entered-Inside h f =
      let q = execute_write-WroteBy n me begin_transaction w in
      elim q.log [
        | inl (l, g, r) ↦ absurd (ground (arith, h, g))
        | inr (l, g, r) ↦ (
          g h,
          record {
            owner = refl;
            clean = inr (same l);
            no_commit = rw l refl;
            same_recovery = q.quiet (ground (arith, h)) ∙ (q.open_writer h).1;
          },
        )
      ]

-- A call of `write_transaction` by a thread while there is no transaction, nor a failed one. If it
-- returns, BEGIN, all statements of the body and COMMIT had a result, whatever errors the body
-- caught, COMMIT was sent last and once. If it raises, no COMMIT was sent, or the writer takes no
-- more statements. After both there is no transaction, and it is not a failed one.
pub write_transaction_outcome :
    (n : Native) (me : ℕ) (b : Body) (w : Writer)
    → w.owner ≡ none
    → w.failed ≡ false
    → let (r, after) = write_transaction n me b w in
      (is_returned r ≡ true
        → (is_rows (n.answer (begin_transaction ∷ w.sent)) ≡ true)
          × Committed n (begin_transaction ∷ w.sent) after)
      × (is_returned r ≡ false → Uncommitted (commits w.sent) after)
      × (after.owner ≡ none)
      × (after.failed ≡ false)
unfolding write_transaction ◌>>◌ commits
write_transaction_outcome n me b w o f =
    let p = execute_write n me begin_transaction w in
    let q = execute_write-WroteBy n me begin_transaction w in
    elim (Result-cases p.0) [
      | inr (x, e) ↦
          rw (not_begun n me b w x o e)
            (λ h. absurd cc, λ h. ground (arith, q.log, e), q.owner ∙ o, q.unowned o ∙ f)
      | inl (x, e) ↦
          let (accepted, i) = entered-Inside n me b w (ground (arith, e)) f in
          let (ended, free, clear) =
            inside-Ended n me (begin_transaction ∷ w.sent) b (record p.1 { owner = some me }) i in
          rw (entered n me b w x o e) ((λ h. (accepted, ended.0 h)), ended.1, free, clear)
    ]

-- A use of the writer by a thread, and what it leaves.
pub data Use : Type 0 where
  executes_write : ℕ → Statement → Use
  transaction atomic : ℕ → Body → Use

abbrev pub use_writer : Native → Writer → Use → Writer
use_writer n w (executes_write me s) = (execute_write n me s w).1
use_writer n w (transaction me b) = (write_transaction n me b w).1
use_writer n w (atomic me b) = (atomic_writes n me b w).1

module _ (n : Native) (w : Writer) (o : w.owner ≡ none) (h : w.recovery_required ≡ true) where
  refused_write :
      (me : ℕ) (s : Statement) → execute_write n me s w ≡ (raised transaction_outcome_unknown, w)
  unfolding execute_write
  refused_write me s = simp (execute_write, h)

  refused_transaction :
      (me : ℕ) (b : Body) → write_transaction n me b w ≡ (raised transaction_outcome_unknown, w)
  refused_transaction me b =
      not_begun n me b w transaction_outcome_unknown o
        (rw (refused_write me begin_transaction) refl)
      ∙ rw (refused_write me begin_transaction) refl

  refused_atomic :
      (me : ℕ) (b : Body) → atomic_writes n me b w ≡ (raised transaction_outcome_unknown, w)
  unfolding atomic_writes
  refused_atomic me b = simp (atomic_writes, o, refused_transaction me b)

  refused_use : (u : Use) → use_writer n w u ≡ w
  refused_use (executes_write me s) = rw (use_writer, refused_write me s) refl
  refused_use (transaction me b) = rw (use_writer, refused_transaction me b) refl
  refused_use (atomic me b) = rw (use_writer, refused_atomic me b) refl

-- Once an outcome is unknown and there is no transaction, no sequence of uses of the writer, of any
-- threads, changes it: nothing is sent any more.
pub recovery_required_lem :
    (n : Native) (w : Writer) (uses : List Use)
    → w.owner ≡ none
    → w.recovery_required ≡ true
    → foldl (use_writer n) w uses ≡ w
recovery_required_lem n w [] o h = refl
recovery_required_lem n w (u ∷ uses) o h =
    rw (refused_use n w o h u) (recovery_required_lem n w uses o h)
