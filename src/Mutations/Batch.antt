-- ===== src/Mutations/Batch.antt =====
-- The nodes of a batch: they are prepared before any of them is written, and their revisions are
-- recorded once all are.
use grag.Base.{ℕ, String, List, [], ◌∷◌, Option, none, Bool, ◌||◌, if◌then◌else◌}
use grag.Base.Dict.{Dict, insert}
use grag.Base.Result.{Result, returned, ◌>>=◌}
use grag.History.{Database, Env, UpsertNode, identity, Prepared, Changed}
use grag.History.Update.{has_evidence, before_update, after_update, finish_update}
use grag.Mutations.{disposition}

module _ (db : Database) where
  abbrev pub engage : (String → Bool) → UpsertNode → db.State → Result (Option Prepared × db.State)
  engage tracked node s =
      if has_evidence db node || tracked node.label
      then before_update db node s
      else returned (none, s)

  unfoldable pub prepare_each :
      (String → Bool)
      → List UpsertNode
      → db.State
      → Result (List (UpsertNode × Option Prepared) × db.State)
  prepare_each tracked [] s = returned ([], s)
  prepare_each tracked (node ∷ nodes) s =
      let rest = prepare_each tracked nodes in
      engage tracked node s >>= (λ r. rest r.1 >>= (λ q. returned ((node, r.0) ∷ q.0, q.1)))

  -- The loops over `zip(nodes, prepared)`
  unfoldable pub after_each :
      Env
      → List (UpsertNode × Option Prepared)
      → db.State
      → Result (List (UpsertNode × Option Changed) × db.State)
  after_each env [] s = returned ([], s)
  after_each env ((node, p) ∷ more) s =
      let rest = after_each env more in
      after_update db env node p s >>= (λ r. rest r.1 >>= (λ q. returned ((node, r.0) ∷ q.0, q.1)))

  unfoldable pub finish_each :
      Env → List (UpsertNode × Option Changed) → ℕ → db.State → Result (ℕ × db.State)
  finish_each env [] steps s = returned (steps, s)
  finish_each env ((node, c) ∷ more) steps s =
      let rest = finish_each env more in finish_update db env node c steps s >>= (λ r. rest r.0 r.1)

  -- The `history` of the summary, where `s` is the database before the writes
  unfoldable pub dispositions :
      List (UpsertNode × Option Prepared) → db.State → Dict String → Dict String
  dispositions [] s d = d
  dispositions ((node, p) ∷ more) s d =
      dispositions more s (insert (identity node) (disposition p (db.node s (identity node))) d)
