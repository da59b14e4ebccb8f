-- ===== src/History/Refinement.antt =====
-- `finish_update` implements the log.
use grag.Base.{
  ℕ, ◌+◌, ◌*◌, ◌≤◌, String, List, [], ◌∷◌, length, Option, none, some, Bool, true, false,
  if◌then◌else◌, str_eq, ◌≡◌, refl, ap, ◌∙◌, arith, eq_iff, Bool-cases, inl, inr,
}
use mathlib.Core.Path.{subst}
use grag.Base.Dict.{insert, update, lookup-insert}
use grag.Base.Values.{Value, Props, int, get}
use grag.Base.Result.{returned, ◌>>=◌, bind-returned, then-returned, returned_inj}
use grag.Limits.{check_size}
use grag.Revisions.{content_revision}
use grag.History.{
  Entry, Row, set_properties, Database, Env, UpsertNode, identity, Changed, property, next_sequence,
  is_unchanged, adopts, actor_of, reason_of, baseline_reason, rows_of, sum_sizes,
  max_snapshot_bytes, max_history_entries, max_history_per_node, max_history_bytes,
}
use grag.History.Update.{
  check_row, new_entry, new_row, add_row, add_previous, add_baseline, add_revision, check_chain,
  record_change, finish_update,
}
use grag.History.Laws.{
  IsDatabase, Note, note_of, notes, with_previous, with_baseline, current_note, recorded,
  next_number,
}

-- A row within the limits.
pub record Fits (env : Env) (r : Row) (there : List Row) : Type 0 where
  pub id_bytes : env.utf8 r.node_id ≤ 2048
  pub metadata_bytes : env.utf8 r.metadata ≤ 16_384
  pub row_bytes : env.utf8 r.snapshot + env.utf8 r.metadata ≤ max_snapshot_bytes
  pub entries : length there + 1 ≤ max_history_entries
  pub node_entries : length (rows_of r.node_id there) + 1 ≤ max_history_per_node
  pub bytes :
      sum_sizes env.size there * 4 + (env.utf8 r.snapshot + env.utf8 r.metadata) ≤ max_history_bytes

check_size-returned : (name : String) (a m : ℕ) → check_size name a m ≡ returned tt → a ≤ m
unfolding check_size
check_size-returned name a m h = ground (arith, h)

module _ (db : Database) (env : Env) where
  pub check_row-returned :
      (r : Row) (there : List Row) → check_row db env r there ≡ returned tt → Fits env r there
  unfolding check_row
  check_row-returned r there h =
      let (a, h1) = then-returned _ _ tt h in
      let (b, h2) = then-returned _ _ tt h1 in
      let (c, h3) = then-returned _ _ tt h2 in
      let (d, h4) = then-returned _ _ tt h3 in
      let (e, f) = then-returned _ _ tt h4 in
      record {
        id_bytes = check_size-returned _ _ _ a;
        metadata_bytes = check_size-returned _ _ _ b;
        row_bytes = check_size-returned _ _ _ c;
        entries = check_size-returned _ _ _ d;
        node_entries = check_size-returned _ _ _ e;
        bytes = check_size-returned _ _ _ f;
      }

  abbrev pub new_note : Value → Props → Option String → Option String → Bool → Note
  new_note n value actor reason baseline = record {
    sequence = n;
    revision = content_revision env.hashing value;
    actor = actor;
    reason = reason;
    baseline = baseline;
  }

  -- What a row of `_record` does to the database.
  pub record Added (id : String) (note : Note) (s s' : db.State) : Type 0 where
    pub log :
        (j : String)
        → notes env.parse_entry j (db.rows s') ≡ (
            if str_eq id j
            then note ∷ notes env.parse_entry j (db.rows s)
            else notes env.parse_entry j (db.rows s))
    pub node : (j : String) → db.node s' j ≡ db.node s j

  module _ (laws : IsDatabase db)
      (parses : (e : Entry) → env.parse_entry (env.entry_json e) ≡ e) where
    pub add_row-Added :
        (id : String) (n : Value) (value : Props) (actor reason : Option String) (baseline : Bool)
        (s s' : db.State)
        → add_row db env id n value actor reason baseline s ≡ returned s'
        → Added id (new_note n value actor reason baseline) s s'
    unfolding add_row notes note_of new_row new_entry
    add_row-Added id n value actor reason baseline s s' h =
        let entry : Entry = new_entry db env n value actor reason baseline (db.now s) in
        let (fits, w) = then-returned _ _ s' h in
        let rows = laws.create_row_rows (new_row db env id n value entry) s s' w in
        record {
          log = λ j. rw (rows, parses entry) refl;
          node = λ j. laws.create_row_node (new_row db env id n value entry) s s' j w;
        }

    abbrev log_at : String → db.State → List Note
    log_at j s = notes env.parse_entry j (db.rows s)

    -- The log of one node has changed, and no node has.
    pub record Logged (id : String) (after : List Note) (s s' : db.State) : Type 0 where
      pub log : (j : String) → log_at j s' ≡ (if str_eq id j then after else log_at j s)
      pub node : (j : String) → db.node s' j ≡ db.node s j

    Logged-refl : (id : String) (s : db.State) → Logged id (log_at id s) s s
    Logged-refl id s = record { log = λ j. ground (arith, eq_iff id j); node = λ j. refl }

    add_previous-Logged :
        (id : String) (p : Option Props) (s s' : db.State)
        → add_previous db env id p s ≡ returned s'
        → Logged id (with_previous env.hashing p (log_at id s)) s s'
    unfolding add_previous with_previous
    add_previous-Logged id none s s' h =
        subst (Logged id (log_at id s) s) (returned_inj h) (Logged-refl id s)
    add_previous-Logged id (some p) s s' h =
        let added = add_row-Added id (int 0) p none (some baseline_reason) true s s' h in
        record { log = λ j. ground (arith, added.log j, eq_iff id j); node = added.node }

    add_baseline-Logged :
        (id : String) (c : Changed) (s s' : db.State)
        → add_baseline db env id c s ≡ returned s'
        → Logged id (with_baseline env.hashing c (log_at id s)) s s'
    unfolding add_baseline with_baseline
    add_baseline-Logged id c s s' h = elim (Bool-cases (adopts c)) [
      | inl e ↦ rw e (add_previous-Logged id c.previous s s' (rw e at h))
      | inr e ↦
          rw e (subst (Logged id (log_at id s) s) (returned_inj (rw e at h)) (Logged-refl id s))
    ]

    -- A SET of a node's number has come in between.
    pub record Numbered (id : String) (n : Value) (s s' : db.State) : Type 0 where
      pub rows : db.rows s' ≡ db.rows s
      pub other : (j : String) → str_eq id j ≡ false → db.node s' j ≡ db.node s j
      pub own : (p : Props) → db.node s id ≡ some p → property (db.node s' id) "_evidence_seq" ≡ n

    set_number-Numbered :
        (id : String) (n : Value) (s s' : db.State)
        → db.write (set_properties id (("_evidence_seq", n) ∷ [])) s ≡ returned s'
        → Numbered id n s s'
    unfolding property update
    set_number-Numbered id n s s' h = record {
      rows = laws.set_rows id _ s s' h;
      other = λ j e. laws.set_other id j _ s s' h e;
      own = λ p e.
          let (p', at, all) = laws.set_node id (("_evidence_seq", n) ∷ []) p s s' h e in
          rw at (all "_evidence_seq" ∙ rw (get, lookup-insert "_evidence_seq" "_evidence_seq" n p));
    }

    -- What `finish_update` does where the content is not the same.
    pub record Finished (node : UpsertNode) (c : Changed) (s s' : db.State) : Type 0 where
      pub log :
          (j : String)
          → log_at j s' ≡ (
              if str_eq (identity node) j
              then recorded env.hashing c node.evidence (log_at j s)
              else log_at j s)
      pub other : (j : String) → str_eq (identity node) j ≡ false → db.node s' j ≡ db.node s j
      pub own :
          (p : Props)
          → db.node s (identity node) ≡ some p
          → get p "_evidence_seq" ≡ property c.previous "_evidence_seq"
          → property (db.node s' (identity node)) "_evidence_seq"
            ≡ next_number env.hashing c node.evidence

    add_revision-Finished :
        (node : UpsertNode) (c : Changed) (s s' : db.State)
        → is_unchanged env.hashing c node.evidence ≡ false
        → add_revision db env node c s ≡ returned s'
        → Finished node c s s'
    unfolding add_revision recorded current_note next_number
    add_revision-Finished node c s s' changed h =
        let id : String = identity node in
        let n : Value = next_sequence (property c.previous "_evidence_seq") in
        let (s2, h2, last) = bind-returned _ _ s' h in
        let (s1, h1, set) = bind-returned _ _ s2 h2 in
        let base = add_baseline-Logged id c s s1 h1 in
        let numbered = set_number-Numbered id n s1 s2 set in
        let added =
          add_row-Added id n (insert "_evidence_seq" n c.current) (actor_of node.evidence)
            (reason_of node.evidence) false s2 s' last in
        record {
          log = λ j.
              let same : log_at j s2 ≡ log_at j s1 = rw numbered.rows in
              ground (arith, added.log j, base.log j, same, eq_iff id j, changed);
          other = λ j e. added.node j ∙ numbered.other j e ∙ base.node j;
          own = λ p e same. rw (changed, added.node id) (numbered.own p (base.node id ∙ e));
        }

    Finished-refl :
        (node : UpsertNode) (c : Changed) (s : db.State)
        → is_unchanged env.hashing c node.evidence ≡ true
        → Finished node c s s
    unfolding recorded next_number property
    Finished-refl node c s e = record {
      log = λ j. ground (arith, e, eq_iff (identity node) j);
      other = λ j d. refl;
      own = λ p at same. rw (e, at) same;
    }

    record_change-Finished :
        (node : UpsertNode) (c : Changed) (s s' : db.State)
        → record_change db env node c s ≡ returned s'
        → Finished node c s s'
    unfolding record_change
    record_change-Finished node c s s' h =
        elim (Bool-cases (is_unchanged env.hashing c node.evidence)) [
          | inl e ↦
              let same : s ≡ s' = returned_inj (rw e at h) in
              subst (Finished node c s) same (Finished-refl node c s e)
          | inr e ↦ add_revision-Finished node c s s' e (rw e at h)
        ]

    -- Where `finish_update` returns for a node whose history is engaged, on a database whose statements
    -- change what they name only, with entries read as they were written: the log of the node is the
    -- one that the specification gives, and every other log and node stays. Where the node is there
    -- with the number that `before_update` found, its number is then that of its last revision.
    pub finish_update-Finished :
        (node : UpsertNode) (c : Changed) (steps steps' : ℕ) (s s' : db.State)
        → finish_update db env node (some c) steps s ≡ returned (steps', s')
        → Finished node c s s'
    unfolding finish_update
    finish_update-Finished node c steps steps' s s' h =
        let (k, chain, rest) =
          bind-returned (check_chain db env node c steps s)
            (λ n. record_change db env node c s >>= (λ t. returned (n, t))) (steps', s') h in
        let (t, wrote, last) =
          bind-returned (record_change db env node c s) (λ t. returned (k, t)) (steps', s') rest in
        let same : t ≡ s' = ap (λ (r : ℕ × db.State). r.1) (returned_inj last) in
        subst (Finished node c s) same (record_change-Finished node c s t wrote)
