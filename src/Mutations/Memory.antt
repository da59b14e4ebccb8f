-- ===== src/Mutations/Memory.antt =====
-- Receipts in memory, for the tests: they have the laws that `apply_mutation` relies on.
use grag.Base.{
  ℕ, String, List, [], ◌∷◌, Option, none, some, Bool, true, false, ◌≡◌, refl, sym, ap, zero, suc,
  inl,
}
use grag.Base.Dict.{lookup}
use grag.Base.Wire.{
  Wire, via, both, lists, options, texts, flags, nats, encode, decode, decode-encode,
}
use grag.Base.Dict.{Dict}
use grag.Base.Values.{Value}
use grag.Base.Result.{Result, returned, returned_inj}
use grag.Limits.{done}
use grag.History.{UpsertNode}
use grag.History.Memory.{Memory, memory, props_text}
use grag.History.Steps.{number, SameHistory}
use grag.Mutate.{Warning, internal, undeclared, mistyped, repeats}
use grag.Mutations.{MutationSummary, Receipt, Store, Codec, Target}
use grag.Mutations.Replay.{IsStore}
use grag.Mutations.Writing.{IsApart}

abbrev pub to_receipts : List (String × (String × String)) → List Receipt
to_receipts [] = []
to_receipts ((id, (digest, result)) ∷ more) =
    record { id = id; digest = digest; result = result } ∷ to_receipts more

abbrev pub planned : List UpsertNode → List Target
planned [] = []
planned (node ∷ nodes) =
    record { identity = "Claim:a"; expected = node.expected_revision } ∷ planned nodes

abbrev pub entities_of : Option (Dict Value) → List (Dict Value)
entities_of none = []
entities_of (some p) = p ∷ []

abbrev pub memory_store : Store memory
memory_store = record {
  has_operations = λ s. s.operations;
  receipts = λ s. to_receipts s.receipts;
  create_operations = λ s. returned (record s { operations = true });
  create_receipt = λ r s.
      returned
        (record s { operations = true; receipts = (r.id, (r.digest, r.result)) ∷ s.receipts });
  validate = λ req s.
      returned (record {
        nodes = req.nodes;
        edges = req.edges;
        targets = planned req.nodes;
        warnings = [];
      });
  entities = λ id s. entities_of (lookup id s.nodes);
  commit = λ s t. (returned tt, t);
}

pub memory_store-IsStore : IsStore memory_store
memory_store-IsStore = record {
  create_receipts = λ r s s' h. rw (← returned_inj h);
  create_operations_there = λ r s s' h. rw (← returned_inj h);
  commit_kept = λ s t u h. ap (λ (p : Result (Unit {0}) × Memory). p.1) (sym h);
}

with_receipts :
    (s : Memory) (rs : List (String × (String × String)))
    → SameHistory memory s (record s { operations = true; receipts = rs })
unfolding number
with_receipts s rs = record { rows = refl; numbers = λ id. refl; present = λ id p e. (p, e) }

pub memory_store-IsApart : IsApart memory_store
memory_store-IsApart = record {
  operations = λ s s' h. rw (← returned_inj h) (with_receipts s s.receipts);
  receipt = λ r s s' h.
      rw (← returned_inj h) (with_receipts s ((r.id, (r.digest, r.result)) ∷ s.receipts));
  commit = λ s t u r h. inl (ap (λ (p : Result (Unit {0}) × Memory). p.1) (sym h));
}

abbrev pub to_tag : Warning → ℕ × (String × String)
to_tag (internal o n) = (0, (o, n))
to_tag (undeclared o n) = (1, (o, n))
to_tag (mistyped o n) = (2, (o, n))
to_tag (repeats o n) = (3, (o, n))

abbrev pub of_tag : ℕ × (String × String) → Warning
of_tag (zero, (o, n)) = internal o n
of_tag (suc zero, (o, n)) = undeclared o n
of_tag (suc (suc zero), (o, n)) = mistyped o n
of_tag (suc (suc (suc k)), (o, n)) = repeats o n

pub tag_back : (w : Warning) → of_tag (to_tag w) ≡ w
tag_back (internal o n) = refl
tag_back (undeclared o n) = refl
tag_back (mistyped o n) = refl
tag_back (repeats o n) = refl

abbrev pub Fields : Type 0
Fields = ℕ × (ℕ × (List Warning × (Option String × (Bool × (Dict String × Dict String)))))

abbrev pub to_fields : MutationSummary → Fields
to_fields m =
    (m.nodes, (m.edges, (m.warnings, (m.operation_id, (m.replayed, (m.revisions, m.history))))))

abbrev pub of_fields : Fields → MutationSummary
of_fields f = record {
  nodes = f.0;
  edges = f.1.0;
  warnings = f.1.1.0;
  operation_id = f.1.1.1.0;
  replayed = f.1.1.1.1.0;
  revisions = f.1.1.1.1.1.0;
  history = f.1.1.1.1.1.1;
}

abbrev pub summaries : Wire MutationSummary
summaries =
    via to_fields of_fields (λ m. refl)
      (both nats (
        both nats (
          both (lists (via to_tag of_tag tag_back (both nats (both texts texts)))) (
            both (options texts)
              (both flags (both (lists (both texts texts)) (lists (both texts texts))))))))

abbrev pub codec : Codec
codec = record {
  canonical = λ req. elim req.nodes [ [] ↦ none | n ∷ _ ↦ some (props_text n.properties) ];
  summary_json = λ m. encode summaries m;
  parse_summary = decode summaries (of_fields (0, (0, ([], (none, (false, ([], [])))))));
  encoding = λ m. done;
  embeds = λ a b. false;
}

pub codec-parses : (m : MutationSummary) → codec.parse_summary (codec.summary_json m) ≡ m
codec-parses m = decode-encode summaries (of_fields (0, (0, ([], (none, (false, ([], []))))))) m
