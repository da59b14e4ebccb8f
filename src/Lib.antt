-- ===== src/Lib.antt =====
-- grag keeps a project's knowledge graph in an embedded database and serves it to agents over HTTP
-- and MCP. A request is admitted by its size (src/grag/request_limits.py), charges its work to budgets
-- (src/grag/core/limits.py), reads or writes records of nodes and edges (src/grag/core/types.py), and is
-- answered with a packed context within a token budget (src/grag/core/serialize.py), from candidates
-- that the search has ranked (src/grag/retrieval/search.py) and whose evidence is current
-- (src/grag/core/evidence.py). Writes go through one writer (src/grag/core/engine.py), and readers of
-- code indexes share one verification of them (src/grag/refresh.py), which is one of the background
-- jobs (src/grag/jobs.py). Parsed modules are kept in a cache (src/grag/ingest/code_cache.py).
--
-- The files, by the code they are about:
--   Base: lists, dicts, tests, results and property values as Python has them.
--   Graph: node ids and the records of src/grag/core/types.py.
--   Limits: src/grag/core/limits.py. The context variables are a record that each call takes and gives
--     back; an encoder's chunks and a file's bytes are arguments.
--   Admission: RequestLimitMiddleware of src/grag/request_limits.py, on the list of the messages that
--     the client sends.
--   Pack: pack_context of src/grag/core/serialize.py with its inner functions, phase by phase. The lists
--     and dicts that the source changes in place are fields of a record.
--   Retrieval: retrieval_budget, attach_metadata and pack_text_page of src/grag/retrieval/packing.py.
--     Retrieval/Qualifiers has what a read adds to its nodes, with changed_sources of
--     src/grag/core/source_anchors.py. The binary search has fuel for as many rounds as there
--     are ends to choose from, and each round leaves fewer.
--   Ranking: _promote_exact_identifiers, _diversify and _seed_refs of src/grag/retrieval/search.py.
--   Evidence: exclusion_reason, and the loop over superseding nodes in finish_update, of
--     src/grag/core/evidence.py.
--   History: the revisions that the same file records, with claim_changed of
--     src/grag/core/source_anchors.py. History/Update has the operations, History/Laws what they rely
--     on of the database, and the log of a node that they implement. History/Page is read_history.
--   Identifiers: validate_identifier of src/grag/core/ident.py.
--   Mutate: _coerce_value, _sanitize_props, _upsert_nodes and _upsert_edges of
--     src/grag/core/mutate.py.
--   Mutations: apply_mutation of src/grag/core/mutations.py, with the guards of _prepare and the
--     receipts. Mutations/Batch has the loops over the nodes, Mutations/Apply the rest. It calls
--     History and Mutate on a database that is a record of queries and statements.
--   Revisions: content_revision of src/grag/core/revisions.py.
--   ParseCache: the bounded cache of parsed modules of src/grag/ingest/code_cache.py.
--   Writer: the writer of src/grag/core/engine.py, with _run, execute_write, write_transaction and
--     atomic_writes. What the native connection answers is a function of the statements sent to it.
--   Extract: the values of a result, extract_subgraph and drop_internal_rows of the same file.
--     Extract/Inside says which dicts are in a result, without the code's traversal of it.
--   Refresh: CodeIndexRefresher of src/grag/refresh.py. Refresh/Cycle is the job, with what other
--     threads do between its holds of the lock, and Refresh/Read a reader that waits for it. Times
--     are milliseconds, the clock is read once for each hold of the lock, and the services that
--     it calls are the environment of a round.
--   Jobs: JobManager of src/grag/jobs.py as functions of its state; Jobs/System has the steps of its
--     threads, one for each hold of the lock.
-- A component's own file holds its definitions, the files below it what is proved of them, and its
-- Tests the runs at small inputs.
--
-- Conventions: an exception is a value of Result, by its class and what identifies it; messages and
-- hints are left out. Functions of Python and of packages (json, str, dates, the case folding of
-- texts, the database's answers, the thread pool's, the clock, random ids, scores of type float) are
-- parameters. Loops are structural recursion on what they go over. The loop over superseding nodes
-- has fuel for 129 rounds: the set of seen nodes starts with one and grows by one each round, and
-- the code refuses a set of more than 128.
--
-- Not modelled: the charges to the work budget within pack_context, which can only end the call with
-- an error; how many tokens a search response or a page takes, beyond what Pack has; the size of a
-- Python object in the parse cache; the readers and the lease of the database; what _prepare makes of
-- a request before its guards; the other parts of
-- grag, which are queries, files on disk, parsers of source text and glue.
pub mod Base
pub mod Limits
pub mod Admission
pub mod Identifiers
pub mod Graph
pub mod Pack
pub mod Writer
pub mod Jobs
pub mod Refresh
pub mod Evidence
pub mod Extract
pub mod History
pub mod Mutate
pub mod Mutations
pub mod ParseCache
pub mod Ranking
pub mod Retrieval
pub mod Revisions
