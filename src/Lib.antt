-- ===== src/Lib.antt =====
-- Verification of SOT-Graph, a code graph with evidence-backed answers (src/sot_graph).
--
-- The program and its parts
--
-- SOT-Graph indexes a repository into a graph and answers questions on it: which symbols match a
-- query, who calls a function, what a diff breaks, whether a commit may be made. Each answer comes
-- with its evidence, and the parts modelled here are the pure deciders behind the answers: they
-- take what git, SQLite and the parsers returned and say how far it can be trusted.
--
-- * Assurance (src/sot_graph/assurance). A receipt gathers facts and `decide` turns them into a
--   status with reason codes; the gate before a commit combines that status with the test report
--   of the caller and the dispositions of the diff. Assurance/State is state.py: `AssuranceFacts`
--   and `decide`. Assurance/TestReport and Assurance/SafeCommit are resolution.py:
--   `validate_test_results` and `canonical_test_results`, and `safe_commit_verdict`, which calls
--   the former. Assurance/PreReceipt is `pre_receipt_binding` of the same file, which says whether
--   the predictions of a receipt made before the change may be used. Assurance/Disposition is
--   `disposition_matrix`, which compares these predictions with the changed files.
--   Assurance/Accounting is accounting.py, the registry of bounded collections whose sources and
--   reason codes the receipts use. Assurance/Identity is identity.py: the identity tuple of a symbol
--   (`identity_key`), the normalization of its path with `posixpath.normpath` written out (Paths),
--   the ids of providers (Providers) and `dedup_by_identity` (Keys). Assurance/Ledger is ledger.py:
--   `union_evidence`, which groups the rows of providers (Groups) and judges each group (Supported).
-- * Search/Evidence is src/sot_graph/evidence.py: the evidence of a search hit, its four trust axes
--   (`derive_trust_axes`) and its older one-word verdict (`to_legacy_verdict`).
-- * Impact is src/sot_graph/diff_impact.py: Impact/Diff is `parse_unified_diff`, one turn of its loop
--   being `step` and Diff/Header the regular expression of a hunk header; Diff/Printed writes down how
--   git prints a diff, with the lines on modes and blobs, independently of the parser; renames,
--   copies and binary files are left out of it. Impact/Mapper takes the intervals of a diff to the
--   nodes they meet, Impact/Callers walks the call graph backwards from those nodes, Impact/Engine
--   composes the two, Impact/Summary scores the result, and Impact/Risk rates one commit of a log.
-- * History is src/sot_graph/outcome.py: History/Subject reads a commit's subject and body,
--   History/Commit links two commits by the files they share, History/Hunks by the lines they
--   share, and History/Outcome labels each commit of a history and gives its verdict. Outcome/Links
--   says what links two commits in plain terms, and Shared and Decided that the tests decide it.
-- * Analytics/Graph is src/sot_graph/analytics/graph.py, the graph in memory: `add_node` and `add_edge`
--   with the cached degrees (Counts, Refine), its loading from the rows of SQLite (Load, Ends),
--   `connected_components` (Components) and `detect_cycles` (Cycles).
-- * Storage/Lock is src/sot_graph/locking.py, the lock that every writer of the database takes. Each
--   turn of the loop of `acquire` is three functions (`begin`, `try_acquire`, `verify_path`), since
--   other processes run between them; Steps is the relation of all interleavings of threads,
--   processes, forks and removals of the lock file.
-- * Storage/Freshness is src/sot_graph/freshness.py, the gate in front of a query: `staleness_probe`
--   compares the file journal with the disk (a record `Host` holds what the operating system and the
--   ignore rules say of a path), `ensure_fresh` in Serving decides what is brought up to date first
--   and what the envelope says (a record `Calls` holds what the calls return, and the actions set
--   going are listed), and `spawn_background_reconcile` in Background keeps its lock file.
-- * Providers/Compatibility is src/sot_graph/providers/compatibility.py: the registry of the binaries
--   that were tested (`register`) and the verdict on an installed one (`assess`). Providers/Artifacts
--   is artifacts.py, the store of managed binaries: `promote`, `uninstall` and `resolve`, with
--   `import_artifact` in Importing, the schema of a manifest in Manifest and the paths below the
--   root of the store in Files (a `Disk`). Operations runs the three calls that change the store one
--   after another. What the operating system answers to a call is a record `Io`, and each call is
--   given its own; a directory that another process plants while a binary is staged is part of it.
--
-- Prelude holds what they share: native numbers and their Boolean tests, lists measured by them,
-- sets of strings as lists (Members), a stable sort, the integers, chains of optional results
-- (Options), Python's `str` operations on lists of code points (Text) and what stripping keeps (Strip).
--
-- How the code is modelled
--
-- A dataclass is a record, an enumeration or a set of string constants is a data type, a function
-- of the source is a function of the same name, and its consecutive steps are functions that it
-- composes. An exception is `none`, or a fault of a result type where it carries a value. What
-- code outside the modelled functions returns is a parameter: the rows of an SQL query
-- (`rows_into`, `query`, `count`), the hunks of a commit that git prints (`intervals`), the
-- optional verifier of a link (`verify`), the verifier of a span in the source (`verify` of the
-- ledger), the digest of a receipt, real paths, the sweep of the
-- package by Python's ast, `json.loads` and `json.dumps`, sha256, the decoding of UTF-8 and of the
-- escapes in a quoted path, and floating-point numbers with the tests made of them. Regular
-- expressions are written out on code points; letters are compared as ASCII.
--
-- A dictionary is a function with its default where it is only read by key, and a list where its
-- order matters; a set is a list without repetition, iterated in that order. A thread of the lock
-- has the guard of its process for a whole turn, so at most one attempt is under way in a process.
--
-- Loops are recursion on the list they read. Some run on fuel: the printing of a decimal takes as
-- much fuel as the number's successor, which is more than its digits; the search for quoted names
-- takes one unit for each character; the `while` loop of the
-- call-graph traversal takes one unit for each turn, of which there are at most as many as direct
-- nodes and nodes of the graph together; that of `connected_components` has at most as many turns
-- as nodes, and that of `detect_cycles` at most two for each node, one to enter and one to leave it.
--
-- What is not modelled
--
-- Input and output (git, SQLite, processes, the daemon and the watcher), the command
-- line and the MCP server, the language parsers, the adapters of external providers, the exporters
-- and the vendored graph library. Of the modelled files the serialisation to dictionaries, the
-- prose of reasons and evidence and the elapsed times are left out. Of the lock the deadline of a
-- waiting writer, the end of a process, a fork while its parent has an attempt under way (its child
-- keeps the locked guard, and never gets the lock) and the Windows branch are left out; of the store of binaries
-- the checks of its constructor, the directory in which a binary is staged and the paths of a
-- descriptor; of the freshness gate samples, durations, error texts and overlapping spawns; of a
-- parsed hunk the fields that repeat its numbers; of the graph what
-- computes with floats (PageRank, modularity, cohesion) and the SQL aggregates.
mod Prelude
pub mod Assurance
pub mod Search
pub mod History
pub mod Impact
pub mod Storage
pub mod Analytics
pub mod Providers
