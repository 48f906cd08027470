-- ===== src/Lib.antt =====
-- A verification of the decisions that kcatta's Form and Analyzer keep in durable state or derive from
-- untrusted input.
--
-- Form (form/) accepts scan jobs over HTTP and lets workers claim, run and report them; its repository
-- of jobs, a SQLite database that several processes share, is what makes a job run once at a time.
-- Workers and direct operations on a target exclude one another through leases in that database. Form
-- forwards the artifacts to the Analyzer (analyzer/), whose ingest ledger accepts each envelope once and
-- hands it to a derived worker, which matches packages against advisories by the version order of
-- their ecosystem, scores what it finds and caps how much it keeps. What an agent sends reaches Form
-- under a client certificate, which the registry of agents resolves to the agent's identity.
--
-- Prelude: shared names; Boolean tests, texts, lists, the tables of a database as lists of rows with
--   their selections and updates, keys, a stable sort, the cutting of texts.
-- JobStore: form/src/kcatta_form/job_store.py and the job of form/src/kcatta_form/schemas/scan.py.
--   Job: ScanJob and its parts. Rows: the three tables, _encode, _event. Create: create,
--   _make_room_for_job, get, import_legacy. Claim: _fail_exhausted, claim_next. Operations:
--   acquire_, release_ and renew_target_operation. Lease: _leased_row, renew, complete. Control:
--   request_cancel, manual_retry, update_derived_result. Reads: list, list_derived_incomplete,
--   history, fingerprint, retains_artifact.
--   Inversion, Consistent, Exclusion, Lifecycle, Fencing, Reach and Promises are about them.
-- Agents: form/src/kcatta_form/agent_identity_store.py and schemas/agent_identity.py. Form gives each
--   agent a stable identity and client certificates in numbered generations, which the TLS front
--   end has verified against this registry. Rows: the two tables, _certificate_from_row,
--   _identity_from_row and the validators. Normalize: _required_text to _idempotency_hash. Registry:
--   get_or_create and the reads. Rotation: stage_certificate, activate. Revocation: abort, revoke,
--   revoke_certificates. Verify: verify. Effect says what a call that returns did to the
--   tables; Sound, Extends, Reach, Accepted and Promises are about that.
-- Ingest: analyzer/src/analyzer/api/ingest_queue.py (Ledger: IngestLedger; Worker: DerivedWorker) and
--   analyzer/src/analyzer/api/idempotency.py (Seen: SeenIds). Fate, Once and Held are about the
--   ledger, Window about SeenIds.
-- Versions: analyzer/src/analyzer/detect/debversion.py (Debian) and versioning.py (Semver, Rpm, Apk,
--   Choice). Compare: results and int. Order, Swap, Short and Totals are about them.
-- Scoring: analyzer/src/analyzer/scoring.py (Severity), detect/cvss.py (Cvss), detect/limits.py,
--   detect/combine.py and correlate/limits.py (Limits). Bands is about them.
-- Telemetry: form/src/kcatta_form/telemetry_chunks.py, which cuts a report or a trace batch into
--   envelopes that the Analyzer accepts. Pack: flush and add of both functions, over any streams.
--   Lineage: the ids of envelopes. Split: split_asset_report, over any items and any other fields of
--   an AssetReport (analyzer/src/analyzer/schemas/envelope.py). Trace: split_trace_batch. Packed, Bounded, Names,
--   Assets, Outcome, Lossless, Sendable and Traces are about them.
--
-- An operation is a function of the database: it returns its result with the database that it commits,
-- or the exception, whose transaction is rolled back. BEGIN IMMEDIATE runs one transaction at a time,
-- so that the processes that share the database make a sequence of calls (JobStore.Reach). A call's
-- time is its argument; it is a number of microseconds since the epoch, or of ticks in the ledger,
-- where the code has seconds as floats. Durations and limits are not negative. A datetime stands for the
-- number that _micros stores of it. _micros goes through a float and may store one microsecond less than
-- the datetime has; the model adds durations to the stored numbers exactly.
-- A text is its list of code points, which orders texts as Python and SQLite do. A payload column holds
-- the job that its JSON text reads back to; pydantic's stripping and length checks are taken as made.
-- In the registry of agents scopes_json is the list that it reads back to. SHA-256, uuid4, the size of a JSON text, the bytes of SQLite's files and the parser of
-- the package `packaging` are parameters. The heads have no row order; rows that ORDER BY leaves tied
-- come in the order of the table. Version texts are ASCII: Python's tables for other digits and letters are
-- not modelled. `int` raises on more than 4300 digits, Python's default; the parser of `packaging` answers
-- a version or InvalidVersion, and its own numbers are not looked into.
-- The loops of _compare_segment and _rpmvercmp recurse on the number of characters of both texts; each
-- round takes at least one character off. The inner loop of _compare_segment has the same bound.
-- `str` of a number recurses on one more than the number, which has fewer digits than that. What
-- pydantic's JSON takes is a hypothesis where a theorem needs it (Telemetry.Sendable.IsJson).
--
-- Not modelled: the parsers of unbounded artifacts, which are pydantic's validation; connections, the
-- page budget, write-ahead logging, full disks, locks and threads; the ledger's lineage query; the v3
-- base score, which is arithmetic on floats; synchronisation, matching, correlation and prediction in
-- the Analyzer; HTTP, deployment, the certificate authority and connectors in Form; the agent
-- (agent/, Rust) and the console (admin/, TypeScript).
pub mod Prelude
pub mod JobStore
pub mod Agents
pub mod Ingest
pub mod Versions
pub mod Scoring
pub mod Telemetry
