-- ===== src/Lib.antt =====
-- nfvis: the configuration transactions of a network function virtualization host.
--
-- The daemon keeps one configuration tree. A session takes the lock, edits a candidate copy, and
-- commits it: the candidate is checked, pushed to the data plane, and stored as a new revision. A
-- commit may ask to be confirmed in time, or else the revision before it comes back. Old revisions
-- can be loaded into the candidate. All of it is audited.
--
-- Files, by the code they model:
--   Prelude: shared names, tests into Bool, lists and texts over native numbers.
--   Model: internal/model/model.go, each struct as a record (Model/System, Network, Compute, Tree),
--     a pointer as an option; Model/Login: the super-user check of internal/model/validate.go;
--     Model/Equality: configEq of internal/config/engine.go.
--   Engine/Types, Engine/Db: internal/config/store_sqlite.go, its tables as a record `Db`, one
--     function per method of `Store`. `fault` says which kinds of statement fail.
--   Engine/State: `Engine` and `Options` of internal/config/engine.go, calls as a state monad with
--     errors; the timer is the deadline at which it is armed, and time is an argument `now`.
--   Engine/Lifecycle (NewEngine, Close, Edit, Release, Discard, sweepLocked, onConfirmedTimer,
--     doConfirmedRollback, recoverConfirmedLocked), Engine/Candidate (UpdateCandidate,
--     inheritSensitive, MergeCandidate, Candidate, Sessions, CommitCheck, CompareCandidate),
--     Engine/Commit (Commit, ConfirmCommit), Engine/History (Rollback, Compare, CurrentRevision,
--     History, AuditTrail, Audit), Engine/Checks (checkImages, sysMgmtChanged, deletedNatRefVRFs,
--     numaWarnings), Engine/HighRisk: internal/config/audit_highrisk.go.
--   Engine/Requests: the calls of clients, the timer and a restart as sequences of steps.
--   Engine/Keeps, Frame, Guards, Healthy, Swept, Reads, Outcome: lemmas on calls.
--   Engine/Owned, OwnedRuns, Exclusion, Locks: the session lock. Engine/Numbered: the numbers of
--     revisions. Engine/Commits: commits as a whole. Engine/Confirmed: confirmed commits.
--   Engine/Revisions: rollback, history and inherited hashes. Engine/Tests: runs on small data.
--   Orchestrator/Executor: op, Apply and its compensations (internal/orchestrator/apply.go), the
--     calls of the alarm sink as a list; Orchestrator/Reversal, Report: theorems on it;
--     Orchestrator/Atomic: the orchestrator as the applier of the engine.
--   Orchestrator/Ports: internal/orchestrator/vnf.go; Orchestrator/Actions: the calls of
--     internal/orchestrator/provider.go as data, and ifaceApply and deleteVRF; Orchestrator/Steps,
--     Plan: `plan` of internal/orchestrator/apply.go, a loop over a map in the order of the
--     configuration; Orchestrator/Planned: theorems on plans.
--   Resources/Hugepages, Cores, Ledger: NewPoolLedger, Allocate and CheckResources
--     (internal/model/resources.go), parseCoreList and the folding comparison of texts being
--     arguments; Resources/Exclusive, Pages: theorems on cores and pages.
--   Aaa/Service: Login, Logout, VerifyToken, HasUsers, recordFailure and sweepLocked of
--     internal/aaa/service.go, a Go map as a function into options; Aaa/Classes: Authorize and
--     matchPrefix; Aaa/Policy: CheckPasswordPolicy and ChangePassword; Aaa/Tokens, Authentic,
--     Lockout, Guessing, Prefixes, Grants, Policies: theorems on them.
--   Images/Store, Import: internal/images/images.go, the map of images as a list of pairs and
--     index.json as `saved`; Images/Settled, Available, Listed, Served: theorems on them.
--   Json/Value, Redact, Merge: RedactTree (internal/model/redact.go), IsSensitiveKey and identityOf
--     (internal/model/diff.go) and Merge (internal/model/merge.go) on documents as trees;
--     Json/Clean, Merged, Pruned, Paths: theorems on them.
--   Validate/Tables, Network, Services: collect and checkInterfaces to checkQos of
--     internal/model/validate.go; Validate/Ports: checkPortRoleExclusivity and
--     checkManagementIsolation there; Validate/Duplicates, References, Accepted, Roles,
--     Exclusive: theorems on them.
--
-- Parameters: JSON (`encode`, `decode`, the first followed by the second being the identity where a
-- theorem says so), the applier (`apply`, which answers the state of the data plane and an error),
-- the validator, the merge of documents, images and topology, the
-- operations of a plan for the executor, `path.Join`, `parseCoreList`,
-- `VerifyPassword`, the random text of a token, the tests of `unicode`,
-- files and Docker, regular
-- expressions and the parsers of addresses. A call runs under the engine's mutex,
-- so a run is a sequence of calls. A failing statement leaves the tables as they are. Texts that the
-- source formats (audit details, messages) are data, a difference is the pair of configurations.
-- Counts that the source keeps in signed integers are natural numbers; times are nanoseconds.
--
-- Not modelled: the rest of the validator, the text of differences, the download of images, the
-- hashing of passwords, the schema and the command line, HTTP handlers, drivers of external
-- daemons, and the opening and migration of the database.
pub mod Prelude
pub mod Model
pub mod Engine
pub mod Orchestrator
pub mod Resources
pub mod Aaa
pub mod Images
pub mod Json
pub mod Validate
