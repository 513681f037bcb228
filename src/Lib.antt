-- ===== src/Lib.antt =====
-- The synchronisation core of HTML Inbox (packages/cli/src).
--
-- An enrolled inbox keeps one ledger: the state of every document it knows (its own and those of its
-- peers), the routes on which it exchanges them, the obligations that each outbound route still has, the
-- receipts it gave or got, and the state of its worker. Every mutation reads the ledger under the store's
-- lock, checks it, changes it and commits it whole. A peer's message comes in under an authorization that
-- names a route and its revision; whatever ends a route advances its revision, so what was authorized
-- before is refused afterwards.
--
-- Which file models which part:
-- - Common and its children: names of the libraries, Boolean tests on native numbers, JavaScript
--   strings as lists of UTF-16 units, `Record<string, V>` as an association list in insertion order
--   (Dicts), and thrown errors as values of Result with one Fault for each message (Results).
-- - Json: values, `JSON.stringify` (Quote and Number print strings and numbers; object keys are written
--   in their order) and the keys that are printed with it (Keys). Numbers are naturals; any other number
--   is kept by its text, which no parser accepts.
-- - Model: packages/cli/src/sync-model.ts with the parts of documents.ts and validation.ts that it uses.
--   Fields holds the checks of single fields, Codec the encodings, fingerprints and signatures, Parse and
--   Routes the parsers of whole records; Checked says what the checks of fields accept. Hashing,
--   signatures, dates, URLs and IP addresses are the record Platform, an argument of everything that
--   uses them.
-- - Ledger: packages/cli/src/sync-ledger.ts. Encode writes the JSON of a ledger; Parse and Load are
--   `parseLedger` with its upgrade of older versions; Bindings are its checks between the parts. Origin
--   and Reread are about origin states, Evidence about evidence as it is sent.
-- - Runtime: packages/cli/src/sync-runtime-config.ts and `validateSyncListenHost`.
-- - Policy: packages/cli/src/sync-ledger-policy.ts. Grants (who may send what), Fence (`fenceLedgerRoute`),
--   Queue (`queueLedgerState`), Retry (`nextRouteRetry`, `isRouteDue`); Fenced, Queued, Forced and Schedule
--   are about them.
-- - Merge: the decision that `applyLocked` takes between the state a record holds and one that comes in;
--   Order compares it with the order of states.
-- - Store: packages/cli/src/sync-store.ts. Monad is the state passing (what was done before an error
--   stays done); Commit is `mutate`, `commit` and `readLedger`; Access is `authorizeRoute` and the owner's
--   checks; Apply is `applyLocked`; Inbound, Inventory and Reconcile are the receiving side; Outbound and
--   Outbox the sending side; Routes, Documents and Worker the owner's operations; Attempts admits messages,
--   Restore is `quarantineRestore` and `fork`; Delivery is `deliveryStatus` and Holdings
--   `reconcileHoldings`. Committed, Authority, Applied, Received, Delivered, Held, Revoked, Pinned, Outgoing,
--   Offered, Owned, Audited, Admitted and Restored are about them.
-- - Wire: packages/cli/src/sync-wire.ts and sync-failure.ts. Tokens and Parse are the parsers, Evidence is
--   `createEvidence` and `scopeDigest`, Progress is `validatePageProgress`, Failure the table of failures
--   and their kinds; Ordered and Classified are about them.
-- - Server: packages/cli/src/sync-http-server.ts. Sessions, Manifest and Bodies are the pieces of `handle`
--   between its awaits, Events their composition, Requests what precedes them, Failures
--   `protocolFailure`. Counts, Sound, Kept, Held, Served, Resumed and Reached are about the states that
--   they lead to; Answered and Authenticated about failures and requests.
-- - Reconciliation: packages/cli/src/sync-reconciliation.ts. Checks are the checks of a peer's answers and
--   `recordFailure`, Pull is a round of the loop of `pull` from the answer on, with the calls of the store for
--   deleted states, Exchange that loop against a session of the server: the page that the server cuts is
--   the JSON value that the client parses, and no one else changes the client's store meanwhile; Cut,
--   Accepted, Pages, Round, Sizes, Whole and Vouched are about it.
-- - Worker: packages/cli/src/sync-worker.ts. Tickets is `parseWorkerRun`, `requestRun`, `cancel`, `kick` and
--   `close` until its first await, Passes is `drain` between its awaits and `tick`, Events their
--   composition; Sound, Kept, Aborted, Passed, Answers and Reached are about what they lead to.
-- - Deletion: packages/cli/src/document-deletion-protocol.ts. Serialized and Answered are about the errors and
--   answers that the parent reads; the depth of an error is counted down from 3.
-- - Tests: a small inbox, with runs of the operations on it.
--
-- How the code is read. An operation of the store is a function from the store to a result and the store
-- that it leaves; the lock makes each operation one step. A mutation reads the ledger from disk and
-- works on its own copy, so an operation that fails before its commit leaves the ledger as it was; the
-- aborted attempts and the installed bodies are kept in the store itself. Where the code changes an
-- object that the ledger holds, the model puts the new value under the object's key. `randomUUID`, the
-- clock and `Math.random` are arguments; the random number is a fraction of naturals. A field that the
-- source types by the literal 1 is not a field of the record and is written by the encoders. Where
-- several fields of an input are invalid at once the model may report another of the messages first.
--
-- Bounds. Numbers are naturals; the parsers admit those up to 2^53 - 1, and `allocate_version` refuses
-- to go beyond. `2 ** Math.min(attempts - 1, 30)` stays exact. Every loop is over a list, but for that
-- of `exchange`: it has as many rounds as it is given, and one for each page is enough.
--
-- Not modelled. The store begins recovered: enrollment, recovery, staging of bodies and the failures of
-- the file system and of the lock are left out (an audit asks the file system, which is an argument,
-- whether it opens a body), as are the timers and the closing of attempts, the waiting of `quiesceRoute`,
-- `pinOutgoing` and the reader. So are the sockets and byte counters of the server and the client (a
-- request that is destroyed while it is authenticated is one whose flag says so), the push of an
-- inventory, the ownership and the control listener of the worker, the viewer, the command line and the
-- publishing backends. The client's limit of 16 MiB for the text of a page is not tested: 128 states of
-- at most 64 KiB and evidence on at most 10000 origins are shorter.
mod Common
mod Tests
pub mod Json
pub mod Model
pub mod Runtime
pub mod Ledger
pub mod Policy
pub mod Merge
pub mod Store
pub mod Wire
pub mod Server
pub mod Reconciliation
pub mod Worker
pub mod Deletion
