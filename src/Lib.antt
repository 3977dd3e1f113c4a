-- ===== src/Lib.antt =====
-- world-celld: a workflow storage whose cells are durable objects, and its queue.
--
-- A workflow run lives in one cell, `WorkflowRunDO` (src/worker/durable-objects/WorkflowRunDO.ts).
-- Every event of the run goes through `applyEvent` (src/apply-event.ts), inside one transaction of
-- the cell's storage: it checks the event against the run, changes the entities (the run, its steps,
-- hooks and waits) and appends the event to the run's log. A queue message that carries an
-- idempotency key is guarded by a claim, which is a cell of its own or an entry in the run's cell
-- (the same file, behind the handles of src/worker/queue-claims.ts). A hook's token and its ID are
-- owned by shards of their own (src/worker/durable-objects/HookTokenDO.ts and HookIdDO.ts): a client
-- reserves both, has the event applied in the run's cell, and publishes the hook; a shard that finds
-- a claim or a takeover left behind asks the run's cell what became of it. The broker hands a message
-- to the consumer (src/worker/queue-consumer.ts), which has it delivered to the workflow
-- (src/worker/queue-delivery.ts) under its claim.
--
-- A run's streams live in cells of their own (src/worker/durable-objects/StreamDO.ts), which pack the
-- chunks of a write into segments, answer reads in pages, and are emptied page by page when the run
-- expires; another instance of the same class keeps the names of the run's streams. The
-- runs are listed in the shards of a catalog (src/worker/durable-objects/RunCatalogDO.ts).
--
-- Apply: src/apply-event.ts.
--   Entities      the entities, events and requests, types of `@workflow/world` that the code reads
--   External      what comes from `@workflow/world` and from the storage, as the parameter `Platform`:
--                 the schemas' verdicts, the terminal statuses, event IDs, ordered listing, with
--                 the documented laws that the code relies on; `listByPrefix`
--   Transaction   the storage as one map for each key prefix, the outcome, `buildEvent`, `putEvent`
--   Bootstrap     the resilient start: `run_started` on a missing run
--   Guards        the guards of `applyEvent`, in their order
--   RunCases, StepCases, HookCases
--                 the cases of the switch
--   Apply.antt    the switch and `applyEvent`: `apply_case`, `apply_guarded`, `apply_event`
--   Forced        `applyForcedHookDisposal` and `resolveForcedHookClaim`
--   Rule, Log     how a property is proved for every event; Log with its modules Rules, Runs, Steps
--                 and Hooks is the rule for properties of the log
--   Dense, Atomic, Lifecycle, Hooks, Marked, Resume, Takeover, Announce, Claimer
--                 theorems on one event
--   Trace         lists of events, each one a transaction that is rolled back when it throws
-- Queue: the claims of queue messages.
--   Claim, Cell   the claim cell: `reserveQueueMessage`, `confirmQueueMessagePublication`,
--                 `completeQueueMessage`, `abandonQueueMessageReservation`, `claimInflight`,
--                 `holdInflight`, `releaseInflight` and the alarm
--   RunClaim      the run-scoped entries: `reserveRunQueueMessage` and its companions
--   Handle        `QueueClaimHandle`, `cellQueueClaim`, `runQueueClaim`
--   Agreement, Alarm, Exclusion, Suspended
--                 theorems on sequences of operations
-- RunCell: the run's cell around `applyEvent`, src/worker/durable-objects/WorkflowRunDO.ts.
--   Retention     the records of src/retention.ts, the cell's storage, the tombstone
--   Page          `finalizeEventPage` of src/apply-event.ts
--   Events        `applyEvent`, `forceDisposeHook`, `resolveForcedHookClaim`,
--                 `resolveHookTokenClaim`
--   Schedule      `scheduleCleanup`, `enforceRetention`, `cleanupNow`, `rearmCleanup`,
--                 `setCleanupPhase`, `recordCleanupFailure`, the retained phase of `executeCleanup`
--   Pages         the other phases of `executeCleanup`, over the storage as a list of keys
--   Lookups       `resolveExpiredHookClaim`, `getCommittedHook`, `describeForceClaimVictim`,
--                 `getLifecycleStatus`, `getQueueAdmission`
--   Payload       `registerQueuePayload`, `finalizeQueuePayload`, `unregisterQueuePayload`, and the
--                 orphan cell: `scheduleQueuePayloadOrphan`, `cancelQueuePayloadOrphan`, its alarm
--   Steps         the operations as steps at times of the cell's clock
--   Expiry, Journal, Ended, Fence, Orphan, Completion, Deletion, Told, Announced, Notified
--                 theorems on sequences of steps
-- HookIndex: the shards, src/worker/durable-objects/HookTokenDO.ts and HookIdDO.ts with
--   hook-index-shared.ts, for one token and one hook ID.
--   Slot          what a shard stores for a token: record, claim, retention, takeover, deadlines
--   Reserve       `reserve`: its transaction; Sequential has its loop with `settleTakeover`
--   Publish       `finalize`, `releaseClaim`, `releaseBatch` for one token, `publishCommittedClaim`,
--                 `confirmRepublished`
--   Force         the transactions of `forceReserve`, `settleTakeover`, `rollForward`, `preemptClaim`
--   Compact       `compactClaims`, `compactRetained`, `compactTakeovers`, `rearm`
--   Steps         the transactions as steps
--   Id            the same for a hook ID
--   Holder, Ownership, Exclusion, Orphan, IdOwner
--                 theorems on one transaction and on sequences of them
-- Delivery: the queue's messages.
--   Deadline      src/validation.ts and the delays of src/queue-protocol.ts
--   Envelope      `validateNativeQueueEnvelope` of src/queue-protocol.ts
--   Consumer      `consume` of src/worker/queue-consumer.ts
--   Decide, Deliver
--                 `deliverQueueMessage` of src/worker/queue-delivery.ts, over either claim handle, with
--                 `configuredDeploymentUrl` of src/deployment-routing.ts
--   Accepted, Settled, Resumes, Hops, Reasons, Claimed, Timely
--                 theorems on a message and on a delivery
-- Stream: the cell of a stream and the registry of a run's streams,
--   src/worker/durable-objects/StreamDO.ts, and the frames of src/stream-protocol.ts.
--   Bytes         big-endian fields, as `DataView` reads and writes them
--   Protocol      the limits, `validateStreamWriteChunks`, `validateStreamReadRequest`, and the frames
--                 of a write and of its result
--   ReadFrame     `encodeStreamReadResult`, `decodeStreamReadResult`
--   Rows          the rows under one prefix of the storage, in the order of their indexes
--   Segment       `encodeSegment`, `decodeSegment`, `packSegments`
--   Cell          the metadata with `validateMeta`, `writeChunks`, `closeStream`, `failStream`
--   Read          `readSnapshot` over either layout, `readChunks`
--   Expire        `expireStream` with `expireChunkPage` and `expireSegmentPage`
--   Registry      `registerStream`, `listStreams`, `expireRegistry`, `finalizeRegistry`
--   Log           the abstract stream, and what it is for a cell to stand for one
--   Groups, Packing, ReadPlan, ReadCollect, TakeChunks, ReadSegments, ReadRows, Append, Calls, Pages,
--   PageLoops, PageSteps
--                 lemmas: segments as groups of chunks, the loops of a read, what a write appends,
--                 what each operation does to the log, and what a page of an expiry deletes
--   Frames, ReadTrip, Refines, ReadOn, Removal, Draining
--                 theorems on frames, on sequences of calls and reads, and on pages until the last
-- Catalog: a shard of the run catalog, src/worker/durable-objects/RunCatalogDO.ts.
--   Shard         `upsertRun`, `deleteStaleGlobalRun`, `expireRun`, `compactExpiryFences`
--   Fence, Publication
--                 theorems on sequences of calls
-- Common: tests on numbers, texts and options, maps, lists.
--
-- A state is passed explicitly. A date is its milliseconds and a number of the code is a natural
-- number; where the code checks for a safe integer, the model does. A call that throws (a schema
-- refuses its argument) has no state, since its transaction is rolled back. An operation that awaits
-- other cells is a step for each of its transactions, with the others' answers as arguments; what
-- others do to a claim during a delivery is an argument of the delivery. The loop of `reserve` is
-- given its rounds, each with its two readings of the clock, of which three are enough, and the pages
-- of an expiry and of a registry are bounded by the number of rows; every other definition is
-- structural. The text of a stored hook is read and written by the parameter `HookCodec`, the
-- texts of a stream's error by the parameter `TextCodec`.
--
-- Where the model stops short of the code: the steps of the run's cell (RunCell/Steps) leave out the
-- pages that delete, which Pages has over a storage of its own, and a firing alarm is not cleared
-- before such a step; `rearm` of a token shard is given the deadlines that its scans find, and the second that
-- a failing alarm waits is left out; `releaseInflight` always names a message.
--
-- Not modelled: the messages of failures; the test of a claim name's prefix, and that of a request's
-- run against the name of its cell; the three fields of a hook that are always empty; the cleanup of
-- hooks and waits by a store without `deferTerminalCleanup`, which is the test harness's;
-- `parseApplyEventRequest`; in the run's cell, the cleanup of an ended run's hooks and waits and the
-- listings for the HTTP surface (what the cell says of an expired run is an argument of the run-scoped
-- claims); in the hook shards, the loop and the answers of `forceReserve` around its
-- transactions, the lookups `get`, and the batches, which repeat one token's transaction; in the
-- delivery, a call of the claim that is lost, the limit on the workflow's response, and the
-- validation of the deployment table; in the stream's cell, the waiters of a long poll and their
-- timers (the cell at the end of the wait is an argument), the abort of a read, and
-- `normalizeStreamError`, whose result is an argument; in the catalog, `list` and the form of
-- a run's keys; the stream's client, the producer, the sweep, the router and the transport.
pub mod Common
pub mod Queue
pub mod Apply
pub mod RunCell
pub mod HookIndex
pub mod Delivery
pub mod Stream
pub mod Catalog
