-- ===== src/Lib.antt =====
-- The core of Rushes, a video editor whose agent edits a draft through patches.
--
-- The package go/internal/timeline holds the timeline document of a draft, the catalog of the patch
-- operations, the operations, the check of a document and the merging of clips. The tool executors of
-- go/internal/agentexec call ApplyPatch, Validate and the functions of coalesce.go, and hand the result
-- as events (go/internal/contracts) to the reducer (go/internal/reducer), the one writer of the
-- database. The reducer admits a timeline write only from the holder of the draft's edit lease, or from
-- a user while there is none. Long work is a row of the table jobs: the workers (go/internal/worker)
-- claim rows, run their handlers, and report the end to the reducer.
--
-- Files and code:
--   Base, Base/*: Go's bool, int, string and slices, and a result type for (value, error).
--   Float, Float/Fixed: float64 as an interface (a record of operations), and an instance in
--     thousandths to evaluate the model on.
--   Value: the JSON values that an operation holds (map[string]any), with stringValue, numberValue,
--     frameValue, numericValue and valueOr of timeline.go and editing.go.
--   Timeline/Types: Document, Track, TrackDucking, Clip, Empty (timeline.go), ensureRequiredTracks
--     (store.go). Timeline/Errors: errors.go. Timeline/Lookup: the searches of editing.go.
--   Timeline/Metadata: shiftClipTimelineMetadata and syncClipPlacementMetadata (editing.go).
--   Timeline/Clone: clone, the copy through JSON (timeline.go).
--   Timeline/Catalog: op_catalog.go with ValidateOpFields.
--   Timeline/Trim, Split, Reorder, Move, Place, Insert, Settings, Ripple, SourceRange,
--     OriginalAudio: the handlers of ApplyPatch and their parts (timeline.go, editing.go).
--   Timeline/Patch: ApplyPatch and DeriveOriginalAudio. Timeline/Validate: Validate.
--   Timeline/Coalesce, Coalesce/Approved: coalesce.go.
--   Timeline/Spans, Spans/*: lists of clips that cover a range. Timeline/Coverage: the invariant of
--     the primary track. Timeline/Tracks: the tracks' IDs and order. The other child modules are named for what they prove.
--   Contracts: the domain events and their registry (contracts/events.go, under go/internal as all the
--     packages below). Jobs: the table jobs (storage/schema.go) and contracts/jobs.go.
--   Reducer/Lease: the edit leases (reducer/agent_edit_lease_rows.go, storage/agent_edit_leases.go), with
--     Lease/Keys, Lock, Exclusion and Handover named for what they prove. Reducer/Admission: who may
--     write a timeline pointer (reducer/timeline_write_admission.go). Reducer/JobEvents: applyJob and
--     validateJobClaim, Reducer/JobAsset: reconcileUnderstandJobAsset (reducer/reducer.go). Reducer/Apply: Apply, preflightStrict, existingMergeEvent and
--     appendEvents (reducer/reducer.go), over handlers of the events that are a parameter.
--   Worker/Retry, Worker/Claim: worker/job.go. Worker/Runner: NewRunner, claimLanes, runOnce and
--     emitTerminal (worker/runner.go), RecoverStale (worker/job.go). Worker/Steps: the operations of the
--     workers as steps on the table.
--   Timeline/Sample, Timeline/Examples, Catalog/Examples, Validate/Examples: examples and runs.
--
-- A document is a record and an operation is a function from a document, a heap and the fields of
-- the operation to a new document and heap, or an error. A clip's Metadata is a Go map, which is a
-- reference: the heap is the list of those maps and a clip holds an index into it, so that clips
-- that share a map see each other's writes. An error leaves no partial result, since ApplyPatch
-- works on a copy and returns no document with an error.
--
-- Go's int is an unbounded integer here, so nothing is said of an overflow beyond 64 bits. Loops are
-- structural recursion over lists; no fuel is used. The sort.Slice of Validate is modelled as
-- a stable sort: for clips that compare equal, one of the orders that Go may choose. The order in which Go visits a map
-- is fixed in the order of first occurrence, which matters for the order of issues only.
--
-- A table of the database is the list of its rows, an SQL statement is a function on that list, and a
-- transaction that returns an error leaves the list as it was. A statement fails only where a constraint
-- of a modelled table says so. Statements on other tables are left out: of a job event, the rows of its
-- asset and its draft, but not its refusals. The times of edit leases are numbers, since their texts have a fixed width; the
-- times of jobs are the texts that the code compares. Whether the event log has an event already, and
-- whether a draft exists, are parameters.
--
-- Not modelled: Inspect, ToMap, CorrectOpExample and the database reads of store.go, which print or
-- read; the rest of the reducer (the other event handlers, the hook Validate of Apply, the result rows, the rewinds), of the
-- storage and of the contracts, the handlers and the progress reports of the worker; the packages
-- agent, agentexec, api, config, media, providers, telemetry, tools and understanding; the web
-- application and the scripts.
pub mod Base
pub mod Float
pub mod Value
pub mod Timeline
pub mod Contracts
pub mod Jobs
pub mod Reducer
pub mod Worker
