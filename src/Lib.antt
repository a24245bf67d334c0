-- ===== src/Lib.antt =====
-- The Go program mcp-semantic-search-zvec-go indexes the files of a workspace for semantic search: it
-- cuts each file into chunks (internal/indexer/chunk), gives every chunk an id
-- (internal/indexer/chunk/docid), embeds the chunks in batches, writes them into a vector store
-- (internal/store/zvec), and keeps a manifest of which file has which ids. This library models the
-- line-window chunker, the collector of batches, the handling of ids, how a file is indexed,
-- removed and searched for, a run over the files of a
-- workspace, the owner of an index and the promotion of a staged one, the payload of the lock file,
-- and the registry of open workspaces.
--
-- Bytes and texts are lists of code numbers; Go's `int` is the natural numbers where the code keeps it
-- from being negative, and the integers where an option may be. Sizes stay far below 2 ^ 63, so no
-- wrap-around is modelled. Callbacks that may fail are functions that return the new state of whatever
-- they write to and an optional error, for any type of error.
--
-- Prelude and its children: names passed on from the libraries, Boolean tests on numbers, integers.
-- Bytes: byte strings, and the normalisation of content and the line checks of
--   internal/indexer/chunk/chunk.go.
-- Window: chunks, options and chunkFromLineWindow (internal/indexer/chunk/chunk.go,
--   internal/store/zvec/store.go).
--   Window.Slide: SlideWindowEmit (line_window.go), its binary search for the token budget included.
--   Window.Reader and Window.Stream: lineReader and streamChunkBatched (stream.go).
--   Window.Files: FileChunks and FileChunksEmit (line_window.go).
--   Window.Spans, Streamed, InMemory, Reading, Options, Parity, Coverage, Slices, Budget, Limits:
--   proofs.
-- Ids: dedupeIDs, deleteOutcome and deleteError (internal/store/zvec/write_result.go), AssertUnique
--   (internal/indexer/chunk/docid/docid.go), staleDocIDs and rollbackNewDocIDs
--   (internal/indexer/coordinator.go).
--   Ids.Sets and Ids.Deletes: proofs.
-- Batches: batchCollector and ProcessBatches (internal/indexer/chunk/batches.go).
--   Batches.Collected and Batches.Invariants: proofs.
-- Vectors: zvec.Store (internal/store/zvec/store.go), the kinds of its errors (write_result.go), and
--   deleteStaleVectorsFrom (internal/indexer/coordinator_helpers.go).
--   Vectors.Laws: what the coordinator relies on of a store. Vectors.Deletes, Removals: proofs.
-- Manifest: the rows of internal/store/manifest/store.go.
--   Manifest.Desync: the ids and counts of the rows, and manifestZvecDesync
--   (internal/indexer/coordinator.go). Manifest.Desync.Agreement and Distinct: proofs.
-- Index: indexFile and purgeRemovedFile (internal/indexer/coordinator.go), on a world of vectors,
--   manifest and cleanup journal.
--   Index.Frame, Stored and Cleaned: proofs.
-- Search: searchWithGlobExpansion (internal/store/zvec/collection.go) with its windows
--   (internal/store/zvec/glob_topk.go).
--   Search.Expansion: proofs.
-- Progress: the record of a run and its transitions (internal/indexer/progress.go).
--   Progress.Reachable: the sequences of operations, and proofs.
-- WorkspaceSpecs: the registered collections and which of them changed (internal/daemon/config.go and
--   reload.go).
-- Registry: the critical sections of Registry (internal/daemon/registry.go).
--   Registry.Reload: those of ReloadProjects (internal/daemon/reload.go).
--   Registry.System: the threads that use it, and their steps. Registry.Handles, Keys, Begin, Slots,
--   InUse, Used, Opening, Closing, Freed, Detached, Safe, Done, Threads, Reloading, Reserved, Drain, Room,
--   Bounded, Limit, Eviction, Race: proofs.
-- Meta: index_meta and its checks (internal/store/zvec/meta.go and reconcile.go).
-- Reconcile: ReconcileIndex and the writes of index_meta (the same files).
--   Reconcile.Owner, Kept, Geometry: proofs.
-- Errors: the tests on errors (internal/indexer/errors.go, internal/zvecerr/zvecerr.go).
-- Run: a run that is not forced (run in internal/indexer/coordinator.go, reconcileCleanupJournal in
--   coordinator_helpers.go, the journal of internal/store/manifest/cleanup.go).
--   Run.Rewrites, Files, Kept, Replay, Journal: proofs.
-- Staging: the promotion of a staged build (internal/store/zvec/staging.go, promoteStaging in
--   internal/indexer/coordinator.go). Staging.Swap and Mixed: proofs.
-- Lock: the payload of a lock file (internal/lock/lock_payload.go) and its holder (lock.go).
--   Lock.Decimal: the numbers that strconv prints and reads. Lock.Payload: proofs.
-- Tests: runs at fixed inputs.
--
-- Window feeds Batches: the chunker that ProcessBatches chooses hands its chunks to the collector,
-- which numbers them, calls DocIDForChunk and passes full batches on; the check of the ids is that of
-- Ids. Index runs Batches with a callback that embeds and upserts each batch, over the store that
-- Vectors describes, and commits to Manifest. Run replays the journal, runs Index on each scanned file,
-- purges the files that vanished, as Errors tells them, and removes the rows of those that are gone.
-- Reconcile comes before a run, and the promotion of Staging after a forced one; Registry opens and
-- closes the services that start the runs.
--
-- Loops: the sliding window and the streaming chunker run on fuel, a round for each line, which is
-- enough since a round that goes on starts at a later line; the binary search runs on fuel too. The
-- other loops are structural; the attempts of a stale delete count down from three;
-- a search runs on fuel, a round for each document, which is enough since a round that goes on has a
-- larger window; the digits of a number are printed on fuel, one more than the number; a rename is tried
-- twenty times.
--
-- In Index, Run, Reconcile and Staging, what the file system, the chunkers, the embedder and SQLite
-- answer are arguments, so that every theorem holds for all answers; a statement that fails is taken to change nothing.
--
-- Not modelled: the token counter (an argument), the hash of DocIDForChunk (an argument), the symlink
-- checks of the paths, OptionsFromConfig, embedTexts, the prose chunker, and the AST chunker, whose
-- parsers are third-party code. How a forced run fills its staging build, the watcher, the lock on the
-- file, the rest of the daemon, the transports, the embedders and the native vector store are not
-- modelled.
pub mod Batches
pub mod Bytes
pub mod Ids
pub mod Errors
pub mod Index
pub mod Lock
pub mod Manifest
pub mod Meta
pub mod Prelude
pub mod Progress
pub mod Reconcile
pub mod Registry
pub mod Run
pub mod Search
pub mod Vectors
pub mod Window
pub mod WorkspaceSpecs
pub mod Staging
pub mod Tests
