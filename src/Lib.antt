-- ===== src/Lib.antt =====
-- A verification library for the core of Fortemi: the canonical record layer (packages/core/src/records),
-- the job queue (packages/core/src/job-queue-worker.ts) and the capability and provider layer
-- (packages/core/src/capability-manager.ts, packages/core/src/capabilities/fallback-router.ts), with the
-- migrations of the database, the graph filters of packages/graph/src, the tar archives of packages/core/src/shard and the dataset workflow
-- of packages/react/src/dataset.
--
-- The repository of notes calls the record store, which commits records and journal entries together;
-- a purge reads the store and commits one batch. The worker takes jobs from a table, asks the
-- capability manager whether a job may run and calls the job's handler, which is code from outside.
-- The router answers requests for inference by the first provider that succeeds.
--
-- Common: what the parts share. Lists, Dict and Sort stand for Array, Map and Array.prototype.sort, Text
--   for strings as sequences of UTF-16 code units, Result for calls that throw.
-- Migrations: MigrationRunner of packages/core/src/migration-runner.ts (Laws proves).
-- Records.Types, Records.Tables, Records.Journal: the records, collections, mutations and journal entries of
--   packages/core/src/records/types.ts.
-- Records.Store: MemoryRecordStore of packages/core/src/records/memory-record-store.ts (applyBatch is
--   apply_batch, its loop apply_batch_loop and the body stage; put, remove, get, list, journalSince and
--   headSeq keep their names in snake case). Replay reads a journal, Catchup follows it, Indexed and
--   Reads say what is read.
-- Records.Notes, Records.Queries: CanonicalNotesRepository of
--   packages/core/src/records/canonical-notes-repository.ts; a method keeps its name, and get is get_note.
-- Records.Purge: packages/core/src/records/lifecycle-purge.ts (purgeRecordStoreGraph is
--   purge_record_store_graph, and purge_notes what follows when no receipt has the operation key), with
--   the types of packages/core/src/repositories/lifecycle-purge-repository.ts.
-- Records.Receipts, Records.Upsert: upsertRecordStoreSources of packages/core/src/records/source-upsert.ts
--   (upsert_sources; Validate, Mutations, Plan and Batch have its parts, Commit, Retry, Agree and Preview prove), with
--   the types and digests of packages/core/src/repositories/source-upsert-repository.ts.
-- Blobs: the interface BlobStore of packages/core/src/blob-store.ts with the laws that its callers rely on.
--   Memory: MemoryBlobStore, whose operations keep their names; Laws and Sweep prove, InMemory fills the
--   interface with it.
-- Records.Attachments: CanonicalAttachmentsRepository of
--   packages/core/src/records/canonical-attachments-repository.ts over any BlobStore. attach is attach, its
--   search for the blob ensure_blob; gcBlobs is gc_blobs. Reads and Live prove.
-- Records.Projection: collectionsParentFirst of packages/core/src/records/record-projection.ts. Order and Visit
--   prove. The rest of that file is SQL.
-- Jobs: the jobs and their table, of packages/core/src/job-queue-worker.ts. Worker: JobQueueWorker
--   (processPendingJobs is process_pending_jobs, a round of its loop process_job, the catch fail_job).
--   Select, Outcomes, Retries, Reports and Drain prove. The event bus of a worker may be absent.
-- Capabilities: CapabilityManager (enable is begin_enable up to its await, and finish_enable after it);
--   Transitions has its calls as steps, Effects and Reachable prove. Router: FallbackRouter, whose
--   withFallback is with_fallback; Available and Fallback prove.
-- Graph: the graph model of packages/graph/src/types.ts, filterCommunityGraph of
--   packages/graph/src/filter.ts (Filter proves), computeDegrees of packages/graph/src/degree.ts (Degrees)
--   and buildAdjacency and neighborsOf of packages/graph/src/neighborhood.ts. Graph.Expand has
--   expandNeighborhood of that file (Reached proves) and applyControlFilters of
--   packages/graph/src/contract.ts, Graph.Colors packages/graph/src/color.ts and communityLegend. It stands
--   apart from the rest.
-- Dataset: DatasetWorkflowMachine of packages/react/src/dataset/machine.ts with the types of
--   packages/react/src/dataset/types.ts. Values and Schema have configurations and their validation, Machine the
--   state, Calls the methods up to their first await and Answers what follows an await. Steps has any
--   interleaving of them; Form and Log prove. It talks to an API that is not in the repository and that may
--   answer at any time, so it stands apart too.
-- Shard: the tar archives of packages/core/src/shard/shard-tar.ts. Tar.Encode and Tar.Decode have the encoder and
--   the decoder, Tar packTarGz and unpackTarGz; Buffers, Octal, Fields, Header and Step lead to Roundtrip, and
--   Packed adds gzip.
--
-- Loops are recursions on the list that they walk, so no fuel is needed, but for decodeTar, whose fuel is
-- the length of its data and one more (enough when sizes are not negative), and visit in
-- collectionsParentFirst, whose fuel is the number of collections and one more (always enough). The hash of a color is a
-- signed 32-bit number. The SQL of a migration does not touch its schema_version table. Times are natural numbers of
-- milliseconds, and every reading of a clock and every generated id is an argument. The table of jobs
-- is the list of its rows, and each SQL statement of the worker a function of it; the clock is the
-- reading before and after the handler of a job. Objects do not alias: values are copied where the source
-- clones them. Parameters stand for code that is not in the repository: toLowerCase, the hash and the
-- serialisation of a selector or of an import, regular expressions, the handlers of jobs, the loaders of capabilities and the calls of
-- providers. A loader is seen only when it settles, and may settle at any time.
--
-- Not modelled: the presence metadata of imported records, so that normalizing a record cannot throw;
-- the timer between polls; the built-in job handlers; the SQL repositories; the interface to PGlite,
-- OPFS, workers and HTTP; layout and rendering of graphs; the rest of the shards and the AIWG index; the other
-- React components and hooks.
pub mod Common
pub mod Blobs
pub mod Migrations
pub mod Records
pub mod Jobs
pub mod Capabilities
pub mod Graph
pub mod Dataset
pub mod Shard
