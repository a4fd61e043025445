-- ===== src/Lib.antt =====
-- A model of hubsync: a hub that watches a directory and serves its changes, clients that replicate
-- it, and an archive in an object store. The paths below are from the repository's root.
--
-- How the parts interact. The scanner compares the directory with the rows of the hub's database;
-- what differs is appended to the change log and broadcast. A push of a client does the same for
-- its own operations. The server makes an event of each change, and a client takes the events in:
-- it updates its copy of the tree and fetches content that is not inlined, by a copy of a local
-- file, by a delta, or as a whole. The archive worker uploads what the rows say is not archived;
-- the reconciler moves files between the directory and the archive; the collector deletes what no
-- row claims.
--
-- Files. `Prelude` has what the others share: lists over native numbers, equality as an interface,
-- Go's strings, rows with a key, sorting, loops on fuel. `Model` and `Disk` are the entries of
-- hubsync.go and the files of a directory. `Delta` is delta.go, with its message in `Delta/Wire`.
-- `Protocol` is protocol.go with the reading loop of client.go. `Store` is store.go: the tables as
-- lists of rows, each method a function, `Append` with its transaction; `Store/Log` and
-- `Store/Materialized` say what the log and the rows have to do with each other. `ClientStore` is
-- client_store.go. `Event` is `writeEvent` of server.go with `applyEvent`, `fetchLargeFile` and
-- `fetchDelta` of client.go. `Bootstrap` is `Bootstrap` and `Catchup` of client.go, with
-- `NewHasher` of hasher.go: `Blobs` and `Groups` have their loops. `Snapshot` is snapshot.go, the
-- database that a bootstrap starts from. `Server` is `handleBlob` and `handleDelta` of server.go,
-- `Server/Routes` its routes behind auth.go with the requests that the client makes to them.
-- `Subscribe` is broadcast.go with `handleSubscribe` of server.go: what the writers, the broadcasts
-- and the handler can do next is a step relation, and `HungUp` how it ends: `NoGap` is about any
-- order of the broadcasts, `Front` and `Resume` about those in order and the client behind. `Push`
-- is push.go. `Scanner` is scanner.go with `FullScan` of hub.go. `Archive` is the interface of
-- archive/archive.go with the keys of archive/key.go; `Archive/Fake` is archive/fake.go, and
-- `Archive/Lawful` fills the interface's promises with it; `Archive/B2` is archive/b2store.go over
-- the calls of a bucket. `ArchiveGc` is archive_gc.go, `ArchiveOne` archive_one.go, `ArchiveWorker`
-- archive_worker.go, with archive_task.go in `Tasks` and its plan in `Planned`, `Reconciler`
-- reconciler.go. `ClientPush` is client_push.go: `Needed` and `LocalScan` have the scan, `Names`
-- and `Conflict` the conflicted copies, `Quiet` the answer and the scan behind it, `Delivered` the
-- push as a whole. `SyncLoop` has the rounds of `Sync` of client.go: a connection, and in write
-- mode the push behind it. There `SyncLoop/Interleaved` has `syncReadWrite` and `pushLoop` side by
-- side with the user, as a step relation. `Unharmed` has what it leaves alone. `TaskRunner` is internal/taskrunner: the tables and the statements on
-- them, `Workers` the workers on them, `Feed` the feed of the queue, `Plan` plan.go, `Execute` the
-- run with archive.go. `Rpc` is rpc.go, with the listing in `Rpc/Ls` and the counts in
-- `Rpc/Status`: `Lookup` has the batched unpin, `Calls` the routes and the client's calls, `Listed`
-- and `LocalLs` the listing of one level. A module `Samples` has runs and instances.
--
-- How it is modelled. Strings, digests and contents are lists of bytes. A SQL table is a list of
-- rows with different keys, and a Go map likewise. State is passed on; what can fail outside of the
-- code (the database, the file system, the remote store) is an argument that says whether it does,
-- or an interface with named promises. Versions and sizes are numbers, and a 32-bit field keeps its
-- wrap-around. Hashes are parameters, and a theorem that needs it assumes that no two of the
-- windows in question collide.
--
-- Fuel. The loop over the blocks and the loop over the windows of delta.go have one unit more than
-- the bytes, and each pass consumes a byte or more; the reader of the stream has one unit more than
-- the bytes, and each frame has four or more; a square root has 34 binary digits, enough below 4 ^
-- 34. The search for a conflicted copy has one round more than the files, and the feed of the task
-- runner has a theorem on how much is enough. The theorems on these are about the loops' ends,
-- which the fuel therefore reaches.
--
-- Not modelled. Goroutines, locks and contexts: each method is one step, and where they matter the
-- steps of several goroutines come in any order. The SQL driver, HTTP, TLS, protobuf's encoding,
-- TOML, the walk of the lstree package and the blazer package are libraries. The client's timers,
-- the socket of the RPC, the reflection of the task runner, and the command line are not modelled.
-- The hub's lock and the watcher are the system's calls, and the configuration is TOML's.
-- Directories are not kept: a path is there with its file.
pub mod Prelude
pub mod Delta
pub mod Protocol
pub mod Model
pub mod Store
pub mod ClientStore
pub mod Disk
pub mod Event
pub mod Push
pub mod Archive
pub mod ArchiveGc
pub mod Reconciler
pub mod Scanner
pub mod ArchiveOne
pub mod ArchiveWorker
pub mod Bootstrap
pub mod Snapshot
pub mod Server
pub mod Subscribe
pub mod SyncLoop
pub mod TaskRunner
pub mod ClientPush
pub mod Rpc
