-- ===== src/Lib.antt =====
-- Verification of the synchronisation core of SyncGDrive (src/).
--
-- The program watches a local directory, turns the events of the file system into tasks, and
-- brings a folder of Google Drive in line with it. Its parts, and the files that model them:
--
--   Config, Config/Load (src/config.rs): the configuration as records, its validation, the
--     expansion of `~`, the migration from V1, loading and saving. `toml` and `serde` are the
--     record `Toml`; the disk is a map from paths to texts, and `Os` says which writes fail. A
--     panic is `none`.
--   Db (src/db.rs): the SQLite tables as lists of rows, each method as one atomic step, with the
--     errors of SQLite that a missing table, a taken key or a second CREATE give.
--   Remote, Remote/PathCache (src/remote/mod.rs, src/remote/path_cache.rs): the data of a
--     provider, and the map from relative paths to identifiers.
--   Engine/RateLimiter, Engine/Bandwidth (src/engine/rate_limiter.rs, src/engine/bandwidth.rs):
--     the token buckets. A pass of a loop is a function of the instant and of the state; the loop
--     runs over the readings of the clock. Instants are nanoseconds; tokens are counted in
--     billionths, so that what the source computes with an `f64` is exact.
--   Engine/Progress (src/engine/bandwidth.rs): the counters, with their wrap-around at 2 ^ 64, and
--     the text of the estimate.
--   Engine/Tasks, Engine/Dispatch (src/engine/mod.rs): the tasks, the channel to the workers, and
--     `spawn_debounced_dispatch`, one step for each event or tick.
--   Engine/Offline (src/engine/offline.rs): `flush_queue`, over the database and the channel.
--   Engine/Worker, with Sync and Tasks below it (src/engine/worker.rs, `retry` of
--     src/engine/scan.rs, src/engine/integrity.rs, `is_ignored` of src/ignore.rs): the tasks carried
--     out, over a state of the cache, the index, the tracker and the remote side. What lies outside
--     is a function of a clock that each look moves on, so that it may change between two looks.
--   Engine/Errors (src/engine/scan.rs, src/engine/mod.rs): the classes of errors.
--   Engine/Status (src/engine/mod.rs, src/engine/bandwidth.rs): the statuses sent to the tray.
--   Engine/Scan (src/engine/scan.rs): the scan of a pair, over the state of the worker with the
--     channel and the statuses. Scan/Queueing has the phase that queues tasks, Scan/Run the scan
--     from its first status to its last; the walk of the local directory, the cancellations and the
--     deletions seen meanwhile are functions of the environment.
--   Engine/Loop (src/engine/mod.rs): the loop of the engine. Loop/Commands has the commands,
--     Loop/Events the events of the file system and the workers' tasks, Loop/Startup what comes
--     before the loop; Loop/Machine has the abstract machine of the phases.
--   Engine/Watcher (src/engine/watcher.rs): the classification of raw events, the channel with its
--     bound, and the flag that says events were lost.
--   Remote/GDrive (src/remote/gdrive.rs): the Drive provider over a `Service`, which answers HTTP
--     requests. GDrive/Listing has the walk over the pages of folders, GDrive/Uploads the two ways
--     to upload, GDrive/Calls the remaining calls.
--   Auth (src/auth/storage.rs): the tokens and their encrypted file. Auth/Consent
--     (src/auth/oauth2.rs) has the consent in the browser, Auth/Session (src/auth/google_auth.rs)
--     the choice between a kept, a refreshed and a new token. The crates are parameters.
--   PathDisplay (src/utils/path_display.rs): the short form of a path.
--   Paths, Base: `std::path`, texts, lists, maps, results and actions that may fail.
--
-- How they meet: the dispatcher writes to the offline queue of the database or to the channel;
-- the flush reads the queue and writes to the channel; the worker carries out a task with the
-- provider, and keeps the path cache and the index of files. The scan keeps the same cache and
-- index, queues tasks on the same channel and reports on the channel of the statuses, which the
-- loop shares. The Drive provider has the operations that the `Provider` of the worker and of
-- the scan names. The watcher's events and its flag are what the loop reads. The session of Auth
-- gives the access token that the Drive provider takes as a parameter. The same `Database`,
-- `PathCache`, `ProgressTracker`, `Channel` and `Task` stand in all of them.
--
-- Bounds and fuel: numbers are natural numbers; the counters that can overflow have the
-- wrap-around written out. The loops of `retry` and of the uploads count the passes left, from
-- `max_attempts - 1` down. The search for a parent in the path cache has the number of pieces
-- between its separators as its fuel; a parent has fewer. A number is printed with twenty
-- digits, enough for 64 bits. The listing of the remote tree has two fuels, for the folders and
-- for the pages of one; when either is spent the result is an error without a message, which no
-- call of the code gives. The same stands for a wait without an end: of the bandwidth limiter,
-- whose permission has not come by the last reading of the clock, and of a sender whose channel
-- is full while its receiver is itself the sender. A call of the API limiter is given the
-- readings of the clock up to the permission. A scan that is dropped stops at a point the
-- environment names. A worker carries out its task in one step.
--
-- Not modelled: the construction of the HTTP client, the windows and the tray, the
-- notifications, and the start of the program. They are the interface of the program with its
-- user and with the desktop; what the parts above need of them is a parameter.
pub mod Base
pub mod Paths
pub mod PathDisplay
pub mod Config
pub mod Db
pub mod Auth
pub mod Remote
pub mod Engine
