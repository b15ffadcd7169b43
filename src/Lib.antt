-- ===== src/Lib.antt =====
-- FerriSync: peers keep folders in step over a local network. The workspace crate ferrisync-core has
-- the logic. A device connects to another, both exchange a Hello and an index of the folder, each
-- reconciles the two indexes on its own into a plan, and files are sent in chunks. A watcher starts
-- sessions when files change; a store keeps devices, folders and history; a gate decides who may pair.
--
-- Where each part is modelled:
--   Version        ferrisync-core/src/domain/file.rs, the vector clock FileVersion
--   Snapshot       domain/snapshot.rs, tombstone.rs, sync_plan.rs
--   Domain         domain/device.rs, folder.rs, FileMetadata, the records of persistence/traits.rs
--   Reconcile      sync/reconciler.rs: reconcile, its maps, the set of paths and the loop
--   Session        sync/orchestrator.rs: the conversions of indexes; sync_engine/session.rs: which
--                  files each side of a session pushes and waits for
--   Transfer       sync/orchestrator.rs: validate_chunk; sync_engine/session.rs: send_file_chunks and
--                  the arm for FileChunk up to the integrity check
--   Protocol       protocol/mod.rs: messages and frames; protocol_v2/shared.rs
--   Hello          protocol_v2/hello.rs
--   StateMachine   protocol_v2/state_machine.rs
--   Watcher        watcher/mod.rs: ChangeScheduler
--   Memory         persistence/memory.rs: InMemoryStateStore, every operation
--   Sqlite         persistence/sqlite.rs: SqliteStateStore, every operation; References has its foreign
--                  keys, Sound and Invariant the writes one after the other
--   Identity       authorization/identity.rs and folder_auth.rs, over an interface for StateStore that
--                  Memory implements
--   Storage        storage/mod.rs: the tables, and every operation of Storage as a function on them;
--                  its children Devices, Labels, Folders, Pairs, Records, Sharing, Schema, Repoint,
--                  Unify and Display hold the operations, References the foreign keys
--   PairGate       sync_engine/server.rs: admit, approve_pairing, deny_pairing; FolderPairs holds
--                  approve_folder_pair, request_folder_pair and deny_folder_pair
--   Health         health.rs: presence, folder health, group_folders, summarize
--   Repl           ferrisync/src/repl/parser.rs and commands.rs, commands/args.rs: the parser of the
--                  command line
--   Prelude        lists, maps, tests, results and signed numbers that the others share
-- The children of a module hold its theorems; its child Tests holds concrete runs.
--
-- How code becomes definitions. A method on `&mut self` takes the state and gives the state after it.
-- An error is a value of Result. Numbers are natural numbers, with the width of u64 and usize written
-- out where the source adds or subtracts (`bump`, `record_upload`, `store_chunk`); i64 is ℤ. A HashMap
-- is a list of entries; where the source iterates over one, the order is the order of the list, and
-- where it iterates over a HashSet (`all_paths`), the order is a parameter that may be any
-- rearrangement. A table of the database is the list of its rows under their primary keys, in the order
-- of the row ids, and an AUTOINCREMENT column is a counter; a statement that a
-- unique or a foreign key refuses is none, and rolls back where the source has a transaction; foreign
-- keys are enforced, as the bundled SQLite does and CHANGELOG.md says, on a database that violates none.
-- A sum of usize wraps as in a release build. `unixepoch()` is an argument. bincode's two functions,
-- blake3 and shlex's split are parameters. Paths are compared as text.
--
-- Fuel and bounds. `send_from` runs on fuel, one more than the length of the file; a round sends 64 KiB
-- or ends, so that is enough. All other loops are recursion on a list.
--
-- Not modelled: sockets, TLS, discovery, the file system, failures of SQLite, the rest of the command
-- line and the Flutter application. The clock of the scheduler is a sequence of wake-ups, and the write
-- of a received file to disk, with its check of the hash, is left out.
pub mod Domain
pub mod Health
pub mod Hello
pub mod Identity
pub mod Memory
pub mod PairGate
pub mod Prelude
pub mod Protocol
pub mod Reconcile
pub mod Repl
pub mod Session
pub mod Snapshot
pub mod Sqlite
pub mod StateMachine
pub mod Storage
pub mod Transfer
pub mod Version
pub mod Watcher
