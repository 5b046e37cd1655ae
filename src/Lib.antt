-- ===== src/Lib.antt =====
-- A model of Aegis, a backup program with deduplicating, encrypted repositories. The modelled code
-- is the Rust crate crates/aegis-core, and the access control of crates/aegis-server.
--
-- A repository is a set of objects in a backend. A backup stores chunks and oversize tree nodes
-- under `blobs/`, then an index of what the snapshot references under `index/`, then the manifest
-- under `snapshots/`. Prune asks the retention policy which snapshots to drop and deletes what no
-- kept snapshot's index lists. Replication copies the objects to another backend. The master key that
-- all documents are sealed under stands wrapped in the files under `keys/`, one for each passphrase.
-- The server's catalog keeps users and sessions.
--
-- The files:
--   Common        the names that all modules share: lists, sorting, byte strings, results, and
--                 methods that change a state and may fail
--   Tree          tree.rs: nodes, name and hash checks, collectors, compaction into stored nodes
--   Snapshot      snapshot.rs: manifests and indexes
--   Retention     retention.rs: the policy and its decision; Retention/Clock has the bucket keys
--   Catalog       catalog.rs, catalog_auth.rs: the tables of users and sessions and the statements on
--                 them
--   Auth          catalog_auth.rs: users, sessions, passwords and the login limit over the tables of
--                 Catalog
--   Access        api.rs of crates/aegis-server: the session middleware, the role gate, the handlers of
--                 /api/users
--   Crypto        crypto.rs and keys.rs: seal, open and the associated data
--   Keys          keys.rs, crypto.rs, chunk.rs: key files and the wrapping of the master key;
--                 Keys/Slots the operations on key slots, Keys/Init init and open of repo.rs
--   Blobs         blobs.rs: the envelope of a stored object, compression, encryption
--   Backend       backend.rs: the trait's contract
--   Replication   replication.rs: replicate
--   Repo          repo.rs: key layout, listing, lookup; Repo/Index the indexes, Repo/Commit
--                 store_chunk and commit_snapshot, Repo/Verify verify, Repo/Prune prune, Repo/Reach
--                 load_root and reachable_blobs, Repo/Paths safe_join, Repo/Restore restore and
--                 restore_path
-- Functions keep their names. A file under a module holds its lemmas, and Examples its runs on
-- concrete inputs.
--
-- A method that does I/O is an action: a function of the backend that returns a result and the
-- backend afterwards, also when it fails. The backend carries a list of faults, one entry for each
-- call of the operating system, so that a run may fail at any call. Strings and byte vectors are
-- lists of bytes. A hash set is a list that gains each entry once. Counters of type u64 are natural
-- numbers, which a run does not exhaust; the narrowing of a length to u32 in apply_policy is written
-- out. A table of the catalog is a list of rows, and its state carries the same kind of list, one
-- entry for each statement. The clock's seconds are natural numbers. `blob_key` slices two bytes off
-- a hash and panics on a shorter one; the model takes what is there. The file system under a restore
-- is the list of the calls made on it, with what it answers; a buffered write is a call of its own.
--
-- Parameters: the cipher, zstd, BLAKE3, the serde_json form of each document, the parser of
-- timestamps, Argon2, base64, the digest of a token, the clock, and all random
-- values. What a theorem needs of them is a record of laws.
--
-- Fuel: `collect_node_blob_hashes` and `verify_descend` spend one unit on each reference that they
-- follow into the next, and get the number of objects; they follow no hash twice, and each that they
-- follow is an object. The search for a free key slot gets one unit more than there are objects.
-- Restoring spends one unit on each reference inside a reference and gets its fuel as an argument:
-- the code follows references without a bound.
--
-- Not modelled: backup's walk over the file system, the rest of the catalog, the transports, the
-- rest of the server, the command line and the web interface.
pub mod Common
pub mod Tree
pub mod Snapshot
pub mod Retention
pub mod Crypto
pub mod Blobs
pub mod Backend
pub mod Replication
pub mod Repo
pub mod Catalog
pub mod Auth
pub mod Access
pub mod Keys
