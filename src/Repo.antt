-- ===== src/Repo.antt =====
-- crates/aegis-core/src/repo.rs: a repository over a backend. Its state is the backend; the random
-- nonces, the parsers and the clock reader are parameters.
pub mod Index
pub mod Prune
pub mod Reads
pub mod Scan
pub mod Sweep
pub mod Safety
pub mod Pruned
pub mod Reach
pub mod Restore
pub mod Paths
pub mod Built
pub mod Commit
pub mod Committed
pub mod Verify
pub mod Verified
mod Examples
pub mod Keys
use server_backup.Common.{
  ℕ, Bool, true, false, Option, none, some, List, [], ◌∷◌, ◌++◌, if◌then◌else◌, take, sort_by, not,
  ◌||◌, ◌&&◌,
}
use server_backup.Common.Texts.{Text, Bytes, bytes, text_eq, text_le, starts_with}
use server_backup.Common.Errors.{Result, ok, err, malformed, snapshot_not_found}
use server_backup.Common.Actions.{Action, pure, throw, lift, ◌>>=◌, ◌>>◌}
use server_backup.Crypto.{Aead, AeadContext, doc, RepoCrypto}
use server_backup.Blobs.{Zstd, encode, decode, encrypt_and_encode, decrypt_and_decode}
use server_backup.Tree.{Encoding}
use server_backup.Snapshot.{Snapshot, SnapshotIndex}
use server_backup.Retention.Clock.{DateTime}
use server_backup.Backend.{Backend, get, list}

-- What the repository calls and does not contain: zstd, the cipher, serde_json on each document,
-- BLAKE3 (in `encoding`) and the parser of timestamps.
pub record Libraries : Type 0 where
  pub zstd : Zstd
  pub cipher : Aead
  pub encoding : Encoding
  pub snapshot_bytes : Snapshot → Bytes
  pub index_bytes : SnapshotIndex → Bytes
  pub parse_snapshot : Bytes → Option Snapshot
  pub parse_index : Bytes → Option SnapshotIndex
  pub parse_utc : Text → Option DateTime

pub record Repository : Type 0 where
  pub libraries : Libraries
  pub crypto : Option RepoCrypto

unfoldable pub blob_key : Text → Text
blob_key hex = bytes "blobs/" ++ (take 2 hex ++ (bytes "/" ++ hex))

unfoldable pub snapshot_key : Text → Text
snapshot_key id = bytes "snapshots/" ++ (id ++ bytes ".json")

unfoldable pub index_key : Text → Text
index_key id = bytes "index/" ++ (id ++ bytes ".json")

unfoldable pub ends_with : Text → Text → Bool
ends_with suffix [] = text_eq suffix []
ends_with suffix (c ∷ s) = text_eq suffix (c ∷ s) || ends_with suffix s

-- (&b.time, &b.id).cmp(&(&a.time, &a.id)) is not `Greater`
unfoldable pub newest_listed_first : Snapshot → Snapshot → Bool
newest_listed_first a b = if text_eq b.time a.time then text_le b.id a.id else text_le b.time a.time

unfoldable pub matching : Text → List Snapshot → List Snapshot
matching prefix [] = []
matching prefix (s ∷ rest) =
    if starts_with prefix s.id then s ∷ matching prefix rest else matching prefix rest

unfoldable pub or_malformed : {A : Type 0} → Option A → Result A
or_malformed none = err malformed
or_malformed (some a) = ok a

-- `serde_json::from_slice` on what `open_for` gives.
unfoldable pub parse_document : {A : Type 0} → (Bytes → Option A) → Result Bytes → Result A
unfolding or_malformed
parse_document parse (ok raw) = or_malformed (parse raw)
parse_document parse (err e) = err e

-- The match on the number of matches.
unfoldable pub only_match : Text → List Snapshot → Result Snapshot
only_match id (s ∷ []) = ok s
only_match id _ = err (snapshot_not_found id)

module _ (repo : Repository) where
  -- `None` on `crypto` is a repository without encryption. The storage key is not used.
  unfoldable pub seal_for : (nonce : Bytes) → AeadContext → Bytes → Result Bytes
  seal_for nonce context payload = elim repo.crypto [
    | some c ↦ encrypt_and_encode repo.libraries.zstd repo.libraries.cipher nonce c context payload
    | none ↦ ok (encode repo.libraries.zstd payload)
  ]

  unfoldable pub open_for : AeadContext → Bytes → Result Bytes
  open_for context stored = elim repo.crypto [
    | some c ↦ decrypt_and_decode repo.libraries.zstd repo.libraries.cipher c context stored
    | none ↦ decode repo.libraries.zstd stored
  ]

  unfoldable pub parse_manifest : Bytes → Result Snapshot
  unfolding parse_document
  parse_manifest stored = parse_document repo.libraries.parse_snapshot (open_for doc stored)

  unfoldable pub parse_stored_index : Bytes → Result SnapshotIndex
  unfolding parse_document
  parse_stored_index stored = parse_document repo.libraries.parse_index (open_for doc stored)

  -- The loop of `list_snapshots`.
  unfoldable pub load_manifests : List Text → Action Backend (List Snapshot)
  unfolding ends_with
  load_manifests [] = pure []
  load_manifests (key ∷ keys) =
      let rest = load_manifests keys in
      if ends_with (bytes ".json") key
      then (get key >>= λ stored.
          lift (parse_manifest stored) >>= λ s. rest >>= λ found. pure (s ∷ found))
      else rest

  unfoldable pub list_snapshots : Action Backend (List Snapshot)
  unfolding load_manifests
  list_snapshots = list (bytes "snapshots") >>= λ keys.
      load_manifests keys >>= λ out. pure (sort_by newest_listed_first out)

  unfoldable pub find_snapshot : Text → Action Backend Snapshot
  unfolding matching only_match
  find_snapshot id_or_prefix =
      list_snapshots >>= λ all. lift (only_match id_or_prefix (matching id_or_prefix all))
