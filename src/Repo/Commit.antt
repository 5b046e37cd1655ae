-- ===== src/Repo/Commit.antt =====
-- repo.rs: the writing half, store_chunk and commit_snapshot. The nonce that seals the object at a
-- key is drawn by `nonce_for`.
use server_backup.Common.{ℕ, ◌+◌, Bool, true, false, List, [], ◌∷◌, if◌then◌else◌, length}
use server_backup.Common.Texts.{Text, Bytes, contains, insert}
use server_backup.Common.Actions.{Action, pure, lift, ◌>>=◌, ◌>>◌}
use server_backup.Crypto.{hash, doc}
use server_backup.Tree.{Node, NodeBlobs, sort, build_stored}
use server_backup.Snapshot.{Snapshot, SnapshotStats}
use server_backup.Backend.{Backend, put, exists}
use server_backup.Repo.{Repository, blob_key, snapshot_key, index_key, seal_for}
use server_backup.Repo.Index.{Sizes, build_index}

-- The three variables that `store_chunk` borrows. An error ends the run, and they are dropped.
pub record Run : Type 0 where
  pub seen : List Text
  pub stats : SnapshotStats
  pub written : Sizes

-- What a run draws for a new snapshot: the id, the time and the name of the host.
pub record Drawn : Type 0 where
  pub id : Text
  pub time : Text
  pub hostname : Text

unfoldable pub count_chunk : ℕ → SnapshotStats → SnapshotStats
count_chunk size stats = record stats {
  new_chunks = stats.new_chunks + 1;
  new_bytes = stats.new_bytes + size;
}

unfoldable pub count_tree_node : SnapshotStats → SnapshotStats
count_tree_node stats = record stats { new_tree_nodes = stats.new_tree_nodes + 1 }

module _ (repo : Repository) (nonce_for : Text → Bytes) where
  unfoldable pub seal_and_put : Text → Text → Bytes → Action Backend ℕ
  seal_and_put hex key payload =
      lift (seal_for repo (nonce_for key) (hash hex) payload) >>= λ stored.
      put key stored >> pure (length stored)

  unfoldable pub store_chunk : Text → Bytes → Run → Action Backend (Bool × Run)
  unfolding seal_and_put count_chunk
  store_chunk hex payload run =
      let added = record run { seen = insert hex run.seen } in
      let write = seal_and_put hex (blob_key hex) payload >>= λ size. pure (
        true,
        record added { stats = count_chunk size run.stats; written = (hex, size) ∷ run.written },
      ) in
      let fresh = exists (blob_key hex) >>= λ there. if there then pure (false, added) else write in
      if contains run.seen hex then pure (false, run) else fresh

  -- The loop over the node blobs, with `stats` and `written`.
  unfoldable pub store_node_blobs :
      NodeBlobs → SnapshotStats × Sizes → Action Backend (SnapshotStats × Sizes)
  unfolding seal_and_put count_tree_node
  store_node_blobs [] r = pure r
  store_node_blobs ((hex, payload) ∷ rest) r =
      let write = seal_and_put hex (blob_key hex) payload >>= λ size.
      store_node_blobs rest (count_tree_node r.0, (hex, size) ∷ r.1) in
      let skip = store_node_blobs rest r in
      exists (blob_key hex) >>= λ there. if there then skip else write

  unfoldable pub put_document : Text → Bytes → Action Backend (Unit {0})
  put_document key plain =
      lift (seal_for repo (nonce_for key) doc plain) >>= λ stored. put key stored

  unfoldable pub new_snapshot : Drawn → List Text → Node → SnapshotStats → Snapshot
  new_snapshot drawn paths root stats = record {
    id = drawn.id;
    time = drawn.time;
    hostname = drawn.hostname;
    paths = paths;
    root = root;
    stats = stats;
  }

  -- The index first, then the manifest.
  unfoldable pub put_snapshot : Snapshot → Sizes → Action Backend Snapshot
  unfolding put_document
  put_snapshot snapshot written =
      put_document (index_key snapshot.id)
        (repo.libraries.index_bytes (build_index snapshot written))
      >> (put_document (snapshot_key snapshot.id) (repo.libraries.snapshot_bytes snapshot)
          >> pure snapshot)

  unfoldable pub commit_snapshot :
      Drawn → Node → List Text → SnapshotStats → Sizes → Action Backend Snapshot
  unfolding store_node_blobs new_snapshot put_snapshot
  commit_snapshot drawn root paths stats written =
      lift (build_stored repo.libraries.encoding (sort root)) >>= λ (built : Node × NodeBlobs).
      store_node_blobs built.1 (stats, written) >>= λ (r : SnapshotStats × Sizes).
      put_snapshot (new_snapshot drawn paths built.0 r.0) r.1
