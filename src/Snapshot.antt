-- ===== src/Snapshot.antt =====
-- crates/aegis-core/src/snapshot.rs: manifests and the per-snapshot blob index.
use server_backup.Common.{ℕ, Option, List}
use server_backup.Common.Texts.{Text}
use server_backup.Tree.{Node}

pub record SnapshotStats : Type 0 where
  pub files : ℕ
  pub bytes : ℕ
  pub chunks : ℕ
  pub new_chunks : ℕ
  pub new_bytes : ℕ
  pub new_tree_nodes : ℕ

pub record Snapshot : Type 0 where
  pub id : Text
  pub time : Text
  pub hostname : Text
  pub paths : List Text
  pub root : Node
  pub stats : SnapshotStats

pub data BlobKind : Type 0 where
  chunk tree_node : BlobKind

pub record BlobRef : Type 0 where
  pub hash : Text
  pub size : Option ℕ
  pub kind : BlobKind

pub record SnapshotIndex : Type 0 where
  pub snapshot_id : Text
  pub blobs : List BlobRef
