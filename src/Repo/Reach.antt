-- ===== src/Repo/Reach.antt =====
-- repo.rs: the root of a snapshot, and the smaller queries of garbage collection.
use server_backup.Common.{List, [], ◌∷◌, if◌then◌else◌}
use server_backup.Common.Texts.{Text, bytes, text_eq}
use server_backup.Common.Actions.{Action, pure, lift, ◌>>=◌}
use server_backup.Tree.{Node, file, dir, ref, validate}
use server_backup.Snapshot.{Snapshot, BlobKind, BlobRef}
use server_backup.Backend.{Backend, list, delete}
use server_backup.Repo.{Repository, blob_key}
use server_backup.Repo.Index.{fetch_node, snapshot_index}

-- A root that is stored as a reference is fetched and validated; any other is taken as it is.
unfoldable pub load_root : Repository → Snapshot → Action Backend Node
load_root repo snapshot = elim snapshot.root [
  | ref name hex ↦ fetch_node repo hex >>= λ node. lift (validate node) >>= λ u. pure node
  | file name size mode mtime chunks ↦ pure (file name size mode mtime chunks)
  | dir name children ↦ pure (dir name children)
]

-- `out.entry(hash).or_insert(kind)`, on a map kept as a list in the order of insertion.
unfoldable pub or_insert : Text → BlobKind → List (Text × BlobKind) → List (Text × BlobKind)
or_insert hex kind [] = (hex, kind) ∷ []
or_insert hex kind ((k, old) ∷ rest) =
    if text_eq hex k then (k, old) ∷ rest else (k, old) ∷ or_insert hex kind rest

unfoldable pub insert_kinds : List BlobRef → List (Text × BlobKind) → List (Text × BlobKind)
unfolding or_insert
insert_kinds [] out = out
insert_kinds (blob ∷ rest) out = insert_kinds rest (or_insert blob.hash blob.kind out)

unfoldable pub reachable_from :
    Repository → List Snapshot → List (Text × BlobKind) → Action Backend (List (Text × BlobKind))
unfolding insert_kinds
reachable_from repo [] out = pure out
reachable_from repo (s ∷ rest) out =
    snapshot_index repo s >>= λ index. reachable_from repo rest (insert_kinds index.blobs out)

unfoldable pub reachable_blobs :
    Repository → List Snapshot → Action Backend (List (Text × BlobKind))
unfolding reachable_from
reachable_blobs repo snapshots = reachable_from repo snapshots []

unfoldable pub all_blob_keys : Action Backend (List Text)
all_blob_keys = list (bytes "blobs")

unfoldable pub delete_blob : Text → Action Backend (Unit {0})
delete_blob hex = delete (blob_key hex)
