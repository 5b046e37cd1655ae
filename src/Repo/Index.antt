-- ===== src/Repo/Index.antt =====
-- repo.rs: the index of a snapshot, as it is built, and as it is read back or derived.
use server_backup.Common.{
  ℕ, zero, suc, Option, none, some, List, [], ◌∷◌, ◌++◌, if◌then◌else◌, map, length,
}
use server_backup.Common.Texts.{Text, contains, insert, text_eq}
use server_backup.Common.Errors.{malformed}
use server_backup.Common.Actions.{Action, pure, throw, lift, ◌>>=◌}
use server_backup.Crypto.{hash}
use server_backup.Tree.{Node, file, dir, ref, Nodes, nil, cons, collect_refs, collect_chunk_hashes}
use server_backup.Snapshot.{Snapshot, SnapshotIndex, BlobKind, chunk, tree_node, BlobRef}
use server_backup.Backend.{Backend, get, exists}
use server_backup.Repo.{
  Repository, blob_key, index_key, open_for, parse_document, parse_stored_index,
}

-- `HashMap<String, u64>`: the sizes of the blobs that the run wrote.
abbrev pub Sizes : Type 0
Sizes = List (Text × ℕ)

unfoldable pub size_of : Text → Sizes → Option ℕ
size_of hex [] = none
size_of hex ((k, n) ∷ rest) = if text_eq hex k then some n else size_of hex rest

abbrev pub tagged : BlobKind → List Text → List (Text × BlobKind)
tagged kind hashes = map (λ h. (h, kind)) hashes

-- The loop of `build_index`, with the set `seen`.
unfoldable pub index_entries : Sizes → List Text → List (Text × BlobKind) → List BlobRef
unfolding size_of
index_entries written seen [] = []
index_entries written seen ((hex, kind) ∷ rest) =
    if contains seen hex
    then index_entries written seen rest
    else record { hash = hex; size = size_of hex written; kind = kind }
      ∷ index_entries written (insert hex seen) rest

unfoldable pub build_index : Snapshot → Sizes → SnapshotIndex
unfolding index_entries
build_index snapshot written = record {
  snapshot_id = snapshot.id;
  blobs = index_entries written [] (
      tagged chunk (collect_chunk_hashes snapshot.root [])
      ++ tagged tree_node (collect_refs snapshot.root []));
}

-- `out` and `seen` of `collect_node_blob_hashes`.
pub record Collected : Type 0 where
  pub out : List BlobRef
  pub seen : List Text

module _ (repo : Repository) where
  -- A tree-node blob, fetched, authenticated against its address and parsed.
  unfoldable pub fetch_node : Text → Action Backend Node
  fetch_node hex = get (blob_key hex) >>= λ stored.
      lift (parse_document repo.libraries.encoding.parse (open_for repo (hash hex) stored))

  -- The walk over one stored node; `follow` is the call on the node that a reference leads to.
  module _ (follow : Node → Collected → Action Backend Collected) where
    unfoldable mutual
      unfolding fetch_node

      pub collect_in : Node → Collected → Action Backend Collected
      collect_in (file name size mode mtime chunks) c = pure c
      collect_in (dir name children) c = collect_in_all children c
      collect_in (ref name hex) c =
          if contains c.seen hex
          then pure c
          else (fetch_node hex >>= λ inner. follow inner (record {
            out = c.out ++ record { hash = hex; size = none; kind = tree_node } ∷ [];
            seen = insert hex c.seen;
          }))

      pub collect_in_all : Nodes → Collected → Action Backend Collected
      collect_in_all nil c = pure c
      collect_in_all (cons n ns) c = collect_in n c >>= λ c'. collect_in_all ns c'

  -- A level of fuel is spent on each reference that is followed.
  unfoldable pub collect_node_blob_hashes : ℕ → Node → Collected → Action Backend Collected
  unfolding collect_in
  collect_node_blob_hashes zero = collect_in (λ inner c. throw malformed)
  collect_node_blob_hashes (suc fuel) = collect_in (collect_node_blob_hashes fuel)

  -- The loop of the fallback over the chunks of the tree.
  unfoldable pub collect_inline_chunks : List Text → Collected → Collected
  collect_inline_chunks [] c = c
  collect_inline_chunks (hex ∷ rest) c = collect_inline_chunks rest (
      if contains c.seen hex then c else record {
        out = c.out ++ record { hash = hex; size = none; kind = chunk } ∷ [];
        seen = insert hex c.seen;
      })

  -- What `snapshot_index` does without a stored index. Every reference that is followed is another
  -- object of the backend.
  unfoldable pub derive_index : Snapshot → Action Backend SnapshotIndex
  unfolding collect_node_blob_hashes collect_inline_chunks
  derive_index snapshot b =
      (collect_node_blob_hashes (length b.objects) snapshot.root (
            collect_inline_chunks (collect_chunk_hashes snapshot.root [])
              (record { out = []; seen = [] }))
          >>= λ c. pure (record { snapshot_id = snapshot.id; blobs = c.out }))
        b

  unfoldable pub snapshot_index : Snapshot → Action Backend SnapshotIndex
  unfolding derive_index
  snapshot_index snapshot =
      let derived = derive_index snapshot in
      let key = index_key snapshot.id in
      exists key >>= λ found.
      if found then (get key >>= λ stored. lift (parse_stored_index repo stored)) else derived
