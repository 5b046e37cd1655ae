-- ===== src/Repo/Verify.antt =====
-- repo.rs: verify, and snapshot.rs: count_files. `fetched` is the set of keys of the map of that
-- name, whose nodes are never read back.
use server_backup.Common.{ℕ, zero, suc, ◌+◌, Bool, false, List, [], ◌∷◌, if◌then◌else◌, length, ltb}
use server_backup.Common.Texts.{Text, Bytes, contains, insert, text_eq}
use server_backup.Common.Errors.{missing_blob, corrupt_blob, malformed}
use server_backup.Common.Actions.{Action, pure, throw, lift, map_error, ◌>>=◌, ◌>>◌}
use server_backup.Crypto.{hash}
use server_backup.Tree.{
  Node, file, dir, ref, Nodes, nil, cons, validate, hash_hex, verify_node_blob, collect_all_hashes,
}
use server_backup.Snapshot.{Snapshot}
use server_backup.Backend.{Backend, get, exists}
use server_backup.Repo.{Repository, blob_key, open_for, or_malformed}

unfoldable mutual
  pub count_inline_files : Node → ℕ
  count_inline_files (file name size mode mtime chunks) = 1
  count_inline_files (dir name children) = count_all_files children
  count_inline_files (ref name hex) = 0

  pub count_all_files : Nodes → ℕ
  count_all_files nil = 0
  count_all_files (cons n ns) = count_inline_files n + count_all_files ns

unfoldable pub count_files : Snapshot → ℕ
unfolding count_inline_files
count_files s = if ltb 0 s.stats.files then s.stats.files else count_inline_files s.root

pub record VerifyReport : Type 0 where
  pub snapshot_id : Text
  pub files : ℕ
  pub chunks : ℕ
  pub tree_blobs : ℕ
  pub deep : Bool

pub record Checked : Type 0 where
  pub seen : List Text
  pub fetched : List Text

module _ (repo : Repository) where
  -- A deep check of a chunk: it opens under its own address.
  unfoldable pub check_chunk : (deep : Bool) → Text → Action Backend (Unit {0})
  check_chunk deep hex =
      let opened = get (blob_key hex) >>= λ stored.
      lift (open_for repo (hash hex) stored) >>= λ payload. pure tt in
      if deep then opened else pure tt

  -- A fetched tree node hashes to its address, parses, and is valid.
  unfoldable pub check_node : Text → Bytes → Action Backend Node
  check_node hex stored = lift (open_for repo (hash hex) stored) >>= λ payload.
      if verify_node_blob repo.libraries.encoding hex payload
      then (lift (or_malformed (repo.libraries.encoding.parse payload)) >>= λ node.
          lift (validate node) >>= λ u. pure node)
      else throw corrupt_blob

  unfoldable pub check_tree_blob : (deep : Bool) → Text → Action Backend (Unit {0})
  unfolding check_node
  check_tree_blob deep hex =
      let opened = get (blob_key hex) >>= λ stored. check_node hex stored >>= λ node. pure tt in
      if deep then opened else pure tt

  -- Either loop of verify over hashes; `fetching` is whether it fills `fetched`.
  unfoldable pub check_hashes :
      (check : Text → Action Backend (Unit {0}))
      → (fetching : Bool) → List Text
      → Checked
      → Action Backend Checked
  check_hashes check fetching [] c = pure c
  check_hashes check fetching (hex ∷ rest) c =
      let next = check_hashes check fetching rest (record {
        seen = insert hex c.seen;
        fetched = if fetching then insert hex c.fetched else c.fetched;
      }) in
      let skip = check_hashes check fetching rest c in
      let test = exists (blob_key hex) >>= λ there.
      if there then check hex >> next else throw (missing_blob hex) in
      if contains c.seen hex then skip else test

  -- `get` with its error replaced.
  unfoldable pub get_or_missing_blob : Text → Action Backend Bytes
  get_or_missing_blob hex b =
      (map_error (λ e. missing_blob hex) (get (blob_key hex) b).0, (get (blob_key hex) b).1)

  module _ (follow : Node → List Text → Action Backend (List Text)) where
    unfoldable mutual
      unfolding check_node get_or_missing_blob

      pub descend_in : Node → List Text → Action Backend (List Text)
      descend_in (file name size mode mtime chunks) fetched = pure fetched
      descend_in (dir name children) fetched = descend_in_all children fetched
      descend_in (ref name hex) fetched =
          if contains fetched hex
          then pure fetched
          else (get_or_missing_blob hex >>= λ stored.
              check_node hex stored >>= λ inner. follow inner (insert hex fetched))

      pub descend_in_all : Nodes → List Text → Action Backend (List Text)
      descend_in_all nil fetched = pure fetched
      descend_in_all (cons n ns) fetched =
          descend_in n fetched >>= λ fetched'. descend_in_all ns fetched'

  -- A level of fuel is spent on each reference that is followed.
  unfoldable pub verify_descend : ℕ → Node → List Text → Action Backend (List Text)
  unfolding descend_in
  verify_descend zero = descend_in (λ inner fetched. throw malformed)
  verify_descend (suc fuel) = descend_in (verify_descend fuel)

  unfoldable pub descend_root : Node → List Text → Action Backend (Unit {0})
  unfolding verify_descend
  descend_root root fetched b =
      (verify_descend (length b.objects) root fetched >>= λ done. pure tt) b

  unfoldable pub verify : Snapshot → (deep : Bool) → Action Backend VerifyReport
  unfolding check_chunk check_tree_blob check_hashes descend_root count_files
  verify snapshot deep =
      let encoding = repo.libraries.encoding in
      let hashes = collect_all_hashes snapshot.root ([], []) in
      let expected = hash_hex encoding snapshot.root in
      let report : VerifyReport = record {
        snapshot_id = snapshot.id;
        files = count_files snapshot;
        chunks = length hashes.0;
        tree_blobs = length hashes.1;
        deep = deep;
      } in
      let checks =
        check_hashes (check_chunk deep) false hashes.0 (record { seen = []; fetched = [] }) >>= λ c.
        check_hashes (check_tree_blob deep) deep hashes.1 c >>= λ c'.
        (if deep then descend_root snapshot.root c'.fetched else pure tt) >>= λ u. pure report in
      lift (validate snapshot.root) >>= λ u.
      if text_eq (hash_hex encoding snapshot.root) expected then checks else throw corrupt_blob
