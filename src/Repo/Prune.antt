-- ===== src/Repo/Prune.antt =====
-- repo.rs: prune.
use server_backup.Common.{
  ℕ, ◌+◌, Bool, Option, none, some, List, [], ◌∷◌, if◌then◌else◌, map, length, sort_by, ◌==◌,
}
use server_backup.Common.Texts.{
  Text, Bytes, bytes, contains, insert, text_le, strip_prefix, has_byte,
}
use server_backup.Common.Errors.{Result, ok, err}
use server_backup.Common.Actions.{Action, pure, ◌>>=◌, ◌>>◌}
use server_backup.Snapshot.{Snapshot, BlobRef}
use server_backup.Retention.{RetentionPolicy, RetentionDecision, apply_policy}
use server_backup.Backend.{Backend, get, list, delete}
use server_backup.Repo.{Repository, blob_key, snapshot_key, index_key, list_snapshots}
use server_backup.Repo.Index.{snapshot_index}

pub record PruneReport : Type 0 where
  pub dry_run : Bool
  pub kept_snapshots : List Text
  pub deleted_snapshots : List Text
  pub deleted_blobs : List Text
  pub deleted_blob_bytes : ℕ

-- `live`: the hashes of one index, and those of every kept snapshot.
unfoldable pub insert_hashes : List BlobRef → List Text → List Text
insert_hashes [] live = live
insert_hashes (blob ∷ rest) live = insert_hashes rest (insert blob.hash live)

unfoldable pub live_hashes : Repository → List Snapshot → List Text → Action Backend (List Text)
unfolding insert_hashes
live_hashes repo [] live = pure live
live_hashes repo (s ∷ rest) live =
    snapshot_index repo s >>= λ index. live_hashes repo rest (insert_hashes index.blobs live)

-- `rest.split('/').next_back()`
unfoldable pub last_segment : Text → Text
last_segment [] = []
last_segment (c ∷ s) =
    if c == b'/' then last_segment s else if has_byte b'/' s then last_segment s else c ∷ s

unfoldable pub insert_present : Option Text → List Text → List Text
unfolding last_segment
insert_present none present = present
insert_present (some rest) present = insert (last_segment rest) present

unfoldable pub present_hashes : List Text → List Text → List Text
unfolding insert_present
present_hashes [] present = present
present_hashes (key ∷ keys) present =
    present_hashes keys (insert_present (strip_prefix (bytes "blobs/") key) present)

unfoldable pub not_live : List Text → List Text → List Text
not_live live [] = []
not_live live (hex ∷ rest) =
    if contains live hex then not_live live rest else hex ∷ not_live live rest

unfoldable pub garbage_of : List Text → List Text → List Text
unfolding present_hashes not_live
garbage_of live keys = sort_by text_le (not_live live (present_hashes keys []))

unfoldable pub delete_manifests : List Text → Action Backend (Unit {0})
delete_manifests [] = pure tt
delete_manifests (id ∷ rest) =
    delete (snapshot_key id) >> (delete (index_key id) >> delete_manifests rest)

-- The size of the stored blob, where `get` gives it.
unfoldable pub stored_size : Result Bytes → ℕ
stored_size (ok stored) = length stored
stored_size (err e) = 0

unfoldable pub measure : Text → Action Backend ℕ
unfolding stored_size
measure key b = (ok (stored_size (get key b).0), (get key b).1)

unfoldable pub delete_blobs : List Text → ℕ → Action Backend ℕ
unfolding measure
delete_blobs [] total = pure total
delete_blobs (hex ∷ rest) total =
    measure (blob_key hex) >>= λ size. delete (blob_key hex) >> delete_blobs rest (total + size)

abbrev pub ids : List Snapshot → List Text
ids snapshots = map (λ s. s.id) snapshots

-- The report before the deletion.
unfoldable pub planned : Bool → RetentionDecision → List Text → PruneReport
planned dry_run decision garbage = record {
  dry_run = dry_run;
  kept_snapshots = ids decision.kept;
  deleted_snapshots = ids decision.pruned;
  deleted_blobs = garbage;
  deleted_blob_bytes = 0;
}

-- What follows the plan.
unfoldable pub carry_out : PruneReport → Action Backend PruneReport
unfolding delete_manifests delete_blobs
carry_out report =
    let deletion =
      delete_manifests report.deleted_snapshots
      >> (delete_blobs report.deleted_blobs 0 >>= λ total.
          pure (record report { deleted_blob_bytes = total })) in
    if report.dry_run then pure report else deletion

-- What follows the decision: mark, list, plan, delete.
unfoldable pub mark_and_sweep :
    Repository → (dry_run : Bool) → RetentionDecision → Action Backend PruneReport
unfolding live_hashes garbage_of planned carry_out
mark_and_sweep repo dry_run decision = live_hashes repo decision.kept [] >>= λ live.
    list (bytes "blobs") >>= λ keys. carry_out (planned dry_run decision (garbage_of live keys))

unfoldable pub prune : Repository → RetentionPolicy → (dry_run : Bool) → Action Backend PruneReport
unfolding mark_and_sweep
prune repo policy dry_run = list_snapshots repo >>= λ all.
    mark_and_sweep repo dry_run (apply_policy repo.libraries.parse_utc all policy)
