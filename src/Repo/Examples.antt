-- ===== src/Repo/Examples.antt =====
-- repo.rs on a small repository without encryption: two snapshots of one day each, of which the
-- policy keeps the newer.
use server_backup.Common.{
  ℕ, ◌≡◌, refl, ◌↔◌, ◌⊎◌, inl, true, false, Option, none, some, List, [], ◌∷◌, ◌++◌, if◌then◌else◌,
  Has, All, sort_by,
}
use server_backup.Common.Int.{pos, int_le}
use server_backup.Common.Texts.{
  Text, Bytes, bytes, text_eq, text_le, strip_prefix, contains, insert, has_byte, starts_with,
}
use server_backup.Common.Errors.{ok}
use server_backup.Crypto.Sample.{plain_cipher}
use server_backup.Blobs.{wrap, unwrap, parse_flags, is_valid, decode, decompress_payload}
use server_backup.Blobs.Sample.{one_word}
use server_backup.Tree.{
  file, dir, nil, cons, check_name, is_bad_name, ends_with_byte, validate, collect_all_hashes,
  hash_hex,
}
use server_backup.Tree.Hashes.{chunks_of, refs_of}
use server_backup.Snapshot.{Snapshot, SnapshotIndex, chunk}
use server_backup.Retention.{
  RetentionPolicy, apply_policy, kept_indices, select, keep_first, keep_buckets, keep_unparsed,
  keep_newest, is_none, last_count,
}
use server_backup.Retention.Clock.{DateTime, newest_first, stamp_le}
use server_backup.Backend.{
  Backend, Objects, lookup, list, keys_under, is_under, trim_slashes, attempt, get, or_missing,
  exists, is_some, delete, remove,
}
use server_backup.Repo.{
  Libraries, Repository, list_snapshots, load_manifests, ends_with, parse_manifest, parse_document,
  or_malformed, open_for, newest_listed_first, blob_key, index_key, snapshot_key,
  parse_stored_index,
}
use server_backup.Repo.Index.{build_index, snapshot_index}
use server_backup.Repo.Built.{Distinct, hashes, build_index_exact}
use server_backup.Repo.Paths.{
  safe_join, split_slash, Inside, safe_join-Inside, push_segments, is_bad_segment,
}
use server_backup.Repo.Scan.{StoredIndex}
use server_backup.Repo.Prune.{
  PruneReport, ids, prune, mark_and_sweep, live_hashes, insert_hashes, garbage_of, present_hashes,
  insert_present, last_segment, not_live, planned, carry_out, delete_manifests, delete_blobs,
  measure, stored_size,
}
use server_backup.Common.Actions.{Ends}
use server_backup.Repo.Verify.{
  VerifyReport, verify, check_chunk, check_tree_blob, check_hashes, descend_root, verify_descend,
  descend_in, count_files, count_inline_files,
}
use server_backup.Repo.Verified.{IsSound, verify-IsSound}
use server_backup.Repo.Commit.{commit_snapshot}
use server_backup.Repo.Committed.{IsCommitted, commit_snapshot-Ends}
use server_backup.Repo.Sweep.{deleted_keys}
use server_backup.Repo.Pruned.{
  Ordered, prune-dry_run, prune_keeps_listed, prune_in_order, prune_exact,
}

abbrev snap : Text → ℕ → Snapshot
snap id d = record {
  id = id;
  time = d ∷ [];
  hostname = bytes "h";
  paths = [];
  root =
      dir (bytes "root") (cons (file (bytes "f") 1 none none (bytes "aab" ∷ bytes "aab" ∷ [])) nil);
  stats = record {
    files = 1;
    bytes = 1;
    chunks = 2;
    new_chunks = 1;
    new_bytes = 1;
    new_tree_nodes = 0;
  };
}

abbrev index_of : Text → SnapshotIndex
index_of id = record {
  snapshot_id = id;
  blobs = record { hash = bytes "aab"; size = none; kind = chunk } ∷ [];
}

abbrev parse_day : Text → Option DateTime
parse_day [] = none
parse_day (d ∷ rest) = some (record {
  year = pos 2026;
  month = 3;
  day = d;
  iso_year = pos 2026;
  iso_week = 9;
  unix_timestamp = pos d;
})

-- A document is one byte here, the day.
abbrev parse_sample : Bytes → Option Snapshot
parse_sample [] = none
parse_sample (d ∷ rest) = some (snap (d ∷ []) d)

abbrev libraries : Libraries
libraries = record {
  zstd = one_word;
  cipher = plain_cipher;
  encoding = record { serialized = λ n. []; parse = λ b. none; hash = λ b. b };
  snapshot_bytes = λ s. s.id;
  index_bytes = λ i. i.snapshot_id;
  parse_snapshot = parse_sample;
  parse_index = λ b. some (index_of b);
  parse_utc = parse_day;
}

abbrev repo : Repository
repo = record { libraries = libraries; crypto = none }

abbrev keep_one : RetentionPolicy
keep_one = record { keep_daily = 0; keep_weekly = 0; keep_monthly = 0; keep_last = 1 }

abbrev before : Objects
before =
    (snapshot_key (5 ∷ []), wrap 1 (5 ∷ []))
    ∷ (index_key (5 ∷ []), wrap 1 (5 ∷ []))
    ∷ (snapshot_key (6 ∷ []), wrap 1 (6 ∷ []))
    ∷ (index_key (6 ∷ []), wrap 1 (6 ∷ []))
    ∷ (blob_key (bytes "aab"), wrap 1 (1 ∷ []))
    ∷ (blob_key (bytes "bbc"), wrap 1 (2 ∷ []))
    ∷ []

abbrev quiet : Backend
quiet = record { objects = before; faults = [] }

-- A call fails in the sweep: the deletion of the index of the dropped snapshot.
abbrev flaky : Backend
flaky = record {
  objects = before;
  faults = false ∷ false ∷ false ∷ false ∷ false ∷ false ∷ false ∷ true ∷ [];
}

abbrev all : List Snapshot
all = snap (6 ∷ []) 6 ∷ snap (5 ∷ []) 5 ∷ []

listing : Unit {0}
unfolding list_snapshots load_manifests ends_with parse_manifest parse_document or_malformed
    open_for newest_listed_first snapshot_key index_key blob_key list keys_under is_under
    trim_slashes attempt get or_missing lookup strip_prefix starts_with text_eq text_le sort_by wrap
    unwrap parse_flags is_valid decode decompress_payload
listing = tt

all_listed : list_snapshots repo quiet ≡ (ok all, quiet)
unfolding listing
all_listed = refl

abbrev rest_flaky : Backend
rest_flaky = record { objects = before; faults = false ∷ false ∷ false ∷ false ∷ true ∷ [] }

all_listed_flaky : list_snapshots repo flaky ≡ (ok all, rest_flaky)
unfolding listing
all_listed_flaky = refl

program : Unit {0}
unfolding listing prune mark_and_sweep live_hashes insert_hashes snapshot_index exists is_some
    parse_stored_index contains insert garbage_of present_hashes insert_present last_segment
    not_live planned carry_out delete_manifests delete_blobs measure stored_size delete remove
    has_byte apply_policy kept_indices select keep_first keep_buckets keep_unparsed keep_newest
    is_none last_count newest_first stamp_le int_le
program = tt

-- The failed deletion leaves the manifest of the dropped snapshot gone, and its index and every blob.
prune-flaky :
    (prune repo keep_one false flaky).1.objects
    ≡ (index_key (5 ∷ []), wrap 1 (5 ∷ []))
      ∷ (snapshot_key (6 ∷ []), wrap 1 (6 ∷ []))
      ∷ (index_key (6 ∷ []), wrap 1 (6 ∷ []))
      ∷ (blob_key (bytes "aab"), wrap 1 (1 ∷ []))
      ∷ (blob_key (bytes "bbc"), wrap 1 (2 ∷ []))
      ∷ []
unfolding program
prune-flaky = refl

newest_kept : Has (snap (6 ∷ []) 6) (apply_policy parse_day all keep_one).kept
unfolding program
newest_kept = inl refl

index_stored : StoredIndex repo before (6 ∷ []) (index_of (6 ∷ []))
unfolding program StoredIndex
index_stored = (wrap 1 (6 ∷ []), refl, refl)

prune-dry_run_example : (prune repo keep_one true quiet).1.objects ≡ before
prune-dry_run_example = prune-dry_run repo keep_one quiet

prune_keeps_listed_example :
    lookup (blob_key (bytes "aab")) (prune repo keep_one false flaky).1.objects
    ≡ lookup (blob_key (bytes "aab")) before
prune_keeps_listed_example =
    prune_keeps_listed repo keep_one flaky false all rest_flaky all_listed_flaky (snap (6 ∷ []) 6)
      newest_kept (index_of (6 ∷ [])) index_stored
      (record { hash = bytes "aab"; size = none; kind = chunk }) (inl refl)

prune_in_order_example :
    Ordered (apply_policy parse_day all keep_one) before (prune repo keep_one false flaky).1.objects
prune_in_order_example = prune_in_order repo keep_one flaky all rest_flaky all_listed_flaky

abbrev swept : Objects
swept =
    (snapshot_key (6 ∷ []), wrap 1 (6 ∷ []))
    ∷ (index_key (6 ∷ []), wrap 1 (6 ∷ []))
    ∷ (blob_key (bytes "aab"), wrap 1 (1 ∷ []))
    ∷ []

abbrev report : PruneReport
report = record {
  dry_run = false;
  kept_snapshots = (6 ∷ []) ∷ [];
  deleted_snapshots = (5 ∷ []) ∷ [];
  deleted_blobs = bytes "bbc" ∷ [];
  deleted_blob_bytes = 6;
}

prune-quiet : prune repo keep_one false quiet ≡ (ok report, record { objects = swept; faults = [] })
unfolding program
prune-quiet = refl

prune_exact_example :
    (report.kept_snapshots ≡ ids (apply_policy parse_day all keep_one).kept)
    × (report.deleted_snapshots ≡ ids (apply_policy parse_day all keep_one).pruned)
    × ((k : Text)
        → lookup k swept ≡ (if contains (deleted_keys report) k then none else lookup k before))
prune_exact_example = prune_exact repo keep_one quiet all quiet _ report all_listed prune-quiet

build_index_exact_example :
    Distinct (hashes (build_index (snap (6 ∷ []) 6) []).blobs)
    × ((h : Text)
        → Has h (hashes (build_index (snap (6 ∷ []) 6) []).blobs)
          ↔ (Has h (chunks_of (snap (6 ∷ []) 6).root) ⊎ Has h (refs_of (snap (6 ∷ []) 6).root)))
build_index_exact_example = build_index_exact (snap (6 ∷ []) 6) []

abbrev target : List Text
target = bytes "srv" ∷ bytes "restore" ∷ []

joined : safe_join target (bytes "etc/ssh") ≡ ok (target ++ bytes "etc" ∷ bytes "ssh" ∷ [])
unfolding safe_join split_slash push_segments is_bad_segment text_eq has_byte
joined = refl

safe_join-Inside_example :
    (target ++ bytes "etc" ∷ bytes "ssh" ∷ [] ≡ target ++ split_slash (bytes "etc/ssh"))
    × All Inside (split_slash (bytes "etc/ssh"))
safe_join-Inside_example = safe_join-Inside target (bytes "etc/ssh") _ joined

commit_snapshot-Ends_example :
    Ends
      (λ s b. IsCommitted repo (λ key. []) (7 ∷ []) s b.objects)
      (λ b. lookup (snapshot_key (7 ∷ [])) b.objects ≡ lookup (snapshot_key (7 ∷ [])) before)
      (commit_snapshot repo
        (λ key. [])
        (record { id = 7 ∷ []; time = 7 ∷ []; hostname = bytes "h" })
        (dir (bytes "root") nil)
        []
        (snap (7 ∷ []) 7).stats
        []
        flaky)
commit_snapshot-Ends_example =
    commit_snapshot-Ends repo (λ key. [])
      (record { id = 7 ∷ []; time = 7 ∷ []; hostname = bytes "h" }) (dir (bytes "root") nil) []
      (snap (7 ∷ []) 7).stats [] flaky

abbrev verified : VerifyReport
verified = record { snapshot_id = 6 ∷ []; files = 1; chunks = 2; tree_blobs = 0; deep = true }

verify-quiet : verify repo (snap (6 ∷ []) 6) true quiet ≡ (ok verified, quiet)
unfolding program verify check_chunk check_tree_blob check_hashes descend_root verify_descend
    descend_in count_files count_inline_files validate check_name is_bad_name ends_with_byte
    collect_all_hashes hash_hex
verify-quiet = refl

verify-IsSound_example : IsSound before (snap (6 ∷ []) 6).root × (before ≡ before)
verify-IsSound_example =
    verify-IsSound repo (snap (6 ∷ []) 6) true quiet quiet verified verify-quiet
