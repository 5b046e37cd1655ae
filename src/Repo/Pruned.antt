-- ===== src/Repo/Pruned.antt =====
-- repo.rs: what a caller of prune relies on.
use server_backup.Common.{
  ◌≡◌, refl, sym, ap, ◌∙◌, subst, ◌⊎◌, inl, inr, Bool, true, false, none, List, [], ◌∷◌, ◌++◌, map,
  Has, Has-append, Has-append_left, if◌then◌else◌, Bool-cases,
}
use server_backup.Common.Texts.{Text, bytes, contains, contains-Has, Has-contains}
use server_backup.Common.Errors.{Result, ok}
use server_backup.Common.Actions.{Action, Ends, returned, failed, continue}
use server_backup.Snapshot.{Snapshot, SnapshotIndex, BlobRef}
use server_backup.Retention.{RetentionPolicy, RetentionDecision, apply_policy}
use server_backup.Backend.{Backend, Objects, lookup}
use server_backup.Repo.{Repository, blob_key, snapshot_key, index_key, list_snapshots}
use server_backup.Repo.Keys.{
  blob_key-not_snapshot, blob_key-not_index, blob_key_injective, remove_keys, lookup-remove_keys,
}
use server_backup.Repo.Prune.{PruneReport, ids, planned, carry_out, mark_and_sweep, prune}
use server_backup.Repo.Reads.{
  Reads, Anything, Reads-bind, pure-Reads, list-Reads, list_snapshots-Reads,
}
use server_backup.Repo.Scan.{StoredIndex, Covers, live_hashes-Reads}
use server_backup.Repo.Sweep.{manifest_keys, deleted_keys}
use server_backup.Repo.Safety.{Progress, Finished, Ended, sweep_ends}

blob_not_manifest : (h : Text) (ids : List Text) → Has (blob_key h) (manifest_keys ids) → ⊥
unfolding manifest_keys
blob_not_manifest h [] m = m
blob_not_manifest h (id ∷ ids) (inl e) = blob_key-not_snapshot h id e
blob_not_manifest h (id ∷ ids) (inr (inl e)) = blob_key-not_index h id e
blob_not_manifest h (id ∷ ids) (inr (inr m)) = blob_not_manifest h ids m

Has-blob_keys : (h : Text) (hexes : List Text) → Has (blob_key h) (map blob_key hexes) → Has h hexes
Has-blob_keys h [] m = m
Has-blob_keys h (g ∷ hexes) (inl e) = inl (blob_key_injective h g e)
Has-blob_keys h (g ∷ hexes) (inr m) = inr (Has-blob_keys h hexes m)

kept_by_removal :
    (j : Text) (ks : List Text) (m : Objects)
    → (Has j ks → ⊥)
    → lookup j (remove_keys ks m) ≡ lookup j m
kept_by_removal j ks m outside = elim (Bool-cases (contains ks j)) [
  | inl e ↦ absurd (outside (contains-Has ks j e))
  | inr e ↦ lookup-remove_keys j ks m ∙ rw e
]

gone_by_removal :
    (j : Text) (ks : List Text) (m : Objects) → Has j ks → lookup j (remove_keys ks m) ≡ none
gone_by_removal j ks m h = lookup-remove_keys j ks m ∙ rw (Has-contains ks j h)

-- Of two ways to split a list, one cuts before the other.
split_order :
    (xs ys zs ws : List Text)
    → xs ++ ys ≡ zs ++ ws
    → ((r : List Text) × (zs ≡ xs ++ r)) ⊎ ((r : List Text) × (xs ≡ zs ++ r))
split_order [] ys zs ws e = inl (zs, refl)
split_order (x ∷ xs) ys [] ws e = inr (x ∷ xs, refl)
split_order (x ∷ xs) ys (z ∷ zs) ws e = elim (split_order xs ys zs ws tails) [
  | inl (r, q) ↦ inl (r, cc (heads, q))
  | inr (r, q) ↦ inr (r, cc (heads, q))
]
  where
    heads : x ≡ z
    heads = cc

    tails : xs ++ ys ≡ zs ++ ws
    tails = cc

Has-manifest_keys :
    (s : Snapshot) (pruned : List Snapshot)
    → Has s pruned
    → Has (snapshot_key s.id) (manifest_keys (ids pruned))
      × Has (index_key s.id) (manifest_keys (ids pruned))
unfolding manifest_keys
Has-manifest_keys s [] m = absurd m
Has-manifest_keys s (x ∷ pruned) (inl e) = (
  inl (ap (λ (t : Snapshot). snapshot_key t.id) e),
  inr (inl (ap (λ (t : Snapshot). index_key t.id) e)),
)
Has-manifest_keys s (x ∷ pruned) (inr m) =
    let (a, b) = Has-manifest_keys s pruned m in (inr (inr a), inr (inr b))

-- No blob has been deleted yet, or the manifest and the index of every dropped snapshot are gone.
pub Ordered : RetentionDecision → Objects → Objects → Type 0
Ordered decision before after =
    ((h : Text) → lookup (blob_key h) after ≡ lookup (blob_key h) before)
    ⊎ ((s : Snapshot)
        → Has s decision.pruned
        → (lookup (snapshot_key s.id) after ≡ none) × (lookup (index_key s.id) after ≡ none))

module _ (repo : Repository) where
  Progress-keeps :
      (decision : RetentionDecision) (before after : Objects) (s : Snapshot) (index : SnapshotIndex)
      (blob : BlobRef)
      → Progress repo decision before after
      → Has s decision.kept
      → StoredIndex repo before s.id index
      → Has blob index.blobs
      → lookup (blob_key blob.hash) after ≡ lookup (blob_key blob.hash) before
  unfolding Covers
  Progress-keeps decision before after s index blob p kept stored listed =
      ap (lookup (blob_key blob.hash)) p.stopped.objects
      ∙ kept_by_removal (blob_key blob.hash) p.stopped.done before λ m.
        elim (Has-append _ (manifest_keys (ids decision.pruned)) _ (in_plan m)) [
          | inl here ↦ blob_not_manifest blob.hash (ids decision.pruned) here
          | inr here ↦ not_garbage (Has-blob_keys blob.hash p.garbage here)
        ]
    where
      in_plan :
          Has (blob_key blob.hash) p.stopped.done
          → Has (blob_key blob.hash) (manifest_keys (ids decision.pruned) ++ map blob_key p.garbage)
      in_plan m =
          subst (Has (blob_key blob.hash)) (sym p.stopped.splits)
            (Has-append_left _ p.stopped.done p.stopped.todo m)

      not_garbage : Has blob.hash p.garbage → ⊥
      not_garbage m = elim p.covers [
        | inl e ↦ subst (Has blob.hash) e m
        | inr covers ↦ absurd (
            cc (
              p.dead blob.hash m,
              Has-contains p.live blob.hash (covers s kept index stored blob listed),
            ))
      ]

  Progress-order :
      (decision : RetentionDecision) (before after : Objects)
      → Progress repo decision before after
      → Ordered decision before after
  unfolding Ordered
  Progress-order decision before after p =
      elim (split_order p.stopped.done p.stopped.todo manifests (map blob_key p.garbage)
        (sym p.stopped.splits)) [
          | inl (r, e) ↦ inl λ h.
              ap (lookup (blob_key h)) p.stopped.objects
              ∙ kept_by_removal (blob_key h) p.stopped.done before (λ m.
                blob_not_manifest h (ids decision.pruned)
                  (subst (Has (blob_key h)) (sym e) (Has-append_left _ p.stopped.done r m)))
          | inr (r, e) ↦ inr λ s m.
              let (manifest, index) = Has-manifest_keys s decision.pruned m in
              (gone (snapshot_key s.id) r e manifest, gone (index_key s.id) r e index)
        ]
    where
      manifests : List Text
      manifests = manifest_keys (ids decision.pruned)

      gone :
          (k : Text) (r : List Text)
          → p.stopped.done ≡ manifests ++ r
          → Has k manifests
          → lookup k after ≡ none
      gone k r e m =
          ap (lookup k) p.stopped.objects
          ∙ gone_by_removal k p.stopped.done before
              (subst (Has k) (sym e) (Has-append_left k manifests r m))

  Ended-Progress :
      (decision : RetentionDecision) (before : Objects) (r : Result PruneReport × Backend)
      → Ended repo decision before r
      → Progress repo decision before r.1.objects
  unfolding Ended
  Ended-Progress decision before r (returned report b' h (f, p)) =
      subst (λ (q : Result PruneReport × Backend). Progress repo decision before q.1.objects)
        (sym h) p
  Ended-Progress decision before r (failed x b' h p) =
      subst (λ (q : Result PruneReport × Backend). Progress repo decision before q.1.objects)
        (sym h) p

  module _ (policy : RetentionPolicy) (b : Backend) where
    decision_of : List Snapshot → RetentionDecision
    decision_of all = apply_policy repo.libraries.parse_utc all policy

    listing_kept :
        (all : List Snapshot) (b1 : Backend)
        → list_snapshots repo b ≡ (ok all, b1)
        → b1.objects ≡ b.objects
    listing_kept all b1 h = go ((list_snapshots-Reads b.objects repo).run b refl)
      where
        go :
            Ends
              (λ a b'. Anything a × (b'.objects ≡ b.objects))
              (λ b'. b'.objects ≡ b.objects)
              (list_snapshots repo b)
            → b1.objects ≡ b.objects
        go (returned a b' e (q, o)) =
            ap (λ (r : Result (List Snapshot) × Backend). r.1.objects) (sym h ∙ e) ∙ o
        go (failed x b' e o) =
            ap (λ (r : Result (List Snapshot) × Backend). r.1.objects) (sym h ∙ e) ∙ o

    real_run :
        (all : List Snapshot) (b1 : Backend)
        → list_snapshots repo b ≡ (ok all, b1)
        → Ended repo (decision_of all) b.objects (prune repo policy false b)
    unfolding prune decision_of
    real_run all b1 h =
        subst
          (λ (q : Result (List Snapshot) × Backend).
            Ended repo (decision_of all) b.objects (continue swept q.0 q.1))
          (sym h)
          (subst
            (λ o. Ended repo (decision_of all) o (mark_and_sweep repo false (decision_of all) b1))
            (listing_kept all b1 h) (sweep_ends repo (decision_of all) b1))
      where
        swept : List Snapshot → Action Backend PruneReport
        swept found = mark_and_sweep repo false (decision_of found)

    dry_run-Reads : Reads b.objects Anything (prune repo policy true)
    unfolding prune mark_and_sweep carry_out planned decision_of
    dry_run-Reads = Reads-bind b.objects (list_snapshots-Reads b.objects repo) λ all _.
        Reads-bind b.objects (live_hashes-Reads b.objects repo (decision_of all).kept) λ live _.
          Reads-bind b.objects (list-Reads b.objects (bytes "blobs"))
            λ keys _. pure-Reads b.objects _ _ tt

    -- A dry run leaves every object of the backend as it is, also when it fails.
    pub prune-dry_run : (prune repo policy true b).1.objects ≡ b.objects
    prune-dry_run = elim (dry_run-Reads.run b refl) [
      | returned report b' h (q, o) ↦ ap (λ (r : Result PruneReport × Backend). r.1.objects) h ∙ o
      | failed x b' h o ↦ ap (λ (r : Result PruneReport × Backend). r.1.objects) h ∙ o
    ]

    -- When the snapshots can be listed, then whatever prune returns, and wherever it stops with an
    -- error, every blob that the stored index of a kept snapshot lists is as it was before.
    pub prune_keeps_listed :
        (dry_run : Bool) (all : List Snapshot) (b1 : Backend)
        → list_snapshots repo b ≡ (ok all, b1)
        → (s : Snapshot) → Has s (apply_policy repo.libraries.parse_utc all policy).kept
        → (index : SnapshotIndex) → StoredIndex repo b.objects s.id index
        → (blob : BlobRef) → Has blob index.blobs
        → lookup (blob_key blob.hash) (prune repo policy dry_run b).1.objects
          ≡ lookup (blob_key blob.hash) b.objects
    unfolding decision_of
    prune_keeps_listed true all b1 h s kept index stored blob listed =
        ap (lookup (blob_key blob.hash)) prune-dry_run
    prune_keeps_listed false all b1 h s kept index stored blob listed =
        Progress-keeps (decision_of all) b.objects _ s index blob
          (Ended-Progress (decision_of all) b.objects (prune repo policy false b)
            (real_run all b1 h))
          kept stored listed

    -- When the snapshots can be listed, then wherever a real run stops, either every blob is as it
    -- was, or the manifest and the index of every snapshot that the policy drops are gone.
    pub prune_in_order :
        (all : List Snapshot) (b1 : Backend)
        → list_snapshots repo b ≡ (ok all, b1)
        → Ordered
            (apply_policy repo.libraries.parse_utc all policy)
            b.objects
            (prune repo policy false b).1.objects
    unfolding decision_of
    prune_in_order all b1 h =
        Progress-order (decision_of all) b.objects _ (
          Ended-Progress (decision_of all) b.objects (prune repo policy false b)
            (real_run all b1 h))

    -- When the snapshots can be listed and a real run returns its report, the report names the
    -- snapshots of that list which the policy keeps and drops, and the backend has lost the manifests,
    -- the indexes and the blobs that the report names as deleted, and nothing else.
    pub prune_exact :
        (all : List Snapshot) (b1 b2 : Backend) (report : PruneReport)
        → list_snapshots repo b ≡ (ok all, b1)
        → prune repo policy false b ≡ (ok report, b2)
        → (report.kept_snapshots ≡ ids (apply_policy repo.libraries.parse_utc all policy).kept)
          × (report.deleted_snapshots
              ≡ ids (apply_policy repo.libraries.parse_utc all policy).pruned)
          × ((k : Text)
              → lookup k b2.objects
                ≡ (if contains (deleted_keys report) k then none else lookup k b.objects))
    unfolding decision_of Ended Finished
    prune_exact all b1 b2 report h ran = go (real_run all b1 h)
      where
        go :
            Ended repo (decision_of all) b.objects (prune repo policy false b)
            → (report.kept_snapshots ≡ ids (decision_of all).kept)
              × (report.deleted_snapshots ≡ ids (decision_of all).pruned)
              × ((k : Text)
                  → lookup k b2.objects
                    ≡ (if contains (deleted_keys report) k then none else lookup k b.objects))
        go (returned found b' e ((d, k, o), p)) =
            let same : (found, b'.objects) ≡ (report, b2.objects) = cc in
            subst
              (λ (q : PruneReport × Objects).
                (q.0.kept_snapshots ≡ ids (decision_of all).kept)
                × (q.0.deleted_snapshots ≡ ids (decision_of all).pruned)
                × ((j : Text)
                    → lookup j q.1
                      ≡ (if contains (deleted_keys q.0) j then none else lookup j b.objects)))
              same
              (k, d, λ j. ap (lookup j) o ∙ lookup-remove_keys j (deleted_keys found) b.objects)
        go (failed x b' e p) = absurd (cc)
