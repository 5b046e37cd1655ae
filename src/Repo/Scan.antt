-- ===== src/Repo/Scan.antt =====
-- repo.rs: the mark phase of prune. What the stored index of a kept snapshot lists is live.
use server_backup.Common.{
  ℕ, zero, suc, false, some, List, [], ◌∷◌, ◌≡◌, sym, ap, ◌∙◌, subst, ◌⊎◌, inl, inr, Has,
  Bool-cases, Has-sort_by, length,
}
use server_backup.Common.Texts.{Text, Bytes, contains, insert, insert-Has, insert_keeps}
use server_backup.Common.Errors.{ok, malformed}
use server_backup.Common.Actions.{Action}
use server_backup.Tree.{Node, file, dir, ref, Nodes, nil, cons}
use server_backup.Snapshot.{Snapshot, SnapshotIndex, BlobRef}
use server_backup.Crypto.{hash}
use server_backup.Backend.{Backend, Objects, lookup, is_some}
use server_backup.Repo.{
  Repository, blob_key, index_key, open_for, parse_document, parse_stored_index,
}
use server_backup.Repo.Index.{
  Collected, fetch_node, collect_in, collect_in_all, collect_node_blob_hashes, derive_index,
  snapshot_index,
}
use server_backup.Repo.Prune.{insert_hashes, live_hashes, not_live, garbage_of, present_hashes}
use server_backup.Repo.Reads.{
  Reads, Anything, Reads-bind, pure-Reads, lift-Reads, get-Reads, exists_Reads, if_Reads,
  Reads-weaken, throw-Reads,
}

-- The index that the repository stores for the snapshot.
unfoldable pub StoredIndex : Repository → Objects → Text → SnapshotIndex → Type 0
StoredIndex repo o id index =
    (stored : Bytes) × (lookup (index_key id) o ≡ some stored)
    × (parse_stored_index repo stored ≡ ok index)

insert_hashes_keep :
    (h : Text) (blobs : List BlobRef) (live : List Text)
    → Has h live
    → Has h (insert_hashes blobs live)
unfolding insert_hashes
insert_hashes_keep h [] live m = m
insert_hashes_keep h (blob ∷ blobs) live m =
    insert_hashes_keep h blobs (insert blob.hash live) (insert_keeps blob.hash h live m)

insert_hashes-Has :
    (blob : BlobRef) (blobs : List BlobRef) (live : List Text)
    → Has blob blobs
    → Has blob.hash (insert_hashes blobs live)
unfolding insert_hashes
insert_hashes-Has blob [] live m = absurd m
insert_hashes-Has blob (x ∷ blobs) live (inl e) =
    insert_hashes_keep blob.hash blobs (insert x.hash live)
      (subst (λ (y : BlobRef). Has blob.hash (insert y.hash live)) e (insert-Has blob.hash live))
insert_hashes-Has blob (x ∷ blobs) live (inr m) =
    insert_hashes-Has blob blobs (insert x.hash live) m

Has-not_live :
    (h : Text) (live present : List Text) → Has h (not_live live present) → contains live h ≡ false
unfolding not_live
Has-not_live h live [] m = absurd m
Has-not_live h live (x ∷ present) m = elim (Bool-cases (contains live x)) [
  | inl e ↦ Has-not_live h live present (rw e at m)
  | inr e ↦ elim (split (rw e at m)) [
    | inl same ↦ ap (contains live) same ∙ e
    | inr later ↦ Has-not_live h live present later
  ]
]
  where
    split : Has h (x ∷ not_live live present) → (h ≡ x) ⊎ Has h (not_live live present)
    split n = n

-- No garbage is live.
pub Has-garbage_of :
    (h : Text) (live keys : List Text) → Has h (garbage_of live keys) → contains live h ≡ false
unfolding garbage_of
Has-garbage_of h live keys m = Has-not_live h live (present_hashes keys []) (Has-sort_by _ h _ m)

module _ (o : Objects) (repo : Repository) where
  fetch_node-Reads : (hex : Text) → Reads o Anything (fetch_node repo hex)
  unfolding fetch_node
  fetch_node-Reads hex = Reads-bind o (get-Reads o (blob_key hex)) λ stored _.
      Reads-weaken o
        (lift-Reads o
          (parse_document repo.libraries.encoding.parse (open_for repo (hash hex) stored)))
        (λ _ _. tt)

  module _ (follow : Node → Collected → Action Backend Collected)
      (follow_reads : (n : Node) (c : Collected) → Reads o Anything (follow n c)) where
    mutual
      unfolding collect_in collect_in_all

      collect_in-Reads : (n : Node) (c : Collected) → Reads o Anything (collect_in repo follow n c)
      collect_in-Reads (file name size mode mtime chunks) c = pure-Reads o _ c tt
      collect_in-Reads (dir name children) c = collect_in_all-Reads children c
      collect_in-Reads (ref name hex) c =
          if_Reads o _ (contains c.seen hex) _ _ (λ _. pure-Reads o _ c tt)
            (λ _. Reads-bind o (fetch_node-Reads hex) λ inner _. follow_reads inner _)

      collect_in_all-Reads :
          (ns : Nodes) (c : Collected) → Reads o Anything (collect_in_all repo follow ns c)
      collect_in_all-Reads nil c = pure-Reads o _ c tt
      collect_in_all-Reads (cons n ns) c =
          Reads-bind o (collect_in-Reads n c) λ c' _. collect_in_all-Reads ns c'

  collect_node_blob_hashes-Reads :
      (fuel : ℕ) (n : Node) (c : Collected)
      → Reads o Anything (collect_node_blob_hashes repo fuel n c)
  unfolding collect_node_blob_hashes
  collect_node_blob_hashes-Reads zero = collect_in-Reads _ (λ n c. throw-Reads o _ malformed)
  collect_node_blob_hashes-Reads (suc fuel) =
      collect_in-Reads _ (collect_node_blob_hashes-Reads fuel)

  derive_index-Reads : (s : Snapshot) → Reads o Anything (derive_index repo s)
  unfolding derive_index
  derive_index-Reads s = record {
    run = λ b e.
        (Reads-bind o (collect_node_blob_hashes-Reads (length b.objects) s.root _)
            λ c _. pure-Reads o Anything (record { snapshot_id = s.id; blobs = c.out }) tt).run
          b e;
  }

  -- What `snapshot_index` returns is the stored index where there is one.
  IndexOf : Text → SnapshotIndex → Type 0
  IndexOf id index = (other : SnapshotIndex) → StoredIndex repo o id other → index ≡ other

  none_stored :
      (id : Text) (index other : SnapshotIndex)
      → false ≡ is_some (lookup (index_key id) o)
      → StoredIndex repo o id other
      → index ≡ other
  unfolding StoredIndex is_some
  none_stored id index other miss (stored, l, p) = absurd (cc (miss ∙ ap is_some l))

  snapshot_index-Reads : (s : Snapshot) → Reads o (IndexOf s.id) (snapshot_index repo s)
  unfolding snapshot_index IndexOf StoredIndex
  snapshot_index-Reads s = Reads-bind o (exists_Reads o (index_key s.id)) λ found q.
      if_Reads o (IndexOf s.id) found _ _
        (λ _. Reads-bind o (get-Reads o (index_key s.id)) λ stored l.
          Reads-weaken o (lift-Reads o (parse_stored_index repo stored))
            (λ index p other h. same_index stored index other l p h))
        (λ miss.
          Reads-weaken o (derive_index-Reads s)
            (λ index _ other h. none_stored s.id index other (sym miss ∙ q) h))
    where
      same_index :
          (stored : Bytes) (index other : SnapshotIndex)
          → lookup (index_key s.id) o ≡ some stored
          → parse_stored_index repo stored ≡ ok index
          → StoredIndex repo o s.id other
          → index ≡ other
      same_index stored index other l p (stored', l', p') = cc

  -- `live` has every hash of the stored index of each snapshot of the list.
  unfoldable pub Covers : List Snapshot → List Text → Type 0
  Covers kept live =
      (s : Snapshot)
      → Has s kept
      → (index : SnapshotIndex) → StoredIndex repo o s.id index
      → (blob : BlobRef) → Has blob index.blobs
      → Has blob.hash live

  Grows : List Text → List Text → Type 0
  Grows live more = (h : Text) → Has h live → Has h more

  live_hashes_grow :
      (kept : List Snapshot) (live : List Text)
      → Reads o (λ more. Grows live more × Covers kept more) (live_hashes repo kept live)
  unfolding live_hashes Grows Covers IndexOf
  live_hashes_grow [] live = pure-Reads o _ live ((λ h m. m), (λ s m. absurd m))
  live_hashes_grow (s ∷ rest) live = Reads-bind o (snapshot_index-Reads s) λ index exact.
      Reads-weaken o (live_hashes_grow rest (insert_hashes index.blobs live))
        λ more (grows, covers). (
          λ h m. grows h (insert_hashes_keep h index.blobs live m),
          λ s' m other stored blob here. elim m [
            | inl e ↦ grows blob.hash (
                insert_hashes-Has blob index.blobs live
                  (listed index exact s' e other stored blob here))
            | inr later ↦ covers s' later other stored blob here
          ],
        )
    where
      listed :
          (index : SnapshotIndex)
          → IndexOf s.id index
          → (s' : Snapshot) → s' ≡ s
          → (other : SnapshotIndex) → StoredIndex repo o s'.id other
          → (blob : BlobRef) → Has blob other.blobs
          → Has blob index.blobs
      listed index exact s' e other stored blob here =
          subst (λ (i : SnapshotIndex). Has blob i.blobs)
            (sym (exact other (subst (λ (t : Snapshot). StoredIndex repo o t.id other) e stored)))
            here

  pub live_hashes-Reads : (kept : List Snapshot) → Reads o (Covers kept) (live_hashes repo kept [])
  live_hashes-Reads kept = Reads-weaken o (live_hashes_grow kept []) (λ live (_, covers). covers)
