-- ===== src/Repo/Committed.antt =====
-- repo.rs: a commit writes the manifest last.
use server_backup.Common.{
  ◌≡◌, refl, sym, ◌∙◌, subst, inl, inr, Bool, true, false, Option, some, List, [], ◌∷◌,
  if◌then◌else◌, Bool-cases, length,
}
use server_backup.Common.Texts.{Text, Bytes, text_eq, text_eq_refl, text_eq_sound}
use server_backup.Common.Errors.{Result, ok, err}
use server_backup.Common.Actions.{
  Action, Ends, returned, failed, Ends-bind, Ends-weaken, ◌>>=◌, pure, lift,
}
use server_backup.Crypto.{doc, hash}
use server_backup.Tree.{Node, NodeBlobs, sort, build_stored}
use server_backup.Snapshot.{Snapshot, SnapshotStats}
use server_backup.Backend.{Backend, Objects, lookup, store, put, exists}
use server_backup.Backend.Laws.{lookup-store, put-Outcome, exists_Outcome}
use server_backup.Repo.{Repository, blob_key, snapshot_key, index_key, seal_for}
use server_backup.Repo.Keys.{blob_key-not_snapshot, index_key-not_snapshot}
use server_backup.Repo.Index.{Sizes, build_index}
use server_backup.Repo.Commit.{
  Drawn, seal_and_put, store_node_blobs, put_document, new_snapshot, put_snapshot, commit_snapshot,
}

-- Started where `P` holds, the method returns with `Q`, or fails and leaves `E`.
record Leads {A : Type 0} (P : Objects → Type 0) (Q : A → Objects → Type 0) (E : Objects → Type 0)
    (m : Action Backend A) : Type 0 where
  run : (b : Backend) → P b.objects → Ends (λ a b'. Q a b'.objects) (λ b'. E b'.objects) (m b)

Leads-bind :
    {A B : Type 0} {P E : Objects → Type 0} {Q : A → Objects → Type 0} {R : B → Objects → Type 0}
    {m : Action Backend A} {f : A → Action Backend B}
    → Leads P Q E m
    → ((a : A) → Leads (Q a) R E (f a))
    → Leads P R E (m >>= f)
Leads-bind {m = m} {f = f} h k = record {
  run = λ b p. Ends-bind _ _ _ m f b (h.run b p) (λ a b' q. (k a).run b' q);
}

module _ (P E : Objects → Type 0) where
  pure-Leads :
      {A : Type 0} (Q : A → Objects → Type 0) (a : A)
      → ((o : Objects) → P o → Q a o)
      → Leads P Q E (pure a)
  pure-Leads Q a q = record { run = λ b p. returned a b refl (q b.objects p) }

  lift-Leads :
      {A : Type 0} (r : Result A)
      → ((o : Objects) → P o → E o)
      → Leads P (λ a o. (r ≡ ok a) × P o) E (lift r)
  lift-Leads (ok a) e = record { run = λ b p. returned a b refl (refl, p) }
  lift-Leads (err x) e = record { run = λ b p. failed x b refl (e b.objects p) }

  exists_Leads : (key : Text) → ((o : Objects) → P o → E o) → Leads P (λ there. P) E (exists key)
  exists_Leads key e = record {
    run = λ b p.
        Ends-weaken _ _ _ _ (exists key b) (λ there b' (q, same). subst P (sym same) p)
          (λ b' same. e b'.objects (subst P (sym same) p)) (exists_Outcome b key);
  }

  put-Leads :
      (Q : Objects → Type 0) (key : Text) (v : Bytes)
      → ((o : Objects) → P o → E o)
      → ((o : Objects) → P o → Q (store key v o))
      → Leads P (λ (u : Unit {0}). Q) E (put key v)
  put-Leads Q key v e q = record {
    run = λ b p.
        Ends-weaken _ _ _ _ (put key v b) (λ u b' (_, same). subst Q (sym same) (q b.objects p))
          (λ b' same. e b'.objects (subst P (sym same) p)) (put-Outcome b key v);
  }

  if_Leads :
      {A : Type 0} (Q : A → Objects → Type 0) (c : Bool) (m n : Action Backend A)
      → Leads P Q E m
      → Leads P Q E n
      → Leads P Q E (if c then m else n)
  if_Leads Q true m n h k = h
  if_Leads Q false m n h k = k

lookup_put : (k : Text) (v : Bytes) (m : Objects) → lookup k (store k v m) ≡ some v
lookup_put k v m = lookup-store k k v m ∙ rw (text_eq_refl k)

lookup_beside :
    (k j : Text) (v : Bytes) (m : Objects) → (k ≡ j → ⊥) → lookup j (store k v m) ≡ lookup j m
lookup_beside k j v m other = elim (Bool-cases (text_eq j k)) [
  | inl e ↦ absurd (other (sym (text_eq_sound j k e)))
  | inr e ↦ lookup-store k j v m ∙ rw e
]

module _ (repo : Repository) (nonce_for : Text → Bytes) where
  -- The sealed document stands at the key.
  unfoldable pub HasDocument : Text → Bytes → Objects → Type 0
  HasDocument key plain o =
      (stored : Bytes) × (seal_for repo (nonce_for key) doc plain ≡ ok stored)
      × (lookup key o ≡ some stored)

  -- The snapshot has its manifest and an index that was built for it.
  unfoldable pub IsCommitted : Text → Snapshot → Objects → Type 0
  IsCommitted id snapshot o =
      (snapshot.id ≡ id)
      × ((written : Sizes) × HasDocument (index_key id)
            (repo.libraries.index_bytes (build_index snapshot written)) o)
      × HasDocument (snapshot_key id) (repo.libraries.snapshot_bytes snapshot) o

  module _ (id : Text) (m : Option Bytes) where
    Same : Objects → Type 0
    Same o = lookup (snapshot_key id) o ≡ m

    keeps :
        (key : Text) (v : Bytes) (o : Objects)
        → (key ≡ snapshot_key id → ⊥)
        → Same o
        → Same (store key v o)
    unfolding Same
    keeps key v o other s = lookup_beside key (snapshot_key id) v o other ∙ s

    store_node_blobs-Leads :
        (blobs : NodeBlobs) (r : SnapshotStats × Sizes)
        → Leads Same (λ r'. Same) Same (store_node_blobs repo nonce_for blobs r)
    unfolding store_node_blobs seal_and_put
    store_node_blobs-Leads [] r = pure-Leads Same Same _ r (λ o s. s)
    store_node_blobs-Leads ((hex, payload) ∷ rest) r =
        Leads-bind (exists_Leads Same Same (blob_key hex) (λ o s. s)) λ there.
          if_Leads Same Same _ there _ _ (store_node_blobs-Leads rest r) (
            Leads-bind
              (Leads-bind
                (lift-Leads Same Same (seal_for repo (nonce_for (blob_key hex)) (hash hex) payload)
                  (λ o s. s))
                λ stored.
                  Leads-bind
                    (put-Leads _ Same Same (blob_key hex) stored (λ o (e, s). s)
                      (λ o (e, s). keeps (blob_key hex) stored o (blob_key-not_snapshot hex id) s))
                    λ u. pure-Leads Same Same (λ n. Same) (length stored) (λ o s. s))
              λ size. store_node_blobs-Leads rest _)

    WithIndex : Snapshot → Objects → Type 0
    WithIndex snapshot o =
        ((written : Sizes) × HasDocument (index_key id)
            (repo.libraries.index_bytes (build_index snapshot written)) o)
        × Same o

    put_index-Leads :
        (snapshot : Snapshot) (written : Sizes)
        → Leads Same
            (λ u. WithIndex snapshot)
            Same
            (put_document repo nonce_for
              (index_key id)
              (repo.libraries.index_bytes (build_index snapshot written)))
    unfolding put_document WithIndex HasDocument
    put_index-Leads snapshot written =
        Leads-bind
          (lift-Leads Same Same (seal_for repo (nonce_for (index_key id)) doc plain) (λ o s. s))
          λ stored.
            put-Leads _ Same (WithIndex snapshot) (index_key id) stored (λ o (e, s). s)
              λ o (e, s). (
                (written, (stored, e, lookup_put (index_key id) stored o)),
                keeps (index_key id) stored o (index_key-not_snapshot id id) s,
              )
      where
        plain : Bytes
        plain = repo.libraries.index_bytes (build_index snapshot written)

    put_manifest-Leads :
        (snapshot : Snapshot)
        → snapshot.id ≡ id
        → Leads
            (WithIndex snapshot)
            (λ u. IsCommitted id snapshot)
            Same
            (put_document repo nonce_for (snapshot_key id) (repo.libraries.snapshot_bytes snapshot))
    unfolding put_document WithIndex HasDocument IsCommitted
    put_manifest-Leads snapshot same_id =
        Leads-bind
          (lift-Leads (WithIndex snapshot) Same
            (seal_for repo (nonce_for (snapshot_key id)) doc plain) (λ o (w, s). s))
          λ stored.
            put-Leads _ Same (IsCommitted id snapshot) (snapshot_key id) stored (λ o (e, (w, s)). s)
              λ o (e, ((written, (index, sealed, there)), s)). (
                same_id,
                (
                  written,
                  (
                    index,
                    sealed,
                    lookup_beside (snapshot_key id) (index_key id) stored o
                          (λ k. index_key-not_snapshot id id (sym k))
                        ∙ there,
                  ),
                ),
                (stored, e, lookup_put (snapshot_key id) stored o),
              )
      where
        plain : Bytes
        plain = repo.libraries.snapshot_bytes snapshot

  commit_Leads :
      (drawn : Drawn) (root : Node) (paths : List Text) (stats : SnapshotStats) (written : Sizes)
      (m : Option Bytes)
      → Leads
          (Same drawn.id m)
          (λ snapshot. IsCommitted drawn.id snapshot)
          (Same drawn.id m)
          (commit_snapshot repo nonce_for drawn root paths stats written)
  unfolding commit_snapshot put_snapshot new_snapshot
  commit_Leads drawn root paths stats written m =
      Leads-bind
        (lift-Leads (Same drawn.id m) (Same drawn.id m)
          (build_stored repo.libraries.encoding (sort root)) (λ o s. s))
        λ built. Leads-bind (drop_left built) λ r.
          Leads-bind (put_index-Leads drawn.id m (snapshot built.0 r.0) r.1) λ u.
            Leads-bind (put_manifest-Leads drawn.id m (snapshot built.0 r.0) refl) λ u'.
              pure-Leads _ (Same drawn.id m) (λ found. IsCommitted drawn.id found)
                (snapshot built.0 r.0) (λ o c. c)
    where
      snapshot : Node → SnapshotStats → Snapshot
      snapshot stored counted = new_snapshot repo nonce_for drawn paths stored counted

      drop_left :
          (built : Node × NodeBlobs)
          → Leads
              (λ o.
                (build_stored repo.libraries.encoding (sort root) ≡ ok built) × Same drawn.id m o)
              (λ r. Same drawn.id m)
              (Same drawn.id m)
              (store_node_blobs repo nonce_for built.1 (stats, written))
      drop_left built = record {
        run = λ b (e, s). (store_node_blobs-Leads drawn.id m built.1 (stats, written)).run b s;
      }

  -- A commit that returns has stored the sealed manifest of its snapshot, under the drawn id, and a
  -- sealed index that was built for it. A commit that fails, at whatever call, has left the manifest
  -- key of that id as it was.
  pub commit_snapshot-Ends :
      (drawn : Drawn) (root : Node) (paths : List Text) (stats : SnapshotStats) (written : Sizes)
      (b : Backend)
      → Ends
          (λ snapshot b'. IsCommitted drawn.id snapshot b'.objects)
          (λ b'.
            lookup (snapshot_key drawn.id) b'.objects ≡ lookup (snapshot_key drawn.id) b.objects)
          (commit_snapshot repo nonce_for drawn root paths stats written b)
  unfolding Same
  commit_snapshot-Ends drawn root paths stats written b =
      (commit_Leads drawn root paths stats written (lookup (snapshot_key drawn.id) b.objects)).run b
        refl
