-- ===== src/Repo/Verified.antt =====
-- repo.rs: what a successful verify has established.
use server_backup.Common.{
  ℕ, zero, suc, ◌≡◌, refl, sym, ap, ◌∙◌, subst, ◌⊎◌, inl, inr, Bool, true, false, some, List, [],
  ◌∷◌, Has, length,
}
use server_backup.Common.Texts.{
  Text, Bytes, contains, contains-Has, insert-Has, insert_keeps, Has-insert, text_eq,
}
use server_backup.Common.Errors.{Result, ok, missing_blob, corrupt_blob, malformed}
use server_backup.Common.Actions.{Action, returned, failed, pure, map_error}
use server_backup.Crypto.{hash}
use server_backup.Tree.{
  Node, file, dir, ref, Nodes, nil, cons, validate, verify_node_blob, collect_all_hashes, hash_hex,
}
use server_backup.Tree.Names.{Safe, validate_exact}
use server_backup.Tree.Hashes.{chunks_of, refs_of, collect_all_hashes_exact}
use server_backup.Snapshot.{Snapshot}
use server_backup.Backend.{Backend, Objects, lookup, is_some, get}
use server_backup.Backend.Laws.{Outcome}
use server_backup.Repo.{Repository, blob_key, open_for, or_malformed}
use server_backup.Repo.Verify.{
  Checked, VerifyReport, check_chunk, check_node, check_tree_blob, check_hashes,
  get_or_missing_blob, descend_in, descend_in_all, verify_descend, descend_root, verify,
}
use server_backup.Repo.Reads.{
  Reads, Anything, Reads-bind, pure-Reads, lift-Reads, get-Reads, exists_Reads, if_Reads,
  Reads-weaken, throw-Reads,
}

-- The blob of the hash is in the backend.
pub IsPresent : Objects → Text → Type 0
IsPresent o h = is_some (lookup (blob_key h) o) ≡ true

-- The tree is valid, and every hash that stands in it is in the backend.
pub IsSound : Objects → Node → Type 0
IsSound o root =
    Safe root × ((h : Text) → Has h (chunks_of root) ⊎ Has h (refs_of root) → IsPresent o h)

module _ (o : Objects) (repo : Repository) where
  check_chunk-Reads : (deep : Bool) (hex : Text) → Reads o Anything (check_chunk repo deep hex)
  unfolding check_chunk
  check_chunk-Reads deep hex =
      if_Reads o Anything deep _ _
        (λ _. Reads-bind o (get-Reads o (blob_key hex)) λ stored _.
          Reads-bind o (lift-Reads o (open_for repo (hash hex) stored))
            λ payload _. pure-Reads o Anything tt tt)
        (λ _. pure-Reads o Anything tt tt)

  check_node-Reads : (hex : Text) (stored : Bytes) → Reads o Anything (check_node repo hex stored)
  unfolding check_node
  check_node-Reads hex stored =
      Reads-bind o (lift-Reads o (open_for repo (hash hex) stored)) λ payload _.
        if_Reads o Anything (verify_node_blob repo.libraries.encoding hex payload) _ _
          (λ _.
            Reads-bind o (lift-Reads o (or_malformed (repo.libraries.encoding.parse payload)))
              λ node _.
                Reads-bind o (lift-Reads o (validate node)) λ u _. pure-Reads o Anything node tt)
          (λ _. throw-Reads o Anything corrupt_blob)

  check_tree_blob-Reads :
      (deep : Bool) (hex : Text) → Reads o Anything (check_tree_blob repo deep hex)
  unfolding check_tree_blob
  check_tree_blob-Reads deep hex =
      if_Reads o Anything deep _ _
        (λ _. Reads-bind o (get-Reads o (blob_key hex)) λ stored _.
          Reads-bind o (check_node-Reads hex stored) λ node _. pure-Reads o Anything tt tt)
        (λ _. pure-Reads o Anything tt tt)

  AllPresent : List Text → Type 0
  AllPresent hs = (h : Text) → Has h hs → IsPresent o h

  -- What a loop over `hexes` leaves in `seen` is in the backend, and has what it started with.
  Found : List Text → List Text → Checked → Type 0
  Found hexes seen c =
      AllPresent c.seen
      × ((h : Text) → Has h seen → Has h c.seen)
      × ((h : Text) → Has h hexes → Has h c.seen)

  check_hashes-Reads :
      (check : Text → Action Backend (Unit {0}))
      → ((hex : Text) → Reads o Anything (check hex))
      → (fetching : Bool) (hexes : List Text) (c : Checked) → AllPresent c.seen
      → Reads o (Found hexes c.seen) (check_hashes repo check fetching hexes c)
  unfolding check_hashes Found AllPresent IsPresent
  check_hashes-Reads check checks fetching [] c present =
      pure-Reads o _ c (present, (λ h m. m), (λ h m. absurd m))
  check_hashes-Reads check checks fetching (hex ∷ rest) c present =
      if_Reads o _ (contains c.seen hex) _ _
        (λ known.
          Reads-weaken o (check_hashes-Reads check checks fetching rest c present)
            λ c' (p, grows, has). (
              p,
              grows,
              λ h m. elim m [
                | inl e ↦
                    subst (λ t. Has t c'.seen) (sym e) (grows hex (contains-Has c.seen hex known))
                | inr later ↦ has h later
              ],
            ))
        (λ _. Reads-bind o (exists_Reads o (blob_key hex)) λ there q.
          if_Reads o _ there _ _
            (λ found. Reads-bind o (checks hex) λ u _.
              Reads-weaken o
                (check_hashes-Reads check checks fetching rest _ (λ h m.
                  elim (Has-insert hex h c.seen m) [
                    | inl e ↦
                        subst (λ t. is_some (lookup (blob_key t) o) ≡ true) (sym e) (sym q ∙ found)
                    | inr old ↦ present h old
                  ]))
                λ c' (p, grows, has). (
                  p,
                  (λ h m. grows h (insert_keeps hex h c.seen m)),
                  λ h m. elim m [
                    | inl e ↦ subst (λ t. Has t c'.seen) (sym e) (grows hex (insert-Has hex c.seen))
                    | inr later ↦ has h later
                  ],
                ))
            (λ _. throw-Reads o _ (missing_blob hex)))

  get_or_missing_blob-Reads : (hex : Text) → Reads o Anything (get_or_missing_blob repo hex)
  unfolding get_or_missing_blob
  get_or_missing_blob-Reads hex = record {
    run = λ b e. go b ((get-Reads o (blob_key hex)).run b e);
  }
    where
      go :
          (b : Backend)
          → Outcome (λ v. lookup (blob_key hex) o ≡ some v) o o (get (blob_key hex) b)
          → Outcome Anything o o (get_or_missing_blob repo hex b)
      go b (returned v b' h (q, e)) =
          returned v b'
            (ap (λ (r : Result Bytes × Backend). (map_error (λ x. missing_blob hex) r.0, r.1)) h)
            (tt, e)
      go b (failed x b' h e) =
          failed (missing_blob hex) b'
            (ap (λ (r : Result Bytes × Backend). (map_error (λ y. missing_blob hex) r.0, r.1)) h) e

  module _ (follow : Node → List Text → Action Backend (List Text))
      (follow_lem : (n : Node) (f : List Text) → Reads o Anything (follow n f)) where
    mutual
      unfolding descend_in descend_in_all

      descend_in-Reads : (n : Node) (f : List Text) → Reads o Anything (descend_in repo follow n f)
      descend_in-Reads (file name size mode mtime chunks) f = pure-Reads o Anything f tt
      descend_in-Reads (dir name children) f = descend_in_all-Reads children f
      descend_in-Reads (ref name hex) f =
          if_Reads o Anything (contains f hex) _ _ (λ _. pure-Reads o Anything f tt)
            (λ _.
              Reads-bind o (get_or_missing_blob-Reads hex) λ stored _.
                Reads-bind o (check_node-Reads hex stored) λ inner _. follow_lem inner _)

      descend_in_all-Reads :
          (ns : Nodes) (f : List Text) → Reads o Anything (descend_in_all repo follow ns f)
      descend_in_all-Reads nil f = pure-Reads o Anything f tt
      descend_in_all-Reads (cons n ns) f =
          Reads-bind o (descend_in-Reads n f) λ f' _. descend_in_all-Reads ns f'

  verify_descend-Reads :
      (fuel : ℕ) (n : Node) (f : List Text) → Reads o Anything (verify_descend repo fuel n f)
  unfolding verify_descend
  verify_descend-Reads zero = descend_in-Reads _ (λ n f. throw-Reads o Anything malformed)
  verify_descend-Reads (suc fuel) = descend_in-Reads _ (verify_descend-Reads fuel)

  descend_root-Reads : (root : Node) (f : List Text) → Reads o Anything (descend_root repo root f)
  unfolding descend_root
  descend_root-Reads root f = record {
    run = λ b e.
        (Reads-bind o (verify_descend-Reads (length b.objects) root f)
            λ done _. pure-Reads o Anything tt tt).run
          b e;
  }

  verify-Reads :
      (s : Snapshot) (deep : Bool) → Reads o (λ report. IsSound o s.root) (verify repo s deep)
  unfolding verify IsSound Found AllPresent
  verify-Reads s deep = Reads-bind o (lift-Reads o (validate s.root)) λ u valid.
      if_Reads o _
        (text_eq (hash_hex repo.libraries.encoding s.root)
          (hash_hex repo.libraries.encoding s.root))
        _ _
        (λ _.
          Reads-bind o
            (check_hashes-Reads (check_chunk repo deep) (check_chunk-Reads deep) false _ _
              (λ h m. absurd m))
            λ c (p, _, has).
              Reads-bind o
                (check_hashes-Reads (check_tree_blob repo deep) (check_tree_blob-Reads deep) deep _
                  c p)
                λ c' (p', grows, has').
                  Reads-bind o
                    (if_Reads o Anything deep (descend_root repo s.root c'.fetched) (pure tt)
                      (λ _. descend_root-Reads s.root c'.fetched)
                      (λ _. pure-Reads o Anything tt tt))
                    λ u' _. pure-Reads o _ _ (
                      (validate_exact s.root).0 valid,
                      λ h m. p' h (elim m [
                        | inl n ↦ grows h (has h (subst (Has h) (sym both_chunks) n))
                        | inr n ↦ has' h (subst (Has h) (sym both_refs) n)
                      ]),
                    ))
        (λ _. throw-Reads o _ corrupt_blob)
    where
      both_chunks : (collect_all_hashes s.root ([], [])).0 ≡ chunks_of s.root
      both_chunks =
          let (both, c, r) = collect_all_hashes_exact s.root [] [] in
          ap (λ (q : List Text × List Text). q.0) both ∙ c

      both_refs : (collect_all_hashes s.root ([], [])).1 ≡ refs_of s.root
      both_refs =
          let (both, c, r) = collect_all_hashes_exact s.root [] [] in
          ap (λ (q : List Text × List Text). q.1) both ∙ r

-- When verify returns its report, deep or not, the inline tree of the snapshot is valid, and every
-- chunk and every reference that stands in it is in the backend, whose objects are as before.
pub verify-IsSound :
    (repo : Repository) (s : Snapshot) (deep : Bool) (b b' : Backend) (report : VerifyReport)
    → verify repo s deep b ≡ (ok report, b')
    → IsSound b.objects s.root × (b'.objects ≡ b.objects)
verify-IsSound repo s deep b b' report ran = go ((verify-Reads b.objects repo s deep).run b refl)
  where
    go :
        Outcome (λ found. IsSound b.objects s.root) b.objects b.objects (verify repo s deep b)
        → IsSound b.objects s.root × (b'.objects ≡ b.objects)
    go (returned found b1 h (sound, e)) =
        (sound, ap (λ (r : Result VerifyReport × Backend). r.1.objects) (sym ran ∙ h) ∙ e)
    go (failed x b1 h e) = absurd (cc)
