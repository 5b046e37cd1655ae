-- ===== src/Repo/Restore/RoundTrip.antt =====
-- repo.rs and tree.rs: a tree that was compacted for storage is restored as it was.
use server_backup.Common.{ℕ, zero, suc, ◌+◌, ◌≤◌, ◌≡◌, List, ◌++◌, Has, arith, some}
use server_backup.Common.Texts.{Text, Bytes}
use server_backup.Common.Errors.{ok}
use server_backup.Crypto.{hash}
use server_backup.Tree.{Node, file, dir, ref, Nodes, nil, cons, NodeBlobs, build_stored}
use server_backup.Tree.Names.{Safe, validate_exact}
use server_backup.Tree.Stored.{
  EncodingLaws, Expands, same, inside, through, ExpandsAll, none_left, both, build_stored_lem,
}
use server_backup.Backend.{Objects, lookup}
use server_backup.Repo.{Repository, blob_key, open_for}
use server_backup.Repo.Restore.{Call, restore_node}
use server_backup.Repo.Restore.Restored.{
  calm, calls_of, Readable, Resolves, a_file, a_dir, a_ref, ResolvesAll, no_more, and_more,
  restore_node_lem,
}

module _ (repo : Repository) (m : Objects) (content : Text → Bytes) where
  -- A tree without references, whose chunks are stored.
  unfoldable mutual
    pub Laid : Node → Type 0
    Laid (file name size mode mtime chunks) =
        (hex : Text) → Has hex chunks → Readable repo m content hex
    Laid (dir name children) = LaidAll children
    Laid (ref name hex) = ⊥

    pub LaidAll : Nodes → Type 0
    LaidAll nil = Unit
    LaidAll (cons n ns) = Laid n × LaidAll ns

  -- Every emitted blob is stored under its address, and opens as what was emitted.
  abbrev pub Available : NodeBlobs → Type 0
  Available blobs =
      (hex : Text) (payload : Bytes)
      → Has (hex, payload) blobs
      → (stored : Bytes) × (lookup (blob_key hex) m ≡ some stored)
        × (open_for repo (hash hex) stored ≡ ok payload)

  -- Enough fuel resolves the node, and more does as well.
  abbrev Resolvable : Node → Node → Type 0
  Resolvable n t = (f : ℕ) × ((g : ℕ) → f ≤ g → Resolves repo m content (suc g) n t)

  abbrev ResolvableAll : Nodes → Nodes → Type 0
  ResolvableAll ns ts = (f : ℕ) × ((g : ℕ) → f ≤ g → ResolvesAll repo m content (suc g) ns ts)

  mutual
    unfolding Laid

    Laid-Resolves : (t : Node) (g : ℕ) → Laid t → Resolves repo m content (suc g) t t
    Laid-Resolves (file name size mode mtime chunks) g l = a_file l
    Laid-Resolves (dir name children) g l = a_dir (LaidAll-ResolvesAll children g l)
    Laid-Resolves (ref name hex) g l = absurd l

    LaidAll-ResolvesAll :
        (ts : Nodes) (g : ℕ) → LaidAll ts → ResolvesAll repo m content (suc g) ts ts
    LaidAll-ResolvesAll nil g l = no_more
    LaidAll-ResolvesAll (cons t ts) g (l, ls) =
        and_more (Laid-Resolves t g l) (LaidAll-ResolvesAll ts g ls)

  behind :
      {name hex : Text} {stored payload : Bytes} {n t : Node} (f g : ℕ)
      → suc f ≤ g
      → lookup (blob_key hex) m ≡ some stored
      → open_for repo (hash hex) stored ≡ ok payload
      → repo.libraries.encoding.parse payload ≡ some n
      → Safe n
      → ((j : ℕ) → f ≤ j → Resolves repo m content (suc j) n t)
      → Resolves repo m content (suc g) (ref name hex) t
  behind f zero h at opens parsed safe k = absurd (omega arith)
  behind f (suc g) h at opens parsed safe k = a_ref at opens parsed safe (k g (omega arith))

  module _ (blobs : NodeBlobs) (available : Available blobs) where
    mutual
      unfolding Laid

      Expands-Resolvable :
          (n t : Node) → Expands repo.libraries.encoding blobs n t → Laid t → Resolvable n t
      Expands-Resolvable n _ (same _) l = (0, λ g _. Laid-Resolves n g l)
      Expands-Resolvable _ _ (inside es) l =
          let (f, k) = ExpandsAll-Resolvable _ _ es l in (f, λ g h. a_dir (k g h))
      Expands-Resolvable _ t (through {hash = hex} {b = payload} {n = n} here parsed valid e) l =
          let (stored, at, opens) = available hex payload here in
          let (f, k) = Expands-Resolvable n t e l in
          (suc f, λ g h. behind f g h at opens parsed ((validate_exact n).0 valid) k)

      ExpandsAll-Resolvable :
          (ns ts : Nodes)
          → ExpandsAll repo.libraries.encoding blobs ns ts
          → LaidAll ts
          → ResolvableAll ns ts
      ExpandsAll-Resolvable _ _ none_left l = (0, λ g _. no_more)
      ExpandsAll-Resolvable _ _ (both e es) (l, ls) =
          let (f, k) = Expands-Resolvable _ _ e l in
          let (f', k') = ExpandsAll-Resolvable _ _ es ls in
          (f + f', λ g h. and_more (k g (omega arith)) (k' g (omega arith)))

  -- With a parser that reads back what was serialized: when a tree without references has been
  -- compacted, its emitted blobs and its chunks are stored, the stored node passes validation and no
  -- call fails, then with enough fuel restoring the stored node makes the calls that lay the original
  -- tree.
  pub restore_node-build_stored :
      (tree stored : Node) (blobs : NodeBlobs)
      → EncodingLaws repo.libraries.encoding
      → build_stored repo.libraries.encoding tree ≡ ok (stored, blobs)
      → Available blobs
      → Laid tree
      → Safe stored
      → (fuel : ℕ) × ((more : ℕ)
          → fuel ≤ more
          → (base : List Text) (calls : List Call)
          → restore_node repo (suc more) stored base (calm m calls)
            ≡ (ok tt, calm m (calls ++ calls_of content base tree)))
  restore_node-build_stored tree stored blobs laws h available laid safe =
      let (e, _) = build_stored_lem repo.libraries.encoding laws tree stored blobs h in
      let (f, k) = Expands-Resolvable blobs available stored tree e laid in
      (
        f,
        λ g le base calls.
            restore_node_lem repo m content (suc g) stored tree base calls safe (k g le),
      )
