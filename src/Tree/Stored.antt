-- ===== src/Tree/Stored.antt =====
-- tree.rs: the stored form of a tree leads back to the tree.
use server_backup.Common.{
  ◌<◌, ◌≡◌, refl, sym, ap, ◌∙◌, subst, inl, inr, true, some, [], ◌∷◌, ◌++◌, arith, leb, length,
  Bool-cases, Has, Has-append_left, Has-append_right, All, All-append,
}
use server_backup.Common.Texts.{Text, Bytes, text_eq_refl}
use server_backup.Common.Errors.{Error, Result, ok, err, ◌>>=◌, Result-cases}
use server_backup.Tree.{
  Node, file, dir, ref, Nodes, nil, cons, Encoding, inline_limit, name_of, validate, NodeBlobs,
  store_node, build, build_all, build_stored, verify_node_blob,
}

-- serde_json reads back what it has written, at least for the nodes that are stored as blobs.
pub record EncodingLaws (enc : Encoding) : Type 0 where
  pub parse-serialized :
      (n : Node) → inline_limit < length (enc.serialized n) → enc.parse (enc.serialized n) ≡ some n

-- The stored node on the left stands for the tree on the right: a reference is resolved by a blob
-- of the list.
mutual
  pub data Expands (enc : Encoding) (blobs : NodeBlobs) : Node → Node → Type 0 where
    same : (n : Node) → Expands enc blobs n n
    inside :
        {name : Text} {ns ms : Nodes}
        → ExpandsAll enc blobs ns ms
        → Expands enc blobs (dir name ns) (dir name ms)
    through :
        {name hash : Text} {b : Bytes} {n m : Node}
        → Has (hash, b) blobs
        → enc.parse b ≡ some n
        → validate n ≡ ok tt
        → Expands enc blobs n m
        → Expands enc blobs (ref name hash) m

  pub data ExpandsAll (enc : Encoding) (blobs : NodeBlobs) : Nodes → Nodes → Type 0 where
    none_left : ExpandsAll enc blobs nil nil
    both :
        {n m : Node} {ns ms : Nodes}
        → Expands enc blobs n m
        → ExpandsAll enc blobs ns ms
        → ExpandsAll enc blobs (cons n ns) (cons m ms)

module _ (enc : Encoding) (blobs more : NodeBlobs) where
  mutual
    expands_more : {n m : Node} → Expands enc blobs n m → Expands enc (blobs ++ more) n m
    expands_more (same n) = same n
    expands_more (inside e) = inside (ExpandsAll-more e)
    expands_more (through {b = b} h p v e) =
        through (Has-append_left _ blobs more h) p v (expands_more e)

    ExpandsAll-more :
        {ns ms : Nodes} → ExpandsAll enc blobs ns ms → ExpandsAll enc (blobs ++ more) ns ms
    ExpandsAll-more none_left = none_left
    ExpandsAll-more (both e es) = both (expands_more e) (ExpandsAll-more es)

-- A stored blob hashes to its address, and is too large to stand in its parent.
pub Stored : Encoding → Text × Bytes → Type 0
Stored enc p = (verify_node_blob enc p.0 p.1 ≡ true) × (inline_limit < length p.1)

module _ {X Y : Type 0} (E : NodeBlobs → X → Y → Type 0) (enc : Encoding) (m : Y)
    (before : NodeBlobs) where
  -- A run that stands for `m` has put blobs behind those it was given, or it is refused.
  data Built (r : Result (X × NodeBlobs)) : Type 0 where
    built :
        (n : X) (after more : NodeBlobs)
        → r ≡ ok (n, after)
        → after ≡ before ++ more
        → E after n m
        → All (Stored enc) more
        → Built r
    refused : (e : Error) → r ≡ err e → Built r

append_nil : (xs : NodeBlobs) → xs ≡ xs ++ []
append_nil [] = refl
append_nil (x ∷ xs) = ap (λ l. x ∷ l) (append_nil xs)

append_assoc : (xs ys zs : NodeBlobs) → (xs ++ ys) ++ zs ≡ xs ++ (ys ++ zs)
append_assoc [] ys zs = refl
append_assoc (x ∷ xs) ys zs = ap (λ l. x ∷ l) (append_assoc xs ys zs)

module _ (enc : Encoding) (laws : EncodingLaws enc) where
  store_node-Built :
      (n m : Node) (blobs : NodeBlobs)
      → Expands enc blobs n m
      → Built (Expands enc) enc m blobs (store_node enc n blobs)
  unfolding store_node Stored verify_node_blob
  store_node-Built n m blobs e =
      Result-cases (validate n) _
        (λ _ valid. elim (Bool-cases (leb (length (enc.serialized n)) inline_limit)) [
          | inl small ↦ built n blobs [] (rw valid (rw small)) (append_nil blobs) e tt
          | inr large ↦
              built (ref (name_of n) (enc.hash (enc.serialized n)))
                (blobs ++ (enc.hash (enc.serialized n), enc.serialized n) ∷ [])
                ((enc.hash (enc.serialized n), enc.serialized n) ∷ []) (rw valid (rw large)) refl
                (through (Has-append_right _ blobs _ (inl refl))
                  (laws.parse-serialized n (ground arith)) valid (expands_more enc blobs _ e))
                ((text_eq_refl _, ground arith), tt)
        ])
        (λ x bad. refused x (rw bad))

  abbrev BuiltNode : Node → NodeBlobs → Result (Node × NodeBlobs) → Type 0
  BuiltNode = Built (Expands enc) enc

  abbrev BuiltNodes : Nodes → NodeBlobs → Result (Nodes × NodeBlobs) → Type 0
  BuiltNodes = Built (ExpandsAll enc) enc

  -- Blobs put behind those of an earlier part are put behind those before it.
  extend :
      (n : Node) (before after more : NodeBlobs) (r : Result (Node × NodeBlobs))
      → after ≡ before ++ more
      → All (Stored enc) more
      → BuiltNode n after r
      → BuiltNode n before r
  extend n before after more r e good (refused x h) = refused x h
  extend n before after more r e good (built n' end later h f x good') =
      built n' end (more ++ later) h (f ∙ ap (λ l. l ++ later) e ∙ append_assoc before more later) x
        (All-append _ more later good good')

  then_store :
      (name : Text) (ns : Nodes) (before : NodeBlobs) (r : Result (Nodes × NodeBlobs))
      → BuiltNodes ns before r
      → BuiltNode
          (dir name ns)
          before
          (r >>= λ (p : Nodes × NodeBlobs). store_node enc (dir name p.0) p.1)
  then_store name ns before r (refused x h) = refused x (rw h)
  then_store name ns before r (built ms after more h e x good) =
      extend _ before after more _ e good (
        subst
          (λ q.
            BuiltNode (dir name ns) after
              (q >>= λ (p : Nodes × NodeBlobs). store_node enc (dir name p.0) p.1))
          (sym h) (store_node-Built (dir name ms) (dir name ns) after (inside x)))

  then_cons :
      (n : Node) (ns : Nodes) (before : NodeBlobs) (r : Result (Node × NodeBlobs))
      (rest : NodeBlobs → Result (Nodes × NodeBlobs))
      → BuiltNode n before r
      → ((after : NodeBlobs) → BuiltNodes ns after (rest after))
      → BuiltNodes (cons n ns) before (
          r >>= λ (p : Node × NodeBlobs).
          rest p.1 >>= λ (q : Nodes × NodeBlobs). ok (cons p.0 q.0, q.1))
  then_cons n ns before r rest (refused x h) k = refused x (rw h)
  then_cons n ns before r rest (built m after more h e x good) k = elim (k after) [
    | refused y h' ↦ refused y (rw h (rw h'))
    | built ms end later h' e' xs good' ↦
        built (cons m ms) end (more ++ later) (rw h (rw h'))
          (e' ∙ ap (λ l. l ++ later) e ∙ append_assoc before more later)
          (both (subst (λ l. Expands enc l m n) (sym e') (expands_more enc after later x)) xs)
          (All-append _ more later good good')
  ]

  mutual
    unfolding build build_all

    build_built : (n : Node) (blobs : NodeBlobs) → BuiltNode n blobs (build enc n blobs)
    build_built (file name size mode mtime chunks) blobs = store_node-Built _ _ blobs (same _)
    build_built (ref name hash) blobs = store_node-Built _ _ blobs (same _)
    build_built (dir name ns) blobs =
        then_store name ns blobs (build_all enc ns blobs) (build_all_built ns blobs)

    build_all_built :
        (ns : Nodes) (blobs : NodeBlobs) → BuiltNodes ns blobs (build_all enc ns blobs)
    build_all_built nil blobs = built nil blobs [] refl (append_nil blobs) none_left tt
    build_all_built (cons n ns) blobs =
        then_cons n ns blobs (build enc n blobs) (build_all enc ns) (build_built n blobs)
          (build_all_built ns)

  -- When a tree is stored, with a parser that reads back every node that is too large to stand in
  -- its parent, the stored root stands for the tree: resolving its references by the emitted
  -- blobs leads back to it. Every emitted blob hashes to its address and exceeds the inline
  -- limit.
  pub build_stored_lem :
      (tree stored : Node) (blobs : NodeBlobs)
      → build_stored enc tree ≡ ok (stored, blobs)
      → Expands enc blobs stored tree × All (Stored enc) blobs
  unfolding build_stored
  build_stored_lem tree stored blobs h = read (build_built tree [])
    where
      read :
          BuiltNode tree [] (build enc tree [])
          → Expands enc blobs stored tree × All (Stored enc) blobs
      read (refused e x) = absurd (cc)
      read (built n after more x e p good) =
          let same_pair : (n, after) ≡ (stored, blobs) = cc in
          subst (λ (q : Node × NodeBlobs). Expands enc q.1 q.0 tree × All (Stored enc) q.1)
            same_pair (p, subst (All (Stored enc)) (sym e) good)
