-- ===== src/Tree/Hashes.antt =====
-- tree.rs: the collectors agree with each other.
use server_backup.Common.{◌≡◌, refl, sym, ap, ◌∙◌, List, [], ◌∷◌, ◌++◌}
use server_backup.Common.Texts.{Text}
use server_backup.Tree.{
  Node, file, dir, ref, Nodes, nil, cons, collect_refs, collect_refs_all, collect_chunk_hashes,
  collect_chunk_hashes_all, collect_all_hashes, collect_all_hashes_all,
}

append_nil : (xs : List Text) → xs ++ [] ≡ xs
append_nil [] = refl
append_nil (x ∷ xs) = ap (λ l. x ∷ l) (append_nil xs)

append_assoc : (xs ys zs : List Text) → (xs ++ ys) ++ zs ≡ xs ++ (ys ++ zs)
append_assoc [] ys zs = refl
append_assoc (x ∷ xs) ys zs = ap (λ l. x ∷ l) (append_assoc xs ys zs)

-- The chunk hashes and the reference hashes of a tree, each from left to right.
unfoldable mutual
  pub chunks_of : Node → List Text
  chunks_of (file name size mode mtime chunks) = chunks
  chunks_of (dir name children) = chunks_of_all children
  chunks_of (ref name hash) = []

  pub chunks_of_all : Nodes → List Text
  chunks_of_all nil = []
  chunks_of_all (cons n ns) = chunks_of n ++ chunks_of_all ns

unfoldable mutual
  pub refs_of : Node → List Text
  refs_of (file name size mode mtime chunks) = []
  refs_of (dir name children) = refs_of_all children
  refs_of (ref name hash) = hash ∷ []

  pub refs_of_all : Nodes → List Text
  refs_of_all nil = []
  refs_of_all (cons n ns) = refs_of n ++ refs_of_all ns

mutual
  unfolding collect_chunk_hashes collect_chunk_hashes_all chunks_of chunks_of_all

  collect_chunks : (n : Node) (out : List Text) → collect_chunk_hashes n out ≡ out ++ chunks_of n
  collect_chunks (file name size mode mtime chunks) out = refl
  collect_chunks (dir name children) out = collect_chunks_all children out
  collect_chunks (ref name hash) out = sym (append_nil out)

  collect_chunks_all :
      (ns : Nodes) (out : List Text) → collect_chunk_hashes_all ns out ≡ out ++ chunks_of_all ns
  collect_chunks_all nil out = sym (append_nil out)
  collect_chunks_all (cons n ns) out =
      collect_chunks_all ns (collect_chunk_hashes n out)
      ∙ ap (λ l. l ++ chunks_of_all ns) (collect_chunks n out)
      ∙ append_assoc out (chunks_of n) (chunks_of_all ns)

mutual
  unfolding collect_refs collect_refs_all refs_of refs_of_all

  collect_refs_exact : (n : Node) (out : List Text) → collect_refs n out ≡ out ++ refs_of n
  collect_refs_exact (file name size mode mtime chunks) out = sym (append_nil out)
  collect_refs_exact (dir name children) out = collect_refs_all_exact children out
  collect_refs_exact (ref name hash) out = refl

  collect_refs_all_exact :
      (ns : Nodes) (out : List Text) → collect_refs_all ns out ≡ out ++ refs_of_all ns
  collect_refs_all_exact nil out = sym (append_nil out)
  collect_refs_all_exact (cons n ns) out =
      collect_refs_all_exact ns (collect_refs n out)
      ∙ ap (λ l. l ++ refs_of_all ns) (collect_refs_exact n out)
      ∙ append_assoc out (refs_of n) (refs_of_all ns)

mutual
  unfolding collect_all_hashes collect_all_hashes_all collect_refs collect_refs_all
      collect_chunk_hashes collect_chunk_hashes_all

  all_is_both :
      (n : Node) (chunks refs : List Text)
      → collect_all_hashes n (chunks, refs) ≡ (collect_chunk_hashes n chunks, collect_refs n refs)
  all_is_both (file name size mode mtime hashes) chunks refs = refl
  all_is_both (dir name children) chunks refs = all_is_both_all children chunks refs
  all_is_both (ref name hash) chunks refs = refl

  all_is_both_all :
      (ns : Nodes) (chunks refs : List Text)
      → collect_all_hashes_all ns (chunks, refs)
        ≡ (collect_chunk_hashes_all ns chunks, collect_refs_all ns refs)
  all_is_both_all nil chunks refs = refl
  all_is_both_all (cons n ns) chunks refs =
      ap (collect_all_hashes_all ns) (all_is_both n chunks refs)
      ∙ all_is_both_all ns (collect_chunk_hashes n chunks) (collect_refs n refs)

-- The collector of both kinds appends what the two collectors of one kind append, each to its list.
-- They append the hashes that stand in the tree itself, from left to right.
pub collect_all_hashes_exact :
    (n : Node) (chunks refs : List Text)
    → (collect_all_hashes n (chunks, refs) ≡ (collect_chunk_hashes n chunks, collect_refs n refs))
      × (collect_chunk_hashes n chunks ≡ chunks ++ chunks_of n)
      × (collect_refs n refs ≡ refs ++ refs_of n)
collect_all_hashes_exact n chunks refs =
    (all_is_both n chunks refs, collect_chunks n chunks, collect_refs_exact n refs)
