-- ===== src/Tree/Examples.antt =====
-- tree.rs on small trees. A node is written as its tag and its name.
use server_backup.Common.{◌≡◌, refl, ◌↔◌, none, [], ◌∷◌, ◌++◌, All}
use server_backup.Common.Texts.{bytes, text_eq, text_le}
use server_backup.Common.Errors.{ok, err, bad_path}
use server_backup.Tree.{
  Node, file, dir, ref, nil, cons, validate, check_name, is_bad_name, collect_all_hashes,
  collect_chunk_hashes, collect_refs, sort, insert_node, name_of,
}
use server_backup.Tree.Sample.{sample, sample_laws, digest, blobs, stored_home}
use server_backup.Tree.Stored.{Stored, Expands, build_stored_lem}
use server_backup.Tree.Names.{Safe, validate_exact}
use server_backup.Tree.Hashes.{chunks_of, refs_of, collect_all_hashes_exact}

abbrev notes : Node
notes = file (bytes "notes") 3 none none (bytes "c1" ∷ bytes "c2" ∷ [])

abbrev home : Node
home = dir (bytes "home") (cons notes (cons (ref (bytes "old") (bytes "r1")) nil))

validate_dots : validate (dir (bytes "..") nil) ≡ err (bad_path (bytes ".."))
unfolding validate check_name is_bad_name text_eq
validate_dots = refl

sort_swaps :
    sort (dir (bytes "d") (cons (dir (bytes "b") nil) (cons (dir (bytes "a") nil) nil)))
    ≡ dir (bytes "d") (cons (dir (bytes "a") nil) (cons (dir (bytes "b") nil) nil))
unfolding sort insert_node name_of text_le
sort_swaps = refl

validate_exact_example : (validate home ≡ ok tt) ↔ Safe home
validate_exact_example = validate_exact home

collect_all_hashes_exact_example :
    (collect_all_hashes home (bytes "x" ∷ [], [])
      ≡ (collect_chunk_hashes home (bytes "x" ∷ []), collect_refs home []))
    × (collect_chunk_hashes home (bytes "x" ∷ []) ≡ (bytes "x" ∷ []) ++ chunks_of home)
    × (collect_refs home [] ≡ [] ++ refs_of home)
collect_all_hashes_exact_example = collect_all_hashes_exact home (bytes "x" ∷ []) []

build_stored_lem_example :
    Expands sample blobs
      (dir (bytes "home") (cons (ref (bytes "big") digest) nil))
      (dir (bytes "home") (cons (dir (bytes "big") nil) nil))
    × All (Stored sample) blobs
build_stored_lem_example = build_stored_lem sample sample_laws _ _ _ stored_home
