-- ===== src/Tree.antt =====
-- crates/aegis-core/src/tree.rs: the snapshot tree, its checks, and its compaction into stored
-- nodes. The canonical JSON and BLAKE3 are the parameter `Encoding`.
pub mod Names
pub mod Stored
pub mod Hashes
pub mod Sample
mod Examples
use server_backup.Common.{
  ℕ, ◌+◌, ◌-◌, ◌*◌, Bool, true, false, ◌&&◌, ◌||◌, Option, none, some, List, [], ◌∷◌, ◌++◌, ◌==◌,
  ltb, leb, if◌then◌else◌, length,
}
use server_backup.Common.Texts.{Text, Bytes, bytes, text_eq, text_le, has_byte, starts_with}
use server_backup.Common.Errors.{Result, ok, err, bad_path, ◌>>=◌, ◌>>◌}
use server_backup.Common.Int.{ℤ}

mutual
  pub data Node : Type 0 where
    file : (name : Text) (size : ℕ) (mode : Option ℕ) (mtime : Option ℤ) (chunks : List Text) → Node
    dir : (name : Text) (children : Nodes) → Node
    ref : (name hash : Text) → Node

  pub data Nodes : Type 0 where
    nil : Nodes
    cons : Node → Nodes → Nodes

-- serde_json and blake3: `hash` gives the hex digest.
pub record Encoding : Type 0 where
  pub serialized : Node → Bytes
  pub parse : Bytes → Option Node
  pub hash : Bytes → Text

abbrev pub inline_limit : ℕ
inline_limit = 4 * 1024

unfoldable pub name_of : Node → Text
name_of (file name size mode mtime chunks) = name
name_of (dir name children) = name
name_of (ref name hash) = name

-- A child is put before the first one whose name is not below its own.
unfoldable pub insert_node : Node → Nodes → Nodes
unfolding name_of
insert_node n nil = cons n nil
insert_node n (cons m ms) =
    if text_le (name_of n) (name_of m) then cons n (cons m ms) else cons m (insert_node n ms)

-- `sort_by` on the children, and `sort` on each. A child is sorted before it is placed, which is
-- the same since sorting keeps its name.
unfoldable mutual
  pub sort : Node → Node
  sort (file name size mode mtime chunks) = file name size mode mtime chunks
  sort (dir name children) = dir name (sort_nodes children)
  sort (ref name hash) = ref name hash

  pub sort_nodes : Nodes → Nodes
  sort_nodes nil = nil
  sort_nodes (cons n ns) = insert_node (sort n) (sort_nodes ns)

unfoldable pub ends_with_byte : ℕ → Text → Bool
ends_with_byte c [] = false
ends_with_byte c (x ∷ []) = x == c
ends_with_byte c (x ∷ y ∷ s) = ends_with_byte c (y ∷ s)

unfoldable pub is_bad_name : Text → Bool
unfolding ends_with_byte
is_bad_name name =
    text_eq name []
    || (text_eq name (bytes ".")
        || (text_eq name (bytes "..")
            || (starts_with (bytes "/") name
                || (ends_with_byte b'/' name
                    || (has_byte b'/' name
                        || (has_byte 92 name || (has_byte b':' name || has_byte 0 name)))))))

unfoldable pub check_name : Text → Result (Unit {0})
unfolding is_bad_name
check_name name = if is_bad_name name then err (bad_path name) else ok tt

unfoldable pub is_hex_digit : ℕ → Bool
is_hex_digit c = leb b'0' c && leb c b'9' || (leb b'a' c && leb c b'f' || leb b'A' c && leb c b'F')

unfoldable pub all_hex : Text → Bool
unfolding is_hex_digit
all_hex [] = true
all_hex (c ∷ s) = is_hex_digit c && all_hex s

unfoldable pub check_hash : Text → Result (Unit {0})
unfolding all_hex
check_hash hash = if length hash == 64 && all_hex hash then ok tt else err (bad_path hash)

unfoldable mutual
  unfolding check_name check_hash

  pub validate : Node → Result (Unit {0})
  validate (file name size mode mtime chunks) = check_name name >> ok tt
  validate (dir name children) = check_name name >> validate_all children
  validate (ref name hash) = check_name name >> check_hash hash

  pub validate_all : Nodes → Result (Unit {0})
  validate_all nil = ok tt
  validate_all (cons n ns) = validate n >> validate_all ns

-- The three collectors push onto `out`.
unfoldable mutual
  pub collect_refs : Node → List Text → List Text
  collect_refs (file name size mode mtime chunks) out = out
  collect_refs (dir name children) out = collect_refs_all children out
  collect_refs (ref name hash) out = out ++ hash ∷ []

  pub collect_refs_all : Nodes → List Text → List Text
  collect_refs_all nil out = out
  collect_refs_all (cons n ns) out = collect_refs_all ns (collect_refs n out)

unfoldable mutual
  pub collect_chunk_hashes : Node → List Text → List Text
  collect_chunk_hashes (file name size mode mtime chunks) out = out ++ chunks
  collect_chunk_hashes (dir name children) out = collect_chunk_hashes_all children out
  collect_chunk_hashes (ref name hash) out = out

  pub collect_chunk_hashes_all : Nodes → List Text → List Text
  collect_chunk_hashes_all nil out = out
  collect_chunk_hashes_all (cons n ns) out =
      collect_chunk_hashes_all ns (collect_chunk_hashes n out)

unfoldable mutual
  pub collect_all_hashes : Node → List Text × List Text → List Text × List Text
  collect_all_hashes (file name size mode mtime chunks) out = (out.0 ++ chunks, out.1)
  collect_all_hashes (dir name children) out = collect_all_hashes_all children out
  collect_all_hashes (ref name hash) out = (out.0, out.1 ++ hash ∷ [])

  pub collect_all_hashes_all : Nodes → List Text × List Text → List Text × List Text
  collect_all_hashes_all nil out = out
  collect_all_hashes_all (cons n ns) out = collect_all_hashes_all ns (collect_all_hashes n out)

abbrev pub NodeBlobs : Type 0
NodeBlobs = List (Text × Bytes)

module _ (enc : Encoding) where
  unfoldable pub hash_hex : Node → Text
  hash_hex n = enc.hash (enc.serialized n)

  unfoldable pub verify_node_blob : Text → Bytes → Bool
  verify_node_blob expected b = text_eq (enc.hash b) expected

  -- What `go` does with a node whose children are stored.
  unfoldable pub store_node : Node → NodeBlobs → Result (Node × NodeBlobs)
  store_node n blobs = do
    validate n
    let b = enc.serialized n
    if leb (length b) inline_limit
        then ok (n, blobs)
        else ok (ref (name_of n) (enc.hash b), blobs ++ (enc.hash b, b) ∷ [])

  unfoldable mutual
    unfolding store_node

    pub build : Node → NodeBlobs → Result (Node × NodeBlobs)
    build (file name size mode mtime chunks) blobs =
        store_node (file name size mode mtime chunks) blobs
    build (dir name children) blobs =
        build_all children blobs >>= λ (r : Nodes × NodeBlobs). store_node (dir name r.0) r.1
    build (ref name hash) blobs = store_node (ref name hash) blobs

    pub build_all : Nodes → NodeBlobs → Result (Nodes × NodeBlobs)
    build_all nil blobs = ok (nil, blobs)
    build_all (cons n ns) blobs = build n blobs >>= λ (r : Node × NodeBlobs).
        build_all ns r.1 >>= λ (q : Nodes × NodeBlobs). ok (cons r.0 q.0, q.1)

  unfoldable pub build_stored : Node → Result (Node × NodeBlobs)
  build_stored root = build root []
