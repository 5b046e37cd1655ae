-- ===== src/Repo/Built.antt =====
-- repo.rs: what the index of a new snapshot lists.
use server_backup.Common.{
  ◌≡◌, refl, sym, ap, subst, ◌⊎◌, inl, inr, ◌↔◌, false, List, [], ◌∷◌, ◌++◌, map, Has, Has-append,
  Has-append_left, Has-append_right, Bool-cases,
}
use server_backup.Common.Texts.{
  text_eq, text_eq_iff, text_eq_sound, Text, contains, insert, Has-insert, insert-Has, insert_keeps,
  contains-Has, Has-contains,
}
use server_backup.Snapshot.{Snapshot, BlobKind, chunk, tree_node, BlobRef}
use server_backup.Tree.{collect_chunk_hashes, collect_refs}
use server_backup.Tree.Hashes.{chunks_of, refs_of, collect_all_hashes_exact}
use server_backup.Repo.Index.{Sizes, tagged, index_entries, build_index}

abbrev pub hashes : List BlobRef → List Text
hashes blobs = map (λ b. b.hash) blobs

-- No entry of the list stands in it twice.
abbrev pub Distinct : List Text → Type 0
Distinct [] = Unit
Distinct (x ∷ xs) = ¬ Has x xs × Distinct xs

abbrev named : List (Text × BlobKind) → List Text
named entries = map (λ e. e.0) entries

module _ (written : Sizes) where
  listed_new :
      (h : Text) (seen : List Text) (entries : List (Text × BlobKind))
      → Has h (hashes (index_entries written seen entries))
      → Has h (named entries) × ¬ Has h seen
  unfolding index_entries
  listed_new h seen [] m = absurd m
  listed_new h seen ((hex, kind) ∷ rest) m = elim (Bool-cases (contains seen hex)) [
    | inl e ↦ let (a, b) = listed_new h seen rest (rw e at m) in (inr a, b)
    | inr e ↦ elim (split (rw e at m)) [
      | inl same ↦ (inl same, λ n. stale e same n)
      | inr later ↦
          let (a, b) = listed_new h (insert hex seen) rest later in
          (inr a, λ n. b (insert_keeps hex h seen n))
    ]
  ]
    where
      split :
          Has h (hex ∷ hashes (index_entries written (insert hex seen) rest))
          → (h ≡ hex) ⊎ Has h (hashes (index_entries written (insert hex seen) rest))
      split n = n

      stale : contains seen hex ≡ false → h ≡ hex → Has h seen → ⊥
      stale e same n = absurd (cc (e, Has-contains seen hex (subst (λ t. Has t seen) same n)))

  new_listed :
      (h : Text) (seen : List Text) (entries : List (Text × BlobKind))
      → Has h (named entries)
      → ¬ Has h seen
      → Has h (hashes (index_entries written seen entries))
  unfolding index_entries
  new_listed h seen [] m fresh = absurd m
  new_listed h seen ((hex, kind) ∷ rest) m fresh = elim (Bool-cases (contains seen hex)) [
    | inl e ↦ rw e (
        new_listed h seen rest
          (elim m [
            | inl same ↦
                absurd (fresh (subst (λ t. Has t seen) (sym same) (contains-Has seen hex e)))
            | inr later ↦ later
          ])
          fresh)
    | inr e ↦ rw e (elim (Bool-cases (text_eq h hex)) [
      | inl same ↦ inl (text_eq_sound h hex same)
      | inr other ↦ inr (
          new_listed h (insert hex seen) rest (elsewhere other m) (λ n.
            elim (Has-insert hex h seen n) [ inl same ↦ differs other same | inr old ↦ fresh old ]))
    ])
  ]
    where
      differs : text_eq h hex ≡ false → h ≡ hex → ⊥
      differs other same = absurd (cc (other, (text_eq_iff h hex).1 same))

      elsewhere : text_eq h hex ≡ false → (h ≡ hex) ⊎ Has h (named rest) → Has h (named rest)
      elsewhere other (inl same) = absurd (differs other same)
      elsewhere other (inr later) = later

  listed_once :
      (seen : List Text) (entries : List (Text × BlobKind))
      → Distinct (hashes (index_entries written seen entries))
  unfolding index_entries
  listed_once seen [] = tt
  listed_once seen ((hex, kind) ∷ rest) = elim (Bool-cases (contains seen hex)) [
    | inl e ↦ rw e (listed_once seen rest)
    | inr e ↦ rw e (
      λ m. (listed_new hex (insert hex seen) rest m).1 (insert-Has hex seen),
      listed_once (insert hex seen) rest,
    )
  ]

Has-named :
    (h : Text) (kind : BlobKind) (hs : List Text) → Has h (named (tagged kind hs)) ↔ Has h hs
Has-named h kind [] = (λ m. m, λ m. m)
Has-named h kind (x ∷ hs) = (
  λ m. elim m [ inl e ↦ inl e | inr n ↦ inr ((Has-named h kind hs).0 n) ],
  λ m. elim m [ inl e ↦ inl e | inr n ↦ inr ((Has-named h kind hs).1 n) ],
)

named-append : (xs ys : List (Text × BlobKind)) → named (xs ++ ys) ≡ named xs ++ named ys
named-append [] ys = refl
named-append (x ∷ xs) ys = ap (λ l. x.0 ∷ l) (named-append xs ys)

-- The index of a new snapshot lists no hash twice. It lists exactly the hashes of the chunks and of
-- the references that stand in the root node of the manifest.
pub build_index_exact :
    (snapshot : Snapshot) (written : Sizes)
    → Distinct (hashes (build_index snapshot written).blobs)
      × ((h : Text)
          → Has h (hashes (build_index snapshot written).blobs)
            ↔ (Has h (chunks_of snapshot.root) ⊎ Has h (refs_of snapshot.root)))
unfolding build_index
build_index_exact snapshot written = (
  listed_once written [] _,
  λ h. (
    λ m. there h (listed_new written h [] _ m).0,
    λ m. new_listed written h [] _ (back h m) (λ n. n),
  ),
)
  where
    chunks : List Text
    chunks = collect_chunk_hashes snapshot.root []

    refs : List Text
    refs = collect_refs snapshot.root []

    same_chunks : chunks ≡ chunks_of snapshot.root
    same_chunks = let (both, c, r) = collect_all_hashes_exact snapshot.root [] [] in c

    same_refs : refs ≡ refs_of snapshot.root
    same_refs = let (both, c, r) = collect_all_hashes_exact snapshot.root [] [] in r

    there :
        (h : Text)
        → Has h (named (tagged chunk chunks ++ tagged tree_node refs))
        → Has h (chunks_of snapshot.root) ⊎ Has h (refs_of snapshot.root)
    there h m =
        elim (Has-append h (named (tagged chunk chunks)) _
          (subst (Has h) (named-append (tagged chunk chunks) (tagged tree_node refs)) m)) [
            | inl n ↦ inl (subst (Has h) same_chunks ((Has-named h chunk chunks).0 n))
            | inr n ↦ inr (subst (Has h) same_refs ((Has-named h tree_node refs).0 n))
          ]

    back :
        (h : Text)
        → Has h (chunks_of snapshot.root) ⊎ Has h (refs_of snapshot.root)
        → Has h (named (tagged chunk chunks ++ tagged tree_node refs))
    back h m =
        subst (Has h) (sym (named-append (tagged chunk chunks) (tagged tree_node refs))) (elim m [
          | inl n ↦
              Has-append_left h (named (tagged chunk chunks)) _
                ((Has-named h chunk chunks).1 (subst (Has h) (sym same_chunks) n))
          | inr n ↦
              Has-append_right h (named (tagged chunk chunks)) _
                ((Has-named h tree_node refs).1 (subst (Has h) (sym same_refs) n))
        ])
