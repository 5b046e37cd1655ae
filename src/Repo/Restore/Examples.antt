-- ===== src/Repo/Restore/Examples.antt =====
-- repo.rs: restoring a directory with one file, whose node is stored behind a reference, and a tree
-- that tries to lead out of the target.
use server_backup.Common.{
  ℕ, zero, suc, ◌≡◌, ◌≤◌, refl, sym, subst, inl, inr, none, some, List, [], ◌∷◌, ◌++◌, Has, All,
}
use server_backup.Common.Texts.{Text, Bytes, bytes, text_eq, starts_with, has_byte}
use server_backup.Common.Errors.{ok, err, bad_path}
use server_backup.Crypto.{hash}
use server_backup.Crypto.Sample.{plain_cipher}
use server_backup.Blobs.{wrap, decode, unwrap, decompress_payload}
use server_backup.Blobs.Sample.{one_word}
use server_backup.Tree.{Node, file, dir, ref, nil, cons, validate}
use server_backup.Tree.Names.{Safe, validate_exact}
use server_backup.Backend.{Objects, lookup}
use server_backup.Repo.{Libraries, Repository, blob_key, open_for}
use server_backup.Repo.Restore.{Call, World, restore, restore_path, restore_node}
use server_backup.Repo.Restore.Below.{CallBelow, restore-Below}
use server_backup.Repo.Restore.RoundTrip.{Available, Laid, restore_node-build_stored}
use server_backup.Tree.Sample.{sample, sample_laws, digest, blobs, stored_home}
use server_backup.Repo.Restore.Restored.{
  calm, calls_of, Readable, Resolves, a_file, a_dir, a_ref, and_more, no_more, restore_node_lem,
}

abbrev letters : ℕ → Text
letters zero = []
letters (suc n) = b'a' ∷ letters n

abbrev address : Text
address = letters 64

abbrev note : Node
note = file (bytes "f") 1 (some 420) none (bytes "aab" ∷ [])

abbrev inner : Node
inner = dir (bytes "d") (cons note nil)

abbrev stored : Node
stored = ref (bytes "d") address

abbrev libraries : Libraries
libraries = record {
  zstd = one_word;
  cipher = plain_cipher;
  encoding = record { serialized = λ n. []; parse = λ b. some inner; hash = λ b. b };
  snapshot_bytes = λ s. s.id;
  index_bytes = λ i. i.snapshot_id;
  parse_snapshot = λ b. none;
  parse_index = λ b. none;
  parse_utc = λ t. none;
}

abbrev repo : Repository
repo = record { libraries = libraries; crypto = none }

abbrev objects : Objects
objects = (blob_key address, wrap 1 []) ∷ (blob_key (bytes "aab"), wrap 1 (7 ∷ [])) ∷ []

abbrev content : Text → Bytes
content hex = 7 ∷ []

chunk-Readable : Readable repo objects content (bytes "aab")
unfolding lookup text_eq blob_key open_for decode unwrap wrap decompress_payload
chunk-Readable = record { stored = wrap 1 (7 ∷ []); at_key = refl; opens = refl }

readable : (hex : Text) → Has hex (bytes "aab" ∷ []) → Readable repo objects content hex
readable hex (inl e) = subst (Readable repo objects content) (sym e) chunk-Readable
readable hex (inr nothing) = absurd nothing

inner-Safe : Safe inner
unfolding validate text_eq starts_with has_byte
inner-Safe = (validate_exact inner).0 refl

stored-Safe : Safe stored
unfolding validate text_eq starts_with has_byte
stored-Safe = (validate_exact stored).0 refl

address-stored : lookup (blob_key address) objects ≡ some (wrap 1 [])
unfolding lookup text_eq blob_key
address-stored = refl

address-opens : open_for repo (hash address) (wrap 1 []) ≡ ok []
unfolding open_for decode unwrap wrap text_eq decompress_payload
address-opens = refl

stored-Resolves : Resolves repo objects content 2 stored inner
stored-Resolves =
    a_ref address-stored address-opens refl inner-Safe (a_dir (and_more (a_file readable) no_more))

restore_node_lem_example :
    restore_node repo 2 stored (bytes "t" ∷ []) (calm objects [])
    ≡ (ok tt, calm objects (calls_of content (bytes "t" ∷ []) inner))
restore_node_lem_example =
    restore_node_lem repo objects content 2 stored inner (bytes "t" ∷ []) [] stored-Safe
      stored-Resolves

abbrev here : World
here = calm objects []

restore-Below_example :
    ((more : List Call) × ((restore repo 3 (bytes "id") (bytes "t" ∷ []) here).1.calls ≡ [] ++ more)
      × All (CallBelow (bytes "t" ∷ [])) more)
    × ((more : List Call) × ((restore_path repo 3
            (bytes "id")
            (bytes "d/f")
            (bytes "t" ∷ [])
            here).1.calls
          ≡ [] ++ more)
        × All (CallBelow (bytes "t" ∷ [])) more)
restore-Below_example = restore-Below repo 3 (bytes "id") (bytes "d/f") (bytes "t" ∷ []) here

-- A name that leads out is refused before anything is written.
abbrev escaping : Node
escaping = dir (bytes "..") (cons note nil)

escape_run :
    restore_node repo 1 escaping (bytes "t" ∷ []) here ≡ (err (bad_path (bytes "..")), here)
unfolding restore_node validate text_eq
escape_run = refl

-- A directory that is stored behind a reference.
abbrev home : Node
home = dir (bytes "home") (cons (dir (bytes "big") nil) nil)

abbrev stored_root : Node
stored_root = dir (bytes "home") (cons (ref (bytes "big") digest) nil)

abbrev payload : Bytes
payload = sample.serialized (dir (bytes "big") nil)

abbrev sample_repo : Repository
sample_repo = record { libraries = record libraries { encoding = sample }; crypto = none }

abbrev with_blob : Objects
with_blob = (blob_key digest, wrap 1 payload) ∷ []

blob_stored : lookup (blob_key digest) with_blob ≡ some (wrap 1 payload)
unfolding lookup text_eq blob_key
blob_stored = refl

blob_opens : open_for sample_repo (hash digest) (wrap 1 payload) ≡ ok payload
unfolding open_for decode unwrap wrap text_eq decompress_payload
blob_opens = refl

blobs-Available : Available sample_repo with_blob content blobs
blobs-Available hex p (inl e) =
    subst
      (λ (q : Text × Bytes).
        (raw : Bytes) × (lookup (blob_key q.0) with_blob ≡ some raw)
        × (open_for sample_repo (hash q.0) raw ≡ ok q.1))
      (sym e) (wrap 1 payload, blob_stored, blob_opens)
blobs-Available hex p (inr nothing) = absurd nothing

home-Laid : Laid sample_repo with_blob content home
unfolding Laid
home-Laid = (tt, tt)

root-Safe : Safe stored_root
unfolding validate text_eq starts_with has_byte
root-Safe = (validate_exact stored_root).0 refl

restore_node-build_stored_example :
    (fuel : ℕ) × ((more : ℕ)
      → fuel ≤ more
      → (base : List Text) (calls : List Call)
      → restore_node sample_repo (suc more) stored_root base (calm with_blob calls)
        ≡ (ok tt, calm with_blob (calls ++ calls_of content base home)))
restore_node-build_stored_example =
    restore_node-build_stored sample_repo with_blob content home stored_root blobs sample_laws
      stored_home blobs-Available home-Laid root-Safe
