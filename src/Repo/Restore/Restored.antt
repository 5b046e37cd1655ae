-- ===== src/Repo/Restore/Restored.antt =====
-- repo.rs: what restoring a stored tree does, when no call fails.
use server_backup.Common.{
  ℕ, zero, suc, ◌≡◌, refl, sym, ap, ◌∙◌, subst, inl, inr, Bool, true, false, Option, none, some,
  List, [], ◌∷◌, ◌++◌, ◌%◌, ◌==◌, if◌then◌else◌, Has,
}
use server_backup.Common.Int.{ℤ}
use server_backup.Common.Texts.{Text, Bytes}
use server_backup.Common.Errors.{Result, ok}
use server_backup.Common.Actions.{Action, pure, lift, continue, ◌>>=◌, ◌>>◌}
use server_backup.Crypto.{hash}
use server_backup.Tree.{Node, file, dir, ref, Nodes, nil, cons, validate}
use server_backup.Tree.Names.{Safe, SafeAll, validate_exact}
use server_backup.Backend.{Objects, Backend, lookup, is_some, or_missing}
use server_backup.Backend.Quiet.{quiet, get-quiet, exists-quiet}
use server_backup.Repo.{Repository, blob_key, open_for, parse_document, or_malformed}
use server_backup.Repo.Index.{fetch_node}
use server_backup.Repo.Paths.{safe_join, safe_join-SafeName}
use server_backup.Repo.Restore.{
  Call, make_dirs, create_file, write_bytes, flush_file, set_mode, set_mtime, World, answer, call,
  on_backend, parent, restore_mode, restore_mtime, read_chunk, write_chunks, restore_file,
  restore_in, restore_in_all, restore_node,
}
use server_backup.Repo.Restore.Below.{parent-append, append_nil, append_assoc}

-- Every call succeeds; these were made before.
abbrev pub calm : Objects → List Call → World
calm m calls = record { backend = quiet m; calls = calls; refusals = [] }

unfoldable pub mode_calls : List Text → Option ℕ → List Call
mode_calls path none = []
mode_calls path (some mode) = if mode % 4096 == 0 then [] else set_mode path mode ∷ []

unfoldable pub mtime_calls : List Text → Option ℤ → List Call
mtime_calls path none = []
mtime_calls path (some secs) = set_mtime path secs ∷ []

module _ (content : Text → Bytes) where
  unfoldable pub write_calls : List Text → List Text → List Call
  write_calls path [] = []
  write_calls path (hex ∷ rest) = write_bytes path (content hex) ∷ write_calls path rest

  -- The calls that lay a tree without references under a directory.
  unfoldable mutual
    unfolding write_calls mode_calls mtime_calls

    pub calls_of : List Text → Node → List Call
    calls_of base (file name size mode mtime chunks) =
        make_dirs base
        ∷ create_file (base ++ name ∷ [])
        ∷ (write_calls (base ++ name ∷ []) chunks
            ++ flush_file (base ++ name ∷ [])
              ∷ (mode_calls (base ++ name ∷ []) mode ++ mtime_calls (base ++ name ∷ []) mtime))
    calls_of base (dir name children) =
        make_dirs (base ++ name ∷ []) ∷ calls_of_all (base ++ name ∷ []) children
    calls_of base (ref name hex) = []

    pub calls_of_all : List Text → Nodes → List Call
    calls_of_all base nil = []
    calls_of_all base (cons n ns) = calls_of base n ++ calls_of_all base ns

module _ (repo : Repository) (m : Objects) (content : Text → Bytes) where
  pub record Readable (hex : Text) : Type 0 where
    pub stored : Bytes
    pub at_key : lookup (blob_key hex) m ≡ some stored
    pub opens : open_for repo (hash hex) stored ≡ ok (content hex)

  -- The stored node on the left stands for the tree on the right, with at most so many references one
  -- inside the other: a reference leads to a stored node that opens, parses and is safe, and the chunks
  -- of files are stored.
  mutual
    pub data Resolves : ℕ → Node → Node → Type 0 where
      a_file :
          {fuel : ℕ} {name : Text} {size : ℕ} {mode : Option ℕ} {mtime : Option ℤ}
          {chunks : List Text}
          → ((hex : Text) → Has hex chunks → Readable hex)
          → Resolves
              (suc fuel)
              (file name size mode mtime chunks)
              (file name size mode mtime chunks)
      a_dir :
          {fuel : ℕ} {name : Text} {ns ts : Nodes}
          → ResolvesAll (suc fuel) ns ts
          → Resolves (suc fuel) (dir name ns) (dir name ts)
      a_ref :
          {fuel : ℕ} {name hex : Text} {stored payload : Bytes} {n t : Node}
          → lookup (blob_key hex) m ≡ some stored
          → open_for repo (hash hex) stored ≡ ok payload
          → repo.libraries.encoding.parse payload ≡ some n
          → Safe n
          → Resolves fuel n t
          → Resolves (suc fuel) (ref name hex) t

    pub data ResolvesAll : ℕ → Nodes → Nodes → Type 0 where
      no_more : {fuel : ℕ} → ResolvesAll fuel nil nil
      and_more :
          {fuel : ℕ} {n t : Node} {ns ts : Nodes}
          → Resolves fuel n t
          → ResolvesAll fuel ns ts
          → ResolvesAll fuel (cons n ns) (cons t ts)

  -- A step that makes these calls and succeeds, whatever was made before.
  Runs : Action World (Unit {0}) → List Call → Type 0
  Runs a more = (calls : List Call) → a (calm m calls) ≡ (ok tt, calm m (calls ++ more))

  Runs-nothing : Runs (pure tt) []
  unfolding Runs
  Runs-nothing calls = ap (λ l. (ok tt, calm m l)) (append_nil calls)

  Runs-then :
      (a b : Action World (Unit {0})) (xs ys : List Call)
      → Runs a xs
      → Runs b ys
      → Runs (a >> b) (xs ++ ys)
  unfolding Runs
  Runs-then a b xs ys h k calls =
      ap (λ (r : Result (Unit {0}) × World). continue (λ _. b) r.0 r.1) (h calls)
      ∙ k (calls ++ xs)
      ∙ ap (λ l. (ok tt, calm m l)) (append_assoc calls xs ys)

  Runs-call : (c : Call) → Runs (call c) (c ∷ [])
  unfolding call answer Runs
  Runs-call c calls = refl

  Runs-lift :
      {A : Type 0} (r : Result A) (a : A) (f : A → Action World (Unit {0})) (xs : List Call)
      → r ≡ ok a
      → Runs (f a) xs
      → Runs (lift r >>= f) xs
  unfolding Runs
  Runs-lift r a f xs e k calls = ap (λ s. continue f s (calm m calls)) e ∙ k calls

  Runs-read :
      {A : Type 0} (r : Action Backend A) (a : A) (f : A → Action World (Unit {0})) (xs : List Call)
      → r (quiet m) ≡ (ok a, quiet m)
      → Runs (f a) xs
      → Runs (on_backend r >>= f) xs
  unfolding on_backend Runs
  Runs-read {A = A} r a f xs e k calls =
      ap
        (λ (p : Result A × Backend).
          continue f p.0 (record { backend = p.1; calls = calls; refusals = [] }))
        e
      ∙ k calls

  read_chunk-Readable :
      (hex : Text) (r : Readable hex) → read_chunk repo hex (quiet m) ≡ (ok (content hex), quiet m)
  unfolding read_chunk is_some or_missing
  read_chunk-Readable hex r =
      rw (exists-quiet (blob_key hex) m, r.at_key, get-quiet (blob_key hex) m, r.at_key, r.opens)
        refl

  fetch_node-quiet :
      (hex : Text) (stored payload : Bytes) (n : Node)
      → lookup (blob_key hex) m ≡ some stored
      → open_for repo (hash hex) stored ≡ ok payload
      → repo.libraries.encoding.parse payload ≡ some n
      → fetch_node repo hex (quiet m) ≡ (ok n, quiet m)
  unfolding fetch_node or_missing parse_document or_malformed
  fetch_node-quiet hex stored payload n at opens parsed =
      rw (get-quiet (blob_key hex) m, at, opens, parsed) refl

  write_chunks-Runs :
      (dest : List Text) (chunks : List Text)
      → ((hex : Text) → Has hex chunks → Readable hex)
      → Runs (write_chunks repo dest chunks) (write_calls content dest chunks)
  unfolding write_chunks write_calls
  write_chunks-Runs dest [] r = Runs-nothing
  write_chunks-Runs dest (hex ∷ rest) r =
      Runs-read (read_chunk repo hex) (content hex) _ _ (read_chunk-Readable hex (r hex (inl refl)))
        (Runs-then (call (write_bytes dest (content hex))) (write_chunks repo dest rest)
          (write_bytes dest (content hex) ∷ []) (write_calls content dest rest)
          (Runs-call (write_bytes dest (content hex)))
          (write_chunks-Runs dest rest (λ h i. r h (inr i))))

  restore_mode-Runs :
      (dest : List Text) (mode : Option ℕ) → Runs (restore_mode dest mode) (mode_calls dest mode)
  unfolding restore_mode mode_calls
  restore_mode-Runs dest none = Runs-nothing
  restore_mode-Runs dest (some mode) = go (mode % 4096 == 0)
    where
      go :
          (b : Bool)
          → Runs
              (if b then pure tt else call (set_mode dest mode))
              (if b then [] else set_mode dest mode ∷ [])
      go true = Runs-nothing
      go false = Runs-call (set_mode dest mode)

  restore_mtime-Runs :
      (dest : List Text) (mtime : Option ℤ)
      → Runs (restore_mtime dest mtime) (mtime_calls dest mtime)
  unfolding restore_mtime mtime_calls call answer Runs
  restore_mtime-Runs dest none calls = Runs-nothing calls
  restore_mtime-Runs dest (some secs) calls = refl

  parent-child : (base : List Text) (name : Text) → parent (base ++ name ∷ []) ≡ base
  unfolding parent
  parent-child base name = parent-append base name [] ∙ sym (append_nil base)

  restore_file-Runs :
      (base : List Text) (name : Text) (chunks : List Text)
      → ((hex : Text) → Has hex chunks → Readable hex)
      → Runs (restore_file repo (base ++ name ∷ []) chunks) (
          make_dirs base
          ∷ create_file (base ++ name ∷ [])
          ∷ (write_calls content (base ++ name ∷ []) chunks ++ flush_file (base ++ name ∷ []) ∷ []))
  unfolding restore_file
  restore_file-Runs base name chunks r =
      let dest = base ++ name ∷ [] in
      let up =
        subst (λ p. Runs (call (make_dirs (parent dest))) (make_dirs p ∷ []))
          (parent-child base name) (Runs-call (make_dirs (parent dest))) in
      Runs-then _ _ (make_dirs base ∷ []) _ up (
        Runs-then _ _ (create_file dest ∷ []) _ (Runs-call (create_file dest)) (
          Runs-then _ _ (write_calls content dest chunks) (flush_file dest ∷ [])
            (write_chunks-Runs dest chunks r) (Runs-call (flush_file dest))))

  restored_file :
      (base : List Text) (name : Text) (mode : Option ℕ) (mtime : Option ℤ) (chunks : List Text)
      → ((hex : Text) → Has hex chunks → Readable hex)
      → Runs
          (restore_file repo (base ++ name ∷ []) chunks
            >> (restore_mode (base ++ name ∷ []) mode >> restore_mtime (base ++ name ∷ []) mtime))
          (make_dirs base
            ∷ create_file (base ++ name ∷ [])
            ∷ (write_calls content (base ++ name ∷ []) chunks
                ++ flush_file (base ++ name ∷ [])
                  ∷ (mode_calls (base ++ name ∷ []) mode ++ mtime_calls (base ++ name ∷ []) mtime)))
  restored_file base name mode mtime chunks readable =
      let dest = base ++ name ∷ [] in
      let last = mode_calls dest mode ++ mtime_calls dest mtime in
      subst
        (λ l.
          Runs
            (restore_file repo dest chunks >> (restore_mode dest mode >> restore_mtime dest mtime))
            (make_dirs base ∷ create_file dest ∷ l))
        (append_assoc (write_calls content dest chunks) (flush_file dest ∷ []) last)
        (Runs-then _ _ _ last (restore_file-Runs base name chunks readable)
          (Runs-then _ _ _ _ (restore_mode-Runs dest mode) (restore_mtime-Runs dest mtime)))

  module _ (fuel : ℕ) (follow : Node → List Text → Action World (Unit {0}))
      (followed : (n t : Node) (base : List Text)
        → Safe n
        → Resolves fuel n t
        → Runs (follow n base) (calls_of content base t)) where
    mutual
      unfolding restore_in calls_of Safe

      restore_in-Runs :
          (n t : Node) (base : List Text)
          → Safe n
          → Resolves (suc fuel) n t
          → Runs (restore_in repo follow n base) (calls_of content base t)
      restore_in-Runs (file name size mode mtime chunks) _ base safe (a_file readable) =
          Runs-lift (validate (file name size mode mtime chunks)) tt _ _
            ((validate_exact (file name size mode mtime chunks)).1 safe)
            (Runs-lift (safe_join base name) (base ++ name ∷ []) _ _
              (safe_join-SafeName base name safe)
              (restored_file base name mode mtime chunks readable))
      restore_in-Runs (dir name ns) _ base (safe, safe_all) (a_dir rs) =
          Runs-lift (validate (dir name ns)) tt _ _
            ((validate_exact (dir name ns)).1 (safe, safe_all))
            (Runs-lift (safe_join base name) (base ++ name ∷ []) _ _
              (safe_join-SafeName base name safe)
              (Runs-then _ _ (make_dirs (base ++ name ∷ []) ∷ []) _
                (Runs-call (make_dirs (base ++ name ∷ [])))
                (restore_in_all-Runs ns _ (base ++ name ∷ []) safe_all rs)))
      restore_in-Runs (ref name hex) t base safe (a_ref at opens parsed inner_safe r) =
          Runs-lift (validate (ref name hex)) tt _ _ ((validate_exact (ref name hex)).1 safe) (
            Runs-read (fetch_node repo hex) _ _ _ (fetch_node-quiet hex _ _ _ at opens parsed)
              (followed _ t base inner_safe r))

      restore_in_all-Runs :
          (ns ts : Nodes) (base : List Text)
          → SafeAll ns
          → ResolvesAll (suc fuel) ns ts
          → Runs (restore_in_all repo follow ns base) (calls_of_all content base ts)
      restore_in_all-Runs nil _ base safe no_more = Runs-nothing
      restore_in_all-Runs (cons n ns) _ base (safe, safe_all) (and_more r rs) =
          Runs-then _ _ _ _ (restore_in-Runs n _ base safe r)
            (restore_in_all-Runs ns _ base safe_all rs)

  restore_node-Runs :
      (fuel : ℕ) (n t : Node) (base : List Text)
      → Safe n
      → Resolves fuel n t
      → Runs (restore_node repo fuel n base) (calls_of content base t)
  unfolding restore_node
  restore_node-Runs (suc fuel) n t base safe r =
      restore_in-Runs fuel (restore_node repo fuel) (restore_node-Runs fuel) n t base safe r
  restore_node-Runs zero n t base safe r = elim r [ ]

  -- When no call fails: restoring a stored node that stands for a tree, with the fuel that its
  -- references take, succeeds and makes exactly the calls that lay the tree under the directory: each
  -- directory is made before what is in it, and each file is created, gets the contents of its chunks
  -- in their order, and then its mode and its time. A reference lays what it leads to in the same place.
  pub restore_node_lem :
      (fuel : ℕ) (stored tree : Node) (base : List Text) (calls : List Call)
      → Safe stored
      → Resolves fuel stored tree
      → restore_node repo fuel stored base (calm m calls)
        ≡ (ok tt, calm m (calls ++ calls_of content base tree))
  unfolding Runs
  restore_node_lem fuel stored tree base calls safe r =
      restore_node-Runs fuel stored tree base safe r calls
