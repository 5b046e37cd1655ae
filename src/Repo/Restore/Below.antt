-- ===== src/Repo/Restore/Below.antt =====
-- repo.rs: where restore and restore_path write.
use server_backup.Common.{
  ℕ, zero, suc, ◌≡◌, refl, ap, ◌∙◌, subst, inl, inr, Bool, true, false, Option, none, some, List,
  [], ◌∷◌, ◌++◌, ◌%◌, ◌==◌, if◌then◌else◌, All, All-append, Bool-cases,
}
use server_backup.Common.Int.{ℤ}
use server_backup.Common.Texts.{Text}
use server_backup.Common.Errors.{Result, ok, err, malformed, invalid_input}
use server_backup.Common.Actions.{Action, lift, continue, ◌>>=◌}
use server_backup.Tree.{Node, file, dir, ref, Nodes, nil, cons, validate}
use server_backup.Snapshot.{Snapshot}
use server_backup.Backend.{Backend}
use server_backup.Repo.{Repository, find_snapshot}
use server_backup.Repo.Index.{fetch_node}
use server_backup.Repo.Paths.{safe_join, split_slash, prepend, Inside, safe_join-Inside}
use server_backup.Repo.Reach.{load_root}
use server_backup.Repo.Restore.{
  Call, make_dirs, create_file, write_bytes, flush_file, set_mode, set_mtime, World, call,
  on_backend, parent, restore_mode, restore_mtime, read_chunk, write_chunks, restore_file,
  restore_in, restore_in_all, restore_node, restore_nodes, children_of, restore, components,
  descend, restore_under, restore_components, restore_path,
}

unfoldable pub path_of : Call → List Text
path_of (make_dirs path) = path
path_of (create_file path) = path
path_of (write_bytes path content) = path
path_of (flush_file path) = path
path_of (set_mode path mode) = path
path_of (set_mtime path secs) = path

-- The path is the base, or leads on from it by components that do not lead out.
pub Below : List Text → List Text → Type 0
Below base path = (rest : List Text) × (path ≡ base ++ rest) × All Inside rest

-- Only calls with `P` are made.
pub Adds : {A : Type 0} → (Call → Type 0) → Action World A → Type 0
Adds P m = (w : World) → (more : List Call) × ((m w).1.calls ≡ w.calls ++ more) × All P more

pub append_nil : {A : Type 0} (xs : List A) → xs ≡ xs ++ []
append_nil [] = refl
append_nil (x ∷ xs) = ap (λ l. x ∷ l) (append_nil xs)

pub append_assoc : {A : Type 0} (xs ys zs : List A) → (xs ++ ys) ++ zs ≡ xs ++ (ys ++ zs)
append_assoc [] ys zs = refl
append_assoc (x ∷ xs) ys zs = ap (λ l. x ∷ l) (append_assoc xs ys zs)

module _ (P : Call → Type 0) where
  Adds-bind :
      {A B : Type 0} (m : Action World A) (f : A → Action World B)
      → Adds P m
      → ((a : A) → Adds P (f a))
      → Adds P (m >>= f)
  unfolding Adds
  Adds-bind {A = A} m f k l w =
      let (first, e, p) = k w in
      let (second, e', p') = go (m w).0 (m w).1 in
      (
        first ++ second,
        e' ∙ ap (λ c. c ++ second) e ∙ append_assoc w.calls first second,
        All-append P first second p p',
      )
    where
      go :
          (r : Result A) (v : World)
          → (more : List Call) × ((continue f r v).1.calls ≡ v.calls ++ more) × All P more
      go (ok a) v = l a v
      go (err e) v = ([], append_nil v.calls, tt)

  Adds-still : {A : Type 0} (r : World → Result A) → Adds P (λ w. (r w, w))
  unfolding Adds
  Adds-still r w = ([], append_nil w.calls, tt)

  Adds-on_backend : {A : Type 0} (m : Action Backend A) → Adds P (on_backend m)
  unfolding Adds on_backend
  Adds-on_backend m w = ([], append_nil w.calls, tt)

  Adds-call : (c : Call) → P c → Adds P (call c)
  unfolding Adds call
  Adds-call c p w = (c ∷ [], refl, (p, tt))

  -- A check that fixes what the rest gets.
  Adds-lift :
      {A B : Type 0} (r : Result A) (f : A → Action World B)
      → ((a : A) → r ≡ ok a → Adds P (f a))
      → Adds P (lift r >>= f)
  unfolding Adds
  Adds-lift (ok a) f k w = k a refl w
  Adds-lift (err e) f k w = ([], append_nil w.calls, tt)

  Adds-if :
      {A : Type 0} (b : Bool) (m n : Action World A)
      → Adds P m
      → Adds P n
      → Adds P (if b then m else n)
  Adds-if true m n k l = k
  Adds-if false m n k l = l

Adds-weaken :
    {A : Type 0} (P Q : Call → Type 0) (m : Action World A)
    → ((c : Call) → P c → Q c)
    → Adds P m
    → Adds Q m
unfolding Adds
Adds-weaken P Q m k a w = let (more, e, p) = a w in (more, e, all more p)
  where
    all : (cs : List Call) → All P cs → All Q cs
    all [] p = tt
    all (c ∷ cs) (p, ps) = (k c p, all cs ps)

abbrev pub CallBelow : List Text → Call → Type 0
CallBelow base c = Below base (path_of c)

Below-refl : (base : List Text) → Below base base
unfolding Below
Below-refl base = ([], append_nil base, tt)

Below-trans : (a b c : List Text) → Below a b → Below b c → Below a c
unfolding Below
Below-trans a b c (r, e, p) (s, f, q) =
    (r ++ s, f ∙ ap (λ l. l ++ s) e ∙ append_assoc a r s, All-append Inside r s p q)

split_slash-cons : (s : Text) → (x : Text) × (xs : List Text) × (split_slash s ≡ x ∷ xs)
unfolding split_slash prepend
split_slash-cons [] = ([], [], refl)
split_slash-cons (c ∷ s) = elim (Bool-cases (c == b'/')) [
  | inl e ↦ ([], split_slash s, rw e refl)
  | inr e ↦ let (x, xs, h) = split_slash-cons s in (c ∷ x, xs, rw (e, h) refl)
]

pub parent-append :
    (base : List Text) (x : Text) (xs : List Text)
    → parent (base ++ x ∷ xs) ≡ base ++ parent (x ∷ xs)
unfolding parent
parent-append [] x xs = refl
parent-append (b ∷ []) x xs = refl
parent-append (b ∷ d ∷ base) x xs = ap (λ l. b ∷ l) (parent-append (d ∷ base) x xs)

All-parent : (xs : List Text) → All Inside xs → All Inside (parent xs)
unfolding parent
All-parent [] p = tt
All-parent (x ∷ []) p = tt
All-parent (x ∷ y ∷ xs) (p, ps) = (p, All-parent (y ∷ xs) ps)

-- A joined path has a component more than its base, so that its parent is not above the base.
safe_join-Below :
    (base : List Text) (name : Text) (joined : List Text)
    → safe_join base name ≡ ok joined
    → Below base joined × Below base (parent joined)
unfolding Below
safe_join-Below base name joined h =
    let (e, inside) = safe_join-Inside base name joined h in
    let (x, xs, s) = split_slash-cons name in
    (
      (split_slash name, e, inside),
      (
        parent (x ∷ xs),
        ap parent (e ∙ ap (λ l. base ++ l) s) ∙ parent-append base x xs,
        All-parent (x ∷ xs) (subst (All Inside) s inside),
      ),
    )

module _ (repo : Repository) (base : List Text) where
  write_chunks-Adds :
      (dest : List Text) (chunks : List Text)
      → Below base dest
      → Adds (CallBelow base) (write_chunks repo dest chunks)
  unfolding write_chunks path_of
  write_chunks-Adds dest [] p = Adds-still _ (λ w. ok tt)
  write_chunks-Adds dest (hex ∷ rest) p =
      Adds-bind _ _ _ (Adds-on_backend _ (read_chunk repo hex)) (λ content.
        Adds-bind _ _ _ (Adds-call _ (write_bytes dest content) p)
          (λ _. write_chunks-Adds dest rest p))

  restore_file-Adds :
      (dest : List Text) (chunks : List Text)
      → Below base dest
      → Below base (parent dest)
      → Adds (CallBelow base) (restore_file repo dest chunks)
  unfolding restore_file path_of
  restore_file-Adds dest chunks p q =
      Adds-bind _ _ _ (Adds-call _ (make_dirs (parent dest)) q) (λ _.
        Adds-bind _ _ _ (Adds-call _ (create_file dest) p) (λ _.
          Adds-bind _ _ _ (write_chunks-Adds dest chunks p) (λ _. Adds-call _ (flush_file dest) p)))

  restore_mode-Adds :
      (dest : List Text) (mode : Option ℕ)
      → Below base dest
      → Adds (CallBelow base) (restore_mode dest mode)
  unfolding restore_mode path_of
  restore_mode-Adds dest none p = Adds-still _ (λ w. ok tt)
  restore_mode-Adds dest (some mode) p =
      Adds-if _ (mode % 4096 == 0) _ _ (Adds-still _ (λ w. ok tt))
        (Adds-call _ (set_mode dest mode) p)

  restore_mtime-Adds :
      (dest : List Text) (mtime : Option ℤ)
      → Below base dest
      → Adds (CallBelow base) (restore_mtime dest mtime)
  unfolding restore_mtime path_of Adds
  restore_mtime-Adds dest none p w = Adds-still _ (λ w. ok tt) w
  restore_mtime-Adds dest (some secs) p w = Adds-call _ (set_mtime dest secs) p w

module _ (repo : Repository) where
  module _ (follow : Node → List Text → Action World (Unit {0}))
      (below_follow : (n : Node) (base : List Text) → Adds (CallBelow base) (follow n base)) where
    mutual
      unfolding restore_in path_of

      restore_in-Adds :
          (n : Node) (base : List Text) → Adds (CallBelow base) (restore_in repo follow n base)
      restore_in-Adds (file name size mode mtime chunks) base =
          Adds-lift _ (validate (file name size mode mtime chunks)) _ (λ _ valid.
            Adds-lift _ (safe_join base name) _ (λ dest joined.
              let (p, q) = safe_join-Below base name dest joined in
              Adds-bind _ _ _ (restore_file-Adds repo base dest chunks p q) (λ _.
                Adds-bind _ _ _ (restore_mode-Adds repo base dest mode p)
                  (λ _. restore_mtime-Adds repo base dest mtime p))))
      restore_in-Adds (dir name children) base =
          Adds-lift _ (validate (dir name children)) _ (λ _ valid.
            Adds-lift _ (safe_join base name) _ (λ here joined.
              let (p, q) = safe_join-Below base name here joined in
              Adds-bind _ _ _ (Adds-call _ (make_dirs here) p) (λ _.
                Adds-weaken _ _ _ (λ c. Below-trans base here (path_of c) p)
                  (restore_in_all-Adds children here))))
      restore_in-Adds (ref name hex) base = Adds-lift _ (validate (ref name hex)) _ (λ _ valid.
          Adds-bind _ _ _ (Adds-on_backend _ (fetch_node repo hex))
            (λ inner. below_follow inner base))

      restore_in_all-Adds :
          (ns : Nodes) (base : List Text)
          → Adds (CallBelow base) (restore_in_all repo follow ns base)
      restore_in_all-Adds nil base = Adds-still _ (λ w. ok tt)
      restore_in_all-Adds (cons n ns) base =
          Adds-bind _ _ _ (restore_in-Adds n base) (λ _. restore_in_all-Adds ns base)

  restore_node-Adds :
      (fuel : ℕ) (n : Node) (base : List Text)
      → Adds (CallBelow base) (restore_node repo fuel n base)
  unfolding restore_node
  restore_node-Adds zero n base = Adds-still _ (λ w. err malformed)
  restore_node-Adds (suc fuel) n base =
      restore_in-Adds (restore_node repo fuel) (restore_node-Adds fuel) n base

  restore_nodes-Adds :
      (fuel : ℕ) (ns : Nodes) (base : List Text)
      → Adds (CallBelow base) (restore_nodes repo fuel ns base)
  unfolding restore_nodes
  restore_nodes-Adds fuel nil base = Adds-still _ (λ w. ok tt)
  restore_nodes-Adds fuel (cons n ns) base =
      Adds-bind _ _ _ (restore_node-Adds fuel n base) (λ _. restore_nodes-Adds fuel ns base)

  make_target : (target : List Text) → Adds (CallBelow target) (call (make_dirs target))
  unfolding path_of
  make_target target = Adds-call _ (make_dirs target) (Below-refl target)

  restore-Adds :
      (fuel : ℕ) (id : Text) (target : List Text)
      → Adds (CallBelow target) (restore repo fuel id target)
  unfolding restore
  restore-Adds fuel id target =
      Adds-bind _ _ _ (Adds-on_backend _ (find_snapshot repo id)) (λ snapshot.
        Adds-bind _ _ _ (make_target target) (λ _.
          Adds-bind _ _ _ (Adds-on_backend _ (load_root repo snapshot)) (λ root.
            Adds-bind _ _ _ (restore_nodes-Adds fuel (children_of root) target)
              (λ _. Adds-still _ (λ w. ok snapshot)))))

  restore_under-Adds :
      (fuel : ℕ) (left : Nodes × Bool) (snapshot : Snapshot) (target : List Text)
      → Adds (CallBelow target) (restore_under repo fuel left snapshot target)
  unfolding restore_under
  restore_under-Adds fuel (nodes, false) snapshot target = Adds-still _ (λ w. err invalid_input)
  restore_under-Adds fuel (nodes, true) snapshot target = Adds-bind _ _ _ (make_target target) (λ _.
      Adds-bind _ _ _ (restore_nodes-Adds fuel nodes target) (λ _. Adds-still _ (λ w. ok snapshot)))

  restore_components-Adds :
      (fuel : ℕ) (cs : List Text) (snapshot : Snapshot) (target : List Text)
      → Adds (CallBelow target) (restore_components repo fuel cs snapshot target)
  unfolding restore_components
  restore_components-Adds fuel [] snapshot target = restore-Adds fuel snapshot.id target
  restore_components-Adds fuel (c ∷ rest) snapshot target =
      Adds-bind _ _ _ (Adds-on_backend _ (load_root repo snapshot)) (λ root.
        restore_under-Adds fuel (descend false (children_of root) (c ∷ rest)) snapshot target)

  restore_path-Adds :
      (fuel : ℕ) (id path : Text) (target : List Text)
      → Adds (CallBelow target) (restore_path repo fuel id path target)
  unfolding restore_path
  restore_path-Adds fuel id path target =
      Adds-bind _ _ _ (Adds-on_backend _ (find_snapshot repo id))
        (λ snapshot. restore_components-Adds fuel (components (split_slash path)) snapshot target)

  -- Whatever the repository holds and whatever the backend and the file system answer: every call that
  -- restoring a snapshot, or a part of it, makes on the file system is for the target, or for a path
  -- that leads on from it by components that are not empty, not a dot or two dots, and hold no
  -- backslash and no colon.
  pub restore-Below :
      (fuel : ℕ) (id path : Text) (target : List Text) (w : World)
      → ((more : List Call) × ((restore repo fuel id target w).1.calls ≡ w.calls ++ more)
          × All (CallBelow target) more)
        × ((more : List Call) × ((restore_path repo fuel id path target w).1.calls
              ≡ w.calls ++ more)
            × All (CallBelow target) more)
  unfolding Adds
  restore-Below fuel id path target w =
      (restore-Adds fuel id target w, restore_path-Adds fuel id path target w)
