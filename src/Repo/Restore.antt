-- ===== src/Repo/Restore.antt =====
-- repo.rs: restore, restore_path, restore_node, restore_file, restore_mode and restore_mtime. The file
-- system is seen through the calls that are made on it, in their order; `refusals` is what it answers:
-- a call fails where the next entry is `true`, and past the end no call fails.
pub mod Below
pub mod Restored
pub mod RoundTrip
mod Examples
use server_backup.Common.{
  ℕ, zero, suc, ◌+◌, ◌%◌, Bool, true, false, ◌&&◌, not, Option, none, some, List, [], ◌∷◌, ◌++◌,
  ◌==◌, if◌then◌else◌,
}
use server_backup.Common.Int.{ℤ}
use server_backup.Common.Texts.{Text, Bytes, bytes, text_eq}
use server_backup.Common.Errors.{Result, ok, err, io, malformed, missing_blob, invalid_input}
use server_backup.Common.Actions.{Action, pure, throw, lift, ◌>>=◌, ◌>>◌}
use server_backup.Crypto.{hash}
use server_backup.Tree.{Node, file, dir, ref, Nodes, nil, cons, validate, name_of}
use server_backup.Snapshot.{Snapshot}
use server_backup.Backend.{Backend, get, exists}
use server_backup.Repo.{Repository, blob_key, open_for, find_snapshot}
use server_backup.Repo.Index.{fetch_node}
use server_backup.Repo.Paths.{safe_join, split_slash}
use server_backup.Repo.Reach.{load_root}

pub data Call : Type 0 where
  make_dirs : (path : List Text) → Call
  create_file : (path : List Text) → Call
  write_bytes : (path : List Text) (content : Bytes) → Call
  flush_file : (path : List Text) → Call
  set_mode : (path : List Text) (mode : ℕ) → Call
  set_mtime : (path : List Text) (secs : ℤ) → Call

-- `calls` holds the calls that were made, with those that failed.
pub record World : Type 0 where
  pub backend : Backend
  pub calls : List Call
  pub refusals : List Bool

unfoldable pub answer : List Bool → Result (Unit {0}) × List Bool
answer [] = (ok tt, [])
answer (true ∷ later) = (err io, later)
answer (false ∷ later) = (ok tt, later)

unfoldable pub call : Call → Action World (Unit {0})
unfolding answer
call c w = (
  (answer w.refusals).0,
  record { backend = w.backend; calls = w.calls ++ c ∷ []; refusals = (answer w.refusals).1 },
)

unfoldable pub on_backend : {A : Type 0} → Action Backend A → Action World A
on_backend m w = ((m w.backend).0, record w { backend = (m w.backend).1 })

unfoldable pub parent : List Text → List Text
parent [] = []
parent (c ∷ []) = []
parent (c ∷ d ∷ rest) = c ∷ parent (d ∷ rest)

-- A mode without permission bits is not applied.
unfoldable pub restore_mode : List Text → Option ℕ → Action World (Unit {0})
unfolding call
restore_mode path none = pure tt
restore_mode path (some mode) = if mode % 4096 == 0 then pure tt else call (set_mode path mode)

-- A failure is ignored.
unfoldable pub restore_mtime : List Text → Option ℤ → Action World (Unit {0})
unfolding call
restore_mtime path none w = (ok tt, w)
restore_mtime path (some secs) w = (ok tt, (call (set_mtime path secs) w).1)

-- The nodes that a root stands for.
unfoldable pub children_of : Node → Nodes
children_of (dir name children) = children
children_of other = cons other nil

module _ (repo : Repository) where
  unfoldable pub read_chunk : Text → Action Backend Bytes
  read_chunk hex = exists (blob_key hex) >>= λ there.
      if there
      then (get (blob_key hex) >>= λ stored. lift (open_for repo (hash hex) stored))
      else throw (missing_blob hex)

  unfoldable pub write_chunks : List Text → List Text → Action World (Unit {0})
  unfolding on_backend read_chunk call
  write_chunks dest [] = pure tt
  write_chunks dest (hex ∷ rest) = on_backend (read_chunk hex) >>= λ content.
      call (write_bytes dest content) >> write_chunks dest rest

  unfoldable pub restore_file : List Text → List Text → Action World (Unit {0})
  unfolding call write_chunks parent
  restore_file dest chunks =
      call (make_dirs (parent dest))
      >> (call (create_file dest) >> (write_chunks dest chunks >> call (flush_file dest)))

  -- One node; `follow` is the call on the node that a reference leads to.
  module _ (follow : Node → List Text → Action World (Unit {0})) where
    unfoldable mutual
      unfolding call on_backend restore_file restore_mode restore_mtime

      pub restore_in : Node → List Text → Action World (Unit {0})
      restore_in (file name size mode mtime chunks) base =
          lift (validate (file name size mode mtime chunks))
          >> (lift (safe_join base name) >>= λ dest.
              restore_file dest chunks >> (restore_mode dest mode >> restore_mtime dest mtime))
      restore_in (dir name children) base =
          lift (validate (dir name children))
          >> (lift (safe_join base name) >>= λ here.
              call (make_dirs here) >> restore_in_all children here)
      restore_in (ref name hex) base =
          lift (validate (ref name hex))
          >> (on_backend (fetch_node repo hex) >>= λ inner. follow inner base)

      pub restore_in_all : Nodes → List Text → Action World (Unit {0})
      restore_in_all nil base = pure tt
      restore_in_all (cons n ns) base = restore_in n base >> restore_in_all ns base

  -- The fuel bounds how many references lead from one into the next.
  unfoldable pub restore_node : ℕ → Node → List Text → Action World (Unit {0})
  unfolding restore_in
  restore_node zero node base = throw malformed
  restore_node (suc fuel) node base = restore_in (restore_node fuel) node base

  unfoldable pub restore_nodes : ℕ → Nodes → List Text → Action World (Unit {0})
  unfolding restore_node
  restore_nodes fuel nil base = pure tt
  restore_nodes fuel (cons n ns) base = restore_node fuel n base >> restore_nodes fuel ns base

  unfoldable pub restore : ℕ → Text → List Text → Action World Snapshot
  unfolding restore_nodes children_of call on_backend
  restore fuel id_or_prefix target = on_backend (find_snapshot repo id_or_prefix) >>= λ snapshot.
      call (make_dirs target)
      >> (on_backend (load_root repo snapshot) >>= λ root.
          restore_nodes fuel (children_of root) target >> pure snapshot)

-- `split('/')` without the empty components and the dots.
unfoldable pub components : List Text → List Text
components [] = []
components (c ∷ rest) =
    if text_eq c []
    then components rest
    else if text_eq c (bytes ".")
    then components rest
    else c ∷ components rest

-- The first node of that name.
unfoldable pub find_name : Text → Nodes → Option Node
find_name component nil = none
find_name component (cons n ns) =
    if text_eq (name_of n) component then some n else find_name component ns

-- A file or a reference leaves nothing to descend into.
unfoldable pub below : Node → Nodes
below (dir name children) = children
below other = nil

-- The loop over the components: the nodes that are left, and whether a component has matched.
unfoldable pub descend : Bool → Nodes → List Text → Nodes × Bool
unfolding find_name below
descend matched nodes [] = (nodes, matched)
descend matched nodes (c ∷ rest) = elim (find_name c nodes) [
  | none ↦ (nodes, matched)
  | some n ↦ descend true (below n) rest
]

module _ (repo : Repository) where
  unfoldable pub restore_under : ℕ → Nodes × Bool → Snapshot → List Text → Action World Snapshot
  unfolding restore_nodes call
  restore_under fuel (nodes, false) snapshot target = throw invalid_input
  restore_under fuel (nodes, true) snapshot target =
      call (make_dirs target) >> (restore_nodes repo fuel nodes target >> pure snapshot)

  unfoldable pub restore_components : ℕ → List Text → Snapshot → List Text → Action World Snapshot
  unfolding restore restore_under descend on_backend
  restore_components fuel [] snapshot target = restore repo fuel snapshot.id target
  restore_components fuel (c ∷ rest) snapshot target =
      on_backend (load_root repo snapshot) >>= λ root.
      restore_under fuel (descend false (children_of root) (c ∷ rest)) snapshot target

  unfoldable pub restore_path : ℕ → Text → Text → List Text → Action World Snapshot
  unfolding restore_components components on_backend
  restore_path fuel id_or_prefix path target =
      on_backend (find_snapshot repo id_or_prefix) >>= λ snapshot.
      restore_components fuel (components (split_slash path)) snapshot target
