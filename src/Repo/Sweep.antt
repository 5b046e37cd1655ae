-- ===== src/Repo/Sweep.antt =====
-- repo.rs: the sweep of prune deletes a list of keys in order, and stops where a deletion fails.
use server_backup.Common.{
  ℕ, ◌+◌, ◌≡◌, refl, sym, ap, ◌∙◌, subst, false, some, List, [], ◌∷◌, ◌++◌, map, if◌then◌else◌,
}
use server_backup.Common.Texts.{Text, Bytes}
use server_backup.Common.Errors.{Result}
use server_backup.Common.Actions.{
  Action, Ends, returned, failed, Ends-bind, Ends-weaken, ◌>>=◌, ◌>>◌, pure,
}
use server_backup.Backend.{Backend, Objects, get, delete, lookup}
use server_backup.Backend.Laws.{Outcome, get-Outcome, delete-Outcome}
use server_backup.Repo.{blob_key, snapshot_key, index_key}
use server_backup.Repo.Keys.{remove_keys, remove_keys-append}
use server_backup.Repo.Prune.{PruneReport, delete_manifests, delete_blobs, measure, carry_out}

-- The run stopped after the keys `done`.
pub record Stopped (keys : List Text) (before after : Objects) : Type 0 where
  pub done : List Text
  pub todo : List Text
  pub splits : keys ≡ done ++ todo
  pub objects : after ≡ remove_keys done before

pub record Deletes (keys : List Text) {A : Type 0} (Q : A → Type 0) (m : Action Backend A)
    : Type 0 where
  pub run :
      (b : Backend)
      → Ends
          (λ a b'. Q a × (b'.objects ≡ remove_keys keys b.objects))
          (λ b'. Stopped keys b.objects b'.objects)
          (m b)

append_assoc : (xs ys zs : List Text) → (xs ++ ys) ++ zs ≡ xs ++ (ys ++ zs)
append_assoc [] ys zs = refl
append_assoc (x ∷ xs) ys zs = ap (λ l. x ∷ l) (append_assoc xs ys zs)

Stopped-first :
    (ks ls : List Text) (before after : Objects)
    → Stopped ks before after
    → Stopped (ks ++ ls) before after
Stopped-first ks ls before after s = record {
  done = s.done;
  todo = s.todo ++ ls;
  splits = ap (λ l. l ++ ls) s.splits ∙ append_assoc s.done s.todo ls;
  objects = s.objects;
}

Stopped-later :
    (ks ls : List Text) (before middle after : Objects)
    → middle ≡ remove_keys ks before
    → Stopped ls middle after
    → Stopped (ks ++ ls) before after
Stopped-later ks ls before middle after e s = record {
  done = ks ++ s.done;
  todo = s.todo;
  splits = ap (λ l. ks ++ l) s.splits ∙ sym (append_assoc ks s.done s.todo);
  objects = s.objects ∙ ap (remove_keys s.done) e ∙ sym (remove_keys-append ks s.done before);
}

pub Deletes-bind :
    {A B : Type 0} {Q : A → Type 0} {R : B → Type 0} {m : Action Backend A}
    {f : A → Action Backend B} {ks ls : List Text}
    → Deletes ks Q m
    → ((a : A) → Q a → Deletes ls R (f a))
    → Deletes (ks ++ ls) R (m >>= f)
Deletes-bind {m = m} {f = f} {ks = ks} {ls = ls} h k = record {
  run = λ b.
      Ends-bind _ _ _ m f b
        (Ends-weaken _ _ _ _ (m b) (λ a b' q. q)
          (λ b' s. Stopped-first ks ls b.objects b'.objects s) (h.run b))
        (λ a b' (q, e).
          Ends-weaken _ _ _ _ (f a b')
            (λ c b'' (r, e').
              (r, e' ∙ ap (remove_keys ls) e ∙ sym (remove_keys-append ks ls b.objects)))
            (λ b'' s. Stopped-later ks ls b.objects b'.objects b''.objects e s) ((k a q).run b'));
}

pub Deletes-nothing : {A : Type 0} (Q : A → Type 0) (a : A) → Q a → Deletes [] Q (pure a)
unfolding remove_keys
Deletes-nothing Q a q = record { run = λ b. returned a b refl (q, refl) }

Anything : {A : Type 0} → A → Type 0
Anything a = Unit {0}

delete-Deletes : (key : Text) → Deletes (key ∷ []) Anything (delete key)
unfolding remove_keys Anything
delete-Deletes key = record {
  run = λ b.
      Ends-weaken _ _ _ _ (delete key b) (λ a b' (q, e). (tt, e))
        (λ b' e. record { done = []; todo = key ∷ []; splits = refl; objects = e })
        (delete-Outcome b key);
}

measure-Deletes : (key : Text) → Deletes [] Anything (measure key)
unfolding remove_keys Anything measure
measure-Deletes key = record { run = λ b. returned _ _ refl (tt, kept b (get-Outcome b key)) }
  where
    kept :
        (b : Backend)
        → Outcome (λ v. lookup key b.objects ≡ some v) b.objects b.objects (get key b)
        → (get key b).1.objects ≡ b.objects
    kept b (returned v b' h (q, e)) = ap (λ (r : Result Bytes × Backend). r.1.objects) h ∙ e
    kept b (failed x b' h e) = ap (λ (r : Result Bytes × Backend). r.1.objects) h ∙ e

unfoldable pub manifest_keys : List Text → List Text
manifest_keys [] = []
manifest_keys (id ∷ ids) = snapshot_key id ∷ index_key id ∷ manifest_keys ids

delete_manifests-Deletes :
    (ids : List Text) → Deletes (manifest_keys ids) Anything (delete_manifests ids)
unfolding manifest_keys delete_manifests Anything
delete_manifests-Deletes [] = Deletes-nothing _ tt tt
delete_manifests-Deletes (id ∷ ids) =
    Deletes-bind (delete-Deletes (snapshot_key id))
      λ _ _. Deletes-bind (delete-Deletes (index_key id)) λ _ _. delete_manifests-Deletes ids

delete_blobs-Deletes :
    (hexes : List Text) (total : ℕ)
    → Deletes (map blob_key hexes) Anything (delete_blobs hexes total)
unfolding delete_blobs Anything
delete_blobs-Deletes [] total = Deletes-nothing _ total tt
delete_blobs-Deletes (hex ∷ hexes) total = Deletes-bind (measure-Deletes (blob_key hex)) λ size _.
    Deletes-bind (delete-Deletes (blob_key hex)) λ _ _. delete_blobs-Deletes hexes (total + size)

-- The keys that a report says it deletes, in the order of the deletions.
unfoldable pub deleted_keys : PruneReport → List Text
deleted_keys report = manifest_keys report.deleted_snapshots ++ map blob_key report.deleted_blobs

-- The report that is returned differs from the plan in its byte count only.
unfoldable pub SamePlan : PruneReport → PruneReport → Type 0
SamePlan plan report =
    (report.deleted_snapshots ≡ plan.deleted_snapshots)
    × (report.deleted_blobs ≡ plan.deleted_blobs)
    × (report.kept_snapshots ≡ plan.kept_snapshots)
    × (report.dry_run ≡ plan.dry_run)

pub append_nil : (xs : List Text) → xs ++ [] ≡ xs
append_nil [] = refl
append_nil (x ∷ xs) = ap (λ l. x ∷ l) (append_nil xs)

pub carry_out-Deletes :
    (plan : PruneReport)
    → plan.dry_run ≡ false
    → Deletes (deleted_keys plan) (SamePlan plan) (carry_out plan)
unfolding carry_out deleted_keys SamePlan Anything
carry_out-Deletes plan wet =
    subst (λ c. Deletes (deleted_keys plan) (SamePlan plan) (if c then pure plan else deletion))
      (sym wet)
      (subst (λ ks. Deletes ks (SamePlan plan) deletion)
        (ap (λ l. manifest_keys plan.deleted_snapshots ++ l)
          (append_nil (map blob_key plan.deleted_blobs)))
        (Deletes-bind (delete_manifests-Deletes plan.deleted_snapshots) λ _ _.
          Deletes-bind (delete_blobs-Deletes plan.deleted_blobs 0) λ total _.
            Deletes-nothing (SamePlan plan) (record plan { deleted_blob_bytes = total })
              (refl, refl, refl, refl)))
  where
    deletion : Action Backend PruneReport
    deletion =
        delete_manifests plan.deleted_snapshots
        >> (delete_blobs plan.deleted_blobs 0 >>= λ total.
            pure (record plan { deleted_blob_bytes = total }))
