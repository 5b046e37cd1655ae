-- ===== src/Repo/Safety.antt =====
-- repo.rs: what prune leaves in the backend, when it returns and when it fails.
use server_backup.Common.{◌≡◌, refl, sym, subst, ◌⊎◌, inl, inr, false, List, [], ◌++◌, map, Has}
use server_backup.Common.Texts.{Text, bytes, contains}
use server_backup.Common.Errors.{Result}
use server_backup.Common.Actions.{Action, Ends, Ends-bind, Ends-weaken, ◌>>=◌}
use server_backup.Retention.{RetentionDecision}
use server_backup.Backend.{Backend, Objects, list}
use server_backup.Repo.{Repository, blob_key}
use server_backup.Repo.Keys.{remove_keys}
use server_backup.Repo.Prune.{
  PruneReport, ids, planned, garbage_of, live_hashes, carry_out, mark_and_sweep,
}
use server_backup.Repo.Reads.{list-Reads}
use server_backup.Repo.Scan.{Covers, live_hashes-Reads, Has-garbage_of}
use server_backup.Repo.Sweep.{
  Stopped, manifest_keys, deleted_keys, SamePlan, carry_out-Deletes, append_nil,
}

module _ (repo : Repository) where
  -- How far a real run has come: the plan that it carries out, and where it stopped.
  pub record Progress (decision : RetentionDecision) (before after : Objects) : Type 0 where
    pub live : List Text
    pub garbage : List Text
    pub dead : (h : Text) → Has h garbage → contains live h ≡ false
    pub covers : (garbage ≡ []) ⊎ Covers before repo decision.kept live
    pub stopped : Stopped (manifest_keys (ids decision.pruned) ++ map blob_key garbage) before after

  -- The report that is returned names what was deleted.
  unfoldable pub Finished : RetentionDecision → Objects → PruneReport → Objects → Type 0
  Finished decision before report after =
      (report.deleted_snapshots ≡ ids decision.pruned)
      × (report.kept_snapshots ≡ ids decision.kept)
      × (after ≡ remove_keys (deleted_keys report) before)

  not_started :
      (decision : RetentionDecision) (before after : Objects)
      → after ≡ before
      → Progress decision before after
  unfolding remove_keys
  not_started decision before after e = record {
    live = [];
    garbage = [];
    dead = λ h m. absurd m;
    covers = inl refl;
    stopped = record { done = []; todo = _; splits = refl; objects = e };
  }

  unfoldable pub Ended : RetentionDecision → Objects → Result PruneReport × Backend → Type 0
  Ended decision before r =
      Ends
        (λ report b'.
          Finished decision before report b'.objects × Progress decision before b'.objects)
        (λ b'. Progress decision before b'.objects) r

  plan_ends :
      (decision : RetentionDecision) (live keys : List Text) (before : Objects) (b : Backend)
      → Covers before repo decision.kept live
      → b.objects ≡ before
      → Ended decision before (carry_out (planned false decision (garbage_of live keys)) b)
  unfolding planned Finished SamePlan deleted_keys Ended
  plan_ends decision live keys before b covers e =
      Ends-weaken _ _ _ _ (carry_out plan b)
        (λ report b' ((d, g, k, w), o). (
          (d, k, moved report b' d g o),
          started b'.objects (record {
            done = all_keys;
            todo = [];
            splits = sym (append_nil all_keys);
            objects = o;
          }),
        ))
        (λ b' stopped. started b'.objects stopped) ((carry_out-Deletes plan refl).run b)
    where
      plan : PruneReport
      plan = planned false decision (garbage_of live keys)

      all_keys : List Text
      all_keys = manifest_keys (ids decision.pruned) ++ map blob_key (garbage_of live keys)

      moved :
          (report : PruneReport) (b' : Backend)
          → report.deleted_snapshots ≡ ids decision.pruned
          → report.deleted_blobs ≡ garbage_of live keys
          → b'.objects ≡ remove_keys all_keys b.objects
          → b'.objects ≡ remove_keys (deleted_keys report) before
      moved report b' d g o = rw d (rw g (rw (sym e) o))

      started :
          (after : Objects) → Stopped all_keys b.objects after → Progress decision before after
      started after stopped = record {
        live = live;
        garbage = garbage_of live keys;
        dead = λ h m. Has-garbage_of h live keys m;
        covers = inr covers;
        stopped = subst (λ o. Stopped all_keys o after) e stopped;
      }

  pub sweep_ends :
      (decision : RetentionDecision) (b : Backend)
      → Ended decision b.objects (mark_and_sweep repo false decision b)
  unfolding mark_and_sweep Ended
  sweep_ends decision b =
      Ends-bind _ _ _ (live_hashes repo decision.kept []) listed b
        (Ends-weaken _ _ _ _ (live_hashes repo decision.kept [] b) (λ live b1 q. q)
          (λ b1 e. not_started decision b.objects b1.objects e)
          ((live_hashes-Reads b.objects repo decision.kept).run b refl))
        (λ live b1 (covers, e1).
          Ends-bind _ _ _ (list (bytes "blobs")) (swept live) b1
            (Ends-weaken _ _ _ _ (list (bytes "blobs") b1) (λ keys b2 q. q)
              (λ b2 e. not_started decision b.objects b2.objects e)
              ((list-Reads b.objects (bytes "blobs")).run b1 e1))
            (λ keys b2 (_, e2). plan_ends decision live keys b.objects b2 covers e2))
    where
      swept : List Text → List Text → Action Backend PruneReport
      swept live keys = carry_out (planned false decision (garbage_of live keys))

      listed : List Text → Action Backend PruneReport
      listed live = list (bytes "blobs") >>= swept live
