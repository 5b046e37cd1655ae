-- ===== src/Replication/Steps.antt =====
-- replication.rs: how one method call of either backend ends.
use server_backup.Common.{ℕ, ◌+◌, ◌≡◌, refl, sym, ap, ◌∙◌, subst, none, some, List, [], ◌∷◌, arith}
use server_backup.Common.Texts.{Text, Bytes}
use server_backup.Common.Errors.{Result, ok}
use server_backup.Common.Actions.{Action, Ends, returned, failed, Ends-bind, Ends-weaken, ◌>>◌}
use server_backup.Backend.{
  Backend, Objects, lookup, store, keys_under, is_some, get, put, exists, list,
}
use server_backup.Backend.Laws.{Outcome, get-Outcome, put-Outcome, exists_Outcome, list-Outcome}
use server_backup.Replication.{
  ReplicateMode, ReplicateStats, Pair, on_source, on_target, copied_one, skipped_one, copy_absent,
}
use server_backup.Replication.Expected.{
  expected, total, Holds, Updated, stored-Updated, kept-Updated, Partial, Partial-refl,
}

module _ {A : Type 0} (Q : A → Type 0) (p : Pair) where
  -- A method of the source, seen in the pair.
  source-Ends :
      (m : Action Backend A) (after : Objects)
      → Outcome Q p.source.objects after (m p.source)
      → Ends
          (λ a q. Q a × (q.source.objects ≡ after) × (q.target.objects ≡ p.target.objects))
          (λ q. (q.source.objects ≡ p.source.objects) × (q.target.objects ≡ p.target.objects))
          (on_source m p)
  source-Ends m after (returned a b h (q, o)) =
      returned a _
        (ap (λ (r : Result A × Backend). (r.0, record { source = r.1; target = p.target })) h)
        (q, o, refl)
  source-Ends m after (failed e b h o) =
      failed e _
        (ap (λ (r : Result A × Backend). (r.0, record { source = r.1; target = p.target })) h)
        (o, refl)

  target-Ends :
      (m : Action Backend A) (after : Objects)
      → Outcome Q p.target.objects after (m p.target)
      → Ends
          (λ a q. Q a × (q.source.objects ≡ p.source.objects) × (q.target.objects ≡ after))
          (λ q. (q.source.objects ≡ p.source.objects) × (q.target.objects ≡ p.target.objects))
          (on_target m p)
  target-Ends m after (returned a b h (q, o)) =
      returned a _
        (ap (λ (r : Result A × Backend). (r.0, record { source = p.source; target = r.1 })) h)
        (q, refl, o)
  target-Ends m after (failed e b h o) =
      failed e _
        (ap (λ (r : Result A × Backend). (r.0, record { source = p.source; target = r.1 })) h)
        (refl, o)

module _ (mode : ReplicateMode) where
  -- How a step over `keys` ends, from the objects `s` and `t`: with `n` more objects counted.
  unfoldable pub Stepped : List Text → Objects → Objects → ℕ → ReplicateStats → Pair → Type 0
  Stepped keys s t n stats q =
      (q.source.objects ≡ s) × Updated mode keys s t q.target.objects × (total stats ≡ n)

  unfoldable pub Stopped : Objects → Objects → Pair → Type 0
  Stopped s t q = (q.source.objects ≡ s) × Partial mode s t q.target.objects

  module _ (p : Pair) (s t : Objects) (holds : Holds s t p) where
    stop :
        (q : Pair)
        → (q.source.objects ≡ p.source.objects) × (q.target.objects ≡ p.target.objects)
        → Stopped s t q
    unfolding Stopped
    stop q (a, b) = (a ∙ holds.0, Partial-refl mode s t q.target.objects (b ∙ holds.1))

    pub source_get :
        (key : Text)
        → Ends (λ v q. (lookup key s ≡ some v) × Holds s t q) (Stopped s t) (on_source (get key) p)
    source_get key =
        Ends-weaken _ _ _ _ _
          (λ v q (found, o, o').
            (ap (lookup key) (sym holds.0) ∙ found, (o ∙ holds.0, o' ∙ holds.1)))
          stop (source-Ends _ p (get key) p.source.objects (get-Outcome p.source key))

    pub source_list :
        (prefix : Text)
        → Ends
            (λ keys q. (keys ≡ keys_under prefix s) × Holds s t q)
            (Stopped s t)
            (on_source (list prefix) p)
    source_list prefix =
        Ends-weaken _ _ _ _ _
          (λ v q (found, o, o').
            (found ∙ ap (keys_under prefix) holds.0, (o ∙ holds.0, o' ∙ holds.1)))
          stop (source-Ends _ p (list prefix) p.source.objects (list-Outcome p.source prefix))

    pub target_get :
        (key : Text)
        → Ends (λ v q. (lookup key t ≡ some v) × Holds s t q) (Stopped s t) (on_target (get key) p)
    target_get key =
        Ends-weaken _ _ _ _ _
          (λ v q (found, o, o').
            (ap (lookup key) (sym holds.1) ∙ found, (o ∙ holds.0, o' ∙ holds.1)))
          stop (target-Ends _ p (get key) p.target.objects (get-Outcome p.target key))

    pub target_exists :
        (key : Text)
        → Ends
            (λ there q. (there ≡ is_some (lookup key t)) × Holds s t q)
            (Stopped s t)
            (on_target (exists key) p)
    target_exists key =
        Ends-weaken _ _ _ _ _
          (λ v q (found, o, o').
            (found ∙ ap (λ m. is_some (lookup key m)) holds.1, (o ∙ holds.0, o' ∙ holds.1)))
          stop (target-Ends _ p (exists key) p.target.objects (exists_Outcome p.target key))

    pub target_put :
        (key : Text) (v : Bytes)
        → Ends
            (λ (u : Unit {0}) q. Holds s (store key v t) q)
            (Stopped s t)
            (on_target (put key v) p)
    target_put key v =
        Ends-weaken _ _ _ _ _ (λ u q (_, o, o'). (o ∙ holds.0, o' ∙ ap (store key v) holds.1)) stop
          (target-Ends _ p (put key v) (store key v p.target.objects) (put-Outcome p.target key v))

  module _ (key : Text) (stats : ReplicateStats) (s t : Objects) where
    -- A step that copies `v` and counts it.
    pub put_counted :
        (next : ReplicateStats) (v : Bytes) (p : Pair)
        → Holds s t p
        → lookup key s ≡ some v
        → expected mode (lookup key t) (lookup key s) ≡ some v
        → total next ≡ total stats + 1
        → Ends
            (Stepped (key ∷ []) s t (total stats + 1))
            (Stopped s t)
            ((on_target (put key v) >> λ q. (ok next, q)) p)
    unfolding Stepped
    put_counted next v p holds found e n =
        Ends-bind _ _ _ (on_target (put key v)) _ p (target_put p s t holds key v) λ u q (o, o').
          returned next q refl (
            o,
            subst (Updated mode (key ∷ []) s t) (sym o') (stored-Updated mode s t key v found e),
            n,
          )

    pub keep_counted :
        (p : Pair)
        → Holds s t p
        → expected mode (lookup key t) (lookup key s) ≡ lookup key t
        → Stepped (key ∷ []) s t (total stats + 1) (skipped_one stats) p
    unfolding Stepped
    keep_counted p (o, o') e =
        (o, subst (Updated mode (key ∷ []) s t) (sym o') (kept-Updated mode s t key e), omega arith)

    pub copy_absent-Ends :
        (p : Pair)
        → Holds s t p
        → lookup key t ≡ none
        → Ends (Stepped (key ∷ []) s t (total stats + 1)) (Stopped s t) (copy_absent key stats p)
    unfolding copy_absent
    copy_absent-Ends p holds e =
        Ends-bind _ _ _ (on_source (get key)) _ p (source_get p s t holds key) λ v q (found, h).
          put_counted (copied_one stats) v q h found (absent v found) (omega arith)
      where
        absent :
            (v : Bytes)
            → lookup key s ≡ some v
            → expected mode (lookup key t) (lookup key s) ≡ some v
        absent v found = ground arith
