-- ===== src/Replication/Quiet.antt =====
-- replication.rs: a run on backends that answer every call comes to its end.
use server_backup.Common.{
  ◌≡◌, refl, sym, subst, ◌⊎◌, inl, inr, none, some, List, [], ◌∷◌, if◌then◌else◌, Bool-cases,
  Option-cases, All,
}
use server_backup.Common.Texts.{Text, Bytes, text_eq, text_eq_refl}
use server_backup.Common.Errors.{Result, ok}
use server_backup.Common.Actions.{Action, continue, ◌>>=◌}
use server_backup.Backend.{
  Backend, Objects, lookup, store, keys_under, is_under, is_some, attempt, get, put, exists, list,
}
use server_backup.Replication.{
  ReplicateMode, mirror, repair, ReplicateStats, Pair, repo_prefixes, config_key, get_config,
  copied_one, skipped_one, repaired_one, no_stats, copy_config, copy_absent, copy_present, copy_key,
  copy_keys, copy_prefixes, replicate,
}

abbrev pub backend_of : Objects → Backend
backend_of o = record { objects = o; faults = [] }

-- Two backends that answer every call.
abbrev pub quiet : Objects → Objects → Pair
quiet s t = record { source = backend_of s; target = backend_of t }

-- The run returns, and the backends still answer every call.
pub record Completes (s : Objects) (r : Result ReplicateStats × Pair) : Type 0 where
  pub stats : ReplicateStats
  pub target : Objects
  pub returns : r ≡ (ok stats, quiet s target)

module _ (s : Objects) where
  Completes-bind :
      (m : Action Pair ReplicateStats) (f : ReplicateStats → Action Pair ReplicateStats) (p : Pair)
      → Completes s (m p)
      → ((stats : ReplicateStats) (t : Objects) → Completes s (f stats (quiet s t)))
      → Completes s ((m >>= f) p)
  Completes-bind m f p c k =
      subst (λ (r : Result ReplicateStats × Pair). Completes s (continue f r.0 r.1)) (sym c.returns)
        (k c.stats c.target)

  done : (stats : ReplicateStats) (t : Objects) → Completes s (ok stats, quiet s t)
  done stats t = record { stats = stats; target = t; returns = refl }

  module _ (key : Text) (v : Bytes) (found : lookup key s ≡ some v) (stats : ReplicateStats)
      (t : Objects) where
    copy_absent_completes : Completes s (copy_absent key stats (quiet s t))
    unfolding copy_absent get put attempt
    copy_absent_completes = rw found (done (copied_one stats) (store key v t))

    copy_present_completes :
        (mode : ReplicateMode) (w : Bytes)
        → lookup key t ≡ some w
        → Completes s (copy_present mode key stats (quiet s t))
    unfolding copy_present get put attempt
    copy_present_completes mirror w there = done (skipped_one stats) t
    copy_present_completes repair w there = elim (Bool-cases (text_eq w v)) [
      | inl y ↦ rw (found, there, y) (done (skipped_one stats) t)
      | inr n ↦ rw (found, there, n) (done (repaired_one stats) (store key v t))
    ]

    copy_key_completes : (mode : ReplicateMode) → Completes s (copy_key mode key stats (quiet s t))
    unfolding copy_key exists attempt is_some
    copy_key_completes mode = elim (Option-cases (lookup key t)) [
      | inl e ↦ rw e copy_absent_completes
      | inr (w, e) ↦ rw e (copy_present_completes mode w e)
    ]

  Present : List Text → Type 0
  Present keys = All (λ k. (v : Bytes) × (lookup k s ≡ some v)) keys

  copy_keys_complete :
      (mode : ReplicateMode) (keys : List Text) (stats : ReplicateStats) (t : Objects)
      → Present keys
      → Completes s (copy_keys mode keys stats (quiet s t))
  unfolding copy_keys Present
  copy_keys_complete mode [] stats t h = done stats t
  copy_keys_complete mode (key ∷ keys) stats t h =
      Completes-bind (copy_key mode key stats) (copy_keys mode keys) (quiet s t)
        (copy_key_completes key h.0.0 h.0.1 stats t mode)
        λ next t'. copy_keys_complete mode keys next t' h.1

Present-later :
    (k : Text) (v : Bytes) (s : Objects) (keys : List Text)
    → Present s keys
    → Present ((k, v) ∷ s) keys
unfolding Present lookup
Present-later k v s [] h = tt
Present-later k v s (j ∷ keys) h = (here, Present-later k v s keys h.1)
  where
    here : (w : Bytes) × ((if text_eq j k then some v else lookup j s) ≡ some w)
    here = elim (Bool-cases (text_eq j k)) [ inl y ↦ (v, rw y) | inr n ↦ (h.0.0, rw n h.0.1) ]

Present-keys_under : (prefix : Text) (s : Objects) → Present s (keys_under prefix s)
unfolding keys_under
Present-keys_under prefix [] = unfold Present in tt
Present-keys_under prefix ((k, v) ∷ s) = elim (Bool-cases (is_under prefix k)) [
  | inl y ↦ rw y (first (Present-later k v s (keys_under prefix s) (Present-keys_under prefix s)))
  | inr n ↦ rw n (Present-later k v s (keys_under prefix s) (Present-keys_under prefix s))
]
  where
    first :
        Present ((k, v) ∷ s) (keys_under prefix s) → Present ((k, v) ∷ s) (k ∷ keys_under prefix s)
    first h = unfold Present lookup in ((v, rw (text_eq_refl k)), h)

copy_prefixes_complete :
    (mode : ReplicateMode) (s : Objects) (prefixes : List Text) (stats : ReplicateStats)
    (t : Objects)
    → Completes s (copy_prefixes mode prefixes stats (quiet s t))
unfolding copy_prefixes list attempt
copy_prefixes_complete mode s [] stats t = done s stats t
copy_prefixes_complete mode s (prefix ∷ prefixes) stats t =
    Completes-bind s (copy_keys mode (keys_under prefix s) stats) (copy_prefixes mode prefixes)
      (quiet s t)
      (copy_keys_complete s mode (keys_under prefix s) stats t (Present-keys_under prefix s))
      λ next t'. copy_prefixes_complete mode s prefixes next t'

-- On backends that answer every call, a run returns if the source has a configuration and the
-- target has none or the same.
pub replicate-Completes :
    (mode : ReplicateMode) (s t : Objects) (config : Bytes)
    → lookup config_key s ≡ some config
    → (lookup config_key t ≡ none) ⊎ (lookup config_key t ≡ some config)
    → Completes s (replicate mode (quiet s t))
unfolding replicate
replicate-Completes mode s t config found there =
    Completes-bind s copy_config (copy_prefixes mode repo_prefixes) (quiet s t) (start there)
      λ stats t'. copy_prefixes_complete mode s repo_prefixes stats t'
  where
    start :
        (lookup config_key t ≡ none) ⊎ (lookup config_key t ≡ some config)
        → Completes s (copy_config (quiet s t))
    start (inl e) =
        unfold copy_config get_config get put exists attempt is_some in
        rw (found, e) (done s (copied_one no_stats) (store config_key config t))
    start (inr e) =
        unfold copy_config get_config get put exists attempt is_some in
        rw (found, e, e, text_eq_refl config) (done s (skipped_one no_stats) t)
