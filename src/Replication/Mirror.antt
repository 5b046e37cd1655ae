-- ===== src/Replication/Mirror.antt =====
-- replication.rs: what the target holds when a run has returned, and when it has failed.
use server_backup.Common.{
  ℕ, suc, ◌+◌, ◌≡◌, refl, ap, subst, inl, inr, Bool, true, false, Option, none, some, List, [], ◌∷◌,
  ◌++◌, arith, if◌then◌else◌, length, length-append, Bool-cases,
}
use server_backup.Common.Texts.{Text, Bytes, text_eq, text_eq_sound, contains}
use server_backup.Common.Errors.{Result, malformed_blob}
use server_backup.Common.Actions.{
  Action, Ends, returned, failed, Ends-bind, Ends-weaken, ◌>>=◌, ◌>>◌, map_error, pure, throw,
}
use server_backup.Backend.{Objects, lookup, keys_under, is_some, get, put, exists, list}
use server_backup.Replication.{
  ReplicateMode, ReplicateStats, Pair, on_source, on_target, repo_prefixes, config_key, get_config,
  copied_one, skipped_one, no_stats, copy_config, copy_key, copy_keys, copy_prefixes, replicate,
}
use server_backup.Replication.Expected.{
  expected, total, Holds, Updated, Updated-append, Partial, Partial-refl, Updated-Partial,
  Partial-trans,
}
use server_backup.Replication.Steps.{
  Stepped, Stopped, put_counted, keep_counted, source_get, source_list, target_get, target_exists,
}
use server_backup.Replication.Keys.{copy_key-Ends}

unfoldable pub repo_keys_of : List Text → Objects → List Text
repo_keys_of [] s = []
repo_keys_of (prefix ∷ prefixes) s = keys_under prefix s ++ repo_keys_of prefixes s

module _ (mode : ReplicateMode) where
  -- A later part of the run, from the objects that an earlier part left.
  extend :
      (xs ys : List Text) (s t : Objects) (n : ℕ) (q : Pair) (r : Result ReplicateStats × Pair)
      → q.source.objects ≡ s
      → Updated mode xs s t q.target.objects
      → Ends (Stepped mode ys s q.target.objects n) (Stopped mode s q.target.objects) r
      → Ends (Stepped mode (xs ++ ys) s t n) (Stopped mode s t) r
  unfolding Stepped Stopped
  extend xs ys s t n q r o u =
      Ends-weaken _ _ _ _ r
        (λ stats q' (o', u', c).
          (o', Updated-append mode s xs ys t q.target.objects q'.target.objects u u', c))
        (λ q' (o', p). (
          o',
          Partial-trans mode s t q.target.objects q'.target.objects
              (Updated-Partial mode s xs t q.target.objects u) p,
        ))

  source_kept :
      (keys : List Text) (s t : Objects) (n : ℕ) (next : ReplicateStats) (q : Pair)
      → Stepped mode keys s t n next q
      → q.source.objects ≡ s
  unfolding Stepped
  source_kept keys s t n next q h = h.0

  updated :
      (keys : List Text) (s t : Objects) (n : ℕ) (next : ReplicateStats) (q : Pair)
      → Stepped mode keys s t n next q
      → Updated mode keys s t q.target.objects
  unfolding Stepped
  updated keys s t n next q h = h.1

  nothing :
      (stats : ReplicateStats) (s t : Objects) (p : Pair)
      → Holds s t p
      → Stepped mode [] s t (total stats + 0) stats p
  unfolding Stepped contains
  nothing stats s t p (o, o') = (o, λ j. ap (lookup j) o', omega arith)

  recount :
      (n m : ℕ) (keys : List Text) (s t : Objects) (r : Result ReplicateStats × Pair)
      → n ≡ m
      → Ends (Stepped mode keys s t n) (Stopped mode s t) r
      → Ends (Stepped mode keys s t m) (Stopped mode s t) r
  recount n m keys s t r e h = subst (λ k. Ends (Stepped mode keys s t k) (Stopped mode s t) r) e h

  copy_keys-Ends :
      (keys : List Text) (stats : ReplicateStats) (s t : Objects) (p : Pair)
      → Holds s t p
      → Ends
          (Stepped mode keys s t (total stats + length keys))
          (Stopped mode s t)
          (copy_keys mode keys stats p)
  unfolding copy_keys
  copy_keys-Ends [] stats s t p holds = returned stats p refl (nothing stats s t p holds)
  copy_keys-Ends (key ∷ keys) stats s t p holds =
      Ends-bind _ _ _ (copy_key mode key stats) _ p (copy_key-Ends key stats s t mode p holds)
        λ next q h. recount (total next + length keys) _ (key ∷ keys) s t _ (counted next q h) (
          extend (key ∷ []) keys s t _ q _ (source_kept _ s t _ next q h) (updated _ s t _ next q h)
            (copy_keys-Ends keys next s q.target.objects q (source_kept _ s t _ next q h, refl)))
    where
      counted :
          (next : ReplicateStats) (q : Pair)
          → Stepped mode (key ∷ []) s t (total stats + 1) next q
          → total next + length keys ≡ total stats + suc (length keys)
      counted next q h = unfold Stepped in omega (arith, h.2)

  copy_prefixes-Ends :
      (prefixes : List Text) (stats : ReplicateStats) (s t : Objects) (p : Pair)
      → Holds s t p
      → Ends
          (Stepped mode
            (repo_keys_of prefixes s)
            s
            t
            (total stats + length (repo_keys_of prefixes s)))
          (Stopped mode s t)
          (copy_prefixes mode prefixes stats p)
  unfolding copy_prefixes repo_keys_of
  copy_prefixes-Ends [] stats s t p holds = returned stats p refl (nothing stats s t p holds)
  copy_prefixes-Ends (prefix ∷ prefixes) stats s t p holds =
      let later = repo_keys_of prefixes s in
      Ends-bind _ _ _ (on_source (list prefix)) _ p (source_list mode p s t holds prefix)
        λ keys q (listed, h).
          Ends-bind _ _ _ (copy_keys mode keys stats) _ q (copy_keys-Ends keys stats s t q h)
            λ next q' k.
              subst
                (λ ks.
                  Ends (Stepped mode (ks ++ later) s t (total stats + length (ks ++ later)))
                    (Stopped mode s t) (copy_prefixes mode prefixes next q'))
                listed
                (recount (total next + length later) _ (keys ++ later) s t _
                  (counted keys next q' k)
                  (extend keys later s t _ q' _ (source_kept _ s t _ next q' k)
                    (updated _ s t _ next q' k)
                    (copy_prefixes-Ends prefixes next s q'.target.objects q'
                      (source_kept _ s t _ next q' k, refl))))
    where
      counted :
          (keys : List Text) (next : ReplicateStats) (q : Pair)
          → Stepped mode keys s t (total stats + length keys) next q
          → total next + length (repo_keys_of prefixes s)
            ≡ total stats + length (keys ++ repo_keys_of prefixes s)
      counted keys next q h =
          unfold Stepped in omega (arith, h.2, length-append keys (repo_keys_of prefixes s))

module _ (mode : ReplicateMode) (s t : Objects) where
  config_same :
      (v w : Bytes) (p : Pair)
      → Holds s t p
      → lookup config_key s ≡ some v
      → lookup config_key t ≡ some w
      → Ends (Stepped mode (config_key ∷ []) s t 1) (Stopped mode s t) (
          if◌then◌else◌ {A = Action Pair ReplicateStats}
            (text_eq w v)
            (pure (skipped_one no_stats))
            (throw malformed_blob)
            p)
  config_same v w p holds found there = elim (Bool-cases (text_eq w v)) [
    | inl y ↦ rw y (
        returned (skipped_one no_stats) p refl
          (keep_counted mode config_key no_stats s t p holds (level (text_eq_sound w v y))))
    | inr n ↦ rw n (failed malformed_blob p refl (halt p holds))
  ]
    where
      level :
          w ≡ v → expected mode (lookup config_key t) (lookup config_key s) ≡ lookup config_key t
      level e = ground arith

      halt : (p : Pair) → Holds s t p → Stopped mode s t p
      halt q (o, o') = unfold Stopped in (o, Partial-refl mode s t q.target.objects o')

  config_read :
      (p : Pair)
      → Holds s t p
      → Ends (λ v q. (lookup config_key s ≡ some v) × Holds s t q) (Stopped mode s t) (get_config p)
  unfolding get_config
  config_read p holds = go (on_source (get config_key) p) (source_get mode p s t holds config_key)
    where
      go :
          (r : Result Bytes × Pair)
          → Ends (λ v q. (lookup config_key s ≡ some v) × Holds s t q) (Stopped mode s t) r
          → Ends
              (λ v q. (lookup config_key s ≡ some v) × Holds s t q)
              (Stopped mode s t)
              (map_error (λ e. malformed_blob) r.0, r.1)
      go r (returned v q h k) =
          returned v q
            (ap (λ (x : Result Bytes × Pair). (map_error (λ e. malformed_blob) x.0, x.1)) h) k
      go r (failed e q h k) =
          failed malformed_blob q
            (ap (λ (x : Result Bytes × Pair). (map_error (λ e. malformed_blob) x.0, x.1)) h) k

  copy_config-Ends :
      (p : Pair)
      → Holds s t p
      → Ends (Stepped mode (config_key ∷ []) s t 1) (Stopped mode s t) (copy_config p)
  unfolding copy_config
  copy_config-Ends p holds = Ends-bind _ _ _ get_config _ p (config_read p holds) λ v q (found, h).
      Ends-bind _ _ _ (on_target (exists config_key)) _ q (target_exists mode q s t h config_key)
        λ there q' (e, h'). branch v there q' found e h'
    where
      missing : (o : Option Bytes) → false ≡ is_some o → o ≡ none
      missing none e = refl
      missing (some v) e = absurd (unfold is_some in cc)

      branch :
          (v : Bytes) (there : Bool) (q : Pair)
          → lookup config_key s ≡ some v
          → there ≡ is_some (lookup config_key t)
          → Holds s t q
          → Ends (Stepped mode (config_key ∷ []) s t 1) (Stopped mode s t) (
              if◌then◌else◌ {A = Action Pair ReplicateStats} there
                (do
                  existing ← on_target (get config_key)
                  if text_eq existing v then pure (skipped_one no_stats) else throw malformed_blob)
                (do on_target (put config_key v); pure (copied_one no_stats))
                q)
      branch v true q found e h =
          Ends-bind _ _ _ (on_target (get config_key)) _ q (target_get mode q s t h config_key)
            λ w q' (there, h'). config_same v w q' h' found there
      branch v false q found e h =
          put_counted mode config_key no_stats s t (copied_one no_stats) v q h found
            (absent (missing (lookup config_key t) e)) (omega arith)
        where
          absent :
              lookup config_key t ≡ none
              → expected mode (lookup config_key t) (lookup config_key s) ≡ some v
          absent e = ground arith

-- The keys that make up a repository: its configuration, and all below the four prefixes.
abbrev pub repo_keys : Objects → List Text
repo_keys s = config_key ∷ repo_keys_of repo_prefixes s

-- A run that returns has put what is expected under every key of the source's repository and
-- changed no other key of the target, and its three counts add up to the number of those keys. A
-- run that fails has left under each key of the target what was there or what is expected. The
-- source stays as it was.
pub replicate_lem :
    (mode : ReplicateMode) (p : Pair)
    → Ends
        (λ stats q.
          (q.source.objects ≡ p.source.objects)
          × Updated mode
              (repo_keys p.source.objects)
              p.source.objects
              p.target.objects
              q.target.objects
          × (stats.copied + stats.skipped + stats.repaired ≡ length (repo_keys p.source.objects)))
        (λ q.
          (q.source.objects ≡ p.source.objects)
          × Partial mode p.source.objects p.target.objects q.target.objects)
        (replicate mode p)
unfolding replicate
replicate_lem mode p =
    let s = p.source.objects in
    let t = p.target.objects in
    let prefix_keys = repo_keys_of repo_prefixes s in
    Ends-weaken (Stepped mode (repo_keys s) s t (length (repo_keys s))) _ (Stopped mode s t) _
      (replicate mode p) (λ stats q h. unfold Stepped in h) (λ q h. unfold Stopped in h)
      (Ends-bind _ _ _ copy_config _ p (copy_config-Ends mode s t p (refl, refl)) λ next q h.
        recount mode (total next + length prefix_keys) _ (config_key ∷ prefix_keys) s t _
          (counted next q h)
          (extend mode (config_key ∷ []) prefix_keys s t _ q _ (source_kept mode _ s t _ next q h)
            (updated mode _ s t _ next q h)
            (copy_prefixes-Ends mode repo_prefixes next s q.target.objects q
              (source_kept mode _ s t _ next q h, refl))))
  where
    counted :
        (next : ReplicateStats) (q : Pair)
        → Stepped mode (config_key ∷ []) p.source.objects p.target.objects 1 next q
        → total next + length (repo_keys_of repo_prefixes p.source.objects)
          ≡ length (repo_keys p.source.objects)
    counted next q h = unfold Stepped in omega (arith, h.2)
