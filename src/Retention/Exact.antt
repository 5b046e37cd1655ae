-- ===== src/Retention/Exact.antt =====
-- retention.rs: the loops of `apply_policy` against a description of each kept snapshot by the
-- snapshots that are newer than it.
use server_backup.Common.{
  ℕ, ◌+◌, ◌≤◌, ◌<◌, ◌≡◌, refl, Bool, false, not, ◌&&◌, ◌||◌, Option, none, some, List, [], ◌∷◌,
  ◌++◌, arith, ltb, if◌then◌else◌, length, subst,
}
use native.Mathlib.Nat.{le_trans}
use server_backup.Common.Texts.{Text, contains}
use server_backup.Snapshot.{Snapshot}
use server_backup.Retention.{Walk, visit, walk}

-- The distinct buckets of a list of snapshots, beside those of `seen`.
unfoldable pub add_bucket : Option Text → List Text → List Text
add_bucket none seen = seen
add_bucket (some key) seen = if contains seen key then seen else key ∷ seen

unfoldable pub buckets : (Text → Option Text) → List Snapshot → List Text → List Text
unfolding add_bucket
buckets key_of [] seen = seen
buckets key_of (s ∷ rest) seen = buckets key_of rest (add_bucket (key_of s.time) seen)

-- The rule `limit`, `key_of` picks a snapshot with bucket `key`, behind those whose buckets are
-- `seen`: its bucket is new, and fewer than `limit` came before.
unfoldable pub picks : ℕ → List Text → Option Text → Bool
picks limit seen none = false
picks limit seen (some key) = not (contains seen key) && ltb (length seen) limit

visit_other : (i j : ℕ) (k : Option Text) (w : Walk) → j < i → (visit i k w).kept j ≡ w.kept j
unfolding visit
visit_other i j none w h = refl
visit_other i j (some key) w h = ground arith

visit_counts :
    (i : ℕ) (k : Option Text) (w : Walk)
    → w.used ≡ length w.seen
    → (visit i k w).used ≡ length (visit i k w).seen
unfolding visit
visit_counts i none w h = h
visit_counts i (some key) w h = ground arith

-- A visited snapshot is kept exactly when its bucket is new.
visit_self :
    (i : ℕ) (k : Option Text) (w : Walk) (limit : ℕ)
    → length w.seen < limit
    → (visit i k w).kept i ≡ (w.kept i || picks limit w.seen k)
unfolding visit picks
visit_self i none w limit h = ground arith
visit_self i (some key) w limit h = ground arith

module _ (limit : ℕ) (key_of : Text → Option Text) where
  walk_before :
      (i j : ℕ) (xs : List Snapshot) (w : Walk)
      → j < i
      → (walk limit key_of i xs w).kept j ≡ w.kept j
  unfolding walk
  walk_before i j [] w h = refl
  walk_before i j (s ∷ xs) w h =
      let w' = visit i (key_of s.time) w in
      ground (arith, walk_before (i + 1) j xs w', visit_other i j (key_of s.time) w)

  length-add_bucket :
      (k : Option Text) (seen : List Text) → length seen ≤ length (add_bucket k seen)
  unfolding add_bucket
  length-add_bucket none seen = omega arith
  length-add_bucket (some key) seen = ground arith

  pub length-buckets :
      (xs : List Snapshot) (seen : List Text) → length seen ≤ length (buckets key_of xs seen)
  unfolding buckets
  length-buckets [] seen = omega arith
  length-buckets (s ∷ xs) seen =
      le_trans (length-add_bucket (key_of s.time) seen)
        (length-buckets xs (add_bucket (key_of s.time) seen))

  picks_full :
      (seen : List Text) (k : Option Text) → limit ≤ length seen → picks limit seen k ≡ false
  unfolding picks
  picks_full seen none h = refl
  picks_full seen (some key) h = ground arith

  walk_full :
      (i : ℕ) (xs : List Snapshot) (w : Walk) → limit ≤ w.used → walk limit key_of i xs w ≡ w
  unfolding walk
  walk_full i [] w h = refl
  walk_full i (s ∷ xs) w h = ground arith

  visit_seen : (i : ℕ) (k : Option Text) (w : Walk) → (visit i k w).seen ≡ add_bucket k w.seen
  unfolding visit add_bucket
  visit_seen i none w = refl
  visit_seen i (some key) w = ground arith

  -- The walk keeps the snapshot behind `pre` exactly when the rule picks it.
  pub kept-walk :
      (i j : ℕ) (pre : List Snapshot) (s : Snapshot) (post : List Snapshot) (w : Walk)
      → i + length pre ≡ j
      → w.used ≡ length w.seen
      → (walk limit key_of i (pre ++ s ∷ post) w).kept j
        ≡ (w.kept j || picks limit (buckets key_of pre w.seen) (key_of s.time))
  unfolding walk buckets
  kept-walk i j [] s post w e h =
      let w' = visit i (key_of s.time) w in
      let same : i ≡ j = omega arith in
      subst
        (λ n.
          (walk limit key_of i (s ∷ post) w).kept n
          ≡ (w.kept n || picks limit w.seen (key_of s.time)))
        same
        (ground (
          arith,
          walk_before (i + 1) i post w',
          visit_self i (key_of s.time) w limit,
          picks_full w.seen (key_of s.time),
        ))
  kept-walk i j (p ∷ pre) s post w e h =
      let w' = visit i (key_of p.time) w in
      ground (
        arith,
        kept-walk (i + 1) j pre s post w' (omega arith) (visit_counts i (key_of p.time) w h),
        visit_other i j (key_of p.time) w,
        visit_seen i (key_of p.time) w,
        picks_full (buckets key_of pre (add_bucket (key_of p.time) w.seen)) (key_of s.time),
        length-buckets pre (add_bucket (key_of p.time) w.seen),
        length-add_bucket (key_of p.time) w.seen,
      )
