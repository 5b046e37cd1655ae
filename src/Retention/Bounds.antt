-- ===== src/Retention/Bounds.antt =====
-- retention.rs: how many snapshots a policy can keep.
use server_backup.Common.{
  ℕ, zero, suc, ◌+◌, ◌≤◌, ◌<◌, ◌≡◌, refl, ap, Bool, Option, none, some, List, [], ◌∷◌, arith,
  if◌then◌else◌, length, ◌∙◌, sort_by, insert_by,
}
use server_backup.Common.Texts.{Text}
use server_backup.Snapshot.{Snapshot}
use server_backup.Retention.{
  RetentionPolicy, Indices, no_indices, insert_index, Walk, visit, walk, keep_buckets, keep_first,
  keep_unparsed, is_none, keep_newest, last_count, kept_indices, sorted_newest_first, select,
  apply_policy,
}
use server_backup.Retention.Clock.{DateTime, newest_first, day_key, week_key, month_key}

abbrev count : Indices → ℕ → List Snapshot → ℕ
count p i xs = length (select p i xs)

select-insert_index_past :
    (k : ℕ) (p : Indices) (i : ℕ) (xs : List Snapshot)
    → k < i
    → count (insert_index k p) i xs ≡ count p i xs
unfolding select
select-insert_index_past k p i [] h = refl
select-insert_index_past k p i (x ∷ xs) h = ground (arith, select-insert_index_past k p (i + 1) xs)

count-insert_index :
    (k : ℕ) (p : Indices) (i : ℕ) (xs : List Snapshot)
    → count (insert_index k p) i xs ≤ count p i xs + 1
unfolding select
count-insert_index k p i [] = omega arith
count-insert_index k p i (x ∷ xs) =
    ground (arith, count-insert_index k p (i + 1) xs, select-insert_index_past k p (i + 1) xs)

count-no_indices : (i : ℕ) (xs : List Snapshot) → count no_indices i xs ≡ 0
unfolding select
count-no_indices i [] = refl
count-no_indices i (x ∷ xs) = count-no_indices (i + 1) xs

-- The snapshots whose time cannot be read.
unfoldable pub unparsed : (Text → Option DateTime) → List Snapshot → ℕ
unparsed parse_utc [] = 0
unparsed parse_utc (s ∷ xs) =
    if is_none (parse_utc s.time) then suc (unparsed parse_utc xs) else unparsed parse_utc xs

module _ (parse_utc : Text → Option DateTime) (le : Snapshot → Snapshot → Bool) where
  unparsed-insert_by :
      (s : Snapshot) (xs : List Snapshot)
      → unparsed parse_utc (insert_by le s xs) ≡ unparsed parse_utc (s ∷ xs)
  unfolding unparsed insert_by
  unparsed-insert_by s [] = refl
  unparsed-insert_by s (x ∷ xs) = ground (arith, unparsed-insert_by s xs)

  unparsed-cons :
      (x : Snapshot) (xs ys : List Snapshot)
      → unparsed parse_utc xs ≡ unparsed parse_utc ys
      → unparsed parse_utc (x ∷ xs) ≡ unparsed parse_utc (x ∷ ys)
  unfolding unparsed
  unparsed-cons x xs ys e = ap (λ n. if is_none (parse_utc x.time) then suc n else n) e

  unparsed-sort_by :
      (xs : List Snapshot) → unparsed parse_utc (sort_by le xs) ≡ unparsed parse_utc xs
  unfolding sort_by
  unparsed-sort_by [] = refl
  unparsed-sort_by (x ∷ xs) =
      unparsed-insert_by x (sort_by le xs)
      ∙ unparsed-cons x (sort_by le xs) xs (unparsed-sort_by xs)

module _ (ys : List Snapshot) where
  count-keep_first : (n : ℕ) (p : Indices) → count (keep_first n p) 0 ys ≤ count p 0 ys + n
  unfolding keep_first
  count-keep_first zero p = omega arith
  count-keep_first (suc n) p =
      omega (arith, count-keep_first n p, count-insert_index n (keep_first n p) 0 ys)

  count-visit :
      (i : ℕ) (k : Option Text) (w : Walk)
      → count (visit i k w).kept 0 ys + w.used ≤ count w.kept 0 ys + (visit i k w).used
  unfolding visit
  count-visit i none w = omega arith
  count-visit i (some key) w = ground (arith, count-insert_index i w.kept 0 ys)

  used-visit : (i : ℕ) (k : Option Text) (w : Walk) → (visit i k w).used ≤ w.used + 1
  unfolding visit
  used-visit i none w = omega arith
  used-visit i (some key) w = ground arith

  count-walk :
      (limit : ℕ) (key_of : Text → Option Text) (i : ℕ) (xs : List Snapshot) (w : Walk)
      → w.used ≤ limit
      → count (walk limit key_of i xs w).kept 0 ys + w.used ≤ count w.kept 0 ys + limit
  unfolding walk
  count-walk limit key_of i [] w h = omega arith
  count-walk limit key_of i (s ∷ xs) w h =
      let w' = visit i (key_of s.time) w in
      ground (
        arith,
        count-walk limit key_of (i + 1) xs w',
        count-visit i (key_of s.time) w,
        used-visit i (key_of s.time) w,
      )

  count-keep_buckets :
      (limit : ℕ) (key_of : Text → Option Text) (xs : List Snapshot) (p : Indices)
      → count (keep_buckets limit key_of xs p) 0 ys ≤ count p 0 ys + limit
  unfolding keep_buckets
  count-keep_buckets limit key_of xs p =
      ground (arith, count-walk limit key_of 0 xs (record { used = 0; seen = []; kept = p }))

  module _ (parse_utc : Text → Option DateTime) where
    count-keep_unparsed :
        (i : ℕ) (xs : List Snapshot) (p : Indices)
        → count (keep_unparsed parse_utc i xs p) 0 ys ≤ count p 0 ys + unparsed parse_utc xs
    unfolding keep_unparsed unparsed
    count-keep_unparsed i [] p = omega arith
    count-keep_unparsed i (s ∷ xs) p = ground (
      arith,
      count-keep_unparsed (i + 1) xs p,
      count-keep_unparsed (i + 1) xs (insert_index i p),
      count-insert_index i p 0 ys,
    )

    count-keep_newest :
        (xs : List Snapshot) (p : Indices)
        → count (keep_newest parse_utc xs p) 0 ys ≤ count p 0 ys + 1
    unfolding keep_newest
    count-keep_newest [] p = omega arith
    count-keep_newest (s ∷ xs) p = count-insert_index 0 p 0 ys

module _ (parse_utc : Text → Option DateTime) (snapshots : List Snapshot)
    (policy : RetentionPolicy) where
  -- A policy keeps at most as many snapshots as its four numbers allow, one more for the newest,
  -- and those whose time cannot be read.
  pub length-kept :
      length (apply_policy parse_utc snapshots policy).kept
      ≤ policy.keep_last
        + policy.keep_daily
        + policy.keep_weekly
        + policy.keep_monthly
        + 1
        + unparsed parse_utc snapshots
  unfolding apply_policy kept_indices
  length-kept =
      let ys = sorted_newest_first parse_utc snapshots in
      let last = keep_first (last_count parse_utc ys policy) no_indices in
      let daily = keep_buckets policy.keep_daily (day_key parse_utc) ys last in
      let weekly = keep_buckets policy.keep_weekly (week_key parse_utc) ys daily in
      let monthly = keep_buckets policy.keep_monthly (month_key parse_utc) ys weekly in
      omega (
        arith,
        count-keep_newest ys parse_utc ys (keep_unparsed parse_utc 0 ys monthly),
        count-keep_unparsed ys parse_utc 0 ys monthly,
        count-keep_buckets ys policy.keep_monthly (month_key parse_utc) ys weekly,
        count-keep_buckets ys policy.keep_weekly (week_key parse_utc) ys daily,
        count-keep_buckets ys policy.keep_daily (day_key parse_utc) ys last,
        count-keep_first ys (last_count parse_utc ys policy) no_indices,
        count-no_indices 0 ys,
        unparsed-sort_by parse_utc (newest_first parse_utc) snapshots,
      )
