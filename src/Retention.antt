-- ===== src/Retention.antt =====
-- crates/aegis-core/src/retention.rs: which snapshots survive a prune. The set of kept indices is
-- a test on indices; parsing a timestamp is the parameter `parse_utc`.
pub mod Clock
pub mod Exact
pub mod Decision
pub mod Promises
pub mod Bounds
mod Examples
use server_backup.Common.{
  ℕ, zero, suc, ◌+◌, ◌%◌, ◌^◌, min, Bool, true, false, not, ◌||◌, Option, none, some, List, [], ◌∷◌,
  leb, ◌==◌, if◌then◌else◌, length, sort_by,
}
use server_backup.Common.Texts.{Text, contains}
use server_backup.Common.Texts
use server_backup.Snapshot.{Snapshot}
use server_backup.Retention.Clock.{DateTime, day_key, week_key, month_key, newest_first}

pub record RetentionPolicy : Type 0 where
  pub keep_daily : ℕ
  pub keep_weekly : ℕ
  pub keep_monthly : ℕ
  pub keep_last : ℕ

abbrev pub default_policy : RetentionPolicy
default_policy = record { keep_daily = 7; keep_weekly = 4; keep_monthly = 6; keep_last = 3 }

pub record RetentionDecision : Type 0 where
  pub kept : List Snapshot
  pub pruned : List Snapshot

-- `HashSet<usize>` as its membership test.
abbrev pub Indices : Type 0
Indices = ℕ → Bool

abbrev pub no_indices : Indices
no_indices j = false

abbrev pub insert_index : ℕ → Indices → Indices
insert_index i kept j = if j == i then true else kept j

-- for i in 0..last_count { kept_idx.insert(i); }
unfoldable pub keep_first : ℕ → Indices → Indices
keep_first zero kept = kept
keep_first (suc n) kept = insert_index n (keep_first n kept)

-- The variables of the walk over one bucket rule.
pub record Walk : Type 0 where
  pub used : ℕ
  pub seen : List Text
  pub kept : Indices

-- The body of the walk, at index `i`, for a snapshot whose bucket is `key`.
unfoldable pub visit : ℕ → Option Text → Walk → Walk
visit i none w = w
visit i (some key) w =
    if contains w.seen key
    then w
    else record { used = w.used + 1; seen = key ∷ w.seen; kept = insert_index i w.kept }

-- for (i, s) in sorted.iter().enumerate(), from index `i` on; the test of `used` is its `break`.
unfoldable pub walk : ℕ → (Text → Option Text) → ℕ → List Snapshot → Walk → Walk
unfolding visit
walk limit key_of i [] w = w
walk limit key_of i (s ∷ rest) w =
    let next = walk limit key_of (i + 1) rest (visit i (key_of s.time) w) in
    if leb limit w.used then w else next

-- One pass of the loop over the three bucket rules.
unfoldable pub keep_buckets : ℕ → (Text → Option Text) → List Snapshot → Indices → Indices
unfolding walk
keep_buckets limit key_of sorted kept =
    if limit == 0
    then kept
    else (walk limit key_of 0 sorted (record { used = 0; seen = []; kept = kept })).kept

-- The entries whose index passes the test: enumerate().filter(..).map(..).
unfoldable pub select : Indices → ℕ → List Snapshot → List Snapshot
select p i [] = []
select p i (s ∷ rest) = if p i then s ∷ select p (i + 1) rest else select p (i + 1) rest

unfoldable pub is_none : {A : Type 0} → Option A → Bool
is_none none = true
is_none (some a) = false

module _ (parse_utc : Text → Option DateTime) where
  -- The first safety net: unparseable timestamps.
  unfoldable pub keep_unparsed : ℕ → List Snapshot → Indices → Indices
  unfolding is_none
  keep_unparsed i [] kept = kept
  keep_unparsed i (s ∷ rest) kept =
      keep_unparsed (i + 1) rest (if is_none (parse_utc s.time) then insert_index i kept else kept)

  -- The second safety net: the newest snapshot.
  unfoldable pub keep_newest : List Snapshot → Indices → Indices
  keep_newest [] kept = kept
  keep_newest (s ∷ rest) kept = insert_index 0 kept

  unfoldable pub last_count : List Snapshot → RetentionPolicy → ℕ
  last_count sorted policy = min policy.keep_last (length sorted % 2 ^ 32)

  -- `kept_idx` when the function has run its loops.
  unfoldable pub kept_indices : List Snapshot → RetentionPolicy → Indices
  unfolding last_count
  kept_indices sorted policy =
      let last = keep_first (last_count sorted policy) no_indices in
      let daily = keep_buckets policy.keep_daily (day_key parse_utc) sorted last in
      let weekly = keep_buckets policy.keep_weekly (week_key parse_utc) sorted daily in
      let monthly = keep_buckets policy.keep_monthly (month_key parse_utc) sorted weekly in
      keep_newest sorted (keep_unparsed 0 sorted monthly)

  abbrev pub sorted_newest_first : List Snapshot → List Snapshot
  sorted_newest_first snapshots = sort_by (newest_first parse_utc) snapshots

  unfoldable pub apply_policy : List Snapshot → RetentionPolicy → RetentionDecision
  apply_policy snapshots policy =
      let sorted = sorted_newest_first snapshots in
      let kept_idx = kept_indices sorted policy in
      record { kept = select kept_idx 0 sorted; pruned = select (λ j. not (kept_idx j)) 0 sorted }
