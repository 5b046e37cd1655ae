-- ===== src/Retention/Examples.antt =====
-- retention.rs: the decision on small histories. A time is one byte here, the day of one month,
-- and day 0 cannot be read.
use server_backup.Common.Decimal.{show_nat}
use mathlib.Core.List.{Perm}
use server_backup.Common.{
  ℕ, ◌+◌, ◌/◌, ◌≤◌, ◌≡◌, refl, ◌↔◌, true, false, Option, none, some, List, [], ◌∷◌, ◌++◌, ◌==◌,
  if◌then◌else◌, length, Has, inl, sort_by, IsSortedBy,
}
use server_backup.Common.Int.{pos, int_le}
use server_backup.Common.Texts.{Text, bytes, contains, text_le, text_eq}
use server_backup.Tree.{dir, nil}
use server_backup.Snapshot.{Snapshot}
use server_backup.Retention.{
  RetentionPolicy, keep_buckets, keep_first, keep_unparsed, is_none, keep_newest, kept_indices,
  select, apply_policy,
}
use server_backup.Retention.Clock.{DateTime, day_key, week_key, month_key, newest_first, stamp_le}
use server_backup.Retention.Promises.{
  Judged, apply_policy-exact, apply_policy-partition, pruned_safe,
}
use server_backup.Retention.Bounds.{unparsed, length-kept}

abbrev parse_day : Text → Option DateTime
parse_day [] = none
parse_day (d ∷ rest) =
    if d == 0
    then none
    else some (record {
      year = pos 2026;
      month = 3;
      day = d;
      iso_year = pos 2026;
      iso_week = 9 + d / 7;
      unix_timestamp = pos d;
    })

abbrev snap : ℕ → ℕ → Snapshot
snap id d = record {
  id = id ∷ [];
  time = d ∷ [];
  hostname = bytes "h";
  paths = [];
  root = dir (bytes "root") nil;
  stats = record {
    files = 0;
    bytes = 0;
    chunks = 0;
    new_chunks = 0;
    new_bytes = 0;
    new_tree_nodes = 0;
  };
}

abbrev history : List Snapshot
history = snap 1 4 ∷ snap 2 0 ∷ snap 3 5 ∷ snap 4 5 ∷ snap 5 6 ∷ []

abbrev two_days : RetentionPolicy
two_days = record { keep_daily = 2; keep_weekly = 0; keep_monthly = 0; keep_last = 0 }

abbrev ids : List Snapshot → List ℕ
ids [] = []
ids (s ∷ rest) = elim s.id [ [] ↦ 0 ∷ ids rest | i ∷ _ ↦ i ∷ ids rest ]

program : Unit {0}
unfolding apply_policy kept_indices select sort_by newest_first keep_first keep_buckets
    keep_unparsed keep_newest day_key week_key month_key contains stamp_le int_le text_le text_eq
    show_nat
program = tt

kept-history : ids (apply_policy parse_day history two_days).kept ≡ 5 ∷ 4 ∷ 2 ∷ []
unfolding program
kept-history = refl

pruned-history : ids (apply_policy parse_day history two_days).pruned ≡ 3 ∷ 1 ∷ []
unfolding program
pruned-history = refl

apply_policy-exact_example :
    (Has (snap 4 5) (apply_policy parse_day history two_days).kept
      ↔ Judged parse_day history two_days (snap 4 5) true)
    × (Has (snap 4 5) (apply_policy parse_day history two_days).pruned
        ↔ Judged parse_day history two_days (snap 4 5) false)
apply_policy-exact_example = apply_policy-exact parse_day history two_days (snap 4 5)

apply_policy-partition_example :
    Perm
      ((apply_policy parse_day history two_days).kept
        ++ (apply_policy parse_day history two_days).pruned)
      history
    × IsSortedBy (newest_first parse_day) (apply_policy parse_day history two_days).kept
    × IsSortedBy (newest_first parse_day) (apply_policy parse_day history two_days).pruned
apply_policy-partition_example = apply_policy-partition parse_day history two_days

pruned-first : Has (snap 3 5) (apply_policy parse_day history two_days).pruned
unfolding program
pruned-first = inl refl

pruned_safe_example :
    (is_none (parse_day (5 ∷ [])) ≡ false)
    × ((k : Snapshot) × Has k (apply_policy parse_day history two_days).kept
        × ((t : Snapshot) → Has t history → newest_first parse_day k t ≡ true))
pruned_safe_example = pruned_safe parse_day history two_days (snap 3 5) pruned-first

length-kept_example :
    length (apply_policy parse_day history two_days).kept
    ≤ 0 + 2 + 0 + 0 + 1 + unparsed parse_day history
length-kept_example = length-kept parse_day history two_days
