-- ===== src/Retention/Clock.antt =====
-- crates/aegis-core/src/retention.rs: bucket keys, and the order of snapshots by time. What the
-- code reads of a parsed timestamp is a `DateTime`; parsing is the time library's.
use server_backup.Common.{
  ℕ, suc, ◌≡◌, refl, Bool, true, false, Option, none, some, ◌∷◌, ◌++◌, arith, ltb, if◌then◌else◌,
}
use server_backup.Common.Int.{ℤ, pos, negsuc, int_le, int_le_total, int_le_trans}
use server_backup.Common.Texts.{Text, bytes, text_le, text_le_total, text_le_trans}
use server_backup.Common.Decimal.{show_nat}
use server_backup.Snapshot.{Snapshot}

-- An `OffsetDateTime` in UTC, as far as the code reads it.
pub record DateTime : Type 0 where
  pub year : ℤ
  pub month : ℕ
  pub day : ℕ
  pub iso_year : ℤ
  pub iso_week : ℕ
  pub unix_timestamp : ℤ

pub show_int : ℤ → Text
show_int (pos n) = show_nat n
show_int (negsuc n) = b'-' ∷ show_nat (suc n)

-- `format!("{:02}", n)`.
pub show_padded : ℕ → Text
show_padded n = if ltb n 10 then b'0' ∷ show_nat n else show_nat n

module _ (parse_utc : Text → Option DateTime) where
  unfoldable pub day_key : Text → Option Text
  unfolding show_int show_padded
  day_key time = elim (parse_utc time) [
    | none ↦ none
    | some dt ↦
        some (show_int dt.year ++ (b'-' ∷ (show_padded dt.month ++ (b'-' ∷ show_padded dt.day))))
  ]

  unfoldable pub week_key : Text → Option Text
  unfolding show_int show_padded
  week_key time = elim (parse_utc time) [
    | none ↦ none
    | some dt ↦ some (show_int dt.iso_year ++ (bytes "-W" ++ show_padded dt.iso_week))
  ]

  unfoldable pub month_key : Text → Option Text
  unfolding show_int show_padded
  month_key time = elim (parse_utc time) [
    | none ↦ none
    | some dt ↦ some (show_int dt.year ++ (b'-' ∷ show_padded dt.month))
  ]

-- `None` sorts below every time.
unfoldable pub stamp_le : Option DateTime → Option DateTime → Bool
stamp_le none b = true
stamp_le (some a) none = false
stamp_le (some a) (some b) = int_le a.unix_timestamp b.unix_timestamp

-- `Ord` of a tuple: where the first parts are level in both directions, the rest decides.
abbrev level_then : Bool → Bool → Bool → Bool
level_then le ge rest = if le then (if ge then rest else true) else false

module _ (parse_utc : Text → Option DateTime) where
  -- `sort_key(a) <= sort_key(b)`.
  unfoldable pub key_le : Snapshot → Snapshot → Bool
  key_le a b =
      level_then (stamp_le (parse_utc a.time) (parse_utc b.time))
        (stamp_le (parse_utc b.time) (parse_utc a.time))
        (level_then (text_le a.time b.time) (text_le b.time a.time) (text_le a.id b.id))

  -- `sort_key(b).cmp(&sort_key(a)) != Greater`: `a` stands before `b`, newest first.
  unfoldable pub newest_first : Snapshot → Snapshot → Bool
  unfolding key_le
  newest_first a b = key_le b a

stamp_le_total : (a b : Option DateTime) → stamp_le a b ≡ false → stamp_le b a ≡ true
unfolding stamp_le
stamp_le_total none b h = ground arith
stamp_le_total (some a) none h = refl
stamp_le_total (some a) (some b) h = int_le_total a.unix_timestamp b.unix_timestamp h

stamp_le_trans :
    (a b c : Option DateTime) → stamp_le a b ≡ true → stamp_le b c ≡ true → stamp_le a c ≡ true
unfolding stamp_le
stamp_le_trans none b c h k = refl
stamp_le_trans (some a) none c h k = ground arith
stamp_le_trans (some a) (some b) none h k = ground arith
stamp_le_trans (some a) (some b) (some c) h k =
    int_le_trans a.unix_timestamp b.unix_timestamp c.unix_timestamp h k

module _ (parse_utc : Text → Option DateTime) where
  pub newest_first_total :
      (a b : Snapshot) → newest_first parse_utc a b ≡ false → newest_first parse_utc b a ≡ true
  unfolding newest_first
  newest_first_total a b h = ground (
    arith,
    stamp_le_total (parse_utc b.time) (parse_utc a.time),
    stamp_le_total (parse_utc a.time) (parse_utc b.time),
    text_le_total a.time b.time,
    text_le_total b.time a.time,
    text_le_total b.id a.id,
  )

  pub newest_first_trans :
      (a b c : Snapshot)
      → newest_first parse_utc a b ≡ true
      → newest_first parse_utc b c ≡ true
      → newest_first parse_utc a c ≡ true
  unfolding newest_first
  newest_first_trans a b c h k = ground (
    arith,
    stamp_le_trans (parse_utc c.time) (parse_utc b.time) (parse_utc a.time),
    stamp_le_trans (parse_utc b.time) (parse_utc a.time) (parse_utc c.time),
    stamp_le_trans (parse_utc a.time) (parse_utc c.time) (parse_utc b.time),
    text_le_trans c.time b.time a.time,
    text_le_trans b.time a.time c.time,
    text_le_trans a.time c.time b.time,
    text_le_trans c.id b.id a.id,
  )
