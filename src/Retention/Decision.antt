-- ===== src/Retention/Decision.antt =====
-- retention.rs: what `apply_policy` keeps, snapshot by snapshot.
use mathlib.Core.List.Perm
use mathlib.Core.List.{Perm, perm_middle}
use server_backup.Common.{
  ℕ, zero, suc, ◌+◌, ◌%◌, ◌^◌, ◌<◌, ◌≡◌, refl, subst, Bool, true, false, not, ◌||◌, Option, none,
  some, List, [], ◌∷◌, ◌++◌, arith, ltb, ◌==◌, if◌then◌else◌, length, min, Bool-cases, inl, inr,
  Has,
}
use server_backup.Common.Texts.{Text}
use server_backup.Snapshot.{Snapshot}
use server_backup.Retention.{
  RetentionPolicy, Indices, no_indices, insert_index, keep_buckets, keep_first, keep_unparsed,
  is_none, keep_newest, last_count, kept_indices, select,
}
use server_backup.Retention.Clock.{DateTime, day_key, week_key, month_key}
use server_backup.Retention.Exact.{buckets, picks, kept-walk}

kept-keep_first : (n j : ℕ) (kept : Indices) → keep_first n kept j ≡ (kept j || ltb j n)
unfolding keep_first
kept-keep_first zero j kept = ground arith
kept-keep_first (suc n) j kept = ground (arith, kept-keep_first n j kept)

picks_none : (seen : List Text) (k : Option Text) → picks 0 seen k ≡ false
unfolding picks
picks_none seen none = refl
picks_none seen (some key) = ground arith

kept-keep_buckets :
    (limit : ℕ) (key_of : Text → Option Text) (pre : List Snapshot) (s : Snapshot)
    (post : List Snapshot) (kept : Indices)
    → keep_buckets limit key_of (pre ++ s ∷ post) kept (length pre)
      ≡ (kept (length pre) || picks limit (buckets key_of pre []) (key_of s.time))
unfolding keep_buckets
kept-keep_buckets limit key_of pre s post kept = ground (
  arith,
  kept-walk limit key_of 0 (length pre) pre s post (record { used = 0; seen = []; kept = kept })
      (omega arith) refl,
  picks_none (buckets key_of pre []) (key_of s.time),
)

module _ (parse_utc : Text → Option DateTime) where
  kept-keep_unparsed_before :
      (i j : ℕ) (xs : List Snapshot) (kept : Indices)
      → j < i
      → keep_unparsed parse_utc i xs kept j ≡ kept j
  unfolding keep_unparsed
  kept-keep_unparsed_before i j [] kept h = refl
  kept-keep_unparsed_before i j (s ∷ xs) kept h = ground (
    arith,
    kept-keep_unparsed_before (i + 1) j xs
        (if is_none (parse_utc s.time) then insert_index i kept else kept),
  )

  kept-keep_unparsed :
      (i j : ℕ) (pre : List Snapshot) (s : Snapshot) (post : List Snapshot) (kept : Indices)
      → i + length pre ≡ j
      → keep_unparsed parse_utc i (pre ++ s ∷ post) kept j ≡ (kept j || is_none (parse_utc s.time))
  unfolding keep_unparsed
  kept-keep_unparsed i j [] s post kept e = ground (
    arith,
    kept-keep_unparsed_before (i + 1) j post
        (if is_none (parse_utc s.time) then insert_index i kept else kept),
  )
  kept-keep_unparsed i j (p ∷ pre) s post kept e = ground (
    arith,
    kept-keep_unparsed (i + 1) j pre s post
        (if is_none (parse_utc p.time) then insert_index i kept else kept),
  )

  kept-keep_newest :
      (pre : List Snapshot) (s : Snapshot) (post : List Snapshot) (kept : Indices)
      → keep_newest parse_utc (pre ++ s ∷ post) kept (length pre)
        ≡ (kept (length pre) || length pre == 0)
  unfolding keep_newest
  kept-keep_newest [] s post kept = ground arith
  kept-keep_newest (p ∷ pre) s post kept = ground arith

  -- Why the snapshot `s` survives, `newer` being the snapshots that sort before it: it is among the
  -- last ones, a bucket rule picks it, its time cannot be read, or it is the newest of all.
  abbrev pub survives : RetentionPolicy → List Snapshot → Snapshot → ℕ → Bool
  survives policy newer s total =
      ltb (length newer) (min policy.keep_last (total % 2 ^ 32))
      || (picks policy.keep_daily (buckets (day_key parse_utc) newer []) (day_key parse_utc s.time)
          || (picks policy.keep_weekly (buckets (week_key parse_utc) newer [])
                (week_key parse_utc s.time)
              || (picks policy.keep_monthly (buckets (month_key parse_utc) newer [])
                    (month_key parse_utc s.time)
                  || (is_none (parse_utc s.time) || length newer == 0))))

  pub kept_indices-survives :
      (policy : RetentionPolicy) (pre : List Snapshot) (s : Snapshot) (post : List Snapshot)
      → kept_indices parse_utc (pre ++ s ∷ post) policy (length pre)
        ≡ survives policy pre s (length (pre ++ s ∷ post))
  unfolding kept_indices
  kept_indices-survives policy pre s post =
      let sorted = pre ++ s ∷ post in
      let last = keep_first (last_count parse_utc sorted policy) no_indices in
      let daily = keep_buckets policy.keep_daily (day_key parse_utc) sorted last in
      let weekly = keep_buckets policy.keep_weekly (week_key parse_utc) sorted daily in
      let monthly = keep_buckets policy.keep_monthly (month_key parse_utc) sorted weekly in
      ground (
        arith,
        kept-keep_newest pre s post (keep_unparsed parse_utc 0 sorted monthly),
        kept-keep_unparsed 0 (length pre) pre s post monthly (omega arith),
        kept-keep_buckets policy.keep_monthly (month_key parse_utc) pre s post weekly,
        kept-keep_buckets policy.keep_weekly (week_key parse_utc) pre s post daily,
        kept-keep_buckets policy.keep_daily (day_key parse_utc) pre s post last,
        kept-keep_first (last_count parse_utc sorted policy) (length pre) no_indices,
      )

-- The selection by a test of the index holds an entry whose index passes.
pub select-Has :
    (p : Indices) (i j : ℕ) (pre : List Snapshot) (s : Snapshot) (post : List Snapshot)
    → i + length pre ≡ j
    → p j ≡ true
    → Has s (select p i (pre ++ s ∷ post))
unfolding select
select-Has p i j [] s post e h =
    let same : j ≡ i = omega arith in rw (subst (λ n. p n ≡ true) same h) (inl refl)
select-Has p i j (q ∷ pre) s post e h = elim (Bool-cases (p i)) [
  | inl y ↦ rw y (inr (select-Has p (i + 1) j pre s post (omega arith) h))
  | inr n ↦ rw n (select-Has p (i + 1) j pre s post (omega arith) h)
]

-- Selecting by a test and by its negation shares out the list.
pub select-perm :
    (p : Indices) (i : ℕ) (xs : List Snapshot)
    → Perm (select p i xs ++ select (λ j. not (p j)) i xs) xs
unfolding select
select-perm p i [] = Perm.rfl
select-perm p i (x ∷ xs) = elim (Bool-cases (p i)) [
  | inl y ↦ rw y (Perm.cons x (select-perm p (i + 1) xs))
  | inr n ↦ rw n (
      Perm.trans (perm_middle (select p (i + 1) xs) (select (λ j. not (p j)) (i + 1) xs))
        (Perm.cons x (select-perm p (i + 1) xs)))
]
