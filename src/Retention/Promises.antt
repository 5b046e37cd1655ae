-- ===== src/Retention/Promises.antt =====
-- retention.rs: what a caller of `apply_policy` relies on.
use mathlib.Core.List.Perm
use mathlib.Core.List.{Perm}
use server_backup.Common.{
  ℕ, suc, ◌+◌, ◌≡◌, refl, ap, sym, ◌∙◌, subst, Bool, true, false, not, ◌↔◌, Option, List, [], ◌∷◌,
  ◌++◌, arith, length, Bool-cases, ◌⊎◌, inl, inr, Has, All, sort_by-perm, IsSortedBy,
  sort_by-IsSortedBy, sort_by-Has, All-Has, Has-append_right,
}
use server_backup.Common.Texts.{Text}
use server_backup.Snapshot.{Snapshot}
use server_backup.Retention.{
  RetentionPolicy, Indices, is_none, kept_indices, sorted_newest_first, select, apply_policy,
}
use server_backup.Retention.Clock.{DateTime, newest_first, newest_first_total, newest_first_trans}
use server_backup.Retention.Decision.{survives, kept_indices-survives, select-Has, select-perm}

-- Where an entry of a selection stands in the list.
record Place (p : Indices) (i : ℕ) (xs : List Snapshot) (s : Snapshot) : Type 0 where
  before : List Snapshot
  after : List Snapshot
  splits : xs ≡ before ++ s ∷ after
  passes : p (i + length before) ≡ true

Has-select :
    (p : Indices) (i : ℕ) (xs : List Snapshot) (s : Snapshot)
    → Has s (select p i xs)
    → Place p i xs s
unfolding select
Has-select p i [] s h = absurd h
Has-select p i (x ∷ xs) s h = elim (Bool-cases (p i)) [
  | inl y ↦ elim (here_or_later (rw y at h)) [
    | inl e ↦ record {
      before = [];
      after = xs;
      splits = ap (λ t. t ∷ xs) (sym e);
      passes = let same : i ≡ i + 0 = omega arith in subst (λ n. p n ≡ true) same y;
    }
    | inr m ↦ shift (Has-select p (i + 1) xs s m)
  ]
  | inr n ↦ shift (Has-select p (i + 1) xs s (rw n at h))
]
  where
    here_or_later : Has s (x ∷ select p (i + 1) xs) → (s ≡ x) ⊎ Has s (select p (i + 1) xs)
    here_or_later m = m

    shift : Place p (i + 1) xs s → Place p i (x ∷ xs) s
    shift q = record {
      before = x ∷ q.before;
      after = q.after;
      splits = ap (λ l. x ∷ l) q.splits;
      passes =
          let same : i + 1 + length q.before ≡ i + suc (length q.before) = omega arith in
          subst (λ n. p n ≡ true) same q.passes;
    }

All-select :
    (P : Snapshot → Type 0) (p : Indices) (i : ℕ) (xs : List Snapshot)
    → All P xs
    → All P (select p i xs)
unfolding select
All-select P p i [] h = tt
All-select P p i (x ∷ xs) h = elim (Bool-cases (p i)) [
  | inl y ↦ rw y (h.0, All-select P p (i + 1) xs h.1)
  | inr n ↦ rw n (All-select P p (i + 1) xs h.1)
]

select-IsSortedBy :
    (le : Snapshot → Snapshot → Bool) (p : Indices) (i : ℕ) (xs : List Snapshot)
    → IsSortedBy le xs
    → IsSortedBy le (select p i xs)
unfolding select
select-IsSortedBy le p i [] h = tt
select-IsSortedBy le p i (x ∷ xs) h = elim (Bool-cases (p i)) [
  | inl y ↦
      rw y (All-select (λ t. le x t ≡ true) p (i + 1) xs h.0, select-IsSortedBy le p (i + 1) xs h.1)
  | inr n ↦ rw n (select-IsSortedBy le p (i + 1) xs h.1)
]

module _ (parse_utc : Text → Option DateTime) where
  -- The snapshot `s` stands in the order newest first, behind `newer`, and the rules say `verdict`.
  pub record Judged (snapshots : List Snapshot) (policy : RetentionPolicy) (s : Snapshot)
      (verdict : Bool) : Type 0 where
    pub newer : List Snapshot
    pub older : List Snapshot
    pub ordered : sorted_newest_first parse_utc snapshots ≡ newer ++ s ∷ older
    pub judged :
        survives parse_utc policy newer s (length (sorted_newest_first parse_utc snapshots))
        ≡ verdict

  survives_at :
      (policy : RetentionPolicy) (xs pre : List Snapshot) (s : Snapshot) (post : List Snapshot)
      → xs ≡ pre ++ s ∷ post
      → kept_indices parse_utc xs policy (length pre) ≡ survives parse_utc policy pre s (length xs)
  survives_at policy xs pre s post e =
      subst
        (λ l.
          kept_indices parse_utc l policy (length pre) ≡ survives parse_utc policy pre s (length l))
        (sym e) (kept_indices-survives parse_utc policy pre s post)

  module _ (snapshots : List Snapshot) (policy : RetentionPolicy) where
    abbrev sorted : List Snapshot
    sorted = sorted_newest_first parse_utc snapshots

    Judged-of_Place :
        (b : Bool) (p : Indices) (s : Snapshot)
        → ((j : ℕ) → p j ≡ true → kept_indices parse_utc sorted policy j ≡ b)
        → Place p 0 sorted s
        → Judged snapshots policy s b
    Judged-of_Place b p s reads q = record {
      newer = q.before;
      older = q.after;
      ordered = q.splits;
      judged =
          sym (survives_at policy sorted q.before s q.after q.splits)
          ∙ reads (length q.before) (
              let same : 0 + length q.before ≡ length q.before = omega arith in
              subst (λ n. p n ≡ true) same q.passes);
    }

    Has-of_Judged :
        (b : Bool) (p : Indices) (s : Snapshot)
        → ((j : ℕ) → kept_indices parse_utc sorted policy j ≡ b → p j ≡ true)
        → Judged snapshots policy s b
        → Has s (select p 0 sorted)
    Has-of_Judged b p s reads q =
        subst (λ l. Has s (select p 0 l)) (sym q.ordered)
          (select-Has p 0 (length q.newer) q.newer s q.older (omega arith) (
            reads (length q.newer)
              (survives_at policy sorted q.newer s q.older q.ordered ∙ q.judged)))

    not-true : (b : Bool) → not b ≡ true → b ≡ false
    not-true true h = ground arith
    not-true false h = refl

    -- A snapshot is kept exactly when one of the rules speaks for it, judged by the snapshots that
    -- are newer, and pruned exactly when none does.
    pub apply_policy-exact :
        (s : Snapshot)
        → (Has s (apply_policy parse_utc snapshots policy).kept ↔ Judged snapshots policy s true)
          × (Has s (apply_policy parse_utc snapshots policy).pruned
              ↔ Judged snapshots policy s false)
    unfolding apply_policy
    apply_policy-exact s =
        let p = kept_indices parse_utc sorted policy in
        let n : Indices = λ j. not (p j) in
        (
          (
            λ h. Judged-of_Place true p s (λ j e. e) (Has-select p 0 sorted s h),
            Has-of_Judged true p s (λ j e. e),
          ),
          (
            λ h. Judged-of_Place false n s (λ j e. not-true (p j) e) (Has-select n 0 sorted s h),
            Has-of_Judged false n s (λ j e. ap not e),
          ),
        )

    -- Every snapshot goes to one side of the decision, as often as it was given, and both sides are
    -- in the order newest first.
    pub apply_policy-partition :
        Perm
          ((apply_policy parse_utc snapshots policy).kept
            ++ (apply_policy parse_utc snapshots policy).pruned)
          snapshots
        × IsSortedBy (newest_first parse_utc) (apply_policy parse_utc snapshots policy).kept
        × IsSortedBy (newest_first parse_utc) (apply_policy parse_utc snapshots policy).pruned
    unfolding apply_policy
    apply_policy-partition =
        let p = kept_indices parse_utc sorted policy in
        let ordered =
          sort_by-IsSortedBy (newest_first parse_utc) (newest_first_total parse_utc)
            (newest_first_trans parse_utc) snapshots in
        (
          Perm.trans (select-perm p 0 sorted) (sort_by-perm (newest_first parse_utc) snapshots),
          select-IsSortedBy (newest_first parse_utc) p 0 sorted ordered,
          select-IsSortedBy (newest_first parse_utc) (λ j. not (p j)) 0 sorted ordered,
        )

    Judged-readable :
        (s : Snapshot) → Judged snapshots policy s false → is_none (parse_utc s.time) ≡ false
    Judged-readable s q = ground (arith, q.judged)

    Newest : Snapshot → Type 0
    Newest k =
        Has k (apply_policy parse_utc snapshots policy).kept
        × ((t : Snapshot) → Has t snapshots → newest_first parse_utc k t ≡ true)

    Newest-of :
        (xs : List Snapshot) (x : Snapshot) → sorted ≡ xs → Has x xs → (k : Snapshot) × Newest k
    unfolding Newest
    Newest-of [] x e h = absurd h
    Newest-of (k ∷ xs) x e h = (
      k,
      (
        (apply_policy-exact k).0.1
            (record { newer = []; older = xs; ordered = e; judged = ground arith }),
        λ t m.
            elim (let there : Has t (k ∷ xs) =
                subst (λ l. Has t l) e (sort_by-Has (newest_first parse_utc) t snapshots m) in
              there) [
                | inl same ↦ level_self t k same
                | inr later ↦ All-Has (λ y. newest_first parse_utc k y ≡ true) xs t first.0 later
              ],
      ),
    )
      where
        first : IsSortedBy (newest_first parse_utc) (k ∷ xs)
        first = subst (IsSortedBy (newest_first parse_utc)) e (
            sort_by-IsSortedBy (newest_first parse_utc) (newest_first_total parse_utc)
              (newest_first_trans parse_utc) snapshots)

        level_self : (t u : Snapshot) → t ≡ u → newest_first parse_utc u t ≡ true
        level_self t u same = elim (Bool-cases (newest_first parse_utc u u)) [
          | inl y ↦ subst (λ v. newest_first parse_utc u v ≡ true) (sym same) y
          | inr n ↦
              subst (λ v. newest_first parse_utc u v ≡ true) (sym same)
                (newest_first_total parse_utc u u n)
        ]

    -- A prune never deletes a snapshot whose time cannot be read, and where it deletes anything it
    -- keeps a snapshot that no other one is newer than.
    pub pruned_safe :
        (s : Snapshot)
        → Has s (apply_policy parse_utc snapshots policy).pruned
        → (is_none (parse_utc s.time) ≡ false)
          × ((k : Snapshot) × Has k (apply_policy parse_utc snapshots policy).kept
              × ((t : Snapshot) → Has t snapshots → newest_first parse_utc k t ≡ true))
    unfolding Newest
    pruned_safe s h =
        let q = (apply_policy-exact s).1.0 h in
        let (k, n) = Newest-of sorted s refl (in_sorted q) in (Judged-readable s q, (k, n.0, n.1))
      where
        in_sorted : Judged snapshots policy s false → Has s sorted
        in_sorted q =
            subst (λ l. Has s l) (sym q.ordered)
              (Has-append_right s q.newer (s ∷ q.older) (inl refl))
