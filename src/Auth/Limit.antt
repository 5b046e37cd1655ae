-- ===== src/Auth/Limit.antt =====
-- catalog_auth.rs: what the login limit lets through. A history is the list of the times at which
-- logins were tried, in their order.
use server_backup.Common.{
  ℕ, ◌+◌, ◌-◌, ◌≤◌, ◌<◌, ◌≡◌, refl, true, Option, none, some, List, [], ◌∷◌, arith, leb,
  if◌then◌else◌, All,
}
use server_backup.Catalog.{LimitRow}
use server_backup.Auth.{next_limit}

-- How many tries of a history are let through.
unfoldable pub admitted : Option LimitRow → List ℕ → ℕ
unfolding next_limit
admitted row [] = 0
admitted row (now ∷ later) =
    (if (next_limit now row).1 then 1 else 0) + admitted (next_limit now row).0 later

unfoldable pub limit_after : Option LimitRow → List ℕ → Option LimitRow
unfolding next_limit
limit_after row [] = row
limit_after row (now ∷ later) = limit_after (next_limit now row).0 later

-- How many tries may still pass between `start` and the end of a window that starts there.
allowance : ℕ → Option LimitRow → ℕ
allowance start none = 60
allowance start (some row) =
    if leb start row.window_start then 30 - row.attempts else 60 - row.attempts

-- The counter never exceeds the limit.
abbrev pub IsCounted : Option LimitRow → Type 0
IsCounted none = Unit
IsCounted (some row) = row.attempts ≤ 30

next_limit-IsCounted :
    (now : ℕ) (row : Option LimitRow) → IsCounted row → IsCounted (next_limit now row).0
unfolding next_limit
next_limit-IsCounted now none h = omega arith
next_limit-IsCounted now (some row) h = ground arith

spend :
    (start now : ℕ) (row : Option LimitRow)
    → IsCounted row
    → start ≤ now
    → now < start + 60
    → (if (next_limit now row).1 then 1 else 0) + allowance start (next_limit now row).0
      ≤ allowance start row
unfolding next_limit allowance
spend start now none h a b = ground arith
spend start now (some row) h a b = ground arith

spend-All :
    (start : ℕ) (row : Option LimitRow) (times : List ℕ)
    → IsCounted row
    → All (λ t. (start ≤ t) × (t < start + 60)) times
    → admitted row times ≤ allowance start row
unfolding admitted
spend-All start row [] h k = omega arith
spend-All start row (now ∷ later) h ((a, b), k) = omega (
  arith,
  spend start now row h a b,
  spend-All start (next_limit now row).0 later (next_limit-IsCounted now row h) k,
)

allowance-le : (start : ℕ) (row : Option LimitRow) → allowance start row ≤ 60
unfolding allowance
allowance-le start none = omega arith
allowance-le start (some row) = ground arith

-- Of the tries within any 60 seconds, whatever went before, at most 60 are let through.
pub admitted-le :
    (start : ℕ) (row : Option LimitRow) (times : List ℕ)
    → IsCounted row
    → All (λ t. (start ≤ t) × (t < start + 60)) times
    → admitted row times ≤ 60
admitted-le start row times h k =
    omega (arith, spend-All start row times h k, allowance-le start row)

abbrev StartedBy : ℕ → Option LimitRow → Type 0
StartedBy t none = Unit
StartedBy t (some row) = row.window_start ≤ t

next_limit-StartedBy :
    (now t : ℕ) (row : Option LimitRow)
    → now ≤ t
    → StartedBy t row
    → StartedBy t (next_limit now row).0
unfolding next_limit
next_limit-StartedBy now t none a h = omega arith
next_limit-StartedBy now t (some row) a h = ground arith

limit_after-StartedBy :
    (t : ℕ) (row : Option LimitRow) (times : List ℕ)
    → StartedBy t row
    → All (λ u. u ≤ t) times
    → StartedBy t (limit_after row times)
unfolding limit_after
limit_after-StartedBy t row [] h k = h
limit_after-StartedBy t row (now ∷ later) h (a, k) =
    limit_after-StartedBy t (next_limit now row).0 later (next_limit-StartedBy now t row a h) k

late_enough :
    (t now : ℕ) (row : Option LimitRow)
    → StartedBy t row
    → t + 60 ≤ now
    → (next_limit now row).1 ≡ true
unfolding next_limit
late_enough t now none h k = refl
late_enough t now (some row) h k = ground arith

-- However many tries were made up to some time, and however many of them were refused, a try that is
-- made 60 seconds later or more is let through.
pub limit_recovers :
    (t now : ℕ) (times : List ℕ)
    → All (λ u. u ≤ t) times
    → t + 60 ≤ now
    → (next_limit now (limit_after none times)).1 ≡ true
limit_recovers t now times k h = late_enough t now _ (limit_after-StartedBy t none times tt k) h
