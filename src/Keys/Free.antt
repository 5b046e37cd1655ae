-- ===== src/Keys/Free.antt =====
-- keys.rs: the search for the first free slot ends, for there are no more key files than objects.
use server_backup.Common.{
  ℕ, zero, suc, ◌+◌, ◌≤◌, ◌<◌, ◌≡◌, refl, sym, ap, ◌∙◌, subst, ◌⊎◌, inl, inr, Bool, true, false,
  none, some, [], ◌∷◌, ◌++◌, arith, if◌then◌else◌, ◌==◌, length, Bool-cases, Option-cases, drop,
}
use server_backup.Common.Texts.{Text, Bytes, bytes, text_eq, text_eq_sound}
use server_backup.Common.Decimal.{show_nat, show_nat_injective}
use server_backup.Common.Errors.{Result, ok}
use server_backup.Common.Actions.{>>=-eq_ok, pure}
use server_backup.Backend.{Objects, Backend, lookup, remove, exists, is_some}
use server_backup.Backend.Laws.{exists_Outcome, Outcome-ok, is_some-none, lookup-remove}
use server_backup.Keys.{key_key}
use server_backup.Keys.Slots.{free_slot}
use server_backup.Backend.Quiet.{quiet, exists-quiet}
use server_backup.Keys.Removal.{key_key_injective}

-- The key of the file of `key<n>`.
abbrev pub numbered : ℕ → Text
numbered n = key_key (bytes "key" ++ show_nat n)

numbered_injective : (m n : ℕ) → numbered m ≡ numbered n → m ≡ n
numbered_injective m n e =
    show_nat_injective m n
      (ap (drop 3) (key_key_injective (bytes "key" ++ show_nat m) (bytes "key" ++ show_nat n) e))

IsTaken : Objects → ℕ → Type 0
IsTaken m n = (v : Bytes) × (lookup (numbered n) m ≡ some v)

length-remove-le : (key : Text) (m : Objects) → length (remove key m) ≤ length m
unfolding remove
length-remove-le key [] = omega arith
length-remove-le key ((k, v) ∷ m) = ground (arith, length-remove-le key m)

length-remove-lt :
    (key : Text) (m : Objects) (v : Bytes)
    → lookup key m ≡ some v
    → length (remove key m) < length m
unfolding remove lookup
length-remove-lt key [] v h = absurd (cc)
length-remove-lt key ((k, w) ∷ m) v h = elim (Bool-cases (text_eq key k)) [
  | inl e ↦ rw e (let fewer = length-remove-le key m in omega arith)
  | inr e ↦ rw e (let fewer = length-remove-lt key m v (rw e at h) in omega arith)
]

IsTaken-remove : (n i : ℕ) (m : Objects) → n < i → IsTaken m i → IsTaken (remove (numbered n) m) i
unfolding IsTaken
IsTaken-remove n i m lt (v, at) = (
  v,
  lookup-remove (numbered n) (numbered i) m
      ∙ (rw (apart (text_eq (numbered i) (numbered n)) refl) at),
)
  where
    apart :
        (b : Bool)
        → text_eq (numbered i) (numbered n) ≡ b
        → text_eq (numbered i) (numbered n) ≡ false
    apart false e = e
    apart true e =
        let same = numbered_injective i n (text_eq_sound (numbered i) (numbered n) e) in
        absurd (omega arith)

-- No more slots are taken than there are objects.
taken-le :
    (count n : ℕ) (m : Objects) → ((i : ℕ) → n ≤ i → i < n + count → IsTaken m i) → count ≤ length m
unfolding IsTaken
taken-le zero n m h = omega arith
taken-le (suc count) n m h =
    let (v, at) = h n (omega arith) (omega arith) in
    let fewer = length-remove-lt (numbered n) m v at in
    let rest =
      taken-le count (suc n) (remove (numbered n) m)
        (λ i a b. IsTaken-remove n i m (omega arith) (h i (omega arith) (omega arith))) in
    omega arith

-- The slot that is found: free, and all before it taken.
pub IsFirstFree : Objects → ℕ → ℕ → Type 0
IsFirstFree m n k =
    (lookup (numbered k) m ≡ none)
    × (n ≤ k)
    × ((i : ℕ) → n ≤ i → i < k → (v : Bytes) × (lookup (numbered i) m ≡ some v))

at_or_after : (n i : ℕ) → n ≤ i → (n ≡ i) ⊎ (n + 1 ≤ i)
at_or_after n i h = elim (Bool-cases (n == i)) [
  | inl e ↦ inl (ground arith)
  | inr e ↦ inr (ground arith)
]

from_first :
    (P : ℕ → Type 0) (n end : ℕ)
    → P n
    → ((i : ℕ) → n + 1 ≤ i → i < end → P i)
    → (i : ℕ) → n ≤ i
    → i < end
    → P i
from_first P n end p rest i a b = elim (at_or_after n i a) [
  | inl same ↦ subst P same p
  | inr later ↦ rest i later b
]

search_slot :
    (fuel n : ℕ) (m : Objects)
    → ((k : ℕ) × (free_slot fuel n (quiet m) ≡ (ok k, quiet m)) × IsFirstFree m n k)
      ⊎ ((i : ℕ) → n ≤ i → i < n + fuel → IsTaken m i)
unfolding free_slot IsFirstFree IsTaken is_some
search_slot zero n m = inr (λ i a b. absurd (omega arith))
search_slot (suc fuel) n m = elim (Option-cases (lookup (numbered n) m)) [
  | inl e ↦ inl (
    n,
    (rw (exists-quiet (numbered n) m, e) refl),
    (e, omega arith, λ i a b. absurd (omega arith)),
  )
  | inr taken ↦ elim (search_slot fuel (n + 1) m) [
    | inl (k, h, (unused, a, before)) ↦ inl (
      k,
      (rw (exists-quiet (numbered n) m, taken.1) h),
      (unused, omega arith, from_first _ n k taken before),
    )
    | inr all ↦ inr (from_first (IsTaken m) n (n + suc fuel) taken (λ i a b. all i a (omega arith)))
  ]
]

-- The search spends one unit on each slot, and one more than there are objects is enough: it finds the
-- first `key<N>`, from 1 on, under which there is no key file.
pub free_slot-IsFirstFree :
    (m : Objects)
    → (k : ℕ) × (free_slot (suc (length m)) 1 (quiet m) ≡ (ok k, quiet m)) × IsFirstFree m 1 k
free_slot-IsFirstFree m = elim (search_slot (suc (length m)) 1 m) [
  | inl found ↦ found
  | inr all ↦ let few = taken-le (suc (length m)) 1 m all in absurd (omega arith)
]

-- Also where calls may fail, what is returned is free.
pub free_slot-unused :
    (fuel n : ℕ) (b b' : Backend) (k : ℕ)
    → free_slot fuel n b ≡ (ok k, b')
    → (lookup (numbered k) b.objects ≡ none) × (b'.objects ≡ b.objects)
unfolding free_slot
free_slot-unused zero n b b' k h = absurd (cc)
free_slot-unused (suc fuel) n b b' k h =
    let (there, c, q, h1) = >>=-eq_ok (exists (numbered n)) _ b k b' h in
    let (found, objects) = Outcome-ok (exists_Outcome b (numbered n)) q in
    go there c found objects h1 (λ h2. free_slot-unused fuel (n + 1) c b' k h2)
  where
    go :
        (there : Bool) (c : Backend)
        → there ≡ is_some (lookup (numbered n) b.objects)
        → c.objects ≡ b.objects
        → ◌≡◌ {A = Result ℕ × Backend}
            ((if there then free_slot fuel (n + 1) else pure n) c)
            (ok k, b')
        → (free_slot fuel (n + 1) c ≡ (ok k, b')
            → (lookup (numbered k) c.objects ≡ none) × (b'.objects ≡ c.objects))
        → (lookup (numbered k) b.objects ≡ none) × (b'.objects ≡ b.objects)
    go true c found objects h1 later =
        let (unused, same) = later h1 in
        (subst (λ l. lookup (numbered k) l ≡ none) objects unused, same ∙ objects)
    go false c found objects h1 later =
        let answer : ◌≡◌ {A = Result ℕ} (ok n) (ok k) = ap (λ (r : Result ℕ × Backend). r.0) h1 in
        let same : n ≡ k = cc in
        (
          subst (λ j. lookup (numbered j) b.objects ≡ none) same
              (is_some-none (lookup (numbered n) b.objects) (sym found)),
          ap (λ (r : Result ℕ × Backend). r.1.objects) (sym h1) ∙ objects,
        )
