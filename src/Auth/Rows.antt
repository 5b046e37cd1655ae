-- ===== src/Auth/Rows.antt =====
-- catalog_auth.rs: which statements keep the values of a column distinct.
use server_backup.Common.{
  ℕ, ◌≡◌, refl, sym, ap, subst, ◌⊎◌, inl, inr, true, false, Option, none, some, List, [], ◌∷◌,
  arith, leb, Has, Bool-cases,
}
use server_backup.Common.Texts.{Text, text_eq, text_eq_iff, text_eq_sound}
use server_backup.Catalog.{
  UserRow, SessionRow, find_username, has_password, has_token, drop_expired, drop_token,
  drop_user_sessions, drop_sessions_of, update_role, update_password, delete_username,
}
use server_backup.Common.Distinct.{Distinct, Sub, empty, kept, left_out, Sub-refl}
use server_backup.Auth.Tables.{ids, usernames, token_hashes, drop_user_sessions_gone}

-- The rows that a DELETE leaves.
pub Sub-drop_expired :
    (now : ℕ) (sessions : List SessionRow) → Sub (drop_expired now sessions) sessions
unfolding drop_expired
Sub-drop_expired now [] = empty
Sub-drop_expired now (r ∷ sessions) = elim (Bool-cases (leb r.expires_at now)) [
  | inl e ↦ rw e (left_out (Sub-drop_expired now sessions))
  | inr e ↦ rw e (kept (Sub-drop_expired now sessions))
]

pub Sub-drop_token :
    (digest : Text) (sessions : List SessionRow) → Sub (drop_token digest sessions) sessions
unfolding drop_token
Sub-drop_token digest [] = empty
Sub-drop_token digest (r ∷ sessions) = elim (Bool-cases (text_eq r.token_hash digest)) [
  | inl e ↦ rw e (left_out (Sub-drop_token digest sessions))
  | inr e ↦ rw e (kept (Sub-drop_token digest sessions))
]

Sub-drop_user_sessions :
    (id : Text) (sessions : List SessionRow) → Sub (drop_user_sessions id sessions) sessions
unfolding drop_user_sessions
Sub-drop_user_sessions id [] = empty
Sub-drop_user_sessions id (r ∷ sessions) = elim (Bool-cases (text_eq r.user_id id)) [
  | inl e ↦ rw e (left_out (Sub-drop_user_sessions id sessions))
  | inr e ↦ rw e (kept (Sub-drop_user_sessions id sessions))
]

pub Sub-drop_sessions_of :
    (row : Option UserRow) (sessions : List SessionRow)
    → Sub (drop_sessions_of row sessions) sessions
unfolding drop_sessions_of
Sub-drop_sessions_of none sessions = Sub-refl sessions
Sub-drop_sessions_of (some row) sessions = Sub-drop_user_sessions row.id sessions

pub drop_sessions_of_gone :
    (row : UserRow) (sessions : List SessionRow) (s : SessionRow)
    → Has s (drop_sessions_of (some row) sessions)
    → text_eq s.user_id row.id ≡ false
unfolding drop_sessions_of
drop_sessions_of_gone row sessions s m =
    let (_, e) = drop_user_sessions_gone row.id sessions s m in e

pub Sub-delete_username :
    (name : Text) (users : List UserRow) → Sub (delete_username name users) users
unfolding delete_username
Sub-delete_username name [] = empty
Sub-delete_username name (u ∷ users) = elim (Bool-cases (text_eq u.username name)) [
  | inl e ↦ rw e (left_out (Sub-delete_username name users))
  | inr e ↦ rw e (kept (Sub-delete_username name users))
]

-- An UPDATE changes no key.
pub usernames-update_password :
    (name phc : Text) (users : List UserRow)
    → usernames (update_password name phc users) ≡ usernames users
unfolding update_password
usernames-update_password name phc [] = refl
usernames-update_password name phc (u ∷ users) = elim (Bool-cases (text_eq u.username name)) [
  | inl e ↦ rw e (ap (λ l. u.username ∷ l) (usernames-update_password name phc users))
  | inr e ↦ rw e (ap (λ l. u.username ∷ l) (usernames-update_password name phc users))
]

pub keys-update_role :
    (name role : Text) (users : List UserRow)
    → (ids (update_role name role users) ≡ ids users)
      × (usernames (update_role name role users) ≡ usernames users)
unfolding update_role
keys-update_role name role [] = (refl, refl)
keys-update_role name role (u ∷ users) =
    let (i, n) = keys-update_role name role users in
    elim (Bool-cases (text_eq u.username name)) [
      | inl e ↦ (rw e (ap (λ l. u.id ∷ l) i), rw e (ap (λ l. u.username ∷ l) n))
      | inr e ↦ (rw e (ap (λ l. u.id ∷ l) i), rw e (ap (λ l. u.username ∷ l) n))
    ]

pub has_password-Has :
    (id phc : Text) (users : List UserRow) → has_password id phc users ≡ true → Has id (ids users)
unfolding has_password
has_password-Has id phc [] h = absurd (cc)
has_password-Has id phc (u ∷ users) h = elim (Bool-cases (text_eq u.id id)) [
  | inl e ↦ inl (sym (text_eq_sound u.id id e))
  | inr e ↦ inr (has_password-Has id phc users (rw e at h))
]

pub has_token_none :
    (digest : Text) (sessions : List SessionRow)
    → has_token digest sessions ≡ false
    → ¬ Has digest (token_hashes sessions)
unfolding has_token
has_token_none digest [] h m = m
has_token_none digest (r ∷ sessions) h m = elim (Bool-cases (text_eq r.token_hash digest)) [
  | inl e ↦ absurd (ground arith)
  | inr e ↦ elim m [
    | inl same ↦ absurd (cc (e, (text_eq_iff r.token_hash digest).1 (sym same)))
    | inr later ↦ has_token_none digest sessions (rw e at h) later
  ]
]

delete_username_none :
    (name : Text) (users : List UserRow)
    → ¬ Has name (usernames users)
    → delete_username name users ≡ users
unfolding delete_username
delete_username_none name [] n = refl
delete_username_none name (u ∷ users) n = elim (Bool-cases (text_eq u.username name)) [
  | inl e ↦ absurd (n (inl (sym (text_eq_sound u.username name e))))
  | inr e ↦ rw e (ap (λ l. u ∷ l) (delete_username_none name users (λ m. n (inr m))))
]

-- A DELETE by a unique name takes away one user's id only.
pub Has-ids-delete_username :
    (id name : Text) (users : List UserRow)
    → Distinct (usernames users)
    → Has id (ids users)
    → ((row : UserRow) → find_username name users ≡ some row → text_eq id row.id ≡ false)
    → Has id (ids (delete_username name users))
unfolding Distinct delete_username find_username
Has-ids-delete_username id name [] d m h = m
Has-ids-delete_username id name (u ∷ users) (fresh, d) m h =
    elim (Bool-cases (text_eq u.username name)) [
      | inl e ↦ rw e (
          subst (λ l. Has id (ids l))
            (sym (
              delete_username_none name users (λ n.
                fresh (
                  subst (λ t. Has t (usernames users)) (sym (text_eq_sound u.username name e)) n))))
            (behind m (h u (rw e refl))))
      | inr e ↦ rw e (elim m [
        | inl same ↦ inl same
        | inr later ↦ inr (Has-ids-delete_username id name users d later (λ row k. h row (rw e k)))
      ])
    ]
  where
    behind : (id ≡ u.id) ⊎ Has id (ids users) → text_eq id u.id ≡ false → Has id (ids users)
    behind (inl same) other = absurd (cc (other, (text_eq_iff id u.id).1 same))
    behind (inr later) other = later
