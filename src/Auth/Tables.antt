-- ===== src/Auth/Tables.antt =====
-- catalog_auth.rs: what the statements do to the rows.
use server_backup.Common.{
  ℕ, ◌<◌, ◌≡◌, refl, sym, ap, ◌∙◌, subst, ◌⊎◌, inl, inr, Bool, true, false, ◌&&◌, ◌||◌, some, List,
  [], ◌∷◌, ◌++◌, arith, map, Has, Bool-cases,
}
use server_backup.Common.Texts.{Text, text_eq, text_eq_iff, text_eq_refl, text_eq_sound}
use server_backup.Common.Errors.{ok}
use server_backup.Common.Actions.{Action, >>=-eq_ok, ◌>>◌}
use server_backup.Common.Distinct.{Distinct}
use server_backup.Catalog.{
  UserRow, SessionRow, Db, query, find_username, find_id, has_password, has_token,
  drop_user_sessions, find_session, update_password, found,
}

abbrev pub ids : List UserRow → List Text
ids users = map (λ u. u.id) users

abbrev pub usernames : List UserRow → List Text
usernames users = map (λ u. u.username) users

abbrev pub token_hashes : List SessionRow → List Text
token_hashes sessions = map (λ s. s.token_hash) sessions

-- The keys of the schema: two unique columns of users, the key of sessions, and its reference.
pub record IsValid (db : Db) : Type 0 where
  pub unique_ids : Distinct (ids db.users)
  pub unique_names : Distinct (usernames db.users)
  pub unique_tokens : Distinct (token_hashes db.sessions)
  pub owned : (s : SessionRow) → Has s db.sessions → Has s.user_id (ids db.users)

-- A statement that returns leaves the tables as they are.
pub query_tables :
    (db db' : Db)
    → query db ≡ (ok tt, db')
    → (db'.users ≡ db.users) × (db'.sessions ≡ db.sessions) × (db'.limit ≡ db.limit)
unfolding query
query_tables db db' h = go db.faults h
  where
    go :
        (faults : List Bool)
        → query (record db { faults = faults }) ≡ (ok tt, db')
        → (db'.users ≡ db.users) × (db'.sessions ≡ db.sessions) × (db'.limit ≡ db.limit)
    go [] e = ground arith
    go (true ∷ later) e = ground arith
    go (false ∷ later) e = ground arith

-- A statement and what follows it.
pub query-then :
    {A : Type 0} (f : Action Db A) (db db' : Db) (a : A)
    → (query >> f) db ≡ (ok a, db')
    → (d : Db) × (d.users ≡ db.users)
      × (d.sessions ≡ db.sessions)
      × (d.limit ≡ db.limit)
      × (f d ≡ (ok a, db'))
query-then f db db' a h =
    let (_, d, q, k) = >>=-eq_ok query (λ _. f) db a db' h in
    let (users, sessions, limit) = query_tables db d q in (d, users, sessions, limit, k)

pub Has-find_username :
    (name : Text) (users : List UserRow) (row : UserRow)
    → find_username name users ≡ some row
    → Has row users × (row.username ≡ name)
unfolding find_username
Has-find_username name [] row h = absurd (cc)
Has-find_username name (u ∷ users) row h = elim (Bool-cases (text_eq u.username name)) [
  | inl e ↦ let same : some u ≡ some row = (rw e at h) in (inl (cc same), hit e same)
  | inr e ↦ let (m, n) = Has-find_username name users row (rw e at h) in (inr m, n)
]
  where
    hit : text_eq u.username name ≡ true → some u ≡ some row → row.username ≡ name
    hit e same =
        let both : u ≡ row = cc in
        ap (λ (r : UserRow). r.username) (sym both) ∙ text_eq_sound u.username name e

pub find_username_none :
    (name : Text) (users : List UserRow)
    → found (find_username name users) ≡ false
    → ¬ Has name (usernames users)
unfolding find_username found
find_username_none name [] h m = m
find_username_none name (u ∷ users) h m = elim (Bool-cases (text_eq u.username name)) [
  | inl e ↦ absurd (ground arith)
  | inr e ↦ elim m [
    | inl same ↦ absurd (cc (e, (text_eq_iff u.username name).1 (sym same)))
    | inr later ↦ find_username_none name users (rw e at h) later
  ]
]

pub find_id_none :
    (id : Text) (users : List UserRow) → found (find_id id users) ≡ false → ¬ Has id (ids users)
unfolding find_id found
find_id_none id [] h m = m
find_id_none id (u ∷ users) h m = elim (Bool-cases (text_eq u.id id)) [
  | inl e ↦ absurd (ground arith)
  | inr e ↦ elim m [
    | inl same ↦ absurd (cc (e, (text_eq_iff u.id id).1 (sym same)))
    | inr later ↦ find_id_none id users (rw e at h) later
  ]
]

pub Has-ids : (row : UserRow) (users : List UserRow) → Has row users → Has row.id (ids users)
Has-ids row [] m = m
Has-ids row (u ∷ users) (inl e) = inl (ap (λ (r : UserRow). r.id) e)
Has-ids row (u ∷ users) (inr m) = inr (Has-ids row users m)

-- With distinct ids, a row is found by its id.
pub find_id-Has :
    (row : UserRow) (users : List UserRow)
    → Distinct (ids users)
    → Has row users
    → find_id row.id users ≡ some row
unfolding find_id Distinct
find_id-Has row [] d m = absurd m
find_id-Has row (u ∷ users) (fresh, d) (inl e) = rw e (rw (text_eq_refl u.id))
find_id-Has row (u ∷ users) (fresh, d) (inr m) = elim (Bool-cases (text_eq u.id row.id)) [
  | inl e ↦ absurd (
      fresh
        (subst (λ t. Has t (ids users)) (sym (text_eq_sound u.id row.id e)) (Has-ids row users m)))
  | inr e ↦ rw e (find_id-Has row users d m)
]

pub drop_user_sessions_gone :
    (id : Text) (sessions : List SessionRow) (s : SessionRow)
    → Has s (drop_user_sessions id sessions)
    → Has s sessions × (text_eq s.user_id id ≡ false)
unfolding drop_user_sessions
drop_user_sessions_gone id [] s m = absurd m
drop_user_sessions_gone id (r ∷ sessions) s m = elim (Bool-cases (text_eq r.user_id id)) [
  | inl e ↦ let (a, b) = drop_user_sessions_gone id sessions s (rw e at m) in (inr a, b)
  | inr e ↦ elim (split (rw e at m)) [
    | inl same ↦ (inl same, ap (λ (t : SessionRow). text_eq t.user_id id) same ∙ e)
    | inr later ↦ let (a, b) = drop_user_sessions_gone id sessions s later in (inr a, b)
  ]
]
  where
    split :
        Has s (r ∷ drop_user_sessions id sessions)
        → (s ≡ r) ⊎ Has s (drop_user_sessions id sessions)
    split n = n

-- A session that stands behind others with other tokens is the one that is found.
pub find_session_last :
    (digest : Text) (now : ℕ) (users : List UserRow) (sessions : List SessionRow) (s : SessionRow)
    → has_token digest sessions ≡ false
    → s.token_hash ≡ digest
    → now < s.expires_at
    → find_session digest now users (sessions ++ s ∷ []) ≡ find_id s.user_id users
unfolding find_session has_token
find_session_last digest now users [] s h e lt = ground (arith, text_eq_iff s.token_hash digest)
find_session_last digest now users (r ∷ sessions) s h e lt =
    ground (arith, find_session_last digest now users sessions s)

pub ids-update_password :
    (name phc : Text) (users : List UserRow) → ids (update_password name phc users) ≡ ids users
unfolding update_password
ids-update_password name phc [] = refl
ids-update_password name phc (u ∷ users) = elim (Bool-cases (text_eq u.username name)) [
  | inl e ↦ rw e (ap (λ l. u.id ∷ l) (ids-update_password name phc users))
  | inr e ↦ rw e (ap (λ l. u.id ∷ l) (ids-update_password name phc users))
]

no_row :
    (id old : Text) (users : List UserRow)
    → ¬ Has id (ids users)
    → has_password id old users ≡ false
unfolding has_password
no_row id old [] h = refl
no_row id old (u ∷ users) h = elim (Bool-cases (text_eq u.id id)) [
  | inl e ↦ absurd (h (inl (sym (text_eq_sound u.id id e))))
  | inr e ↦ rw e (no_row id old users (λ m. h (inr m)))
]

-- After a password change, no row has the user's id with another hash than the new one.
pub has_password-update :
    (name phc old : Text) (row : UserRow) (users : List UserRow)
    → Distinct (ids users)
    → find_username name users ≡ some row
    → text_eq phc old ≡ false
    → has_password row.id old (update_password name phc users) ≡ false
unfolding has_password update_password find_username Distinct
has_password-update name phc old row [] d h n = absurd (cc)
has_password-update name phc old row (u ∷ users) (fresh, d) h n =
    elim (Bool-cases (text_eq u.username name)) [
      | inl e ↦ rw e (neither _ _ _ n (first (rw e at h)))
      | inr e ↦ rw e (
          neither_id _ _ _ (other (rw e at h))
            (has_password-update name phc old row users d (rw e at h) n))
    ]
  where
    neither : (a b c : Bool) → b ≡ false → c ≡ false → (a && b || c) ≡ false
    neither a b c p q = ground arith

    neither_id : (a b c : Bool) → a ≡ false → c ≡ false → (a && b || c) ≡ false
    neither_id a b c p q = ground arith

    first : some u ≡ some row → has_password row.id old (update_password name phc users) ≡ false
    first e =
        let same : u ≡ row = cc in
        no_row row.id old (update_password name phc users) (
          subst (λ l. ¬ Has row.id l) (sym (ids-update_password name phc users))
            (subst (λ (r : UserRow). ¬ Has r.id (ids users)) same fresh))

    other : find_username name users ≡ some row → text_eq u.id row.id ≡ false
    other e = elim (Bool-cases (text_eq u.id row.id)) [
      | inl same ↦ absurd (
          fresh (
            subst (λ t. Has t (ids users)) (sym (text_eq_sound u.id row.id same))
              (Has-ids row users (Has-find_username name users row e).0)))
      | inr differ ↦ differ
    ]
