-- ===== src/Access/Admins.antt =====
-- api.rs: who is let through to the handlers of /api/users.
use server_backup.Common.{
  ℕ, ◌≡◌, ◌≢◌, refl, sym, ap, subst, inl, inr, Bool, true, false, if◌then◌else◌, Option, none, some,
  List, [], ◌∷◌, arith, leb, ltb, ◌<◌, ◌&&◌, Has, Bool-cases,
}
use server_backup.Common.Texts.{Text, bytes, text_eq, text_eq_sound}
use server_backup.Common.Errors.{Result, ok, err, catalog, ok_injective}
use server_backup.Catalog.{
  Role, viewer, operator, admin, User, UserRow, SessionRow, Db, from_str, with_role, user_from_row,
  find_id, find_session,
}
use server_backup.Auth.{Passwords, or_unauthorized, session_user}
use server_backup.Auth.Tables.{query-then}
use server_backup.Access.{
  Answer, reply, refuse, forbidden, Request, UserCall, get_users, post_user, delete_named,
  post_role, Reply, request_token, require_min_role, rank, gated, continue_with, answer_to,
  invalid_session, user_of_token, require_session, handle_list_users, handle_add_user,
  handle_remove_user, handle_set_role, handle,
}

-- What a request to a handler of /api/users shows of the tables that its user was found in.
pub record Authorized (pw : Passwords) (now : ℕ) (request : Request) (db : Db) : Type 0 where
  pub token : Text
  pub presented : request_token request ≡ some token
  pub session : SessionRow
  pub stored : Has session db.sessions
  pub digested : session.token_hash ≡ pw.token_hash token
  pub fresh : now < session.expires_at
  pub row : UserRow
  pub known : Has row db.users
  pub owner : row.id ≡ session.user_id
  pub as_admin : row.role ≡ bytes "admin"

find_id_row :
    (id : Text) (users : List UserRow) (row : UserRow)
    → find_id id users ≡ some row
    → Has row users × (row.id ≡ id)
unfolding find_id
find_id_row id [] row h = absurd (cc)
find_id_row id (r ∷ users) row h = elim (Bool-cases (text_eq r.id id)) [
  | inl e ↦
      let here : some r ≡ some row = rw e at h in
      let same : r ≡ row = cc in
      (inl (sym same), subst (λ (x : UserRow). x.id ≡ id) same (text_eq_sound r.id id e))
  | inr e ↦
      let later : find_id id users ≡ some row = rw e at h in
      let (m, i) = find_id_row id users row later in (inr m, i)
]

find_session_row :
    (digest : Text) (now : ℕ) (users : List UserRow) (sessions : List SessionRow) (row : UserRow)
    → find_session digest now users sessions ≡ some row
    → (s : SessionRow) × Has s sessions
      × (s.token_hash ≡ digest)
      × (now < s.expires_at)
      × Has row users
      × (row.id ≡ s.user_id)
unfolding find_session
find_session_row digest now users [] row h = absurd (cc)
find_session_row digest now users (s ∷ sessions) row h =
    elim (Bool-cases (text_eq s.token_hash digest && ltb now s.expires_at)) [
      | inl e ↦
          let here : find_id s.user_id users ≡ some row = rw e at h in
          let (m, i) = find_id_row s.user_id users row here in
          let same : text_eq s.token_hash digest ≡ true = ground arith in
          (s, inl refl, text_eq_sound s.token_hash digest same, ground arith, m, i)
      | inr e ↦
          let later : find_session digest now users sessions ≡ some row = rw e at h in
          let (t, m, d, l, k, i) = find_session_row digest now users sessions row later in
          (t, inr m, d, l, k, i)
    ]

not_admin :
    (is_operator is_viewer : Bool)
    → (if is_operator then ok operator else if is_viewer then ok viewer else err catalog) ≢ ok admin
not_admin true v h = cc
not_admin false true h = cc
not_admin false false h = cc

from_str-admin :
    (text : Text) (role : Role) → from_str text ≡ ok role → role ≡ admin → text ≡ bytes "admin"
unfolding from_str
from_str-admin text role h e = elim (Bool-cases (text_eq text (bytes "admin"))) [
  | inl t ↦ text_eq_sound text (bytes "admin") t
  | inr t ↦
      let parsed : from_str text ≡ ok admin = subst (λ r. from_str text ≡ ok r) e h in
      absurd (
        not_admin (text_eq text (bytes "operator")) (text_eq text (bytes "viewer"))
          (rw t at parsed))
]

reply_injective : {A : Type 0} {a b : A} → reply a ≡ reply b → a ≡ b
reply_injective h = cc

with_role-role :
    (row : UserRow) (parsed : Result Role) (user : User)
    → with_role row parsed ≡ ok user
    → parsed ≡ ok user.role
unfolding with_role
with_role-role row (ok role) user h = ap ok (ap (λ (u : User). u.role) (ok_injective h))
with_role-role row (err e) user h = absurd (cc)

top : (role : Role) → leb 2 (rank role) ≡ true → role ≡ admin
unfolding rank
top viewer h = ground arith
top operator h = ground arith
top admin h = refl

module _ (pw : Passwords) where
  shut :
      (handler : Db → Answer Reply × Db) (user : User) (db : Db)
      → leb 2 (rank user.role) ≡ false
      → gated user admin handler db ≡ (refuse forbidden, db)
  unfolding gated require_min_role rank continue_with
  shut handler user db e = rw e refl

  all_shut :
      (call : UserCall) (user : User) (db : Db)
      → leb 2 (rank user.role) ≡ false
      → handle pw call user db ≡ (refuse forbidden, db)
  unfolding handle handle_list_users handle_add_user handle_remove_user handle_set_role
  all_shut get_users user db e = shut _ user db e
  all_shut (post_user id salt username password role) user db e = shut _ user db e
  all_shut (delete_named username) user db e = shut _ user db e
  all_shut (post_role username role) user db e = shut _ user db e

  let_in :
      (call : UserCall) (user : User) (db : Db)
      → handle pw call user db ≢ (refuse forbidden, db)
      → user.role ≡ admin
  let_in call user db h = elim (Bool-cases (leb 2 (rank user.role))) [
    | inl e ↦ top user.role e
    | inr e ↦ absurd (h (all_shut call user db e))
  ]

  found_row :
      (o : Option UserRow) (user : User)
      → or_unauthorized pw o ≡ ok user
      → (row : UserRow) × (o ≡ some row) × (user_from_row row ≡ ok user)
  unfolding or_unauthorized
  found_row none user h = absurd (cc)
  found_row (some row) user h = (row, refl, h)

  -- The user that a token is resolved to.
  session_user_ok :
      (now : ℕ) (token : Text) (db db' : Db) (user : User)
      → session_user pw now token db ≡ (ok user, db')
      → (row : UserRow) × (find_session (pw.token_hash token) now db.users db.sessions ≡ some row)
        × (user_from_row row ≡ ok user)
  unfolding session_user
  session_user_ok now token db db' user h =
      let (d, users, sessions, _, k) =
        query-then
          (λ d. (or_unauthorized pw (find_session (pw.token_hash token) now d.users d.sessions), d))
          db db' user h in
      let (row, hit, from) = found_row _ user (ap (λ (p : Result User × Db). p.0) k) in
      (
        row,
        subst (λ ss. find_session (pw.token_hash token) now db.users ss ≡ some row) sessions
            (subst (λ us. find_session (pw.token_hash token) now us d.sessions ≡ some row) users
              hit),
        from,
      )

  valid : (r : Result User) (user : User) → invalid_session r ≡ reply user → r ≡ ok user
  unfolding invalid_session
  valid (ok u) user h = ap ok (reply_injective h)
  valid (err e) user h = absurd (cc)

  resolved :
      (now : ℕ) (t : Option Text) (db db' : Db) (user : User)
      → user_of_token pw now t db ≡ (reply user, db')
      → (token : Text) × (t ≡ some token)
        × (later : Db) × (session_user pw now token db ≡ (ok user, later))
  unfolding user_of_token answer_to
  resolved now none db db' user h = absurd (cc)
  resolved now (some token) db db' user h =
      let out = session_user pw now token db in
      (
        token,
        refl,
        out.1,
        ap (λ r. (r, out.1)) (valid out.0 user (ap (λ (p : Answer User × Db). p.0) h)),
      )

  -- A request is let through on some tables, and its handler runs later, on whatever tables it then
  -- meets. When a handler of /api/users does anything but refuse with `forbidden` and change nothing,
  -- the request carried a token, and the tables that it was let through on had a session of that
  -- token which had not expired, and the session's user, with the role `admin`.
  pub handle-Authorized :
      (now : ℕ) (request : Request) (db db' : Db) (user : User) (call : UserCall) (later : Db)
      → require_session pw now request db ≡ (reply user, db')
      → handle pw call user later ≢ (refuse forbidden, later)
      → Authorized pw now request db
  unfolding require_session
  handle-Authorized now request db db' user call later h acts =
      let (token, presented, after, k) = resolved now (request_token request) db db' user h in
      let (row, hit, from) = session_user_ok now token db after user k in
      let (s, stored, digested, fresh, known, owner) =
        find_session_row (pw.token_hash token) now db.users db.sessions row hit in
      record {
        token = token;
        presented = presented;
        session = s;
        stored = stored;
        digested = digested;
        fresh = fresh;
        row = row;
        known = known;
        owner = owner;
        as_admin =
            from_str-admin row.role user.role (with_role-role row (from_str row.role) user from)
              (let_in call user later acts);
      }
