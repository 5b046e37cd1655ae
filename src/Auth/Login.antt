-- ===== src/Auth/Login.antt =====
-- catalog_auth.rs: what a login and a change of password guarantee, other requests included.
use server_backup.Common.{
  ℕ, ◌+◌, ◌<◌, ◌≡◌, refl, sym, ap, ◌∙◌, subst, inl, inr, true, false, Option, none, some, [], ◌∷◌,
  ◌++◌, arith, if◌then◌else◌, Bool-cases,
}
use server_backup.Common.Texts.{Text}
use server_backup.Common.Errors.{Result, ok, err, unauthorized, rate_limited}
use server_backup.Common.Actions.{lift-then, >>=-eq_ok}
use server_backup.Catalog.{
  User, Session, UserRow, Db, query, session_ttl_secs, validate_username, validate_password,
  find_username, find_id, has_password, has_token, drop_expired, find_session, user_from_row,
  from_str, Role, with_role,
}
use server_backup.Auth.{
  Passwords, Candidate, Readings, check_password, enforce_login_limit_at, next_limit, login_check,
  insert_session, check_password_hash, login_issue, login, or_unauthorized, session_user,
}
use server_backup.Auth.Tables.{
  IsValid, query-then, Has-find_username, find_id-Has, find_session_last,
}

module _ (pw : Passwords) where
  -- What the insertion of a session has found and done.
  pub insert_session_ok :
      (c : Candidate) (token : Text) (expires_at : ℕ) (db db' : Db) (s : Session)
      → insert_session pw c token expires_at db ≡ (ok s, db')
      → (has_password c.user.id c.phc db.users ≡ true)
        × (has_token (pw.token_hash token) db.sessions ≡ false)
        × (s ≡ record { token = token; user = c.user; expires_at = expires_at })
        × (db'.users ≡ db.users)
        × (db'.sessions
            ≡ db.sessions
              ++ record {
                token_hash = pw.token_hash token;
                user_id = c.user.id;
                expires_at = expires_at;
              }
                ∷ [])
  unfolding insert_session
  insert_session_ok c token expires_at db db' s h = ground arith

  check_password_ok :
      (password : Text) (row : Option UserRow) (c : Candidate)
      → check_password pw password row ≡ ok c
      → (r : UserRow) × (row ≡ some r)
        × (user_from_row r ≡ ok c.user)
        × (c.phc ≡ r.password_hash)
        × (pw.verify_password password r.password_hash ≡ true)
  unfolding check_password check_password_hash
  check_password_ok password none c h = absurd (cc)
  check_password_ok password (some r) c h = go (user_from_row r) refl h
    where
      go :
          (user : Result User)
          → user_from_row r ≡ user
          → check_password_hash pw password r.password_hash user ≡ ok c
          → (r' : UserRow) × (some r ≡ some r')
            × (user_from_row r' ≡ ok c.user)
            × (c.phc ≡ r'.password_hash)
            × (pw.verify_password password r'.password_hash ≡ true)
      go (err x) e k = absurd (cc)
      go (ok user) e k = elim (Bool-cases (pw.verify_password password r.password_hash)) [
        | inl v ↦
            let all : ◌≡◌ {A = Result Candidate}
                (ok (record { user = user; phc = r.password_hash })) (ok c) =
              (rw v at k) in
            let same : record { user = user; phc = r.password_hash } ≡ c = cc in
            (
              r,
              refl,
              e ∙ ap (λ (d : Candidate). ok d.user) same,
              ap (λ (d : Candidate). d.phc) (sym same),
              v,
            )
        | inr v ↦
            let all : ◌≡◌ {A = Result Candidate} (err unauthorized) (ok c) = (rw v at k) in
            absurd (cc)
      ]

  user_from_row-id : (r : UserRow) (user : User) → user_from_row r ≡ ok user → user.id ≡ r.id
  unfolding user_from_row with_role
  user_from_row-id r user h = go (from_str r.role) h
    where
      go : (role : Result Role) → with_role r role ≡ ok user → user.id ≡ r.id
      go (ok role) e =
          let same : record { id = r.id; username = r.username; role = role } ≡ user = cc in
          ap (λ (u : User). u.id) (sym same)
      go (err x) e = absurd (cc)

  enforce_tables :
      (now : ℕ) (db db' : Db)
      → enforce_login_limit_at now db ≡ (ok tt, db')
      → (db'.users ≡ db.users) × (db'.sessions ≡ db.sessions)
  unfolding enforce_login_limit_at
  enforce_tables now db db' h =
      let (d, users, sessions, limit, k) = query-then _ db db' tt h in
      let (same_users, same_sessions) = counted d k in
      (same_users ∙ users, same_sessions ∙ sessions)
    where
      counted :
          (d : Db)
          → ◌≡◌ {A = Result (Unit {0}) × Db}
              (if (next_limit now d.limit).1
                then (ok tt, record d { limit = (next_limit now d.limit).0 })
                else (err rate_limited, d))
              (ok tt, db')
          → (db'.users ≡ d.users) × (db'.sessions ≡ d.sessions)
      counted d k = ground arith

  login_check_ok :
      (now : ℕ) (username password : Text) (db db' : Db) (c : Candidate)
      → login_check pw now username password db ≡ (ok c, db')
      → (db'.users ≡ db.users)
        × (db'.sessions ≡ db.sessions)
        × (check_password pw password (find_username username db.users) ≡ ok c)
  unfolding login_check
  login_check_ok now username password db db' c h =
      let (_, _, h1) = lift-then (validate_username username) _ db db' c h in
      let (_, _, h2) = lift-then (validate_password password) _ db db' c h1 in
      let (_, d, q, h3) = >>=-eq_ok (enforce_login_limit_at now) _ db c db' h2 in
      let (users, sessions) = enforce_tables now db d q in
      let (d', users', sessions', _, h4) = query-then _ d db' c h3 in
      let answer : check_password pw password (find_username username d'.users) ≡ ok c =
        ap (λ (p : Result Candidate × Db). p.0) h4 in
      let left : d' ≡ db' = ap (λ (p : Result Candidate × Db). p.1) h4 in
      let kept : d'.users ≡ db.users = users' ∙ users in
      (
        subst (λ (e : Db). e.users ≡ db.users) left kept,
        subst (λ (e : Db). e.sessions ≡ db.sessions) left (sessions' ∙ sessions),
        subst (λ l. check_password pw password (find_username username l) ≡ ok c) kept answer,
      )

  pub login_issue_ok :
      (issued cleaned : ℕ) (token : Text) (c : Candidate) (db db' : Db) (s : Session)
      → login_issue pw issued cleaned token c db ≡ (ok s, db')
      → (db1 : Db) × (db1.users ≡ db.users)
        × (db1.sessions ≡ drop_expired cleaned db.sessions)
        × (insert_session pw c token (issued + session_ttl_secs) db1 ≡ (ok s, db'))
  unfolding login_issue
  login_issue_ok issued cleaned token c db db' s h =
      let (d, users, sessions, _, h1) = query-then _ db db' s h in
      let (d', users', sessions', _, h2) =
        query-then _ (record d { sessions = drop_expired cleaned d.sessions }) db' s h1 in
      (d', users' ∙ users, sessions' ∙ ap (drop_expired cleaned) sessions, h2)

  -- A login that has returned a session has stored it: until it expires, its token finds the user that
  -- has logged in.
  pub session_user-login :
      (now : Readings) (token username password : Text) (db db' : Db) (s : Session) (t : ℕ)
      → IsValid db
      → login pw now token username password db ≡ (ok s, db')
      → t < s.expires_at
      → (session_user pw t s.token (record db' { faults = [] })).0 ≡ ok s.user
  unfolding login session_user query or_unauthorized
  session_user-login now token username password db db' s t v h lt =
      let (c, d1, q1, h1) = >>=-eq_ok (login_check pw now.limited username password) _ db s db' h in
      let (users1, sessions1, checked) = login_check_ok now.limited username password db d1 c q1 in
      let (r, at_row, parsed, phc, verified) =
        check_password_ok password (find_username username db.users) c checked in
      let (d2, users2, sessions2, h2) = login_issue_ok now.issued now.cleaned token c d1 db' s h1 in
      let (has, fresh, made, users3, sessions3) = insert_session_ok c token _ d2 db' s h2 in
      let id : c.user.id ≡ r.id = user_from_row-id r c.user parsed in
      let all_users : db'.users ≡ db.users = users3 ∙ users2 ∙ users1 in
      let at_id : find_id c.user.id db'.users ≡ some r =
        subst (λ i. find_id i db'.users ≡ some r) (sym id)
          (subst (λ l. find_id r.id l ≡ some r) (sym all_users)
            (find_id-Has r db.users v.unique_ids
              (Has-find_username username db.users r at_row).0)) in
      let expires : s.expires_at ≡ now.issued + session_ttl_secs =
        ap (λ (x : Session). x.expires_at) made in
      let at_token : find_session (pw.token_hash token) t db'.users db'.sessions ≡ some r =
        subst (λ l. find_session (pw.token_hash token) t db'.users l ≡ some r) (sym sessions3)
          (find_session_last (pw.token_hash token) t db'.users d2.sessions _ fresh refl
              (subst (λ e. t < e) expires lt)
            ∙ at_id) in
      let same_token : s.token ≡ token = ap (λ (x : Session). x.token) made in
      let same_user : s.user ≡ c.user = ap (λ (x : Session). x.user) made in
      subst
        (λ k.
          or_unauthorized pw (find_session (pw.token_hash k) t db'.users db'.sessions) ≡ ok s.user)
        (sym same_token) (rw at_token (parsed ∙ ap ok (sym same_user)))
