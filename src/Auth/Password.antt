-- ===== src/Auth/Password.antt =====
-- catalog_auth.rs: what a change of password takes away, from logins that are under way as well.
use server_backup.Common.{
  ℕ, ◌≡◌, sym, ap, ◌∙◌, subst, inl, inr, Bool, true, false, Option, none, some, List, if◌then◌else◌,
  Has, Bool-cases, ◌≢◌,
}
use server_backup.Common.Texts.{Text, text_eq, text_eq_iff, text_eq_sound}
use server_backup.Common.Errors.{Result, ok}
use server_backup.Common.Actions.{lift-then, ◌>>◌}
use server_backup.Common.Distinct.{Distinct}
use server_backup.Catalog.{
  Session, UserRow, SessionRow, Db, query, validate_username, validate_password, find_username,
  has_password, drop_user_sessions, drop_sessions_of, found, change_password,
}
use server_backup.Auth.{
  Passwords, Candidate, hashed, revoke_in_transaction, set_user_password, login_issue,
}
use server_backup.Auth.Tables.{
  IsValid, ids, query-then, drop_user_sessions_gone, has_password-update,
}
use server_backup.Auth.Login.{insert_session_ok, login_issue_ok}

hashed_ok : (o : Option Text) (phc : Text) → hashed o ≡ ok phc → o ≡ some phc
unfolding hashed
hashed_ok none phc h = absurd (cc)
hashed_ok (some q) phc h = ap some (cc)

module _ (pw : Passwords) where
  revoke_ok :
      (username phc : Text) (db db' : Db)
      → revoke_in_transaction pw username phc db ≡ (ok true, db')
      → (d : Db) × (d.users ≡ db.users)
        × (d.sessions ≡ db.sessions)
        × (change_password username phc d ≡ db')
  unfolding revoke_in_transaction
  revoke_ok username phc db db' h =
      let (d0, users0, sessions0, _, k0) = query-then _ db db' true h in
      let (d, users1, sessions1, _, k) = query-then _ d0 db' true k0 in
      let users = users1 ∙ users0 in
      let sessions = sessions1 ∙ sessions0 in
      let (d', users', sessions', done) = go d (found (find_username username d.users)) k in
      (d', users' ∙ users, sessions' ∙ sessions, done)
    where
      go :
          (d : Db) (present : Bool)
          → ◌≡◌ {A = Result Bool × Db}
              ((if present
                  then (query >> (query >> λ d'. (ok true, change_password username phc d')))
                  else (λ d'. (ok false, d')))
                d)
              (ok true, db')
          → (e : Db) × (e.users ≡ d.users)
            × (e.sessions ≡ d.sessions)
            × (change_password username phc e ≡ db')
      go d false k = absurd (cc)
      go d true k =
          let (d1, users1, sessions1, _, k1) = query-then _ d db' true k in
          let (d2, users2, sessions2, _, k2) = query-then _ d1 db' true k1 in
          (d2, users2 ∙ users1, sessions2 ∙ sessions1, ap (λ (p : Result Bool × Db). p.1) k2)

  set_user_password_ok :
      (salt username password : Text) (db db' : Db)
      → set_user_password pw salt username password db ≡ (ok true, db')
      → (phc : Text) × (pw.hash_password salt password ≡ some phc)
        × (d : Db) × (d.users ≡ db.users)
        × (d.sessions ≡ db.sessions)
        × (change_password username phc d ≡ db')
  unfolding set_user_password
  set_user_password_ok salt username password db db' h =
      let (_, _, h1) = lift-then (validate_username username) _ db db' true h in
      let (_, _, h2) = lift-then (validate_password password) _ db db' true h1 in
      let (phc, e, h3) = lift-then (hashed (pw.hash_password salt password)) _ db db' true h2 in
      let (d, users, sessions, done) = revoke_ok username phc db db' h3 in
      (phc, hashed_ok (pw.hash_password salt password) phc e, d, users, sessions, done)

  issue_refused :
      (issued cleaned : ℕ) (token : Text) (c : Candidate) (db : Db)
      → has_password c.user.id c.phc db.users ≡ false
      → (s : Session) (db' : Db) → ¬ (login_issue pw issued cleaned token c db ≡ (ok s, db'))
  issue_refused issued cleaned token c db none_left s db' h =
      let (d, users, _, k) = login_issue_ok pw issued cleaned token c db db' s h in
      let (has, _, _, _, _) = insert_session_ok pw c token _ d db' s k in
      let again : has_password c.user.id c.phc db.users ≡ true =
        subst (λ l. has_password c.user.id c.phc l ≡ true) users has in
      absurd (cc)

  -- When the password of a stored user has been changed, to a hash other than the one before, then no
  -- session of that user is left, and a login that had checked the hash before gets no session, even
  -- where the change came between its check and its insertion.
  pub set_user_password-revokes :
      (salt username password : Text) (db db' : Db) (row : UserRow)
      → IsValid db
      → find_username username db.users ≡ some row
      → pw.hash_password salt password ≢ some row.password_hash
      → set_user_password pw salt username password db ≡ (ok true, db')
      → ((s : SessionRow) → Has s db'.sessions → s.user_id ≢ row.id)
        × ((issued cleaned : ℕ) (token : Text) (c : Candidate) (s : Session) (after : Db)
            → c.user.id ≡ row.id
            → c.phc ≡ row.password_hash
            → login_issue pw issued cleaned token c db' ≢ (ok s, after))
  unfolding change_password drop_sessions_of
  set_user_password-revokes salt username password db db' row v at_row fresh h =
      let (phc, made, d, users, sessions, done) =
        set_user_password_ok salt username password db db' h in
      let at_row' : find_username username d.users ≡ some row =
        subst (λ l. find_username username l ≡ some row) (sym users) at_row in
      let other : text_eq phc row.password_hash ≡ false = differs phc made in
      (
        λ s m e.
            gone d.sessions s
              (subst (λ o. Has s (drop_sessions_of o d.sessions)) at_row'
                (subst (λ (x : Db). Has s x.sessions) (sym done) m))
              e,
        λ issued cleaned token c s after same_id same_phc.
            issue_refused issued cleaned token c db'
              (subst (λ (x : Db). has_password c.user.id c.phc x.users ≡ false) done
                (rw (same_id, same_phc)
                  (has_password-update username phc row.password_hash row d.users
                    (subst (λ l. Distinct (ids l)) (sym users) v.unique_ids) at_row' other)))
              s after,
      )
    where
      gone :
          (sessions : List SessionRow) (s : SessionRow)
          → Has s (drop_user_sessions row.id sessions)
          → s.user_id ≢ row.id
      gone sessions s m e =
          let (_, other) = drop_user_sessions_gone row.id sessions s m in
          absurd (cc (other, (text_eq_iff s.user_id row.id).1 e))

      differs :
          (phc : Text)
          → pw.hash_password salt password ≡ some phc
          → text_eq phc row.password_hash ≡ false
      differs phc made = elim (Bool-cases (text_eq phc row.password_hash)) [
        | inl e ↦ absurd (fresh (made ∙ ap some (text_eq_sound phc row.password_hash e)))
        | inr e ↦ e
      ]
