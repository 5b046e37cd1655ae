-- ===== src/Auth.antt =====
-- crates/aegis-core/src/catalog_auth.rs: users, sessions and the login limit over the tables of
-- Catalog. Argon2, the token's digest, the clock and the random values are parameters.
pub mod Limit
pub mod Login
pub mod Password
pub mod Reachable
pub mod Rows
pub mod Tables
mod Examples
use server_backup.Common.{
  ℕ, ◌+◌, ◌*◌, Bool, true, false, not, ◌&&◌, ◌||◌, Option, none, some, List, [], ◌∷◌, ◌++◌, ◌==◌,
  ltb, leb, if◌then◌else◌, length, map, sort_by,
}
use server_backup.Common.Texts.{Text, bytes, text_eq, text_le}
use server_backup.Common.Errors.{
  Result, ok, err, catalog, invalid_input, unauthorized, rate_limited,
}
use server_backup.Common.Actions.{Action, pure, throw, lift, ◌>>=◌, ◌>>◌}
use server_backup.Catalog.{
  Db, LimitRow, Role, Session, User, UserRow, admin, as_str, change_password, delete_user,
  drop_expired, drop_token, find_id, find_session, find_username, found, has_password, has_token,
  login_limit, login_window_secs, query, session_ttl_secs, update_role, user_from_row,
  validate_password, validate_username,
}

-- The upsert on `login_limits`, and whether it has changed a row. The comparison is `<= now - 60`.
unfoldable pub next_limit : ℕ → Option LimitRow → Option LimitRow × Bool
next_limit now none = (some (record { window_start = now; attempts = 1 }), true)
next_limit now (some row) =
    if leb (row.window_start + login_window_secs) now
    then (some (record { window_start = now; attempts = 1 }), true)
    else if ltb row.attempts login_limit
    then (some (record row { attempts = row.attempts + 1 }), true)
    else (some row, false)

unfoldable pub enforce_login_limit_at : ℕ → Action Db (Unit {0})
unfolding query next_limit
enforce_login_limit_at now = query >> λ db.
    if (next_limit now db.limit).1
    then (ok tt, record db { limit = (next_limit now db.limit).0 })
    else (err rate_limited, db)

-- Argon2 with a salt, its check of a stored hash, and the digest of a token.
pub record Passwords : Type 0 where
  pub hash_password : (salt password : Text) → Option Text
  pub verify_password : (password phc : Text) → Bool
  pub token_hash : Text → Text

-- The user that a login has found, with the stored hash that it checks.
pub record Candidate : Type 0 where
  pub user : User
  pub phc : Text

-- The clock's three readings in one login.
pub record Readings : Type 0 where
  pub limited : ℕ
  pub issued : ℕ
  pub cleaned : ℕ

unfoldable pub hashed : Option Text → Result Text
hashed none = err catalog
hashed (some phc) = ok phc

module _ (pw : Passwords) where
  unfoldable pub add_user_with_role : (id salt : Text) → Text → Text → Role → Action Db User
  unfolding query hashed validate_username validate_password
  add_user_with_role id salt username password role =
      lift (validate_username username)
      >> (lift (validate_password password)
          >> (lift (hashed (pw.hash_password salt password)) >>= λ phc. query >> λ db.
              if found (find_username username db.users) || found (find_id id db.users)
              then (err invalid_input, db)
              else (
                ok (record { id = id; username = username; role = role }),
                record db {
                  users =
                      db.users
                      ++ record {
                        id = id;
                        username = username;
                        password_hash = phc;
                        role = as_str role;
                      }
                        ∷ [];
                },
              )))

  unfoldable pub add_user : (id salt : Text) → Text → Text → Action Db User
  add_user id salt username password = add_user_with_role id salt username password admin

  unfoldable pub set_user_role : Text → Role → Action Db Bool
  unfolding query update_role found
  set_user_role username role =
      lift (validate_username username)
      >> (query >> λ db. (
        ok (found (find_username username db.users)),
        record db { users = update_role username (as_str role) db.users },
      ))

  unfoldable pub remove_user : Text → Action Db Bool
  unfolding query found
  remove_user username =
      lift (validate_username username)
      >> (query >> λ db. (ok (found (find_username username db.users)), delete_user username db))

  -- The four statements of the transaction; where one fails, none has had an effect.
  unfoldable pub revoke_in_transaction : Text → Text → Action Db Bool
  unfolding query found
  revoke_in_transaction username phc =
      query
      >> (query >> λ db.
          (if found (find_username username db.users)
              then (query >> (query >> λ db'. (ok true, change_password username phc db')))
              else (λ db'. (ok false, db')))
            db)

  unfoldable pub set_user_password : (salt : Text) → Text → Text → Action Db Bool
  unfolding revoke_in_transaction hashed
  set_user_password salt username password =
      lift (validate_username username)
      >> (lift (validate_password password)
          >> (lift (hashed (pw.hash_password salt password)) >>= λ phc.
              revoke_in_transaction username phc))

  -- The match on the fetched row, and the check of the password. A missing user is checked against a
  -- dummy hash, with the same answer whatever that check says.
  unfoldable pub check_password_hash : Text → Text → Result User → Result Candidate
  check_password_hash password phc (err e) = err e
  check_password_hash password phc (ok user) =
      if pw.verify_password password phc
      then ok (record { user = user; phc = phc })
      else err unauthorized

  unfoldable pub check_password : Text → Option UserRow → Result Candidate
  unfolding check_password_hash
  check_password password none = err unauthorized
  check_password password (some row) =
      check_password_hash password row.password_hash (user_from_row row)

  -- `login` up to the check of the password.
  unfoldable pub login_check : ℕ → Text → Text → Action Db Candidate
  unfolding enforce_login_limit_at query check_password
  login_check now username password =
      lift (validate_username username)
      >> (lift (validate_password password)
          >> (enforce_login_limit_at now
              >> (query >> λ db. (check_password password (find_username username db.users), db))))

  -- The INSERT ... SELECT of a session.
  unfoldable pub insert_session : Candidate → (token : Text) → ℕ → Action Db Session
  insert_session c token expires_at db =
      if has_password c.user.id c.phc db.users
      then (if has_token (pw.token_hash token) db.sessions then (err catalog, db) else (
        ok (record { token = token; user = c.user; expires_at = expires_at }),
        record db {
          sessions =
              db.sessions
              ++ record {
                token_hash = pw.token_hash token;
                user_id = c.user.id;
                expires_at = expires_at;
              }
                ∷ [];
        },
      ))
      else (err unauthorized, db)

  -- `login` from there on. Other requests may run between the two.
  unfoldable pub login_issue : (issued cleaned : ℕ) → (token : Text) → Candidate → Action Db Session
  unfolding query insert_session
  login_issue issued cleaned token c =
      query
      >> ((λ db. (ok tt, record db { sessions = drop_expired cleaned db.sessions }))
          >> (query >> insert_session c token (issued + session_ttl_secs)))

  unfoldable pub login : Readings → (token : Text) → Text → Text → Action Db Session
  unfolding login_check login_issue
  login now token username password =
      login_check now.limited username password >>= λ c. login_issue now.issued now.cleaned token c

  unfoldable pub or_unauthorized : Option UserRow → Result User
  unfolding user_from_row
  or_unauthorized none = err unauthorized
  or_unauthorized (some row) = user_from_row row

  unfoldable pub session_user : ℕ → Text → Action Db User
  unfolding query or_unauthorized find_session
  session_user now token = query >> λ db.
      (or_unauthorized (find_session (pw.token_hash token) now db.users db.sessions), db)

  unfoldable pub logout : Text → Action Db Bool
  unfolding query
  logout token = query >> λ db. (
    ok (has_token (pw.token_hash token) db.sessions),
    record db { sessions = drop_token (pw.token_hash token) db.sessions },
  )
