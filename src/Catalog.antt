-- ===== src/Catalog.antt =====
-- The tables of crates/aegis-core/src/catalog.rs that crates/aegis-core/src/catalog_auth.rs reads
-- and writes, the statements it runs on them, and its checks of names and passwords. Each statement
-- is one entry of `faults`, and fails where it is `true`.
use server_backup.Common.{
  ℕ, ◌*◌, Bool, true, false, ◌&&◌, ◌||◌, Option, none, some, List, [], ◌∷◌, ◌==◌, ltb, leb,
  if◌then◌else◌, length, sort_by,
}
use server_backup.Common.Texts.{Text, bytes, text_eq, text_le}
use server_backup.Common.Errors.{Result, ok, err, catalog, invalid_input}
use server_backup.Common.Actions.{Action, ◌>>◌}

pub data Role : Type 0 where
  viewer operator admin : Role

unfoldable pub as_str : Role → Text
as_str viewer = bytes "viewer"
as_str operator = bytes "operator"
as_str admin = bytes "admin"

unfoldable pub from_str : Text → Result Role
from_str role =
    if text_eq role (bytes "admin")
    then ok admin
    else if text_eq role (bytes "operator")
    then ok operator
    else if text_eq role (bytes "viewer")
    then ok viewer
    else err catalog

pub record User : Type 0 where
  pub id : Text
  pub username : Text
  pub role : Role

pub record Session : Type 0 where
  pub token : Text
  pub user : User
  pub expires_at : ℕ

-- The rows of the tables `users`, `sessions` and `login_limits`.
pub record UserRow : Type 0 where
  pub id : Text
  pub username : Text
  pub password_hash : Text
  pub role : Text

pub record SessionRow : Type 0 where
  pub token_hash : Text
  pub user_id : Text
  pub expires_at : ℕ

pub record LimitRow : Type 0 where
  pub window_start : ℕ
  pub attempts : ℕ

-- `limit` is the row of the one bucket.
pub record Db : Type 0 where
  pub users : List UserRow
  pub sessions : List SessionRow
  pub limit : Option LimitRow
  pub faults : List Bool

abbrev pub session_ttl_secs : ℕ
session_ttl_secs = 24 * 60 * 60

abbrev pub login_limit : ℕ
login_limit = 30

abbrev pub login_window_secs : ℕ
login_window_secs = 60

-- One statement of the database.
unfoldable pub query : Action Db (Unit {0})
query db = elim db.faults [
  | [] ↦ (ok tt, db)
  | fails ∷ later ↦
      if fails
      then (err catalog, record db { faults = later })
      else (ok tt, record db { faults = later })
]

unfoldable pub is_username_byte : ℕ → Bool
is_username_byte c =
    leb b'a' c && leb c b'z'
    || (leb b'A' c && leb c b'Z'
        || (leb b'0' c && leb c b'9' || (c == b'-' || (c == b'_' || c == b'.'))))

unfoldable pub all_username_bytes : Text → Bool
unfolding is_username_byte
all_username_bytes [] = true
all_username_bytes (c ∷ s) = is_username_byte c && all_username_bytes s

unfoldable pub validate_username : Text → Result (Unit {0})
unfolding all_username_bytes
validate_username username =
    if text_eq username [] || ltb 64 (length username)
    then err invalid_input
    else if all_username_bytes username
    then ok tt
    else err invalid_input

unfoldable pub validate_password : Text → Result (Unit {0})
validate_password password =
    if leb 12 (length password) && leb (length password) 1024 then ok tt else err invalid_input

unfoldable pub with_role : UserRow → Result Role → Result User
with_role row (ok role) = ok (record { id = row.id; username = row.username; role = role })
with_role row (err e) = err e

unfoldable pub user_from_row : UserRow → Result User
unfolding with_role
user_from_row row = with_role row (from_str row.role)

unfoldable pub find_username : Text → List UserRow → Option UserRow
find_username name [] = none
find_username name (row ∷ rest) =
    if text_eq row.username name then some row else find_username name rest

unfoldable pub find_id : Text → List UserRow → Option UserRow
find_id id [] = none
find_id id (row ∷ rest) = if text_eq row.id id then some row else find_id id rest

-- `rows.iter().map(user_from_row).collect()`, which stops at the first error.
unfoldable pub and_user : Result User → Result (List User) → Result (List User)
and_user (err e) rest = err e
and_user (ok user) (err e) = err e
and_user (ok user) (ok users) = ok (user ∷ users)

unfoldable pub users_of : List UserRow → Result (List User)
unfolding user_from_row and_user
users_of [] = ok []
users_of (row ∷ rest) = and_user (user_from_row row) (users_of rest)

-- FROM users ORDER BY username
unfoldable pub list_users : Action Db (List User)
unfolding query users_of
list_users = query >> λ db. (users_of (sort_by (λ a b. text_le a.username b.username) db.users), db)

-- FROM users WHERE id = ? AND password_hash = ?
unfoldable pub has_password : Text → Text → List UserRow → Bool
has_password id phc [] = false
has_password id phc (row ∷ rest) =
    text_eq row.id id && text_eq row.password_hash phc || has_password id phc rest

unfoldable pub has_token : Text → List SessionRow → Bool
has_token digest [] = false
has_token digest (row ∷ rest) = text_eq row.token_hash digest || has_token digest rest

-- DELETE FROM sessions WHERE expires_at <= ?
unfoldable pub drop_expired : ℕ → List SessionRow → List SessionRow
drop_expired now [] = []
drop_expired now (row ∷ rest) =
    if leb row.expires_at now then drop_expired now rest else row ∷ drop_expired now rest

-- DELETE FROM sessions WHERE token_hash = ?
unfoldable pub drop_token : Text → List SessionRow → List SessionRow
drop_token digest [] = []
drop_token digest (row ∷ rest) =
    if text_eq row.token_hash digest then drop_token digest rest else row ∷ drop_token digest rest

-- DELETE FROM sessions WHERE user_id = ?
unfoldable pub drop_user_sessions : Text → List SessionRow → List SessionRow
drop_user_sessions id [] = []
drop_user_sessions id (row ∷ rest) =
    if text_eq row.user_id id then drop_user_sessions id rest else row ∷ drop_user_sessions id rest

-- sessions JOIN users WHERE token_hash = ? AND expires_at > ?
unfoldable pub find_session : Text → ℕ → List UserRow → List SessionRow → Option UserRow
unfolding find_id
find_session digest now users [] = none
find_session digest now users (row ∷ rest) =
    if text_eq row.token_hash digest && ltb now row.expires_at
    then find_id row.user_id users
    else find_session digest now users rest

-- UPDATE users SET role = ? WHERE username = ?, and the same for the password.
unfoldable pub update_role : Text → Text → List UserRow → List UserRow
update_role name role [] = []
update_role name role (row ∷ rest) =
    (if text_eq row.username name then record row { role = role } else row)
    ∷ update_role name role rest

unfoldable pub update_password : Text → Text → List UserRow → List UserRow
update_password name phc [] = []
update_password name phc (row ∷ rest) =
    (if text_eq row.username name then record row { password_hash = phc } else row)
    ∷ update_password name phc rest

unfoldable pub delete_username : Text → List UserRow → List UserRow
delete_username name [] = []
delete_username name (row ∷ rest) =
    if text_eq row.username name then delete_username name rest else row ∷ delete_username name rest

unfoldable pub found : Option UserRow → Bool
found none = false
found (some row) = true

unfoldable pub drop_sessions_of : Option UserRow → List SessionRow → List SessionRow
unfolding drop_user_sessions
drop_sessions_of none sessions = sessions
drop_sessions_of (some row) sessions = drop_user_sessions row.id sessions

-- Removing a user removes its sessions: ON DELETE CASCADE.
unfoldable pub delete_user : Text → Db → Db
unfolding delete_username drop_sessions_of
delete_user username db = record db {
  users = delete_username username db.users;
  sessions = drop_sessions_of (find_username username db.users) db.sessions;
}

unfoldable pub change_password : Text → Text → Db → Db
unfolding update_password drop_sessions_of
change_password username phc db = record db {
  users = update_password username phc db.users;
  sessions = drop_sessions_of (find_username username db.users) db.sessions;
}
