-- ===== src/Access.antt =====
-- crates/aegis-server/src/api.rs: the middleware that finds the user of a request, the role gate, and
-- the four handlers of /api/users. A refusal is its status; the message is left out. An entry of the
-- audit log is one statement, whose failure is ignored. What axum takes from a request, its path and
-- its body, is an argument of the handler.
pub mod Admins
mod Examples
use server_backup.Common.{ℕ, Bool, Option, none, some, List, [], ◌∷◌, ◌==◌, leb, if◌then◌else◌}
use server_backup.Common.Texts.{Text, bytes, text_eq, strip_prefix}
use server_backup.Common.Errors.{Result, ok, err, invalid_input}
use server_backup.Catalog.{Role, viewer, operator, admin, User, Db, query, from_str, list_users}
use server_backup.Auth.{Passwords, session_user, add_user_with_role, remove_user, set_user_role}

pub data ApiError : Type 0 where
  unauthorized forbidden bad_request not_found internal : ApiError

pub data Answer (A : Type 0) : Type 0 where
  reply : A → Answer A
  refuse : ApiError → Answer A

abbrev pub Handler : Type 0 → Type 0
Handler A = Db → Answer A × Db

-- The header's value, where it is a string, and the query of the URI.
pub record Request : Type 0 where
  pub authorization : Option Text
  pub query_text : Option Text

-- `q.split(c)`
unfoldable pub add_first : ℕ → List Text → List Text
add_first x [] = (x ∷ []) ∷ []
add_first x (piece ∷ pieces) = (x ∷ piece) ∷ pieces

unfoldable pub split_at : ℕ → Text → List Text
unfolding add_first
split_at c [] = [] ∷ []
split_at c (x ∷ s) = if x == c then [] ∷ split_at c s else add_first x (split_at c s)

-- `pair.split_once(c)`
unfoldable pub behind : ℕ → Option (Text × Text) → Option (Text × Text)
behind x none = none
behind x (some halves) = some (x ∷ halves.0, halves.1)

unfoldable pub split_once : ℕ → Text → Option (Text × Text)
unfolding behind
split_once c [] = none
split_once c (x ∷ s) = if x == c then some ([], s) else behind x (split_once c s)

unfoldable pub token_value : Option (Text × Text) → Option Text
token_value none = none
token_value (some pair) = if text_eq pair.0 (bytes "token") then some pair.1 else none

unfoldable pub or_text : Option Text → Option Text → Option Text
or_text none other = other
or_text (some text) other = some text

-- The bytes 38 and 61 are `&` and `=`.
unfoldable pub find_token : List Text → Option Text
unfolding or_text token_value split_once
find_token [] = none
find_token (pair ∷ pairs) = or_text (token_value (split_once 61 pair)) (find_token pairs)

unfoldable pub query_token : Option Text → Option Text
unfolding find_token split_at
query_token none = none
query_token (some q) = find_token (split_at 38 q)

unfoldable pub bearer_token : Option Text → Option Text
unfolding strip_prefix
bearer_token none = none
bearer_token (some value) = strip_prefix (bytes "Bearer ") value

unfoldable pub request_token : Request → Option Text
unfolding or_text bearer_token query_token
request_token request =
    or_text (bearer_token request.authorization) (query_token request.query_text)

-- The derived order of `Role`.
unfoldable pub rank : Role → ℕ
rank viewer = 0
rank operator = 1
rank admin = 2

unfoldable pub require_min_role : User → Role → Answer (Unit {0})
unfolding rank
require_min_role user min = if leb (rank min) (rank user.role) then reply tt else refuse forbidden

-- The operator `?` in a handler.
module _ {A B : Type 0} where
  unfoldable pub continue_with : (A → Handler B) → Answer A → Handler B
  continue_with f (reply a) db = f a db
  continue_with f (refuse e) db = (refuse e, db)

  -- The answer to a call of the catalog, with the error it becomes.
  unfoldable pub answer_to : (Result A → Answer B) → Result A × Db → Answer B × Db
  answer_to f out = (f out.0, out.1)

module _ {A : Type 0} where
  unfoldable pub internal_error : Result A → Answer A
  internal_error (ok a) = reply a
  internal_error (err e) = refuse internal

  unfoldable pub bad_input : Result A → Answer A
  bad_input (ok a) = reply a
  bad_input (err invalid_input) = refuse bad_request
  bad_input (err e) = refuse internal

  unfoldable pub unknown_role : Result A → Answer A
  unknown_role (ok a) = reply a
  unknown_role (err e) = refuse bad_request

  unfoldable pub invalid_session : Result A → Answer A
  invalid_session (ok a) = reply a
  invalid_session (err e) = refuse unauthorized

  -- The entry in the audit log, whether or not it can be written, and the reply.
  unfoldable pub audited : A → Handler A
  unfolding query
  audited a db = (reply a, (query db).1)

  unfoldable pub if_found : A → Bool → Handler A
  unfolding audited
  if_found a hit db = if hit then audited a db else (refuse not_found, db)

pub data Reply : Type 0 where
  listed : List User → Reply
  created : User → Reply
  removed : (username : Text) → Reply
  role_set : (username : Text) → Role → Reply

-- The requests under /api/users.
pub data UserCall : Type 0 where
  get_users : UserCall
  post_user : (id salt username password role : Text) → UserCall
  delete_named : (username : Text) → UserCall
  post_role : (username role : Text) → UserCall

unfoldable pub gated : {A : Type 0} → User → Role → Handler A → Handler A
unfolding require_min_role continue_with
gated user min handler db = continue_with (λ _. handler) (require_min_role user min) db

unfoldable pub handle_list_users : User → Handler Reply
unfolding gated list_users internal_error continue_with answer_to
handle_list_users user = gated user admin λ db.
    let out = answer_to internal_error (list_users db) in
    continue_with (λ users db'. (reply (listed users), db')) out.0 out.1

module _ (pw : Passwords) where
  unfoldable pub user_of_token : ℕ → Option Text → Handler User
  unfolding session_user invalid_session answer_to
  user_of_token now none db = (refuse unauthorized, db)
  user_of_token now (some token) db = answer_to invalid_session (session_user pw now token db)

  unfoldable pub require_session : ℕ → Request → Handler User
  unfolding request_token user_of_token
  require_session now request = user_of_token now (request_token request)

  -- `handle_add_user user id salt ...`: the id and the salt are what the catalog draws.
  unfoldable pub handle_add_user :
      User → (id salt : Text) → (username password role : Text) → Handler Reply
  unfolding gated from_str unknown_role continue_with answer_to bad_input add_user_with_role audited
  handle_add_user user id salt username password role = gated user admin (
      continue_with
        (λ parsed db.
          let out =
            answer_to bad_input (add_user_with_role pw id salt username password parsed db) in
          continue_with (λ made. audited (created made)) out.0 out.1)
        (unknown_role (from_str role)))

  unfoldable pub handle_remove_user : User → (username : Text) → Handler Reply
  unfolding gated remove_user internal_error continue_with answer_to if_found
  handle_remove_user user username = gated user admin λ db.
      if text_eq username user.username
      then (refuse bad_request, db)
      else (let out = answer_to internal_error (remove_user pw username db) in
          continue_with (if_found (removed username)) out.0 out.1)

  unfoldable pub handle_set_role : User → (username role : Text) → Handler Reply
  unfolding gated from_str unknown_role continue_with answer_to internal_error set_user_role
      if_found
  handle_set_role user username role = gated user admin (
      continue_with
        (λ parsed db.
          let out = answer_to internal_error (set_user_role pw username parsed db) in
          continue_with (if_found (role_set username parsed)) out.0 out.1)
        (unknown_role (from_str role)))

  unfoldable pub handle : UserCall → User → Handler Reply
  unfolding handle_list_users handle_add_user handle_remove_user handle_set_role
  handle get_users user = handle_list_users user
  handle (post_user id salt username password role) user =
      handle_add_user user id salt username password role
  handle (delete_named username) user = handle_remove_user user username
  handle (post_role username role) user = handle_set_role user username role
