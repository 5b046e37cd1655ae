-- ===== src/Access/Examples.antt =====
-- Requests to /api/users on a small catalog.
use server_backup.Common.{◌≡◌, ◌≢◌, refl, sym, ◌∙◌, none, some, [], ◌∷◌}
use server_backup.Common.Texts.{bytes, text_eq, strip_prefix}
use server_backup.Catalog.{
  find_username, delete_user, operator, admin, User, UserRow, Db, find_id, find_session,
  user_from_row, from_str,
}
use server_backup.Auth.{Passwords, session_user}
use server_backup.Access.{
  Answer, Reply, reply, refuse, forbidden, bad_request, Request, delete_named, removed,
  request_token, require_session, handle,
}
use server_backup.Access.Admins.{Authorized, handle-Authorized}

abbrev plain : Passwords
plain = record {
  hash_password = λ salt password. some password;
  verify_password = λ password phc. text_eq password phc;
  token_hash = λ token. token;
}

abbrev alice : UserRow
alice = record {
  id = bytes "1";
  username = bytes "alice";
  password_hash = bytes "x";
  role = bytes "admin";
}

abbrev bob : UserRow
bob = record {
  id = bytes "2";
  username = bytes "bob";
  password_hash = bytes "y";
  role = bytes "operator";
}

abbrev alice_user : User
alice_user = record { id = bytes "1"; username = bytes "alice"; role = admin }

abbrev bob_user : User
bob_user = record { id = bytes "2"; username = bytes "bob"; role = operator }

abbrev db : Db
db = record {
  users = alice ∷ bob ∷ [];
  sessions = record { token_hash = bytes "t"; user_id = bytes "1"; expires_at = 5000 } ∷ [];
  limit = none;
  faults = [];
}

abbrev without_bob : Db
without_bob = record db { users = alice ∷ [] }

abbrev by_query : Request
by_query = record {
  authorization = some (bytes "Basic t");
  query_text = some (bytes "a&b=c&token=t");
}

query_run : request_token by_query ≡ some (bytes "t")
unfolding request_token text_eq strip_prefix
query_run = refl

session_run : require_session plain 100 by_query db ≡ (reply alice_user, db)
unfolding require_session session_user find_session find_id user_from_row from_str text_eq
    request_token strip_prefix
session_run = refl

bob_refused : handle plain (delete_named (bytes "alice")) bob_user db ≡ (refuse forbidden, db)
unfolding handle
bob_refused = refl

not_oneself : handle plain (delete_named (bytes "alice")) alice_user db ≡ (refuse bad_request, db)
unfolding handle text_eq
not_oneself = refl

bob_removed :
    handle plain (delete_named (bytes "bob")) alice_user db
    ≡ (reply (removed (bytes "bob")), without_bob)
unfolding handle text_eq find_username delete_user
bob_removed = refl

acts : handle plain (delete_named (bytes "bob")) alice_user db ≢ (refuse forbidden, db)
acts h =
    let same : ◌≡◌ {A = Answer Reply × Db} (reply (removed (bytes "bob")), without_bob)
        (refuse forbidden, db) =
      sym bob_removed ∙ h in
    cc

handle-Authorized_example : Authorized plain 100 by_query db
handle-Authorized_example =
    handle-Authorized plain 100 by_query db db alice_user (delete_named (bytes "bob")) db
      session_run acts
