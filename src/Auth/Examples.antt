-- ===== src/Auth/Examples.antt =====
-- catalog_auth.rs on concrete rows: a hash is the password, and a digest is the token.
use server_backup.Common.{
  ℕ, ◌≡◌, ◌≢◌, ◌≤◌, Has, refl, ap, true, none, some, [], ◌∷◌, arith, inl, inr,
}
use server_backup.Common.Texts.{Text, bytes, text_eq}
use server_backup.Common.Errors.{ok}
use server_backup.Common.Distinct.{Distinct}
use server_backup.Catalog.{
  admin, User, Session, UserRow, SessionRow, LimitRow, Db, change_password, validate_username,
  validate_password, find_username, user_from_row, from_str, has_password, has_token, drop_expired,
}
use server_backup.Auth.{
  Passwords, Candidate, Readings, login, session_user, set_user_password, login_issue, next_limit,
}
use server_backup.Auth.Tables.{IsValid}
use server_backup.Auth.Limit.{admitted, limit_after, admitted-le, limit_recovers}
use server_backup.Auth.Login.{session_user-login}
use server_backup.Auth.Password.{set_user_password-revokes}
use server_backup.Auth.Reachable.{
  created, after, served, add, check, issue, set_password, Reachable-IsValid,
}

abbrev plain : Passwords
plain = record {
  hash_password = λ salt password. some password;
  verify_password = λ password phc. text_eq password phc;
  token_hash = λ token. token;
}

abbrev first_password : Text
first_password = bytes "correct horse"

abbrev second_password : Text
second_password = bytes "battery staple"

abbrev alice : UserRow
alice = record {
  id = bytes "1";
  username = bytes "alice";
  password_hash = first_password;
  role = bytes "admin";
}

abbrev alice_user : User
alice_user = record { id = bytes "1"; username = bytes "alice"; role = admin }

abbrev one_session : SessionRow
one_session = record { token_hash = bytes "a"; user_id = bytes "1"; expires_at = 5000 }

abbrev db : Db
db = record { users = alice ∷ []; sessions = one_session ∷ []; limit = none; faults = [] }

owner : (s : SessionRow) → Has s (one_session ∷ []) → Has s.user_id (bytes "1" ∷ [])
owner s (inl e) = inl (ap (λ (r : SessionRow). r.user_id) e)
owner s (inr none_left) = absurd none_left

db-IsValid : IsValid db
unfolding Distinct
db-IsValid = record {
  unique_ids = (λ m. m, tt);
  unique_names = (λ m. m, tt);
  unique_tokens = (λ m. m, tt);
  owned = λ s m. owner s m;
}

abbrev now : Readings
now = record { limited = 100; issued = 101; cleaned = 101 }

abbrev session : Session
session = record { token = bytes "b"; user = alice_user; expires_at = 86501 }

abbrev logged_in : Db
logged_in = record {
  users = alice ∷ [];
  sessions =
      one_session ∷ record { token_hash = bytes "b"; user_id = bytes "1"; expires_at = 86501 } ∷ [];
  limit = some (record { window_start = 100; attempts = 1 });
  faults = [];
}

login_run : login plain now (bytes "b") (bytes "alice") first_password db ≡ (ok session, logged_in)
unfolding login validate_username text_eq validate_password find_username user_from_row from_str
    has_password has_token drop_expired
login_run = refl

session_user-login_example : (session_user plain 86500 (bytes "b") logged_in).0 ≡ ok alice_user
session_user-login_example =
    session_user-login plain now (bytes "b") (bytes "alice") first_password db logged_in session
      86500 db-IsValid login_run (omega arith)

abbrev changed : Db
changed = record {
  users = record alice { password_hash = second_password } ∷ [];
  sessions = [];
  limit = none;
  faults = [];
}

change_run : set_user_password plain [] (bytes "alice") second_password db ≡ (ok true, changed)
unfolding set_user_password validate_username text_eq validate_password find_username
    change_password
change_run = refl

found_alice : find_username (bytes "alice") db.users ≡ some alice
unfolding find_username text_eq
found_alice = refl

set_user_password-revokes_example :
    ((s : SessionRow) → Has s changed.sessions → s.user_id ≢ alice.id)
    × ((issued cleaned : ℕ) (token : Text) (c : Candidate) (s : Session) (later : Db)
        → c.user.id ≡ alice.id
        → c.phc ≡ first_password
        → login_issue plain issued cleaned token c changed ≢ (ok s, later))
set_user_password-revokes_example =
    set_user_password-revokes plain [] (bytes "alice") second_password db changed alice db-IsValid
      found_alice (λ e. absurd (cc)) change_run

abbrev full : LimitRow
full = record { window_start = 90; attempts = 29 }

admitted-le_example : admitted (some full) (100 ∷ 101 ∷ 149 ∷ 150 ∷ []) ≤ 60
admitted-le_example = admitted-le 100 (some full) (100 ∷ 101 ∷ 149 ∷ 150 ∷ []) (omega arith) (
  (omega arith, omega arith),
  ((omega arith, omega arith), ((omega arith, omega arith), ((omega arith, omega arith), tt))),
)

admitted_run : admitted (some full) (100 ∷ 101 ∷ 149 ∷ 150 ∷ []) ≡ 2
unfolding admitted
admitted_run = refl

limit_recovers_example : (next_limit 161 (limit_after none (100 ∷ 101 ∷ []))).1 ≡ true
limit_recovers_example =
    limit_recovers 101 161 (100 ∷ 101 ∷ []) (omega arith, (omega arith, tt)) (omega arith)

abbrev candidate : Candidate
candidate = record { user = alice_user; phc = first_password }

-- The password is changed between the check of a login and its insertion.
abbrev raced : Db
raced = served plain (issue 101 101 (bytes "b") candidate) (
    served plain (set_password [] (bytes "alice") second_password) (
      served plain (check 100 (bytes "alice") first_password) (
        served plain (add (bytes "1") [] (bytes "alice") first_password admin)
          (record { users = []; sessions = []; limit = none; faults = [] }))))

Reachable-IsValid_example : IsValid raced
Reachable-IsValid_example =
    Reachable-IsValid plain raced (after _ (after _ (after _ (after _ (created [])))))

raced_run : raced.sessions ≡ []
unfolding served text_eq find_username change_password has_password drop_expired
raced_run = refl
