-- ===== src/Auth/Reachable.antt =====
-- catalog_auth.rs: the databases that the requests lead to, in any order. A login is two requests, so
-- that others may come between its check and its insertion.
use server_backup.Common.{
  ℕ, ◌+◌, ◌≡◌, sym, subst, inl, inr, Bool, true, false, ◌||◌, none, List, [], ◌∷◌, ◌++◌, arith,
  if◌then◌else◌, Has, Has-append, Has-append_left, Bool-cases,
}
use server_backup.Common.Texts.{Text}
use server_backup.Common.Errors.{Result, ok, err, invalid_input, rate_limited}
use server_backup.Common.Actions.{Action, lift, continue, ◌>>=◌, ◌>>◌}
use server_backup.Common.Distinct.{
  Distinct, Sub, Sub-Has, Sub-map, Sub-Distinct, Distinct-snoc, map-snoc,
}
use server_backup.Catalog.{
  Role, UserRow, SessionRow, Db, User, Session, query, validate_username, validate_password,
  find_username, find_id, found, has_password, has_token, drop_expired, drop_sessions_of,
  update_role, update_password, change_password, delete_user, as_str, session_ttl_secs,
}
use server_backup.Auth.{
  Passwords, Candidate, hashed, add_user_with_role, set_user_role, remove_user,
  revoke_in_transaction, set_user_password, enforce_login_limit_at, next_limit, login_check,
  insert_session, login_issue, session_user, logout,
}
use server_backup.Auth.Tables.{
  IsValid, ids, usernames, token_hashes, find_username_none, find_id_none, ids-update_password,
}
use server_backup.Auth.Rows.{
  Sub-drop_expired, Sub-drop_token, Sub-drop_sessions_of, Sub-delete_username,
  usernames-update_password, keys-update_role, has_password-Has, has_token_none,
  Has-ids-delete_username, drop_sessions_of_gone,
}

pub data Request : Type 0 where
  add : (id salt username password : Text) (role : Role) → Request
  set_role : (username : Text) (role : Role) → Request
  remove : (username : Text) → Request
  set_password : (salt username password : Text) → Request
  check : (now : ℕ) (username password : Text) → Request
  issue : (issued cleaned : ℕ) (token : Text) (c : Candidate) → Request
  look_up : (now : ℕ) (token : Text) → Request
  log_out : (token : Text) → Request

module _ (pw : Passwords) where
  -- The database after a request.
  unfoldable pub served : Request → Db → Db
  unfolding add_user_with_role set_user_role remove_user set_user_password login_check login_issue
      session_user logout
  served (add id salt username password role) db =
      (add_user_with_role pw id salt username password role db).1
  served (set_role username role) db = (set_user_role pw username role db).1
  served (remove username) db = (remove_user pw username db).1
  served (set_password salt username password) db =
      (set_user_password pw salt username password db).1
  served (check now username password) db = (login_check pw now username password db).1
  served (issue issued cleaned token c) db = (login_issue pw issued cleaned token c db).1
  served (look_up now token) db = (session_user pw now token db).1
  served (log_out token) db = (logout pw token db).1

  -- From no rows at all, with any statements failing.
  pub data Reachable : Db → Type 0 where
    created :
        (faults : List Bool)
        → Reachable (record { users = []; sessions = []; limit = none; faults = faults })
    after : (request : Request) {db : Db} → Reachable db → Reachable (served request db)

abbrev Keeps : {A : Type 0} → Action Db A → Type 0
Keeps m = (db : Db) → IsValid db → IsValid (m db).1

Keeps-bind :
    {A B : Type 0} (m : Action Db A) (f : A → Action Db B)
    → Keeps m
    → ((a : A) → Keeps (f a))
    → Keeps (m >>= f)
Keeps-bind {A = A} m f k l db v = go (m db).0 (m db).1 (k db v)
  where
    go : (r : Result A) (d : Db) → IsValid d → IsValid (continue f r d).1
    go (ok a) d w = l a d w
    go (err e) d w = w

Keeps-lift : {A : Type 0} (r : Result A) → Keeps (lift r)
Keeps-lift r db v = v

Keeps-query : Keeps query
unfolding query
Keeps-query db v = go db.faults
  where
    plain : (faults : List Bool) → IsValid (record db { faults = faults })
    plain faults = record {
      unique_ids = v.unique_ids;
      unique_names = v.unique_names;
      unique_tokens = v.unique_tokens;
      owned = v.owned;
    }

    go : (faults : List Bool) → IsValid (query (record db { faults = faults })).1
    go [] = plain []
    go (true ∷ later) = plain later
    go (false ∷ later) = plain later

-- A statement, and then a change that keeps the keys.
Keeps-then : {A : Type 0} (f : Action Db A) → Keeps f → Keeps (query >> f)
Keeps-then f k = Keeps-bind query (λ _. f) Keeps-query (λ _. k)

Keeps-checked :
    {A B : Type 0} (r : Result A) (f : A → Action Db B)
    → ((a : A) → Keeps (f a))
    → Keeps (lift r >>= f)
Keeps-checked r f k = Keeps-bind (lift r) f (Keeps-lift r) k

Keeps-if :
    {A : Type 0} (b : Bool) (m n : Action Db A) → Keeps m → Keeps n → Keeps (if b then m else n)
Keeps-if true m n k l = k
Keeps-if false m n k l = l

-- Fewer sessions, of the same users.
IsValid-fewer :
    (db : Db) (sessions : List SessionRow)
    → Sub sessions db.sessions
    → IsValid db
    → IsValid (record db { sessions = sessions })
IsValid-fewer db sessions sub v = record {
  unique_ids = v.unique_ids;
  unique_names = v.unique_names;
  unique_tokens = Sub-Distinct (Sub-map (λ s. s.token_hash) sub) v.unique_tokens;
  owned = λ s m. v.owned s (Sub-Has s sub m);
}

-- Other users, with the same keys.
IsValid-users :
    (db : Db) (users : List UserRow)
    → ids users ≡ ids db.users
    → usernames users ≡ usernames db.users
    → IsValid db
    → IsValid (record db { users = users })
IsValid-users db users i n v = record {
  unique_ids = subst Distinct (sym i) v.unique_ids;
  unique_names = subst Distinct (sym n) v.unique_names;
  unique_tokens = v.unique_tokens;
  owned = λ s m. subst (λ l. Has s.user_id l) (sym i) (v.owned s m);
}

delete_user-IsValid : (name : Text) (db : Db) → IsValid db → IsValid (delete_user name db)
unfolding delete_user
delete_user-IsValid name db v =
    let users = Sub-delete_username name db.users in
    let sessions = Sub-drop_sessions_of (find_username name db.users) db.sessions in
    record {
      unique_ids = Sub-Distinct (Sub-map (λ u. u.id) users) v.unique_ids;
      unique_names = Sub-Distinct (Sub-map (λ u. u.username) users) v.unique_names;
      unique_tokens = Sub-Distinct (Sub-map (λ s. s.token_hash) sessions) v.unique_tokens;
      owned = λ s m.
          Has-ids-delete_username s.user_id name db.users v.unique_names
            (v.owned s (Sub-Has s sessions m))
            (λ row k.
              drop_sessions_of_gone row db.sessions s
                (subst (λ o. Has s (drop_sessions_of o db.sessions)) k m));
    }

change_password-IsValid :
    (name phc : Text) (db : Db) → IsValid db → IsValid (change_password name phc db)
unfolding change_password
change_password-IsValid name phc db v =
    IsValid-users
      (record db { sessions = drop_sessions_of (find_username name db.users) db.sessions })
      (update_password name phc db.users) (ids-update_password name phc db.users)
      (usernames-update_password name phc db.users)
      (IsValid-fewer db _ (Sub-drop_sessions_of (find_username name db.users) db.sessions) v)

add-IsValid :
    (row : UserRow) (db : Db)
    → found (find_username row.username db.users) ≡ false
    → found (find_id row.id db.users) ≡ false
    → IsValid db
    → IsValid (record db { users = db.users ++ row ∷ [] })
add-IsValid row db n i v = record {
  unique_ids =
      subst Distinct (sym (map-snoc (λ u. u.id) row db.users))
        (Distinct-snoc (ids db.users) row.id v.unique_ids (find_id_none row.id db.users i));
  unique_names = subst Distinct (sym (map-snoc (λ u. u.username) row db.users)) (
      Distinct-snoc (usernames db.users) row.username v.unique_names
        (find_username_none row.username db.users n));
  unique_tokens = v.unique_tokens;
  owned = λ s m.
      subst (λ l. Has s.user_id l) (sym (map-snoc (λ u. u.id) row db.users))
        (Has-append_left s.user_id (ids db.users) (row.id ∷ []) (v.owned s m));
}

insert-IsValid :
    (row : SessionRow) (db : Db)
    → Has row.user_id (ids db.users)
    → has_token row.token_hash db.sessions ≡ false
    → IsValid db
    → IsValid (record db { sessions = db.sessions ++ row ∷ [] })
insert-IsValid row db u t v = record {
  unique_ids = v.unique_ids;
  unique_names = v.unique_names;
  unique_tokens = subst Distinct (sym (map-snoc (λ s. s.token_hash) row db.sessions)) (
      Distinct-snoc (token_hashes db.sessions) row.token_hash v.unique_tokens
        (has_token_none row.token_hash db.sessions t));
  owned = λ s m. elim (Has-append s db.sessions (row ∷ []) m) [
    | inl before ↦ v.owned s before
    | inr (inl same) ↦ subst (λ (r : SessionRow). Has r.user_id (ids db.users)) (sym same) u
    | inr (inr nothing) ↦ absurd nothing
  ];
}

module _ (pw : Passwords) where
  served_add :
      (id salt username password : Text) (role : Role)
      → Keeps (add_user_with_role pw id salt username password role)
  unfolding add_user_with_role
  served_add id salt username password role = Keeps-checked (validate_username username) _ (λ _.
      Keeps-checked (validate_password password) _ (λ _.
        Keeps-checked (hashed (pw.hash_password salt password)) _
          (λ phc. Keeps-then _ (insert phc))))
    where
      row : Text → UserRow
      row phc = record { id = id; username = username; password_hash = phc; role = as_str role }

      either : (a b : Bool) → (a || b) ≡ false → (a ≡ false) × (b ≡ false)
      either a b h = ground arith

      insert :
          (phc : Text)
          → Keeps {A = User} (λ db.
            if found (find_username username db.users) || found (find_id id db.users)
            then (err invalid_input, db)
            else (
              ok (record { id = id; username = username; role = role }),
              record db { users = db.users ++ row phc ∷ [] },
            ))
      insert phc db v =
          elim (Bool-cases
            (found (find_username username db.users) || found (find_id id db.users))) [
              | inl e ↦ rw e v
              | inr e ↦ let (n, i) = either _ _ e in rw e (add-IsValid (row phc) db n i v)
            ]

  served_revoke : (username phc : Text) → Keeps (revoke_in_transaction pw username phc)
  unfolding revoke_in_transaction
  served_revoke username phc = Keeps-then _ (
      Keeps-then _ (λ db.
        Keeps-if (found (find_username username db.users)) _ _
          (Keeps-then _ (Keeps-then _ (λ d v. change_password-IsValid username phc d v))) (λ d v. v)
          db))

  served_check : (now : ℕ) (username password : Text) → Keeps (login_check pw now username password)
  unfolding login_check enforce_login_limit_at
  served_check now username password = Keeps-checked (validate_username username) _ (λ _.
      Keeps-checked (validate_password password) _ (λ _.
        Keeps-bind (enforce_login_limit_at now) _ (Keeps-then _ counted)
          (λ _. Keeps-then _ (λ db v. v))))
    where
      counted : Keeps {A = Unit {0}} (λ db.
          if (next_limit now db.limit).1
          then (ok tt, record db { limit = (next_limit now db.limit).0 })
          else (err rate_limited, db))
      counted db v = elim (Bool-cases (next_limit now db.limit).1) [
        | inl e ↦ rw e (record {
          unique_ids = v.unique_ids;
          unique_names = v.unique_names;
          unique_tokens = v.unique_tokens;
          owned = v.owned;
        })
        | inr e ↦ rw e v
      ]

  served_issue :
      (issued cleaned : ℕ) (token : Text) (c : Candidate)
      → Keeps (login_issue pw issued cleaned token c)
  unfolding login_issue insert_session
  served_issue issued cleaned token c = Keeps-then _ (
      Keeps-bind {A = Unit {0}} {B = Session}
        (λ db. (ok tt, record db { sessions = drop_expired cleaned db.sessions }))
        (λ _. query >> inserts)
        (λ db v. IsValid-fewer db _ (Sub-drop_expired cleaned db.sessions) v)
        (λ _. Keeps-then inserts inserted))
    where
      inserts : Action Db Session
      inserts = insert_session pw c token (issued + session_ttl_secs)

      inserted : Keeps inserts
      inserted db v = elim (Bool-cases (has_password c.user.id c.phc db.users)) [
        | inr e ↦ rw e v
        | inl e ↦ elim (Bool-cases (has_token (pw.token_hash token) db.sessions)) [
          | inl t ↦ rw (e, t) v
          | inr t ↦
              rw (e, t) (insert-IsValid _ db (has_password-Has c.user.id c.phc db.users e) t v)
        ]
      ]

  served-IsValid : (request : Request) (db : Db) → IsValid db → IsValid (served pw request db)
  unfolding served set_user_role remove_user set_user_password session_user logout
  served-IsValid (add id salt username password role) = served_add id salt username password role
  served-IsValid (set_role username role) = Keeps-checked (validate_username username) _ (λ _.
      Keeps-then _ (λ db v.
        let (i, n) = keys-update_role username (as_str role) db.users in
        IsValid-users db (update_role username (as_str role) db.users) i n v))
  served-IsValid (remove username) =
      Keeps-checked (validate_username username) _
        (λ _. Keeps-then _ (λ db v. delete_user-IsValid username db v))
  served-IsValid (set_password salt username password) =
      Keeps-checked (validate_username username) _ (λ _.
        Keeps-checked (validate_password password) _ (λ _.
          Keeps-checked (hashed (pw.hash_password salt password)) _
            (λ phc. served_revoke username phc)))
  served-IsValid (check now username password) = served_check now username password
  served-IsValid (issue issued cleaned token c) = served_issue issued cleaned token c
  served-IsValid (look_up now token) = Keeps-then _ (λ db v. v)
  served-IsValid (log_out token) =
      Keeps-then _ (λ db v. IsValid-fewer db _ (Sub-drop_token (pw.token_hash token) db.sessions) v)

  -- Whatever requests were served before, in whatever order, and whichever statements failed: no two
  -- users share an id or a name, no two sessions share a token's digest, and every session belongs to
  -- a user that is still stored.
  pub Reachable-IsValid : (db : Db) → Reachable pw db → IsValid db
  unfolding Distinct
  Reachable-IsValid _ (created faults) = record {
    unique_ids = tt;
    unique_names = tt;
    unique_tokens = tt;
    owned = λ s m. m;
  }
  Reachable-IsValid _ (after request {db} before) =
      served-IsValid request db (Reachable-IsValid db before)
