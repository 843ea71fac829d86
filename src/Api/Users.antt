-- ===== src/Api/Users.antt =====
-- The handlers of controller/api/tasks.go for users, logins and the audit log.
-- `sha256` is the hexadecimal digest of a password, and `jwt` the JWT library.
pub mod Login
use project_constellation.Prelude.{
  ℕ, ◌+◌, ◌*◌, ◌^◌, pos, true, not, ◌||◌, ◌==◌, String, List, [], ◌∷◌, Option, none, some, concat,
  one_of, length, if◌then◌else◌,
}
use project_constellation.State.Model.{User, AuditEntry}
use project_constellation.State.Engine.{Engine, Result, ok, err}
use project_constellation.State.Tasks.{or_default}
use project_constellation.State.Clusters.{
  add_audit_entry, create_user, delete_user, get_user_by_username, list_audit_log, list_users,
  update_user_login,
}
use project_constellation.Api.Handler.{
  Handler, ◌>>=◌, ◌>>◌, refuse, respond, check, decoded, peek, query, write, insert, attempt,
  bad_request, unauthorized, conflict, internal_error, status_ok, created,
}
use project_constellation.Api.Numbers.{atoi}
use project_constellation.Api.Auth.{Claims, Jwt, check_password}

pub record CreateUserRequest : Type 0 where
  pub username : String
  pub password : String
  pub role : String

pub record LoginRequest : Type 0 where
  pub username : String
  pub password : String

pub record UserReply : Type 0 where
  pub user_id : String
  pub username : String
  pub role : String

pub record LoginReply : Type 0 where
  pub user : UserReply
  pub token : String

abbrev pub day : ℕ
day = 24 * (60 * (60 * 10 ^ 9))

abbrev pub user_reply : User → UserReply
user_reply u = record { user_id = u.id; username = u.username; role = u.role }

-- The claims of a user's token.
abbrev pub login_claims : Jwt → ℕ → User → Claims
login_claims jwt now u = record {
  username = u.username;
  role = u.role;
  expires_at = jwt.numeric_date (now + day);
  issued_at = jwt.numeric_date now;
}

abbrev new_user : String → String → String → User
new_user name hash role = record {
  id = "";
  username = name;
  password_hash = hash;
  role = role;
  created_at = 0;
  last_login = 0;
}

-- A user that is there; an error of the query counts as none.
known_user : Result (Option User) → Option User
known_user (ok u) = u
known_user (err x) = none

module _ {F : Type 0} (e : Engine) (now : ℕ) (sha256 : String → String) where
  unfoldable pub refuse_known : {R : Type 0} → Option User → Handler F R (Unit {0})
  refuse_known none = check true conflict
  refuse_known (some u) = refuse conflict

  unfoldable pub create_user_steps : String → CreateUserRequest → Handler F UserReply UserReply
  unfolding refuse_known known_user
  create_user_steps uuid req = do
    check (not (req.username == "" || req.password == "")) bad_request
    let role = or_default "viewer" req.role
    check (one_of role ("admin" ∷ "operator" ∷ "viewer" ∷ [])) bad_request
    existing ← peek (get_user_by_username e req.username)
    refuse_known (known_user existing)
    user ←
        insert (create_user e now uuid (new_user req.username (sha256 req.password) role))
          internal_error
    attempt (
        add_audit_entry e now "" "user_create" "user" user.id
          (concat "User '" (concat req.username (concat "' created with role " role))))
    respond created (user_reply user)

  -- HandleCreateUser.
  unfoldable pub handle_create_user :
      String → Option CreateUserRequest → Handler F UserReply UserReply
  unfolding create_user_steps
  handle_create_user uuid body = do req ← decoded body; create_user_steps uuid req

  -- HandleListUsers.
  unfoldable pub handle_list_users : Handler F (List User × ℕ) (List User × ℕ)
  handle_list_users = do
    users ← query (list_users e) internal_error
    respond status_ok (users, length users)

  -- HandleDeleteUser.
  unfoldable pub handle_delete_user : String → Handler F (Unit {0}) (Unit {0})
  handle_delete_user name = do
    check (not (name == "admin")) bad_request
    write (delete_user e name) internal_error
    respond status_ok tt

  unfoldable pub or_unauthorized : {R : Type 0} → Option User → Handler F R User
  or_unauthorized none = refuse unauthorized
  or_unauthorized (some u) = peek (λ s. u)

  unfoldable pub signed : User → Option String → Handler F LoginReply LoginReply
  signed u none = refuse internal_error
  signed u (some token) = respond status_ok (record { user = user_reply u; token = token })

  unfoldable pub login_steps : Jwt → LoginRequest → Handler F LoginReply LoginReply
  unfolding or_unauthorized known_user signed
  login_steps jwt req = do
    found ← peek (get_user_by_username e req.username)
    user ← or_unauthorized (known_user found)
    check (check_password sha256 req.password user.password_hash) unauthorized
    attempt (update_user_login e now req.username)
    signed user (jwt.sign (login_claims jwt now user))

  -- HandleLogin.
  unfoldable pub handle_login : Jwt → Option LoginRequest → Handler F LoginReply LoginReply
  unfolding login_steps
  handle_login jwt body = do req ← decoded body; login_steps jwt req

  -- HandleListAuditLog, from the text of the query: a missing one is empty.
  unfoldable pub handle_list_audit_log :
      String → Handler F (List AuditEntry × ℕ) (List AuditEntry × ℕ)
  handle_list_audit_log limit = do
    entries ← query (list_audit_log e (if limit == "" then pos 100 else atoi limit)) internal_error
    respond status_ok (entries, length entries)
