-- ===== src/Api/Users/Login.antt =====
-- Who may log in, and what the token of a login opens.
use project_constellation.Prelude.{
  ℕ, ◌+◌, ◌≡◌, ap, ◌≤◌, ◌<◌, ◌^◌, arith, refl, Bool, true, false, ◌==◌, eq_iff, String, [], ◌∷◌,
  Option, none, some,
}
use project_constellation.State.Model.{User}
use project_constellation.State.Engine.{Engine, Store, Result, ok, err}
use project_constellation.State.Clusters.{get_user_by_username, update_user_login}
use project_constellation.Scheduler.Events.{World}
use project_constellation.Api.Handler.{
  Reply, refused, answered, panicked, Handler, ◌>>=◌, ◌>>◌, refuse, respond, check, decoded, peek,
  attempt, reply, unauthorized,
}
use project_constellation.Api.Auth.{Claims, Jwt, check_password, require_auth, token_of}
use project_constellation.Api.Users.{
  LoginRequest, LoginReply, day, login_claims, known_user, or_unauthorized, signed, login_steps,
  handle_login,
}

-- What a login proves of the user.
pub record IsLogin {F : Type 0} (e : Engine) (now : ℕ) (sha256 : String → String) (jwt : Jwt)
    (req : LoginRequest) (s : Store F) (r : LoginReply) : Type 0 where
  pub account : User
  pub found : get_user_by_username e req.username s ≡ ok (some account)
  pub password : sha256 req.password ≡ account.password_hash
  pub token : jwt.sign (login_claims jwt now account) ≡ some r.token

module _ {F R : Type 0} (status : ℕ) (r : R) where
  -- What a handler passed that answered.
  check-answered :
      (b : Bool) (code : ℕ) (k : Handler F R R) (w : World F)
      → (reply ((check b code >> k) w)).0 ≡ answered status r
      → (b ≡ true) × ((reply (k w)).0 ≡ answered status r)
  unfolding check ◌>>◌ ◌>>=◌ refuse reply
  check-answered true code k w h = (refl, h)
  check-answered false code k w h = absurd (cc h)

  attempt-answered :
      (call : Store F → Result (Store F)) (k : Handler F R R) (w : World F)
      → (reply ((attempt call >> k) w)).0 ≡ answered status r
      → (w' : World F) × ((reply (k w')).0 ≡ answered status r)
  unfolding attempt ◌>>◌ ◌>>=◌
  attempt-answered call k w h = (_, h)

module _ {F : Type 0} (e : Engine) (now : ℕ) (sha256 : String → String) (jwt : Jwt)
    (req : LoginRequest) (w : World F) where
  abbrev answered_token : Reply LoginReply → Option String
  answered_token (answered status r) = some r.token
  answered_token (refused status) = none
  answered_token panicked = none

  signed-answered :
      (u : User) (token : Option String) (v : World F) (status : ℕ) (r : LoginReply)
      → (reply (signed e now sha256 u token v)).0 ≡ answered status r
      → token ≡ some r.token
  unfolding signed refuse respond reply
  signed-answered u none v status r h = absurd (cc h)
  signed-answered u (some t) v status r h = ap answered_token h

  found-IsLogin :
      (found : Result (Option User)) (status : ℕ) (r : LoginReply)
      → get_user_by_username e req.username w.store ≡ found
      → (reply (
          (or_unauthorized e now sha256 (known_user found) >>= λ user.
          check (check_password sha256 req.password user.password_hash) unauthorized
          >> (attempt (update_user_login e now req.username)
              >> signed e now sha256 user (jwt.sign (login_claims jwt now user))))
            w)).0
        ≡ answered status r
      → IsLogin e now sha256 jwt req w.store r
  unfolding or_unauthorized known_user ◌>>=◌ refuse peek reply
  found-IsLogin (err x) status r g h = absurd (cc h)
  found-IsLogin (ok none) status r g h = absurd (cc h)
  found-IsLogin (ok (some u)) status r g h =
      let admitted =
        check-answered status r (check_password sha256 req.password u.password_hash) unauthorized
          (attempt (update_user_login e now req.username)
            >> signed e now sha256 u (jwt.sign (login_claims jwt now u)))
          w h in
      let opened =
        attempt-answered status r (update_user_login e now req.username)
          (signed e now sha256 u (jwt.sign (login_claims jwt now u))) w admitted.1 in
      record {
        account = u;
        found = g;
        password = unfold check_password in (eq_iff _ _).0 admitted.0;
        token = signed-answered u _ opened.0 status r opened.1;
      }

  -- A login is answered only for a user of the name, with the password whose hash is stored, and the
  -- token is the signature of that user's name and role for a day.
  pub handle_login-IsLogin :
      (status : ℕ) (r : LoginReply)
      → (reply (handle_login e now sha256 jwt (some req) w)).0 ≡ answered status r
      → IsLogin e now sha256 jwt req w.store r
  unfolding handle_login login_steps decoded ◌>>=◌ ◌>>◌ peek
  handle_login-IsLogin status r h =
      found-IsLogin (get_user_by_username e req.username w.store) status r refl h

  -- Suppose that the JWT library cuts times to numeric dates by less than a second, that it reads back
  -- claims with such dates that it signed, from the time they are issued until just before they expire,
  -- and that it gives no empty token. Then the token of a login that was answered, sent as a bearer
  -- token from then until a second before a day has passed, passes RequireAuth, and the handler behind
  -- it gets the name and the role of a user with the name and the password of the login.
  pub handle_login-require_auth :
      {R A : Type 0}
      → ((t : ℕ) → (jwt.numeric_date t ≤ t) × (t < jwt.numeric_date t + 10 ^ 9))
      → ((c : Claims) (expires issued : ℕ) (t : String) (at : ℕ)
          → c.expires_at ≡ jwt.numeric_date expires
          → c.issued_at ≡ jwt.numeric_date issued
          → jwt.sign c ≡ some t
          → c.issued_at ≤ at
          → at < c.expires_at
          → (jwt.parse at t ≡ some c) × ((t == "") ≡ false))
      → (status : ℕ) (r : LoginReply)
      → (reply (handle_login e now sha256 jwt (some req) w)).0 ≡ answered status r
      → (at : ℕ) → now ≤ at
      → at + 10 ^ 9 ≤ now + day
      → (next : Claims → Handler F R A)
      → (u : User) × (require_auth jwt at
            (record { authorization = "Bearer" ∷ r.token ∷ []; query_token = "" })
            next
          ≡ next (login_claims jwt now u))
        × (get_user_by_username e req.username w.store ≡ ok (some u))
        × (sha256 req.password ≡ u.password_hash)
  unfolding require_auth token_of
  handle_login-require_auth dates law status r h at late soon next =
      let login = handle_login-IsLogin status r h in
      let issued = dates now in
      let expires = dates (now + day) in
      let back =
        law (login_claims jwt now login.account) (now + day) now r.token at refl refl login.token
          (omega (arith, issued.0)) (omega (arith, expires.1)) in
      (login.account, rw (back.1, back.1, back.0) refl, login.found, login.password)
