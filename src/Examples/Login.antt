-- ===== src/Examples/Login.antt =====
-- The theorem on logins, at one user and a JWT library whose tokens are the user's names.
use project_constellation.Prelude.{
  ℕ, ◌≡◌, ◌≤◌, ◌<◌, ◌+◌, ◌*◌, ◌/◌, ◌^◌, ltb, refl, ap, sym, subst, Bool, true, false, ◌&&◌,
  and_true, eq_iff, eqb, Bool-cases, inl, inr, some_inj, String, [], ◌∷◌, none, some, ◌==◌,
  if◌then◌else◌, arith, ℤ,
}
use project_constellation.State.Model.{User}
use project_constellation.State.Engine.{ok}
use project_constellation.State.Clusters.{get_user_by_username}
use project_constellation.Scheduler.Events.{World}
use project_constellation.Api.Handler.{
  Handler, reply, ◌>>=◌, ◌>>◌, decoded, peek, check, attempt, respond,
}
use project_constellation.Api.Auth.{Claims, Jwt, check_password, require_auth}
use project_constellation.Api.Users.{LoginRequest, handle_login, day, login_claims, user_reply}
use project_constellation.Api.Users.Login.{handle_login-require_auth}
use project_constellation.Examples.Data.{sound_engine, store_of}

abbrev ada : User
ada = record {
  id = "u1";
  username = "ada";
  password_hash = "secret";
  role = "admin";
  created_at = 0;
  last_login = 0;
}

-- A library that signs one user's claims, at the time 0.
abbrev ada_claims : Claims
ada_claims = record { username = "ada"; role = "admin"; expires_at = day; issued_at = 0 }

abbrev is_ada : Claims → Bool
is_ada c = c.username == "ada" && (c.role == "admin" && (eqb c.expires_at day && eqb c.issued_at 0))

abbrev one_user_jwt : Jwt
one_user_jwt = record {
  numeric_date = λ t. t / 10 ^ 9 * 10 ^ 9;
  sign = λ c. if is_ada c then some "t" else none;
  parse = λ at t. if ltb at day && t == "t" then some ada_claims else none;
}

is_ada_lem : (c : Claims) → is_ada c ≡ true → c ≡ ada_claims
is_ada_lem c h =
    let u = and_true _ _ h in
    let r = and_true _ _ u.1 in
    let d = and_true (eqb c.expires_at day) (eqb c.issued_at 0) r.1 in
    let user = (eq_iff c.username "ada").0 u.0 in
    let role = (eq_iff c.role "admin").0 r.0 in
    let expires : c.expires_at ≡ day = ground (arith, d.0) in
    let issued : c.issued_at ≡ 0 = ground (arith, d.1) in cc

one_user_dates :
    (t : ℕ) → (one_user_jwt.numeric_date t ≤ t) × (t < one_user_jwt.numeric_date t + 10 ^ 9)
one_user_dates t = (omega arith, omega arith)

one_user_law :
    (c : Claims) (expires issued : ℕ) (t : String) (at : ℕ)
    → c.expires_at ≡ one_user_jwt.numeric_date expires
    → c.issued_at ≡ one_user_jwt.numeric_date issued
    → one_user_jwt.sign c ≡ some t
    → c.issued_at ≤ at
    → at < c.expires_at
    → (one_user_jwt.parse at t ≡ some c) × ((t == "") ≡ false)
one_user_law c expires issued t at ends begins h late soon = elim (Bool-cases (is_ada c)) [
  | inr b ↦ absurd (cc (b, h))
  | inl b ↦
      let ada = is_ada_lem c b in
      let letter : "t" ≡ t = some_inj (rw b at h) in
      let early = subst (λ q. at < q.expires_at) ada soon in
      let on_time : ltb at day ≡ true = ground arith in
      subst (λ q. (one_user_jwt.parse at q ≡ some c) × ((q == "") ≡ false)) letter
        (rw on_time (ap some (sym ada)), refl)
]

abbrev request : LoginRequest
request = record { username = "ada"; password = "secret" }

abbrev users : World ℤ
users = record { store = record (store_of [] []) { users = ada ∷ [] }; events = [] }

-- A handler behind RequireAuth.
abbrev greet : Claims → Handler ℤ String String
greet c = respond 200 c.username

handle_login-require_auth_example :
    (u : User) × (require_auth one_user_jwt 5
        (record { authorization = "Bearer" ∷ "t" ∷ []; query_token = "" })
        greet
      ≡ greet (login_claims one_user_jwt 0 u))
    × (get_user_by_username sound_engine "ada" users.store ≡ ok (some u))
    × ("secret" ≡ u.password_hash)
unfolding reply handle_login ◌>>=◌ decoded peek get_user_by_username ◌>>◌ check check_password
    attempt respond
handle_login-require_auth_example =
    handle_login-require_auth sound_engine 0 (λ s. s) one_user_jwt request users one_user_dates
      one_user_law 200 (record { user = user_reply ada; token = "t" }) refl 5 (omega arith)
      (omega arith) greet
