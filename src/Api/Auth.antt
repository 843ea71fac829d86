-- ===== src/Api/Auth.antt =====
-- controller/api/middleware/auth.go, and the passwords of controller/api/helpers.go.
-- The JWT library is a parameter: a token is a text, `sign` gives one for claims, unless it fails,
-- and `parse` reads one at a time, with the secret that both share. Times in claims are numeric dates,
-- which `numeric_date` makes of a time.
use project_constellation.Prelude.{
  ℕ, Bool, ◌==◌, String, List, [], ◌∷◌, Option, none, some, if◌then◌else◌,
}
use project_constellation.Api.Handler.{Handler, refuse, unauthorized}

pub record Claims : Type 0 where
  pub username : String
  pub role : String
  pub expires_at : ℕ
  pub issued_at : ℕ

pub record Jwt : Type 0 where
  pub numeric_date : ℕ → ℕ
  pub sign : Claims → Option String
  pub parse : ℕ → String → Option Claims

-- What a request carries: the header's parts between spaces, an empty header having none, and the
-- `token` of the query.
pub record Credentials : Type 0 where
  pub authorization : List String
  pub query_token : String

-- The token of a bearer header.
bearer : List String → String
bearer (scheme ∷ token ∷ []) = if scheme == "Bearer" then token else ""
bearer _ = ""

unfoldable pub token_of : Credentials → String
unfolding bearer
token_of c = let token = bearer c.authorization in if token == "" then c.query_token else token

unfoldable pub admit : {F R A : Type 0} → (Claims → Handler F R A) → Option Claims → Handler F R A
admit next none = refuse unauthorized
admit next (some claims) = next claims

-- RequireAuth around a handler, which gets the claims of the token.
unfoldable pub require_auth :
    {F R A : Type 0} → Jwt → ℕ → Credentials → (Claims → Handler F R A) → Handler F R A
unfolding admit
require_auth jwt now c next =
    if token_of c == "" then refuse unauthorized else admit next (jwt.parse now (token_of c))

-- hashPassword, for a SHA-256 in hexadecimal.
unfoldable pub check_password : (String → String) → String → String → Bool
check_password sha256 password hash = sha256 password == hash
