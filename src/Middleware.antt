-- ===== src/Middleware.antt =====
-- internal/middleware/mid.go: authentication and authorization, in front of the handlers; and
-- `ValidateJWT` of internal/auth/jwt.go. The JWT library is the parameter `parse`.
pub mod Access
pub mod Bearer
pub mod Laws
pub mod Routes
mod Tests
use go_user_and_service_mgmt.Prelude.{
  ℕ, String, Bool, true, false, List, [], ◌∷◌, Option, none, some, Value, string, lookup, insert,
  ◌==◌, text_comparable, if◌then◌else◌,
}
use go_user_and_service_mgmt.Middleware.Bearer.{split_spaces, bearer_token}

-- What the middleware reads of a request, and the values that it sets for the handlers
-- (`c.Set`, `c.Get`). `path` is missing where `c.Request.URL` is nil.
pub record Context : Type 0 where
  pub path : Option String
  pub authorization : String
  pub keys : List (String × String)

-- `c.Next()`, or a response with a status and an error text, and `c.Abort()`.
pub data Step : Type 0 where
  next : Context → Step
  abort : ℕ → String → Step

-- A parsed token; `claims` is missing where they are not `MapClaims`.
pub record Token : Type 0 where
  pub valid : Bool
  pub claims : Option (List (String × Value))

abbrev pub claim_email : String
claim_email = "email"

abbrev pub claim_role : String
claim_role = "role"

abbrev status_unauthorized : ℕ
status_unauthorized = 401

abbrev pub claim_missing : Step
claim_missing = abort status_unauthorized "token lacks desired claims"

abbrev pub invalid_or_expired : Step
invalid_or_expired = abort status_unauthorized "invalid or expired JWT"

abbrev pub not_authorized : Step
not_authorized = abort status_unauthorized "user not authorized"

-- `claims[key].(string)`
abbrev pub text_claim : String → List (String × Value) → Option String
text_claim key claims = elim (lookup key claims) [ some (string s) ↦ some s | _ ↦ none ]

abbrev pub is_login : Option String → String → Bool
is_login none prefix = false
is_login (some path) prefix = path == prefix

abbrev pub only_valid : Option Token → Option Token
only_valid none = none
only_valid (some token) = if token.valid then some token else none

-- `ValidateJWT`, without the error, which the caller does not look at
abbrev pub validate_jwt : (String → String → Option Token) → String → String → Option Token
validate_jwt parse secret token_string = only_valid (parse secret token_string)

-- the values for the handlers, if both claims are texts
abbrev pub set_claims : Context → Option String → Option String → Step
set_claims c (some role) (some email) =
    next (record c { keys = insert claim_email email (insert claim_role role c.keys) })
set_claims c _ _ = claim_missing

abbrev pub check_claims : Context → Option (List (String × Value)) → Step
check_claims c none = claim_missing
check_claims c (some claims) =
    set_claims c (text_claim claim_role claims) (text_claim claim_email claims)

abbrev pub check_token : Context → Option Token → Step
check_token c none = invalid_or_expired
check_token c (some token) = if token.valid then check_claims c token.claims else invalid_or_expired

abbrev pub check_bearer : (String → Option Token) → Context → Option String → Step
check_bearer validate c none = abort status_unauthorized "invalid missing Bearer Token"
check_bearer validate c (some token_string) = check_token c (validate token_string)

-- `Authenticate(apiPrefix, log, secret)`; `login_path` is `apiPrefix + "/login"`
unfoldable pub authenticate : (String → String → Option Token) → String → String → Context → Step
authenticate parse login_path secret c =
    if is_login c.path login_path
    then next c
    else if c.authorization == ""
    then abort status_unauthorized "authorization header is missing"
    else check_bearer (validate_jwt parse secret) c (bearer_token (split_spaces c.authorization))

-- the loop over `allowedRolesForRoute`
unfoldable pub is_allowed : List String → String → Bool
is_allowed [] user_role = false
is_allowed (role ∷ roles) user_role =
    let rest = is_allowed roles user_role in if role == user_role then true else rest

abbrev pub check_role : List String → Context → Option String → Step
check_role allowed c none = not_authorized
check_role allowed c (some user_role) =
    if is_allowed allowed user_role then next c else not_authorized

-- `AuthzRoles(allowedRolesForRoute...)`
unfoldable pub authz_roles : List String → Context → Step
authz_roles allowed c = check_role allowed c (lookup claim_role c.keys)
