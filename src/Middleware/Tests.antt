-- ===== src/Middleware/Tests.antt =====
-- Requests through the middleware, and the theorems at those requests.
use Prim.Native.String.{◌++◌}
use go_user_and_service_mgmt.Prelude.{
  String, [], ◌∷◌, Option, none, some, true, false, string, ◌≡◌, ◌↔◌, ◌⊎◌, refl, ◌==◌, ◌&&◌,
  text_comparable, if◌then◌else◌,
}
use go_user_and_service_mgmt.Models.{role_admin, role_advanced}
use go_user_and_service_mgmt.Middleware.{
  Context, next, abort, Token, is_login, authenticate, is_allowed, authz_roles,
}
use go_user_and_service_mgmt.Middleware.Bearer.{
  split_spaces, bearer_token, has_space, bearer_token_iff,
}
use go_user_and_service_mgmt.Middleware.Laws.{with_claims, Carries}
use go_user_and_service_mgmt.Middleware.Routes.{Endpoint, allowed_roles, before_handler}
use go_user_and_service_mgmt.Middleware.Access.{
  IsOneOf, before_handler-restricted, before_handler-open,
}

-- The secret signs two tokens: one of an administrator, one without a role.
abbrev parse : String → String → Option Token
parse secret t =
    if secret == "secret" && t == "abc"
    then some (record {
      valid = true;
      claims = some (("email", string "ada@mgmtportal.com") ∷ ("role", string "admin") ∷ []);
    })
    else if secret == "secret" && t == "def"
    then some (record { valid = true; claims = some (("email", string "bob@mgmtportal.com") ∷ []) })
    else none

abbrev login_path : String
login_path = "/api/v1/login"

abbrev by_admin : Context
by_admin = record { path = some "/api/v1/user"; authorization = "Bearer abc"; keys = [] }

abbrev reached : Context
reached = with_claims "admin" "ada@mgmtportal.com" by_admin

admin_passes : before_handler parse login_path "secret" Endpoint.add_user by_admin ≡ next reached
unfolding before_handler authenticate authz_roles allowed_roles is_allowed bearer_token split_spaces
admin_passes = refl

no_role_claimed :
    before_handler parse login_path "secret" Endpoint.fetch_user_roles
      (record by_admin { authorization = "Bearer def" })
    ≡ abort 401 "token lacks desired claims"
unfolding before_handler authenticate bearer_token split_spaces
no_role_claimed = refl

two_spaces :
    before_handler parse login_path "secret" Endpoint.add_user
      (record by_admin { authorization = "Bearer  abc" })
    ≡ abort 401 "invalid missing Bearer Token"
unfolding before_handler authenticate bearer_token split_spaces
two_spaces = refl

bearer_token_iff_example :
    (bearer_token (split_spaces "Bearer abc") ≡ some "abc")
    ↔ (("Bearer abc" ≡ "Bearer" ++ (" " ++ "abc")) × (has_space "abc" ≡ false))
bearer_token_iff_example = bearer_token_iff "Bearer abc" "abc"

before_handler-restricted_example :
    (before_handler parse login_path "secret" Endpoint.fetch_users by_admin ≡ next reached) ↔ (
      (is_login by_admin.path login_path ≡ false)
      × ((role : String) × (email : String) × Carries parse login_path "secret" role email
            "Bearer abc"
          × IsOneOf role (role_advanced ∷ role_admin ∷ [])
          × (reached ≡ with_claims role email by_admin)))
unfolding allowed_roles
before_handler-restricted_example =
    before_handler-restricted parse login_path "secret" Endpoint.fetch_users
      (role_advanced ∷ role_admin ∷ []) by_admin reached refl refl

before_handler-open_example :
    (before_handler parse login_path "secret" Endpoint.fetch_user_roles by_admin ≡ next reached) ↔ (
      ((is_login by_admin.path login_path ≡ true) × (reached ≡ by_admin))
      ⊎ ((is_login by_admin.path login_path ≡ false)
          × ((role : String) × (email : String) × Carries parse login_path "secret" role email
                "Bearer abc"
              × (reached ≡ with_claims role email by_admin))))
unfolding allowed_roles
before_handler-open_example =
    before_handler-open parse login_path "secret" Endpoint.fetch_user_roles by_admin reached refl
