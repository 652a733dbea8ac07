-- ===== src/Middleware/Routes.antt =====
-- The routes of internal/components/{user,service,role}/routes.go and the middleware that
-- cmd/api/api.go and the route groups put in front of each handler.
use go_user_and_service_mgmt.Prelude.{String, List, [], ◌∷◌, Option, none, some}
use go_user_and_service_mgmt.Models.{role_admin, role_advanced}
use go_user_and_service_mgmt.Middleware.{
  Context, Step, next, abort, Token, authenticate, authz_roles,
}

pub data Endpoint : Type 0 where
  login change_user_password : Endpoint
  get_user_by_id fetch_users : Endpoint
  add_user update_user delete_user : Endpoint
  get_service_by_id fetch_services get_service_version fetch_service_versions : Endpoint
  add_service update_service delete_service : Endpoint
  add_service_version update_service_version delete_service_version : Endpoint
  fetch_user_roles : Endpoint

-- The roles of the group's `AuthzRoles`, if the group has one.
unfoldable pub allowed_roles : Endpoint → Option (List String)
allowed_roles Endpoint.get_user_by_id = some (role_advanced ∷ role_admin ∷ [])
allowed_roles Endpoint.fetch_users = some (role_advanced ∷ role_admin ∷ [])
allowed_roles Endpoint.add_user = some (role_admin ∷ [])
allowed_roles Endpoint.update_user = some (role_admin ∷ [])
allowed_roles Endpoint.delete_user = some (role_admin ∷ [])
allowed_roles Endpoint.add_service = some (role_advanced ∷ role_admin ∷ [])
allowed_roles Endpoint.update_service = some (role_advanced ∷ role_admin ∷ [])
allowed_roles Endpoint.delete_service = some (role_advanced ∷ role_admin ∷ [])
allowed_roles Endpoint.add_service_version = some (role_advanced ∷ role_admin ∷ [])
allowed_roles Endpoint.update_service_version = some (role_advanced ∷ role_admin ∷ [])
allowed_roles Endpoint.delete_service_version = some (role_advanced ∷ role_admin ∷ [])
allowed_roles _ = none

-- A middleware after a step: it runs if the step went on.
abbrev pub and_then : Step → (Context → Step) → Step
and_then (next c) m = m c
and_then (abort status message) m = abort status message

abbrev pub authz_of : Option (List String) → Context → Step
authz_of none c = next c
authz_of (some roles) c = authz_roles roles c

-- What runs before the handler of an endpoint; the handler runs on `next`.
unfoldable pub before_handler :
    (String → String → Option Token) → String → String → Endpoint → Context → Step
before_handler parse login_path secret endpoint c =
    and_then (authenticate parse login_path secret c) (authz_of (allowed_roles endpoint))
