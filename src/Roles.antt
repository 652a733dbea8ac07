-- ===== src/Roles.antt =====
-- internal/components/role/operations.go, and internal/misc/user_roles.go, which keeps the role
-- names in memory. The global map `misc.Roles` is passed in and returned.
pub mod Laws
use go_user_and_service_mgmt.Prelude.{
  ℕ, zero, negsuc, String, Bool, true, false, List, [], ◌∷◌, Option, none, some, lookup, insert,
  length, ◌==◌, number_comparable, text_comparable,
}
use go_user_and_service_mgmt.Errors.{GoError}
use go_user_and_service_mgmt.Models.{UserRole}
use go_user_and_service_mgmt.Gorm.{Action, Database, pure, fail_if, or_error, ◌>>=◌, ◌>>◌}

abbrev to_internal : GoError → GoError
to_internal _ = GoError.internal

-- `fmt.Errorf("...: %+v", err)`
abbrev to_formatted : GoError → GoError
to_formatted _ = GoError.formatted

abbrev pub has_name : String → UserRole → Bool
has_name name r = r.name == name

-- `Roles[userRole.Name] = userRole.Description`, for each row
abbrev pub record_roles : List UserRole → List (String × String) → List (String × String)
record_roles [] roles = roles
record_roles (r ∷ rest) roles = record_roles rest (insert r.name r.description roles)

abbrev is_present : Option String → Bool
is_present none = false
is_present (some _) = true

-- `_, ok := misc.Roles[role]`
unfoldable pub is_role : List (String × String) → String → Bool
is_role roles role = is_present (lookup role roles)

module _ {World : Type 0} (db : Database World) where
  -- `Find` without `Limit` and `Offset`
  unfoldable pub fetch_roles : Action World (List UserRole)
  fetch_roles = do
    user_roles ← or_error (db.user_roles.find (λ _. true) (negsuc zero) (negsuc zero)) to_internal
    pure user_roles

  unfoldable pub load_user_roles : List (String × String) → Action World (List (String × String))
  load_user_roles roles = do
    user_roles ← or_error (db.user_roles.find (λ _. true) (negsuc zero) (negsuc zero)) to_formatted
    fail_if (length user_roles == 0) GoError.formatted
    pure (record_roles user_roles roles)
