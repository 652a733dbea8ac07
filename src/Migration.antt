-- ===== src/Migration.antt =====
-- cmd/migration/migrate.go: `MigrateDBEntities` and `InitDBEntities`, which a start with the
-- migration flag runs. The statements that define tables and the view, and the hashing of the
-- administrator's password, are parameters.
pub mod Laws
pub mod Completion
pub mod Rerun
mod Tests
use go_user_and_service_mgmt.Prelude.{
  String, Bool, true, false, List, [], ◌∷◌, ◌==◌, number_comparable, text_comparable,
}
use go_user_and_service_mgmt.Errors.{GoError}
use go_user_and_service_mgmt.Models.{User, UserRole}
use go_user_and_service_mgmt.Gorm.{Action, Database, pure, or_error, ◌>>=◌, ◌>>◌}
use go_user_and_service_mgmt.Roles.{has_name}
use go_user_and_service_mgmt.Users.Operations.{has_email}

abbrev admin_user_name : String
admin_user_name = "admin"

abbrev admin_user_role : String
admin_user_role = "admin"

abbrev pub admin_user_email : String
admin_user_email = "admin@mgmtportal.com"

abbrev pub admin_user_password : String
admin_user_password = "admin123"

-- The map is ranged over in any order; this is the order of the source.
abbrev pub default_roles : List (String × String)
default_roles =
    ("basic", "View service(s) and their version(s)")
    ∷ ("advanced", "View/Modify service(s) and view user(s) in systems")
    ∷ ("admin", "View/Modify service(s) and user(s) in systems")
    ∷ []

abbrev pub admin_user : String → User
admin_user password_hash = record {
  id = 0;
  name = admin_user_name;
  email = admin_user_email;
  role = admin_user_role;
  password_hash = password_hash;
  is_temporary_password = true;
}

abbrev pub user_role : String → String → UserRole
user_role name description = record { name = name; description = description }

-- `fmt.Errorf("...: %v", err)`
abbrev pub to_formatted : GoError → GoError
to_formatted _ = GoError.formatted

-- The statements that define the tables and the view: `AutoMigrate` of each model, and
-- `CREATE MATERIALIZED VIEW IF NOT EXISTS name_sorted_service`.
pub record Definitions (World : Type 0) : Type 0 where
  pub migrate_users : Action World (Unit {0})
  pub migrate_services : Action World (Unit {0})
  pub migrate_versions : Action World (Unit {0})
  pub migrate_roles : Action World (Unit {0})
  pub create_view : Action World (Unit {0})

unfoldable pub migrate_db_entities : {World : Type 0} → Definitions World → Action World (Unit {0})
migrate_db_entities d = do
  or_error d.migrate_users to_formatted
  or_error d.migrate_services to_formatted
  or_error d.migrate_versions to_formatted
  or_error d.migrate_roles to_formatted
  or_error d.create_view to_formatted
  pure tt

abbrev pub same_error : GoError → GoError
same_error e = e

module _ {World : Type 0} (db : Database World) where
  -- `if userWithSameEmail == 0 { ... }`
  unfoldable pub add_admin : Bool → String → Action World (Unit {0})
  add_admin true password_hash = do
    or_error (db.users.create (admin_user password_hash)) to_formatted
    pure tt
  add_admin false password_hash = pure tt

  -- `if roleConfigured == 0 { ... }`
  unfoldable pub add_role : Bool → UserRole → Action World (Unit {0})
  add_role true r = do or_error (db.user_roles.create r) to_formatted; pure tt
  add_role false r = pure tt

  -- The loop over the roles, in the order in which they come.
  unfoldable pub init_roles : List (String × String) → Action World (Unit {0})
  init_roles [] = pure tt
  init_roles ((role, description) ∷ rest) = do
    configured ← or_error (db.user_roles.count (has_name role)) to_formatted
    or_error (add_role (configured == 0) (user_role role description)) same_error
    init_roles rest

  unfoldable pub init_db_entities :
      (String → Action World String) → List (String × String) → Action World (Unit {0})
  init_db_entities generate_password_hash roles = do
    password_hash ← or_error (generate_password_hash admin_user_password) to_formatted
    same ← or_error (db.users.count (has_email admin_user_email)) to_formatted
    or_error (add_admin (same == 0) password_hash) same_error
    init_roles roles
