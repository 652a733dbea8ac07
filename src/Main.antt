-- ===== src/Main.antt =====
-- cmd/main.go, up to the point where the server listens: configuration, connection, and either
-- the migration run or the loading of the roles. `log.Fatal` is an error. What main calls of other
-- packages is the record `Outside`.
pub mod Start
mod Tests
use go_user_and_service_mgmt.Prelude.{String, Bool, true, false, List, [], ◌≡◌}
use go_user_and_service_mgmt.Gorm.{Action, Database, Tables, pure, or_error, ◌>>=◌, ◌>>◌}
use go_user_and_service_mgmt.Configs.{Variables, Config, init_config}
use go_user_and_service_mgmt.Roles.{load_user_roles}
use go_user_and_service_mgmt.Migration.{
  Definitions, same_error, migrate_db_entities, init_db_entities,
}

-- `os.Exit(0)` after a migration, or the server that starts with the roles in memory.
pub data Stage : Type 0 where
  exited : Stage
  serving : List (String × String) → Stage

pub record Outside (World : Type 0) : Type 0 where
  -- `godotenv.Load`
  pub load : String → Action Variables (Unit {0})
  -- `pginit.InitDB`
  pub open_db : Config → Action World (Unit {0})
  pub definitions : Definitions World
  pub generate_password_hash : String → Action World String

-- The definitions of tables leave every row, and that of the view touches only the view; opening
-- the connection and hashing touch nothing.
pub record IsSilent {World : Type 0} (tables : World → Tables) (out : Outside World) : Type 0 where
  pub open_db_lem : (c : Config) (w : World) → tables (out.open_db c w).1 ≡ tables w
  pub users_lem : (w : World) → tables (out.definitions.migrate_users w).1 ≡ tables w
  pub services_lem : (w : World) → tables (out.definitions.migrate_services w).1 ≡ tables w
  pub versions_lem : (w : World) → tables (out.definitions.migrate_versions w).1 ≡ tables w
  pub roles_lem : (w : World) → tables (out.definitions.migrate_roles w).1 ≡ tables w
  pub view_lem :
      (w : World)
      → tables (out.definitions.create_view w).1 ≡ record (tables w) {
        name_sorted_service = (tables (out.definitions.create_view w).1).name_sorted_service;
      }
  pub hash_lem :
      (password : String) (w : World) → tables (out.generate_password_hash password w).1 ≡ tables w

module _ {World : Type 0} (db : Database World) (out : Outside World)
    (order : List (String × String)) where
  unfoldable pub migrate_run : Action World Stage
  migrate_run = do
    or_error (migrate_db_entities out.definitions) same_error
    or_error (init_db_entities db out.generate_password_hash order) same_error
    pure exited

  unfoldable pub serve_run : Action World Stage
  serve_run = do roles ← or_error (load_user_roles db []) same_error; pure (serving roles)

  -- `if *dbMigration { ... }`
  abbrev pub run_mode : Bool → Action World Stage
  run_mode true = migrate_run
  run_mode false = serve_run

  -- `order` is the order in which the default roles come from their map.
  unfoldable pub start : Bool → String → Variables → Action World Stage
  start migrate env_file variables = do
    config ← or_error (λ w. ((init_config out.load env_file variables).0, w)) same_error
    or_error (out.open_db config) same_error
    run_mode migrate
