-- ===== src/Main/Tests.antt =====
-- A migration run on an empty database, a start after it, and one without it.
use go_user_and_service_mgmt.Prelude.{
  String, false, List, [], ◌∷◌, none, ◌≡◌, refl, ◌==◌, ◌||◌, not, number_comparable, arith,
  count_if,
}
use go_user_and_service_mgmt.Models.{UserRole}
use go_user_and_service_mgmt.Gorm.{Action, ok, or_error, ◌>>=◌, fail_if}
use go_user_and_service_mgmt.Gorm.Memory.{Memory, memory}
use go_user_and_service_mgmt.Gorm.Memory.Laws.{memory-IsRelational}
use go_user_and_service_mgmt.Configs.{Variables, config_of, init_config}
use go_user_and_service_mgmt.Roles.{has_name, is_role}
use go_user_and_service_mgmt.Migration.{
  admin_user, default_roles, user_role, migrate_db_entities, init_db_entities, init_roles,
  add_admin, add_role,
}
use go_user_and_service_mgmt.Migration.Completion.{named}
use go_user_and_service_mgmt.Main.{Outside, IsSilent, serving, start, migrate_run}
use go_user_and_service_mgmt.Main.Start.{start-serves, start-unmigrated}

abbrev empty : Memory
empty = record {
  store = record {
    user = [];
    user_role = [];
    service = [];
    version = [];
    name_sorted_service = [];
  };
  schedule = [];
}

abbrev nothing : Action Memory (Unit {0})
nothing m = (ok tt, m)

abbrev outside : Outside Memory
outside = record {
  load = λ file variables. (ok tt, variables);
  open_db = λ config. nothing;
  definitions = record {
    migrate_users = nothing;
    migrate_services = nothing;
    migrate_versions = nothing;
    migrate_roles = nothing;
    create_view = λ (m : Memory).
        (ok tt, record m { store = record (m.store) { name_sorted_service = m.store.service } });
  };
  generate_password_hash = λ password m. (ok "h", m);
}

outside-IsSilent : IsSilent memory.tables outside
outside-IsSilent = record {
  open_db_lem = λ c w. refl;
  users_lem = λ w. refl;
  services_lem = λ w. refl;
  versions_lem = λ w. refl;
  roles_lem = λ w. refl;
  view_lem = λ w. refl;
  hash_lem = λ password w. refl;
}

abbrev unset : Variables
unset _ = none

abbrev stored_roles : List UserRole
stored_roles =
    user_role "basic" "View service(s) and their version(s)"
    ∷ user_role "advanced" "View/Modify service(s) and view user(s) in systems"
    ∷ user_role "admin" "View/Modify service(s) and user(s) in systems"
    ∷ []

abbrev migrated : Memory
migrated = record empty {
  store = record (empty.store) {
    user = record (admin_user "h") { id = 1 } ∷ [];
    user_role = stored_roles;
  };
}

start-serves_example :
    (roles : List (String × String)) × ((start memory outside default_roles false "" unset
        migrated).0
      ≡ ok (serving roles))
    × ((key : String)
        → is_role roles key ≡ (
            not (count_if (named key) default_roles == 0)
            || not (count_if (has_name key) (empty.store).user_role == 0)))
unfolding start migrate_run migrate_db_entities init_db_entities init_roles add_admin add_role
    init_config ◌>>=◌ or_error fail_if
start-serves_example =
    start-serves memory memory-IsRelational outside outside-IsSilent default_roles ".env" unset
      empty refl (omega arith) "" unset migrated migrated (config_of unset) stored_roles refl refl
      refl refl

start-unmigrated_example : ¬ (
    (start memory outside default_roles false "" unset empty).0 ≡ ok (serving (("admin", "") ∷ [])))
start-unmigrated_example =
    start-unmigrated memory memory-IsRelational outside outside-IsSilent default_roles "" unset
      empty refl (("admin", "") ∷ [])
