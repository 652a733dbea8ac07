-- ===== src/Services/Tests.antt =====
-- Runs of the service operations on the database in memory, and the theorems at those inputs.
use go_user_and_service_mgmt.Prelude.{
  pos, ◌+ℤ◌, ◌-ℤ◌, ◌+◌, ◌<◌, count_if, true, false, [], ◌∷◌, ◌≡◌, refl, arith,
}
use go_user_and_service_mgmt.Errors.{GoError}
use go_user_and_service_mgmt.Models.{Service, ServiceVersion}
use go_user_and_service_mgmt.Gorm.{Tables, ok, err, ◌>>=◌, or_error, fail_if}
use go_user_and_service_mgmt.Gorm.Memory.{Memory, memory}
use go_user_and_service_mgmt.Gorm.Memory.Laws.{
  memory-IsRelational, distinct-once, service_same_key, version_same_key,
}
use go_user_and_service_mgmt.Gorm.Laws.{service_schema, version_schema}
use go_user_and_service_mgmt.Services.Operations.{
  Server, on_world, request_refresh, check_if_service_exist, create_version_rows, insert_service,
  change_service, remove_service, insert_version, update_service_version, remove_version,
  create_service, update_service, delete_service, create_service_version, delete_service_version,
  service_to_update, version_of, check_if_version_for_service_exist, delete_version_rows,
}
use go_user_and_service_mgmt.Services.Effects.{
  AddsService, ChangesService, RemovesService, AddsVersion, ChangesVersion, DropsVersion,
}
use go_user_and_service_mgmt.Services.Writes.{
  insert_service-AddsService, change_service-ChangesService, remove_service-RemovesService,
  insert_version-AddsVersion, update_service_version-ChangesVersion, remove_version-DropsVersion,
}
use go_user_and_service_mgmt.Services.Invariant.{version_total, is_miscounted}
use go_user_and_service_mgmt.Services.Races.{two_deletions}
use go_user_and_service_mgmt.Services.Preservation.{
  IsConsistentTables, flag_after, service_operations-IsConsistent, service_operations-flag,
}

abbrev billing : Service
billing = record { id = 1; name = "billing"; description = "bills"; version_count = pos 2 }

abbrev audit : Service
audit = record { id = 2; name = "audit"; description = ""; version_count = pos 0 }

abbrev v1 : ServiceVersion
v1 = version_of 1 "v1" "first"

abbrev v2 : ServiceVersion
v2 = version_of 1 "v2" "second"

abbrev store : Tables
store = record {
  user = [];
  user_role = [];
  service = billing ∷ audit ∷ [];
  version = v1 ∷ v2 ∷ [];
  name_sorted_service = [];
}

-- Every statement succeeds.
abbrev quiet : Memory
quiet = record { store = store; schedule = [] }

-- The third statement fails.
abbrev faulty : Memory
faulty = record { store = store; schedule = false ∷ false ∷ true ∷ [] }

abbrev server : Server Memory
server = record { world = quiet; to_refresh_views = false }

-- The count goes up with the version, and the view is to be refreshed.
create_version_run : create_service_version memory 2 "v1" "" server ≡ (
  ok (version_of 2 "v1" ""),
  record {
    world = record quiet {
      store = record store {
        service = billing ∷ record audit { version_count = pos 1 } ∷ [];
        version = v1 ∷ v2 ∷ version_of 2 "v1" "" ∷ [];
      };
    };
    to_refresh_views = true;
  },
)
unfolding create_service_version ◌>>=◌ on_world insert_version or_error fail_if create_version_rows
    request_refresh ◌+ℤ◌
create_version_run = refl

-- The count cannot be written: the version is not created either.
create_version_rollback : (insert_version memory 2 "v1" "" faulty).1.store ≡ store
unfolding insert_version ◌>>=◌ or_error fail_if create_version_rows
create_version_rollback = refl

-- A version of a service that does not exist is refused by the foreign key.
create_version_orphan : (insert_version memory 7 "v1" "" quiet).0 ≡ err GoError.internal
unfolding insert_version ◌>>=◌ or_error fail_if create_version_rows
create_version_orphan = refl

-- An empty description is not written, though the answer shows it empty.
update_service_empty :
    update_service memory 1 "billing" "" server
    ≡ (ok (service_to_update 1 "billing" ""), record server { to_refresh_views = true })
unfolding update_service ◌>>=◌ on_world change_service or_error check_if_service_exist fail_if
    request_refresh
update_service_empty = refl

store-IsConsistent : IsConsistentTables store
store-IsConsistent = record {
  id_once = λ i. ground arith;
  name_once = λ n.
      distinct-once service_schema.same_key service_same_key store.service refl
        (record audit { name = n });
  tag_once = λ i t.
      distinct-once version_schema.same_key version_same_key store.version refl (version_of i t "");
  owned = refl;
  counted = refl;
}

insert_service-AddsService_example :
    AddsService memory store "search" "" (insert_service memory "search" "" quiet)
insert_service-AddsService_example =
    insert_service-AddsService memory memory-IsRelational quiet "search" ""

change_service-ChangesService_example :
    ChangesService memory store
      (service_to_update 1 "search" "x")
      (change_service memory 1 "search" "x" quiet)
change_service-ChangesService_example =
    change_service-ChangesService memory memory-IsRelational quiet 1 "search" "x"

remove_service-RemovesService_example :
    RemovesService memory store 1 (remove_service memory 1 quiet)
remove_service-RemovesService_example =
    remove_service-RemovesService memory memory-IsRelational quiet 1

insert_version-AddsVersion_example :
    AddsVersion memory store (version_of 2 "v1" "") (insert_version memory 2 "v1" "" quiet)
insert_version-AddsVersion_example =
    insert_version-AddsVersion memory memory-IsRelational quiet 2 "v1" ""

update_service_version-ChangesVersion_example :
    ChangesVersion memory store
      (version_of 1 "v2" "again")
      (update_service_version memory 1 "v2" "again" quiet)
update_service_version-ChangesVersion_example =
    update_service_version-ChangesVersion memory memory-IsRelational quiet 1 "v2" "again"

remove_version-DropsVersion_example :
    DropsVersion memory store 1 "v2" (remove_version memory 1 "v2" quiet)
remove_version-DropsVersion_example =
    remove_version-DropsVersion memory memory-IsRelational quiet 1 "v2"

service_operations-IsConsistent_example :
    IsConsistentTables (create_service memory "search" "s" server).1.world.store
    × IsConsistentTables (update_service memory 1 "search" "s" server).1.world.store
    × IsConsistentTables (delete_service memory 1 server).1.world.store
    × IsConsistentTables (create_service_version memory 1 "v3" "" server).1.world.store
    × IsConsistentTables (update_service_version memory 1 "v3" "" server.world).1.store
    × IsConsistentTables (delete_service_version memory 1 "v3" server).1.world.store
service_operations-IsConsistent_example =
    service_operations-IsConsistent memory memory-IsRelational server store-IsConsistent 1 "search"
      "s" "v3" ""

service_operations-flag_example :
    ((create_service memory "search" "s" server).1.to_refresh_views
      ≡ flag_after (create_service memory "search" "s" server).0 false)
    × ((update_service memory 1 "search" "s" server).1.to_refresh_views
        ≡ flag_after (update_service memory 1 "search" "s" server).0 false)
    × ((delete_service memory 1 server).1.to_refresh_views
        ≡ flag_after (delete_service memory 1 server).0 false)
    × ((create_service_version memory 1 "v3" "" server).1.to_refresh_views
        ≡ flag_after (create_service_version memory 1 "v3" "" server).0 false)
    × ((delete_service_version memory 1 "v3" server).1.to_refresh_views
        ≡ flag_after (delete_service_version memory 1 "v3" server).0 false)
service_operations-flag_example =
    service_operations-flag memory memory-IsRelational server 1 "search" "s" "v3" ""

-- After one deletion of the version, and after two.
abbrev once_deleted : Memory
once_deleted = record quiet {
  store = record store {
    service = record billing { version_count = pos 1 } ∷ audit ∷ [];
    version = v1 ∷ [];
  };
}

abbrev twice_deleted : Memory
twice_deleted = record once_deleted {
  store = record (once_deleted.store) {
    service = record billing { version_count = pos 0 } ∷ audit ∷ [];
  };
}

two_deletions_example :
    (version_total twice_deleted.store.version 1 + 1 ≡ version_total store.version 1)
    × (0 < count_if (is_miscounted twice_deleted.store.version) twice_deleted.store.service)
unfolding check_if_version_for_service_exist delete_version_rows ◌>>=◌ or_error fail_if ◌-ℤ◌
two_deletions_example =
    two_deletions memory memory-IsRelational 1 "v2" quiet quiet quiet once_deleted twice_deleted
      store-IsConsistent refl refl refl refl
