-- ===== src/Handlers/Services/Tests.antt =====
-- Requests to the service handlers on the database in memory, and the theorem at one of them.
use go_user_and_service_mgmt.Prelude.{
  String, false, List, [], ◌∷◌, some, Value, string, pos, ◌≡◌, refl,
}
use go_user_and_service_mgmt.Models.{Service}
use go_user_and_service_mgmt.Gorm.{or_error, ◌>>=◌}
use go_user_and_service_mgmt.Gorm.Memory.{Memory, memory}
use go_user_and_service_mgmt.Services.Operations.{Server, on_world, check_if_service_exist}
use go_user_and_service_mgmt.Utils.{fields_exist, ensure_fields_strictly_exists}
use go_user_and_service_mgmt.Handlers.{
  respond, formatted, answer_if, or_answer, assert_string, call, ◌>>=◌ as ◌>>>=◌, scan_uint,
}
use go_user_and_service_mgmt.Handlers.Services.{require_service, add_version}

abbrev billing : Service
billing = record { id = 1; name = "billing"; description = "bills"; version_count = pos 0 }

abbrev server : Server Memory
server = record {
  world = record {
    store = record {
      user = [];
      user_role = [];
      service = billing ∷ [];
      version = [];
      name_sorted_service = [];
    };
    schedule = [];
  };
  to_refresh_views = false;
}

abbrev first_version : List (String × Value)
first_version = ("tag", string "v1") ∷ ("info", string "first") ∷ []

-- A version of a service that does not exist is refused, and nothing is written.
add_version_unknown :
    add_version memory "7" (some first_version) server
    ≡ (respond (record { status = 404; body = formatted }), server)
unfolding add_version require_service ◌>>>=◌ ◌>>=◌ or_answer answer_if scan_uint call on_world
    check_if_service_exist or_error ensure_fields_strictly_exists fields_exist assert_string
add_version_unknown = refl
