-- ===== src/Api/Tests.antt =====
-- Requests to the server over the database in memory, and the theorems at them.
use go_user_and_service_mgmt.Prelude.{
  pos, String, Bool, true, false, List, [], ◌∷◌, Option, none, some, Value, string, refl, ◌==◌,
  ◌&&◌, arith, text_comparable, if◌then◌else◌,
}
use go_user_and_service_mgmt.Models.{User, Service}
use go_user_and_service_mgmt.Gorm.{Tables, ok}
use go_user_and_service_mgmt.Gorm.Memory.{Memory, memory}
use go_user_and_service_mgmt.Gorm.Memory.Laws.{
  memory-IsRelational, distinct-once, user_same_key, service_same_key, version_same_key,
}
use go_user_and_service_mgmt.Gorm.Laws.{user_schema, service_schema, version_schema}
use go_user_and_service_mgmt.Services.Operations.{Server, version_of}
use go_user_and_service_mgmt.Middleware.Routes.{Endpoint}
use go_user_and_service_mgmt.Handlers.Users.{Environment}
use go_user_and_service_mgmt.Api.{Request, Setting, serve, serve_all}
use go_user_and_service_mgmt.Api.Requests.{IsSilent}
use go_user_and_service_mgmt.Api.Soundness.{IsSound, serve_all-IsSound}
use go_user_and_service_mgmt.Handlers.Users.Laws.{HasAnswered}
use go_user_and_service_mgmt.Api.Answers.{serve-HasAnswered}
use go_user_and_service_mgmt.Api.Authority.{Authorized, serve-Authorized}
use go_user_and_service_mgmt.Api.Writers.{WritesServices}

abbrev ada : User
ada = record {
  id = 1;
  name = "Ada";
  email = "ada@mgmtportal.com";
  role = "admin";
  password_hash = "h(pw)";
  is_temporary_password = true;
}

abbrev billing : Service
billing = record { id = 1; name = "billing"; description = "bills"; version_count = pos 1 }

abbrev store : Tables
store = record {
  user = ada ∷ [];
  user_role = [];
  service = billing ∷ [];
  version = version_of 1 "v1" "first" ∷ [];
  name_sorted_service = [];
}

abbrev server : Server Memory
server = record {
  world = record { store = store; schedule = false ∷ false ∷ false ∷ true ∷ [] };
  to_refresh_views = false;
}

abbrev is_some : Option Value → Bool
is_some none = false
is_some (some _) = true

abbrev environment : Environment Memory
environment = record {
  valid_email = is_some;
  is_role = λ role. role == "basic";
  generate_password = λ w. (ok "pw", w);
  generate_password_hash = λ password w. (ok "h(pw)", w);
  compare_hash_and_password = λ hash password. password == "pw";
  create_jwt = λ email role w. (ok email, w);
}

-- The secret signs one token, an administrator's.
abbrev setting : Setting Memory
setting = record {
  environment = environment;
  like = λ pattern text. true;
  parse = λ w secret t.
      if secret == "secret" && t == "abc"
      then some (record {
        valid = true;
        claims = some (("email", string "ada@mgmtportal.com") ∷ ("role", string "admin") ∷ []);
      })
      else none;
  login_path = "/api/v1/login";
  secret = "secret";
}

environment-IsSilent : IsSilent memory.tables environment
environment-IsSilent = record {
  draws = λ w. refl;
  hashes = λ password w. refl;
  signs = λ email role w. refl;
}

abbrev request : Endpoint → String → Option (List (String × Value)) → Request
request endpoint id body = record {
  endpoint = endpoint;
  context = record { path = some "/api/v1/x"; authorization = "Bearer abc"; keys = [] };
  id = id;
  tag = "";
  body = body;
  page = none;
  size = none;
  name = none;
  sort_by = none;
  inverted = none;
}

abbrev newcomer : List (String × Value)
newcomer =
    ("role", string "basic") ∷ ("name", string "Bob") ∷ ("email", string "bob@mgmtportal.com") ∷ []

abbrev requests : List Request
requests =
    request Endpoint.add_user "" (some newcomer)
    ∷ request Endpoint.add_service_version "1"
        (some (("tag", string "v2") ∷ ("info", string "") ∷ []))
    ∷ request Endpoint.delete_service "1" none
    ∷ []

store-IsSound : IsSound store
store-IsSound = record {
  unique = record {
    email_once = λ e.
        distinct-once user_schema.same_key user_same_key store.user refl (record ada { email = e });
    id_once = λ i. ground arith;
  };
  consistent = record {
    id_once = λ i. ground arith;
    name_once = λ n.
        distinct-once service_schema.same_key service_same_key store.service refl
          (record billing { name = n });
    tag_once = λ i t.
        distinct-once version_schema.same_key version_same_key store.version refl
          (version_of i t "");
    owned = refl;
    counted = refl;
  };
}

serve_all-IsSound_example : IsSound (serve_all memory setting requests server).world.store
serve_all-IsSound_example =
    serve_all-IsSound memory memory-IsRelational setting environment-IsSilent requests server
      store-IsSound

serve-Authorized_example :
    Authorized memory memory-IsRelational setting environment-IsSilent
      (request Endpoint.add_user "" (some newcomer))
      server
    × WritesServices memory memory-IsRelational setting environment-IsSilent
        (request Endpoint.add_user "" (some newcomer))
        server
serve-Authorized_example =
    serve-Authorized memory memory-IsRelational setting environment-IsSilent
      (request Endpoint.add_user "" (some newcomer)) server refl

serve-HasAnswered_example :
    HasAnswered (serve memory setting (request Endpoint.add_user "" (some newcomer)) server)
serve-HasAnswered_example =
    serve-HasAnswered memory memory-IsRelational setting
      (request Endpoint.add_user "" (some newcomer)) server
