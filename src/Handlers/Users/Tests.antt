-- ===== src/Handlers/Users/Tests.antt =====
-- Requests to the user handlers on the database in memory, and the theorem at one of them.
use go_user_and_service_mgmt.Prelude.{
  ℕ, ◌/◌, ◌+◌, ◌≤◌, ◌⊎◌, IsRow, arith, ◌+ℤ◌, ◌*ℤ◌, wrap64, String, Bool, true, false, List, [], ◌∷◌,
  Option, none, some, Value, string, number, ◌≡◌, refl, ◌==◌, text_comparable,
}
use go_user_and_service_mgmt.Models.{User}
use go_user_and_service_mgmt.Gorm.{Tables, ok, or_error, ◌>>=◌, fail_if}
use go_user_and_service_mgmt.Gorm.Memory.{Memory, memory}
use go_user_and_service_mgmt.Gorm.Memory.Laws.{memory-IsRelational}
use go_user_and_service_mgmt.Users.Operations.{get_user_by_email, create_user}
use go_user_and_service_mgmt.Utils.{fields_exist, ensure_fields_strictly_exists}
use go_user_and_service_mgmt.Middleware.{Context, next, authenticate}
use go_user_and_service_mgmt.Middleware.Laws.{with_claims}
use go_user_and_service_mgmt.Handlers.{
  respond, Body, formatted, answer_if, or_answer, assert_string, call, ◌>>=◌ as ◌>>>=◌, scan_uint,
}
use go_user_and_service_mgmt.Handlers.Users.{Environment, login, add_user}
use go_user_and_service_mgmt.Handlers.Users.Login.{GivesToken, login-GivesToken}
use go_user_and_service_mgmt.Auth.Jwt.{nanoseconds, create_jwt, issue_jwt, expiry}
use go_user_and_service_mgmt.Auth.Tests.{one_token, one_token-IsJwt}
use go_user_and_service_mgmt.Handlers.Users.Session.{signing, login-authenticate}

abbrev ada : User
ada = record {
  id = 1;
  name = "Ada";
  email = "ada@mgmtportal.com";
  role = "admin";
  password_hash = "h(pw)";
  is_temporary_password = true;
}

abbrev store : Tables
store = record {
  user = ada ∷ [];
  user_role = [];
  service = [];
  version = [];
  name_sorted_service = [];
}

abbrev quiet : Memory
quiet = record { store = store; schedule = [] }

abbrev is_some : Option Value → Bool
is_some none = false
is_some (some _) = true

abbrev env : Environment Memory
env = record {
  valid_email = is_some;
  is_role = λ role. role == "basic";
  generate_password = λ w. (ok "pw", w);
  generate_password_hash = λ password w. (ok "h(pw)", w);
  compare_hash_and_password = λ hash password. password == "pw";
  create_jwt = λ email role w. (ok email, w);
}

abbrev credentials : List (String × Value)
credentials = ("password", string "pw") ∷ ("email", string "ada@mgmtportal.com") ∷ []

abbrev newcomer : List (String × Value)
newcomer =
    ("role", string "basic") ∷ ("name", string "") ∷ ("email", string "bob@mgmtportal.com") ∷ []

abbrev by_ada : Context
by_ada = record { path = none; authorization = ""; keys = ("email", "ada@mgmtportal.com") ∷ [] }

login_passes :
    login memory env (some credentials) quiet
    ≡ (respond (record { status = 200; body = Body.token "ada@mgmtportal.com" true }), quiet)
unfolding login ◌>>>=◌ or_answer answer_if ensure_fields_strictly_exists fields_exist assert_string
    call get_user_by_email or_error
login_passes = refl

-- Without a name, the email is the name.
add_user_nameless :
    (add_user memory env (some newcomer) quiet).1.store.user
    ≡ ada
      ∷ record {
        id = 2;
        name = "bob@mgmtportal.com";
        email = "bob@mgmtportal.com";
        role = "basic";
        password_hash = "h(pw)";
        is_temporary_password = true;
      }
      ∷ []
unfolding add_user ◌>>>=◌ ◌>>=◌ or_answer answer_if ensure_fields_strictly_exists fields_exist
    assert_string call create_user or_error fail_if
add_user_nameless = refl

-- A number where a text should be is refused before any assertion.
add_user_number :
    (add_user memory env
      (some (("role", number) ∷ ("name", string "") ∷ ("email", string "b") ∷ []))
      quiet).0
    ≡ respond (record { status = 400; body = formatted })
unfolding add_user ◌>>>=◌ or_answer answer_if ensure_fields_strictly_exists fields_exist
add_user_number = refl

scan_prefix : scan_uint " 12abc" ≡ some 12
unfolding scan_uint
scan_prefix = refl

login-GivesToken_example :
    GivesToken memory memory-IsRelational env quiet
      (some credentials)
      (login memory env (some credentials) quiet)
login-GivesToken_example = login-GivesToken memory memory-IsRelational env (some credentials) quiet

-- The first second of 1970.
abbrev epoch : Memory → ℕ
epoch _ = 0

abbrev bearer : Context
bearer = record { path = some "/api/v1/users"; authorization = "Bearer abc"; keys = [] }

abbrev by_library : Environment Memory
by_library =
    signing memory memory-IsRelational env one_token one_token-IsJwt epoch "secret" 900
      (omega arith)

login_signs :
    (login memory by_library (some credentials) quiet).0
    ≡ respond (record { status = 200; body = Body.token "abc" true })
unfolding login ◌>>>=◌ or_answer answer_if ensure_fields_strictly_exists fields_exist assert_string
    call get_user_by_email or_error issue_jwt create_jwt expiry ◌+ℤ◌ ◌*ℤ◌ wrap64
login_signs = refl

login-authenticate_example :
    (u : User) × (email : String) × (w₁ : Memory) × IsRow u store.user
    × (get_user_by_email memory email quiet ≡ (ok u, w₁))
    × (by_library.create_jwt u.email u.role w₁
        ≡ (ok "abc", (login memory by_library (some credentials) quiet).1))
    × ((0 / nanoseconds + 900 ≤ 1 / nanoseconds)
        ⊎ (authenticate (one_token.parse_at 1) "/api/v1/login" "secret" bearer
            ≡ next (with_claims u.role u.email bearer)))
login-authenticate_example =
    login-authenticate memory memory-IsRelational env one_token one_token-IsJwt epoch "secret" 900
      (omega arith) (some credentials) quiet 200 "abc" true login_signs 1 "/api/v1/login" bearer
      refl refl
