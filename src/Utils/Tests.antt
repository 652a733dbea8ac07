-- ===== src/Utils/Tests.antt =====
-- The check of a payload at the template of the login.
use go_user_and_service_mgmt.Prelude.{
  String, true, false, List, [], ◌∷◌, Value, string, number, ◌≡◌, ◌↔◌, refl, ◌==◌, text_comparable,
  eq_iff, arith, SameRows,
}
use go_user_and_service_mgmt.Utils.{
  GoType, fields_exist, ensure_fields_strictly_exists, login_payload_template,
}
use go_user_and_service_mgmt.Utils.Exact.{IsMap, types_of, ensure_fields_strictly_exists-Exact}

abbrev credentials : List (String × Value)
credentials = ("password", string "pw") ∷ ("email", string "ada@mgmtportal.com") ∷ []

abbrev numbered : List (String × Value)
numbered = ("password", number) ∷ ("email", string "ada@mgmtportal.com") ∷ []

accepted : ensure_fields_strictly_exists credentials login_payload_template ≡ true
unfolding ensure_fields_strictly_exists fields_exist
accepted = refl

refused : ensure_fields_strictly_exists numbered login_payload_template ≡ false
unfolding ensure_fields_strictly_exists fields_exist
refused = refl

two_keys-IsMap :
    {A : Type 0} (j k : String) (a b : A) → (j == k) ≡ false → IsMap ((j, a) ∷ (k, b) ∷ [])
two_keys-IsMap j k a b other key = ground (arith, eq_iff j key, eq_iff k key, eq_iff j k)

ensure_fields_strictly_exists-Exact_example :
    (ensure_fields_strictly_exists credentials login_payload_template ≡ true)
    ↔ SameRows (types_of credentials) login_payload_template
ensure_fields_strictly_exists-Exact_example =
    ensure_fields_strictly_exists-Exact credentials login_payload_template
      (two_keys-IsMap "password" "email" (string "pw") (string "ada@mgmtportal.com") refl)
      (two_keys-IsMap "email" "password" GoType.string_type GoType.string_type refl)
