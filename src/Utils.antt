-- ===== src/Utils.antt =====
-- internal/utils/utils.go: the check of a decoded JSON payload against a template of fields and
-- types (`EnsureFieldsStrictlyExists`), and the templates of internal/models.
pub mod Laws
pub mod Exact
mod Tests
use go_user_and_service_mgmt.Prelude.{
  ℕ, String, Bool, true, false, List, [], ◌∷◌, Option, none, some, Value, string, number, boolean,
  array, object, null, lookup, length, nat_eq, ◌==◌, text_comparable, if◌then◌else◌,
}

-- `reflect.Type`, of the types that the decoder produces; `nil_type` is that of a missing value.
pub data GoType : Type 0 where
  string_type float64_type bool_type slice_type map_type nil_type : GoType

-- `reflect.TypeOf(value)`
abbrev pub type_of : Value → GoType
type_of (string _) = GoType.string_type
type_of number = GoType.float64_type
type_of boolean = GoType.bool_type
type_of array = GoType.slice_type
type_of object = GoType.map_type
type_of null = GoType.nil_type

abbrev pub same_type : GoType → GoType → Bool
same_type GoType.string_type GoType.string_type = true
same_type GoType.float64_type GoType.float64_type = true
same_type GoType.bool_type GoType.bool_type = true
same_type GoType.slice_type GoType.slice_type = true
same_type GoType.map_type GoType.map_type = true
same_type GoType.nil_type GoType.nil_type = true
same_type _ _ = false

abbrev pub has_type : GoType → Option Value → Bool
has_type t none = false
has_type t (some v) = same_type (type_of v) t

-- the loop over the template
unfoldable pub fields_exist : List (String × Value) → List (String × GoType) → Bool
fields_exist input [] = true
fields_exist input ((field, t) ∷ rest) =
    let later = fields_exist input rest in if has_type t (lookup field input) then later else false

unfoldable pub ensure_fields_strictly_exists : List (String × Value) → List (String × GoType) → Bool
ensure_fields_strictly_exists input template =
    if nat_eq (length input) (length template) then fields_exist input template else false

abbrev pub login_payload_template : List (String × GoType)
login_payload_template = ("email", GoType.string_type) ∷ ("password", GoType.string_type) ∷ []

abbrev pub user_payload_template : List (String × GoType)
user_payload_template =
    ("name", GoType.string_type) ∷ ("email", GoType.string_type) ∷ ("role", GoType.string_type) ∷ []

abbrev pub password_change_payload_template : List (String × GoType)
password_change_payload_template = ("password", GoType.string_type) ∷ []

abbrev pub service_payload_template : List (String × GoType)
service_payload_template = ("name", GoType.string_type) ∷ ("description", GoType.string_type) ∷ []

abbrev pub register_version_payload_template : List (String × GoType)
register_version_payload_template = ("tag", GoType.string_type) ∷ ("info", GoType.string_type) ∷ []

abbrev pub update_version_payload_template : List (String × GoType)
update_version_payload_template = ("info", GoType.string_type) ∷ []
