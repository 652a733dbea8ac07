-- ===== src/Handlers/Users.antt =====
-- internal/components/user/handlers.go: the handlers of the user endpoints. What they take of
-- packages that are not the program's, or that read the clock or the source of randomness, is the
-- record `Environment`: the validator, the role names loaded at the start, bcrypt, JWT signing.
pub mod Kept
pub mod Laws
pub mod Login
pub mod Session
mod Tests
use go_user_and_service_mgmt.Prelude.{
  ℕ, ℤ, pos, String, Bool, true, false, List, Option, none, some, Value, not, lookup, ltb_ℤ, ltb,
  ◌==◌, text_comparable, int_comparable, if◌then◌else◌, ◌||◌,
}
use go_user_and_service_mgmt.Errors.{GoError}
use go_user_and_service_mgmt.Models.{User, format_page, default_page_size}
use go_user_and_service_mgmt.Gorm.{Database, Action}
use go_user_and_service_mgmt.Users.Operations.{
  get_user_by_email, get_user, create_user, update_user, delete_user, fetch_users_with_pagination,
  change_password,
}
use go_user_and_service_mgmt.Utils.{
  ensure_fields_strictly_exists, login_payload_template, user_payload_template,
  password_change_payload_template,
}
use go_user_and_service_mgmt.Middleware.{Context, claim_email}
use go_user_and_service_mgmt.Handlers.{
  Handler, Response, Body, error, message, formatted, answer, answer_if, or_answer, assert_string,
  call, scan_uint, atoi, ◌>>=◌, ◌>>◌,
}
use Prim.Native.String.{len}

pub record Environment (World : Type 0) : Type 0 where
  pub valid_email : Option Value → Bool
  pub is_role : String → Bool
  pub generate_password : Action World String
  pub generate_password_hash : String → Action World String
  pub compare_hash_and_password : String → String → Bool
  pub create_jwt : String → String → Action World String

abbrev pub failure : Body
failure = error "failed to process request"

-- any error but `ErrInternal` and the like is answered by the given status and body
abbrev pub internal_or : ℕ → Body → GoError → ℕ × Body
internal_or status body GoError.internal = (500, failure)
internal_or status body _ = (status, body)

abbrev on_create_error : GoError → ℕ × Body
on_create_error GoError.user_with_same_email_already_exists = (409, formatted)
on_create_error _ = (500, failure)

abbrev on_update_error : GoError → ℕ × Body
on_update_error GoError.user_does_not_exist = (404, error "user doesn't exists")
on_update_error GoError.user_with_same_email_already_exists =
    (409, error "user already exists with same email")
on_update_error _ = (500, failure)

abbrev on_delete_error : GoError → ℕ × Body
on_delete_error GoError.user_does_not_exist = (404, message "user doesn't exists")
on_delete_error _ = (500, failure)

abbrev on_password_error : GoError → ℕ × Body
on_password_error GoError.user_does_not_exist = (404, error "user doesn't exists")
on_password_error _ = (500, failure)

abbrev pub always_failure : GoError → ℕ × Body
always_failure _ = (500, failure)

-- `c.DefaultQuery(name, default)`
abbrev pub or_default : String → Option String → String
or_default d none = d
or_default d (some s) = s

-- A page number, where 0 is the first page.
abbrev pub first_if_zero : ℤ → ℤ
first_if_zero n = if n == pos 0 then pos 1 else n

module _ {World : Type 0} (db : Database World) (env : Environment World) where
  unfoldable pub login : Option (List (String × Value)) → Handler World (Unit {0})
  login body = do
    payload ← or_answer body 400 (error "Login payload is invalid; Expected JSON payload")
    answer_if (not (ensure_fields_strictly_exists payload login_payload_template)) 400 formatted
    answer_if (not (env.valid_email (lookup "email" payload))) 400
        (error "Login payload contains invalid email")
    email ← assert_string (lookup "email" payload)
    user ← call (get_user_by_email db email) (internal_or 401 (error "invalid email or password"))
    password ← assert_string (lookup "password" payload)
    answer_if (not (env.compare_hash_and_password user.password_hash password)) 401
        (error "invalid email or password")
    token ← call (env.create_jwt user.email user.role) always_failure
    answer 200 (Body.token token user.is_temporary_password)

  unfoldable pub get_user_by_id : String → Handler World (Unit {0})
  get_user_by_id id = do
    user_id ← or_answer (scan_uint id) 400 (error "User Fetch ID should be numerical")
    user ← call (get_user db user_id) (internal_or 404 formatted)
    answer 200 (Body.user user)

  unfoldable pub add_user : Option (List (String × Value)) → Handler World (Unit {0})
  add_user body = do
    payload ← or_answer body 400 (error "User creation payload is invalid; Expected JSON payload")
    answer_if (not (ensure_fields_strictly_exists payload user_payload_template)) 400 formatted
    answer_if (not (env.valid_email (lookup "email" payload))) 400
        (error "User creation payload contains invalid email")
    role ← assert_string (lookup "role" payload)
    answer_if (not (env.is_role role)) 400 formatted
    password ← call env.generate_password always_failure
    hash ← call (env.generate_password_hash password) always_failure
    given ← assert_string (lookup "name" payload)
    email ← assert_string (lookup "email" payload)
    call (create_user db (if given == "" then email else given) email role hash) on_create_error
    answer 201 (Body.temporary_password password)

  unfoldable pub change_user : String → Option (List (String × Value)) → Handler World (Unit {0})
  change_user id body = do
    user_id ← or_answer (scan_uint id) 400 (error "User ID should be numerical")
    payload ← or_answer body 400 (error "User update payload is invalid; Expected JSON payload")
    answer_if (not (ensure_fields_strictly_exists payload user_payload_template)) 400 formatted
    answer_if (not (env.valid_email (lookup "email" payload))) 400
        (error "User update payload contains invalid email")
    role ← assert_string (lookup "role" payload)
    answer_if (not (env.is_role role) || role == "") 400 formatted
    name ← assert_string (lookup "name" payload)
    email ← assert_string (lookup "email" payload)
    user ← call (update_user db user_id name email role) on_update_error
    answer 200 (Body.user user)

  unfoldable pub remove_user : String → Handler World (Unit {0})
  remove_user id = do
    user_id ← or_answer (scan_uint id) 400 (error "User ID should be numerical")
    call (delete_user db user_id) on_delete_error
    answer 200 (message "User deleted from system")

  unfoldable pub list_users : Option String → Option String → Handler World (Unit {0})
  list_users page_query size_query = do
    page ←
        or_answer (atoi (or_default "0" page_query)) 400
          (error "Payload contains invalid page number, choose positive numerical value")
    answer_if (ltb_ℤ page (pos 0)) 400
        (error "Payload contains invalid page number, choose positive numerical value")
    size ←
        or_answer (atoi (or_default default_page_size size_query)) 400
          (error "Payload contains invalid page size, choose positive numerical value")
    answer_if (ltb_ℤ size (pos 0)) 400
        (error "Payload contains invalid page size, choose positive numerical value")
    found ← call (fetch_users_with_pagination db (first_if_zero page) size) always_failure
    let (users, total) = found
    answer 200 (Body.users (format_page users total (first_if_zero page) size))

  unfoldable pub change_user_password :
      Context → Option (List (String × Value)) → Handler World (Unit {0})
  change_user_password c body = do
    email ← or_answer (lookup claim_email c.keys) 500 failure
    payload ←
        or_answer body 400 (error "User password change payload is invalid; Expected JSON payload")
    answer_if (not (ensure_fields_strictly_exists payload password_change_payload_template)) 400
        formatted
    password ← assert_string (lookup "password" payload)
    answer_if (password == "") 400 (error "password is missing or empty")
    answer_if (ltb 72 (len password)) 400 (error "password exceeds character length of 72 Bytes")
    hash ← call (env.generate_password_hash password) always_failure
    call (change_password db email hash) on_password_error
    answer 200 Body.empty
