-- ===== src/Users/Operations.antt =====
-- internal/components/user/operations.go: the user operations over the database.
pub mod Writes
use go_user_and_service_mgmt.Prelude.{
  ℕ, ℤ, pos, String, Bool, true, false, List, not, int_sub, int_mul, ◌==◌, ◌&&◌, if◌then◌else◌,
  number_comparable, text_comparable,
}
use go_user_and_service_mgmt.Errors.{GoError, is_record_not_found, is_unique_key_violation}
use go_user_and_service_mgmt.Models.{User}
use go_user_and_service_mgmt.Gorm.{Action, Database, pure, fail_if, or_error, ◌>>=◌, ◌>>◌}

abbrev pub has_email : String → User → Bool
has_email email u = u.email == email

abbrev pub has_id : ℕ → User → Bool
has_id id u = u.id == id

-- `return appErrors.ErrInternal`
abbrev to_internal : GoError → GoError
to_internal _ = GoError.internal

-- the errors of `GetUserByEmail` and `GetUser`
abbrev not_found_or_internal : GoError → GoError
not_found_or_internal e =
    if is_record_not_found e then GoError.record_not_found else GoError.internal

abbrev on_create_error : GoError → GoError
on_create_error e =
    if is_unique_key_violation e
    then GoError.user_with_same_email_already_exists
    else GoError.internal

abbrev on_update_error : GoError → GoError
on_update_error e =
    if is_unique_key_violation e
    then GoError.user_with_same_email_already_exists
    else if is_record_not_found e
    then GoError.user_does_not_exist
    else GoError.internal

abbrev on_password_error : GoError → GoError
on_password_error e =
    if is_record_not_found e then GoError.user_does_not_exist else GoError.internal

-- the struct that `CreateUser` inserts, its key not set
abbrev pub new_user : String → String → String → String → User
new_user name email role password_hash = record {
  id = 0;
  name = name;
  email = email;
  role = role;
  password_hash = password_hash;
  is_temporary_password = true;
}

-- the struct that `UpdateUser` writes and returns
abbrev pub user_to_update : ℕ → String → String → String → User
user_to_update id name email role = record {
  id = id;
  name = name;
  email = email;
  role = role;
  password_hash = "";
  is_temporary_password = false;
}

-- the columns that `ChangePassword` sets
abbrev pub with_password : String → String → User → User
with_password email password_hash u = record u {
  email = email;
  password_hash = password_hash;
  is_temporary_password = false;
}

module _ {World : Type 0} (db : Database World) where
  unfoldable pub get_user_by_email : String → Action World User
  get_user_by_email email = or_error (db.users.first (has_email email)) not_found_or_internal

  unfoldable pub get_user : ℕ → Action World User
  get_user id = or_error (db.users.first (has_id id)) not_found_or_internal

  unfoldable pub create_user : String → String → String → String → Action World (Unit {0})
  create_user name email role password_hash = do
    same ← or_error (db.users.count (has_email email)) to_internal
    fail_if (same == 1) GoError.user_with_same_email_already_exists
    created ← or_error (db.users.create (new_user name email role password_hash)) on_create_error
    pure tt

  unfoldable pub update_user : ℕ → String → String → String → Action World User
  update_user id name email role = do
    by_id ← or_error (db.users.count (has_id id)) to_internal
    fail_if (by_id == 0) GoError.user_does_not_exist
    same ← or_error (db.users.count (λ u. has_email email u && not (has_id id u))) to_internal
    fail_if (same == 1) GoError.user_with_same_email_already_exists
    or_error (db.users.updates (has_id id) (user_to_update id name email role)) on_update_error
    pure (user_to_update id name email role)

  unfoldable pub delete_user : ℕ → Action World (Unit {0})
  delete_user id = do
    by_id ← or_error (db.users.count (has_id id)) to_internal
    fail_if (by_id == 0) GoError.user_does_not_exist
    or_error (db.users.delete (has_id id)) to_internal
    pure tt

  unfoldable pub fetch_users_with_pagination : ℤ → ℤ → Action World (List User × ℕ)
  fetch_users_with_pagination current_page page_size = do
    let offset = int_mul (int_sub current_page (pos 1)) page_size
    total ← or_error (db.users.count (λ _. true)) to_internal
    users ← or_error (db.users.find (λ _. true) page_size offset) to_internal
    pure (users, total)

  unfoldable pub change_password : String → String → Action World (Unit {0})
  change_password email password_hash = do
    by_email ← or_error (db.users.count (has_email email)) to_internal
    fail_if (by_email == 0) GoError.user_does_not_exist
    or_error (db.users.set_columns (has_email email) (with_password email password_hash))
        on_password_error
    pure tt
