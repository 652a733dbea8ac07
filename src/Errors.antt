-- ===== src/Errors.antt =====
-- internal/errors/errors.go: the program's error values, and what its code tells apart of the
-- errors of the database driver (`errors.Is(err, gorm.ErrRecordNotFound)`, and a message that
-- contains the text of `ErrUniqueKeyConstrainViolation`). Only the errors that a modelled
-- operation returns or compares with are constructors; the texts of the others stand where a
-- response carries them.
use go_user_and_service_mgmt.Prelude.{Bool, true, false}

pub data GoError : Type 0 where
  internal : GoError
  user_with_same_email_already_exists : GoError
  user_does_not_exist : GoError
  service_already_exists : GoError
  service_does_not_exist : GoError
  service_version_already_exists : GoError
  service_version_does_not_exist : GoError
  -- `fmt.Errorf`, with whatever text
  formatted : GoError
  -- of the driver
  record_not_found : GoError
  unique_key_violation : GoError
  driver_failure : GoError

-- `errors.Is(err, gorm.ErrRecordNotFound)`
abbrev pub is_record_not_found : GoError → Bool
is_record_not_found GoError.record_not_found = true
is_record_not_found _ = false

-- `strings.Contains(err.Error(), ErrUniqueKeyConstrainViolation.Error())`
abbrev pub is_unique_key_violation : GoError → Bool
is_unique_key_violation GoError.unique_key_violation = true
is_unique_key_violation _ = false
