-- ===== src/Configs/Tests.antt =====
-- Settings read from small environments.
use Prim.Native.String.{String}
use go_user_and_service_mgmt.Prelude.{
  pos, negsuc, none, some, ◌≡◌, refl, ◌==◌, text_comparable, if◌then◌else◌, arith,
}
use go_user_and_service_mgmt.Errors.{GoError}
use go_user_and_service_mgmt.Gorm.{err, or_error, ◌>>=◌}
use go_user_and_service_mgmt.Handlers.{atoi, unsigned, positive, negated, digits_from}
use go_user_and_service_mgmt.Configs.{Variables, get_env_as_int, init_config}
use go_user_and_service_mgmt.Configs.Laws.{below_zero, get_env_as_int-IsSetting}

abbrev only : String → String → Variables
only key value = λ k. if k == key then some value else none

get_env_as_int_sign : get_env_as_int (only "DB_PORT" "+6432") "DB_PORT" (pos 5432) ≡ pos 6432
unfolding get_env_as_int atoi unsigned positive negated digits_from
get_env_as_int_sign = refl

get_env_as_int_suffix : get_env_as_int (only "DB_PORT" "6432ms") "DB_PORT" (pos 5432) ≡ pos 5432
unfolding get_env_as_int atoi unsigned positive negated digits_from
get_env_as_int_suffix = refl

get_env_as_int-IsSetting_example :
    get_env_as_int (only "JWT_EXPIRATION_IN_SECONDS" "-60") "JWT_EXPIRATION_IN_SECONDS" (pos 900)
    ≡ negsuc 59
get_env_as_int-IsSetting_example =
    get_env_as_int-IsSetting (only "JWT_EXPIRATION_IN_SECONDS" "-60") "JWT_EXPIRATION_IN_SECONDS"
      (pos 900) (negsuc 59) (below_zero "6" "0" refl (omega arith))

-- A file that cannot be loaded.
init_config_missing :
    (init_config (λ file variables. (err GoError.driver_failure, variables)) ".env" (λ _. none)).0
    ≡ err GoError.formatted
unfolding init_config ◌>>=◌ or_error
init_config_missing = refl
