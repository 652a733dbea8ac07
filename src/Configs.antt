-- ===== src/Configs.antt =====
-- internal/configs/envs.go. The environment of the process is a function from keys to texts, and
-- `godotenv.Load`, which adds to it, a parameter. `strconv.ParseInt` with base 10 and 64 bits is
-- `atoi`.
pub mod Laws
mod Tests
use go_user_and_service_mgmt.Prelude.{
  ℤ, pos, String, Bool, true, false, Option, none, some, not, ◌==◌, text_comparable, if◌then◌else◌,
}
use go_user_and_service_mgmt.Errors.{GoError}
use go_user_and_service_mgmt.Gorm.{Action, Result, ok, err, pure, or_error, ◌>>=◌, ◌>>◌}
use go_user_and_service_mgmt.Handlers.{atoi}

abbrev pub Variables : Type 0
Variables = String → Option String

pub record Config : Type 0 where
  pub server_port : String
  pub db_host : String
  pub db_port : ℤ
  pub db_user : String
  pub db_name : String
  pub db_password : String
  pub db_conn_timeout : ℤ
  pub db_slow_query_log_threshold : ℤ
  pub db_max_conn_idle_time : ℤ
  pub db_max_open_conn : ℤ
  pub log_level : String
  pub jwt_secret : String
  pub jwt_expiration_in_seconds : ℤ

abbrev value_or : Option String → String → String
value_or none default = default
value_or (some value) _ = value

abbrev pub number_or : Option ℤ → ℤ → ℤ
number_or none default = default
number_or (some n) _ = n

abbrev parsed_or : Option String → ℤ → ℤ
parsed_or none default = default
parsed_or (some text) default = number_or (atoi text) default

unfoldable pub get_env : Variables → String → String → String
get_env variables key default = value_or (variables key) default

unfoldable pub get_env_as_int : Variables → String → ℤ → ℤ
get_env_as_int variables key default = parsed_or (variables key) default

abbrev pub config_of : Variables → Config
config_of variables = record {
  server_port = get_env variables "PORT" "8080";
  db_host = get_env variables "DB_HOST" "127.0.0.1";
  db_port = get_env_as_int variables "DB_PORT" (pos 5432);
  db_user = get_env variables "DB_USER" "postgres";
  db_name = get_env variables "DB_NAME" "userservice";
  db_password = get_env variables "DB_PASSWORD" "postgres";
  db_conn_timeout = get_env_as_int variables "DB_CONN_TIMEOUT_SEC" (pos 10);
  db_max_conn_idle_time = get_env_as_int variables "DB_MAX_CONN_IDLE_TIME_SEC" (pos 1800);
  db_max_open_conn = get_env_as_int variables "DB_MAX_OPEN_CONN" (pos 20);
  db_slow_query_log_threshold = get_env_as_int variables "DB_SLOW_QUERY_LOG_THRESHOLD_SEC" (pos 2);
  log_level = get_env variables "LOG_LEVEL" "info";
  jwt_secret = get_env variables "JWT_SECRET" "userservice123";
  jwt_expiration_in_seconds = get_env_as_int variables "JWT_EXPIRATION_IN_SECONDS" (pos 900);
}

-- `if envFile != "" { err := godotenv.Load(envFile) ... }`
abbrev load_if : Bool → Action Variables (Unit {0}) → Action Variables (Unit {0})
load_if true load = load
load_if false load = pure tt

abbrev to_formatted : GoError → GoError
to_formatted _ = GoError.formatted

unfoldable pub init_config :
    (String → Action Variables (Unit {0})) → String → Action Variables Config
init_config load env_file = do
  or_error (load_if (not (env_file == "")) (load env_file)) to_formatted
  λ variables. (ok (config_of variables), variables)
