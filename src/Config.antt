-- ===== src/Config.antt =====
-- config/config.go. What os.Getenv gives after godotenv has read the file .env is the argument `env`:
-- the empty text for a variable that is not set.
use sentinelix_backend.Base.{String, str_eq, if◌then◌else◌}

pub record Config : Type 0 where
  pub database_url : String
  pub redis_url : String
  pub jwt_secret : String
  pub port : String
  pub env : String
  pub frontend_url : String
  pub resend_api_key : String
  pub email_from_address : String

-- missingEnvError, or the configuration.
pub data Loaded : Type 0 where
  missing_env : String → Loaded
  loaded : Config → Loaded

abbrev pub or_default : String → String → String
or_default value fallback = if str_eq value "" then fallback else value

module _ (env : String → String) where
  unfoldable pub get_env_default : String → String → String
  get_env_default key fallback = or_default (env key) fallback

  unfoldable pub load : Loaded
  unfolding get_env_default
  load =
      if str_eq (env "DATABASE_URL") ""
      then missing_env "DATABASE_URL"
      else if str_eq (env "JWT_SECRET") ""
      then missing_env "JWT_SECRET"
      else loaded (record {
        database_url = env "DATABASE_URL";
        redis_url = env "REDIS_URL";
        jwt_secret = env "JWT_SECRET";
        port = get_env_default "PORT" "8080";
        env = get_env_default "APP_ENV" "development";
        frontend_url = get_env_default "FRONTEND_URL" "http://localhost:3000";
        resend_api_key = env "RESEND_API_KEY";
        email_from_address = get_env_default "EMAIL_FROM_ADDRESS" "onboarding@resend.dev";
      })
