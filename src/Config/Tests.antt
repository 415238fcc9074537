-- ===== src/Config/Tests.antt =====
-- Runs of the start-up check.
use safe_shield.Prelude.{◌≡◌, ◌↔◌, refl, true, some, [], ◌∷◌, codes}
use safe_shield.Config.{Settings, prod, started, default_settings, reject_insecure_defaults}
use safe_shield.Config.Secure.{IsSecure, reject_insecure_defaults-prod}

-- A production deployment with everything set.
abbrev pub production : Settings
production = record default_settings {
  env = prod;
  jwt_secret = codes "0123456789abcdef0123456789abcdef";
  database_url = codes "postgresql+psycopg://db";
  cookie_secure = true;
  cors_origins = codes "https://safeshield.app" ∷ [];
  openai_api_key = some (codes "key");
}

-- The defaults are fine for development.
development_starts : reject_insecure_defaults default_settings ≡ started default_settings
unfolding reject_insecure_defaults
development_starts = refl

reject_insecure_defaults-prod_example :
    (reject_insecure_defaults production ≡ started production) ↔ IsSecure production
reject_insecure_defaults-prod_example = reject_insecure_defaults-prod production refl
