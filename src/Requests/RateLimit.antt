-- ===== src/Requests/RateLimit.antt =====
-- backend/app/core/ratelimit.py. The counting itself is slowapi's.
use safe_shield.Prelude.{is_empty, ◌||◌, some, not, ◌++◌, if◌then◌else◌, none, codes, Option, Text}
use safe_shield.Config.{Settings}

pub record Client : Type 0 where
  -- `request.state.user_id`
  pub user_id : Option Text
  -- `get_remote_address(request)`
  pub address : Text

abbrev pub user_key : Text → Text
user_key user = codes "user:" ++ user

abbrev pub ip_key : Text → Text
ip_key address = codes "ip:" ++ address

unfoldable pub client_key : Client → Text
client_key c = elim c.user_id [
  | none ↦ ip_key c.address
  | some user ↦ if is_empty user then ip_key c.address else user_key user
]

-- `_storage_uri`
unfoldable pub storage_uri : Settings → Option Text
storage_uri s = if not s.rate_limit_enabled || not s.redis_enabled then none else some s.redis_url
