-- ===== src/Auth/Routes.antt =====
-- The handlers of backend/app/api/auth.py and `get_current_user` of backend/app/core/deps.py. The
-- rate limits stand before the handlers and are slowapi's.
use safe_shield.Prelude.{
  ℕ, ◌*◌, Bool, true, false, not, ◌&&◌, ◌==◌, leb, if◌then◌else◌, Option, none, some, Text, codes,
  text_eq, is_empty, find_first, update_where, take,
}
use safe_shield.Prelude.Effects.{
  Result, ok, err, Error, http, integrity, runtime, Action, pure, raise, gets, or_raise, modify,
  raise_if, ◌>>=◌, ◌>>◌,
}
use safe_shield.Config.{Settings}
use safe_shield.Auth.Models.{
  User, RefreshToken, AuthDb, Request, cleared, set_to, is_revoked, commit, rollback, flush_user,
  flush_token,
}
use safe_shield.Auth.Security.{
  Library, Supply, Claims, hash_password, verify_password, needs_rehash, hash_refresh_token,
  generate_refresh_token, create_access_token, decode_access_token, refresh_token_expiry,
}

pub record TokenResponse : Type 0 where
  pub access_token : Text
  pub token_type : Text
  pub expires_in : ℕ

pub record RegisterRequest : Type 0 where
  pub email : Text
  pub password : Text
  pub full_name : Option Text

pub record LoginRequest : Type 0 where
  pub email : Text
  pub password : Text

pub record UserResponse : Type 0 where
  pub id : ℕ
  pub email : Text
  pub full_name : Option Text
  pub is_demo : Bool
  pub created_at : ℕ

abbrev pub unauthorized : Text → Error
unauthorized detail = http 401 detail

abbrev pub set_refresh_cookie : Settings → Text → Action Request (Unit {0})
set_refresh_cookie s raw =
    modify λ r. record r { cookie = set_to raw (s.refresh_token_ttl_days * 24 * 3600) }

abbrev pub clear_refresh_cookie : Action Request (Unit {0})
clear_refresh_cookie = modify λ r. record r { cookie = cleared }

-- `_clear_refresh_cookie(response)` and the raise behind it.
abbrev pub refuse : {A : Type 0} → Error → Action Request A
refuse e = do clear_refresh_cookie; raise e

abbrev pub refuse_if : Bool → Error → Action Request (Unit {0})
refuse_if true e = refuse e
refuse_if false e = pure tt

abbrev pub or_refuse : {A : Type 0} → Option A → Error → Action Request A
or_refuse none e = refuse e
or_refuse (some a) e = pure a

abbrev pub lift : {A : Type 0} → Result A → Action Request A
lift result r = (result, r)

abbrev pub non_empty : Text → Option Text
non_empty t = if is_empty t then none else some t

-- The cookie's value, unless it is missing or empty.
abbrev pub present : Option Text → Option Text
present none = none
present (some raw) = non_empty raw

abbrev pub family_or : Option ℕ → ℕ → ℕ
family_or none fresh = fresh
family_or (some family) fresh = family

abbrev pub revoke : ℕ → RefreshToken → RefreshToken
revoke now t = record t { revoked_at = some now }

-- `update(RefreshToken).where(family_id == f, revoked_at IS NULL).values(revoked_at=now)`
abbrev pub revoke_family : ℕ → ℕ → AuthDb → AuthDb
revoke_family family now db = record db {
  tokens = update_where (λ t. (t.family_id == family) && not (is_revoked t)) (revoke now) db.tokens;
}

abbrev pub change : (AuthDb → AuthDb) → Action Request (Unit {0})
change f = modify λ r. record r { working = f r.working }

-- An attribute written on a loaded row goes out as an update by primary key.
abbrev pub set_password_hash : ℕ → Text → AuthDb → AuthDb
set_password_hash id hash db = record db {
  users = update_where (λ u. u.id == id) (λ u. record u { password_hash = hash }) db.users;
}

abbrev pub set_revoked : ℕ → ℕ → AuthDb → AuthDb
set_revoked id now db = record db { tokens = update_where (λ t. t.id == id) (revoke now) db.tokens }

abbrev pub by_email : Text → User → Bool
by_email email u = text_eq u.email email

abbrev pub by_hash : Text → RefreshToken → Bool
by_hash hash t = text_eq t.token_hash hash

module _ (s : Settings) (lib : Library) (sup : Supply) where
  abbrev pub new_token : ℕ → Option ℕ → Text → RefreshToken
  new_token user_id family user_agent = record {
    id = sup.token_id;
    user_id = user_id;
    token_hash = (generate_refresh_token lib sup).1;
    family_id = family_or family sup.family_id;
    expires_at = refresh_token_expiry s sup;
    revoked_at = none;
    user_agent = non_empty (take 400 user_agent);
  }

  -- `_issue_tokens`
  unfoldable pub issue_tokens : User → Text → Option ℕ → Action Request TokenResponse
  unfolding create_access_token
  issue_tokens user user_agent family = do
    flush_token (new_token user.id family user_agent)
    set_refresh_cookie s (generate_refresh_token lib sup).0
    let access = create_access_token lib s sup user.id
    pure (record { access_token = access.0; token_type = codes "bearer"; expires_in = access.1 })

  abbrev pub new_user : RegisterRequest → User
  new_user payload = record {
    id = sup.user_id;
    email = lib.lower payload.email;
    password_hash = hash_password lib sup.salt payload.password;
    full_name = payload.full_name;
    is_active = true;
    is_demo = false;
    created_at = sup.db_now;
  }

  -- `try: flush() except IntegrityError: rollback(); raise HTTPException(409)`
  abbrev pub conflicted : Result (Unit {0}) × Request → Result (Unit {0}) × Request
  conflicted (ok a, r) = (ok a, r)
  conflicted (err integrity, r) =
      (rollback >> raise (http 409 (codes "An account with that email already exists"))) r
  conflicted (err (http status detail), r) = (err (http status detail), r)
  conflicted (err (runtime message), r) = (err (runtime message), r)

  unfoldable pub register : RegisterRequest → Text → Action Request TokenResponse
  unfolding issue_tokens
  register payload user_agent = do
    let user = new_user payload
    (λ r. conflicted (flush_user user r))
    issue_tokens user user_agent none

  -- The hash to check the password against; a dummy for an unknown address.
  abbrev pub stored_hash : Option User → Text
  stored_hash none = hash_password lib sup.salt (codes "dummy-password-for-timing")
  stored_hash (some user) = user.password_hash

  abbrev pub admitted : Option User → Bool → Option User
  admitted none password_ok = none
  admitted (some user) password_ok = if password_ok && user.is_active then some user else none

  abbrev pub rehash_if : Bool → User → Text → Action Request (Unit {0})
  rehash_if false user password = pure tt
  rehash_if true user password =
      change (set_password_hash user.id (hash_password lib sup.rehash_salt password))

  unfoldable pub login : LoginRequest → Text → Action Request TokenResponse
  unfolding issue_tokens
  login payload user_agent = do
    found ← gets (λ r. find_first (by_email (lib.lower payload.email)) r.working.users)
    password_ok ← lift (verify_password lib payload.password (stored_hash found))
    user ←
        or_raise (admitted found password_ok) (unauthorized (codes "Incorrect email or password"))
    rehash_if (needs_rehash lib user.password_hash) user payload.password
    issue_tokens user user_agent none

  -- A replayed token: the family is burnt, and that is committed before the raise.
  abbrev pub burn_if : Bool → RefreshToken → Action Request (Unit {0})
  burn_if false token = pure tt
  burn_if true token = do
    change (revoke_family token.family_id sup.now)
    commit
    refuse (unauthorized (codes "Refresh token reuse detected; all sessions revoked"))

  abbrev pub available : Option User → Option User
  available none = none
  available (some user) = if user.is_active then some user else none

  unfoldable pub refresh : Option Text → Text → Action Request TokenResponse
  unfolding issue_tokens
  refresh cookie user_agent = do
    raw ← or_raise (present cookie) (unauthorized (codes "Missing refresh token"))
    found ← gets (λ r. find_first (by_hash (hash_refresh_token lib raw)) r.working.tokens)
    token ← or_refuse found (unauthorized (codes "Invalid refresh token"))
    burn_if (is_revoked token) token
    refuse_if (leb token.expires_at sup.now) (unauthorized (codes "Refresh token expired"))
    owner ← gets (λ r. find_first (λ u. u.id == token.user_id) r.working.users)
    user ← or_refuse (available owner) (unauthorized (codes "Account unavailable"))
    change (set_revoked token.id sup.now)
    issue_tokens user user_agent (some token.family_id)

  abbrev pub revoke_found : Option RefreshToken → Action Request (Unit {0})
  revoke_found none = pure tt
  revoke_found (some token) = change (revoke_family token.family_id sup.now)

  abbrev pub revoke_presented : Option Text → Action Request (Unit {0})
  revoke_presented none = pure tt
  revoke_presented (some raw) = do
    found ← gets (λ r. find_first (by_hash (hash_refresh_token lib raw)) r.working.tokens)
    revoke_found found

  unfoldable pub logout : Option Text → Action Request (Unit {0})
  logout cookie = do revoke_presented (present cookie); clear_refresh_cookie

  abbrev pub demo_user : User
  demo_user = record {
    id = sup.user_id;
    email = s.demo_email;
    password_hash = hash_password lib sup.salt sup.random_password;
    full_name = some (codes "Demo User");
    is_active = true;
    is_demo = true;
    created_at = sup.db_now;
  }

  abbrev pub found_or_created : Option User → Action Request User
  found_or_created (some user) = pure user
  found_or_created none = do flush_user demo_user; pure demo_user

  unfoldable pub demo_login : Text → Action Request TokenResponse
  unfolding issue_tokens
  demo_login user_agent = do
    found ← gets (λ r. find_first (by_email s.demo_email) r.working.users)
    user ← found_or_created found
    raise_if (not user.is_active) (http 403 (codes "Demo access is disabled"))
    issue_tokens user user_agent none

abbrev pub credentials_error : Error
credentials_error = unauthorized (codes "Could not validate credentials")

abbrev pub subject : Library → Claims → Option ℕ
subject lib claims = elim claims.sub [ none ↦ none | some sub ↦ lib.parse_uuid sub ]

-- The user behind a bearer token, at the instant `now`.
unfoldable pub get_current_user : Settings → Library → ℕ → Option Text → Action Request User
unfolding decode_access_token
get_current_user s lib now credentials = do
  token ← or_raise credentials credentials_error
  claims ← or_raise (decode_access_token lib s now token) credentials_error
  user_id ← or_raise (subject lib claims) credentials_error
  found ← gets (λ r. find_first (λ u. u.id == user_id) r.working.users)
  or_raise (elim found [ none ↦ none | some user ↦ if user.is_active then some user else none ])
      credentials_error

-- The body of `GET /api/auth/me`, as `UserResponse` picks it from the row.
abbrev pub me : User → UserResponse
me user = record {
  id = user.id;
  email = user.email;
  full_name = user.full_name;
  is_demo = user.is_demo;
  created_at = user.created_at;
}
