-- ===== src/Auth/Security.antt =====
-- backend/app/core/security.py. Argon2, the JWT codec, SHA-256 and the Unicode case tables are
-- parameters; the random values and the clock readings of one request are its `Supply`.
use safe_shield.Prelude.{
  ℕ, ◌+◌, ◌*◌, ◌/◌, Bool, true, false, if◌then◌else◌, Option, none, some, Text, codes, text_eq,
}
use safe_shield.Prelude.Effects.{Result, ok, err, runtime}
use safe_shield.Config.{Settings}

pub record Claims : Type 0 where
  pub sub : Option Text
  pub iat : ℕ
  pub exp : ℕ
  pub jti : Text
  pub typ : Option Text

-- `PasswordHasher.verify` returns or raises one of three kinds of exception.
pub data Verification : Type 0 where
  verified mismatch invalid_hash broken : Verification

pub record Library : Type 0 where
  pub lower : Text → Text
  pub str_uuid : ℕ → Text
  pub parse_uuid : Text → Option ℕ
  pub sha256 : Text → Text
  pub argon2_hash : Text → Text → Text
  pub argon2_verify : Text → Text → Verification
  pub check_needs_rehash : Text → Bool
  -- the claims and the key; the token, the key and the present second
  pub jwt_encode : Claims → Text → Text
  pub jwt_decode : Text → Text → ℕ → Option Claims

pub record Supply : Type 0 where
  pub now : ℕ
  pub db_now : ℕ
  pub expiry_now : ℕ
  pub access_now : ℕ
  pub salt : Text
  pub rehash_salt : Text
  pub random_password : Text
  pub raw_token : Text
  pub token_id : ℕ
  pub family_id : ℕ
  pub user_id : ℕ
  pub jti : ℕ

abbrev pub second : ℕ
second = 1_000_000

module _ (lib : Library) where
  abbrev pub hash_password : Text → Text → Text
  hash_password salt password = lib.argon2_hash salt password

  abbrev pub verify_password : Text → Text → Result Bool
  verify_password password password_hash = elim (lib.argon2_verify password_hash password) [
    | verified ↦ ok true
    | mismatch ↦ ok false
    | invalid_hash ↦ ok false
    | broken ↦ err (runtime (codes "VerificationError"))
  ]

  abbrev pub needs_rehash : Text → Bool
  needs_rehash password_hash = lib.check_needs_rehash password_hash

  abbrev pub hash_refresh_token : Text → Text
  hash_refresh_token raw = lib.sha256 raw

  -- The raw token, and the hash that is stored in its place.
  abbrev pub generate_refresh_token : Supply → Text × Text
  generate_refresh_token sup = (sup.raw_token, hash_refresh_token sup.raw_token)

  -- The payload of an access token.
  abbrev pub issued_claims : Settings → Supply → ℕ → Claims
  issued_claims s sup user_id = record {
    sub = some (lib.str_uuid user_id);
    iat = sup.access_now / second;
    exp = (sup.access_now + s.access_token_ttl_minutes * 60 * second) / second;
    jti = lib.str_uuid sup.jti;
    typ = some (codes "access");
  }

  -- The token, and its lifetime in seconds.
  unfoldable pub create_access_token : Settings → Supply → ℕ → Text × ℕ
  create_access_token s sup user_id =
      (lib.jwt_encode (issued_claims s sup user_id) s.jwt_secret, s.access_token_ttl_minutes * 60)

  abbrev pub has_typ : Option Text → Text → Bool
  has_typ none t = false
  has_typ (some u) t = text_eq u t

  -- `None` for a token that does not decode, has expired, or is of another type.
  unfoldable pub decode_access_token : Settings → ℕ → Text → Option Claims
  decode_access_token s now token = elim (lib.jwt_decode token s.jwt_secret (now / second)) [
    | none ↦ none
    | some claims ↦ if has_typ claims.typ (codes "access") then some claims else none
  ]

abbrev pub refresh_token_expiry : Settings → Supply → ℕ
refresh_token_expiry s sup = sup.expiry_now + s.refresh_token_ttl_days * 24 * 3600 * second
