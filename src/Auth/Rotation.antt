-- ===== src/Auth/Rotation.antt =====
-- Rotation of refresh tokens, reuse and logout, as seen in the database after the request.
use safe_shield.Prelude.{
  ◌+◌, ◌*◌, none, ℕ, ◌<◌, ◌≡◌, ◌≢◌, refl, Option, Bool, true, false, not, ◌&&◌, ◌==◌, some, List,
  [], ◌∷◌, Text, codes, is_empty, find_first, update_where, keep, All, arith, Bool-cases, ==_iff,
  inl, inr,
}
use safe_shield.Prelude.Effects.{Result, err, Error}
use safe_shield.Config.{Settings}
use safe_shield.Auth.Models.{
  User, RefreshToken, AuthDb, Request, cleared, is_revoked, get_db, begin, close_session,
}
use safe_shield.Auth.Security.{Library, Supply}
use safe_shield.Auth.Routes.{
  TokenResponse, refresh, issue_tokens, set_revoked, unauthorized, revoke, revoke_family, by_hash,
}

-- No token of the family can be used any more.
abbrev pub IsBurnt : ℕ → List RefreshToken → Type 0
IsBurnt f ts = All (λ t. t.family_id ≡ f → is_revoked t ≡ true) ts

abbrev pub outside : ℕ → List RefreshToken → List RefreshToken
outside f ts = keep (λ t. not (t.family_id == f)) ts

abbrev pub live_of : ℕ → RefreshToken → Bool
live_of f t = (t.family_id == f) && not (is_revoked t)

-- A token that was issued for the account into the family: in use, under the hash of the raw token
-- that goes out, for the configured number of days.
pub record IsIssued (s : Settings) (lib : Library) (sup : Supply) (user_id family_id : ℕ)
    (n : RefreshToken) : Type 0 where
  pub live : n.revoked_at ≡ none
  pub owner : n.user_id ≡ user_id
  pub family : n.family_id ≡ family_id
  pub hashed : n.token_hash ≡ lib.sha256 sup.raw_token
  pub lifetime : n.expires_at ≡ sup.expiry_now + s.refresh_token_ttl_days * 24 * 3600 * 1_000_000

pub revoke_family-IsBurnt :
    (f now : ℕ) (ts : List RefreshToken) → IsBurnt f (update_where (live_of f) (revoke now) ts)
revoke_family-IsBurnt f now [] = tt
revoke_family-IsBurnt f now (t ∷ ts) = (
  elim (Bool-cases (live_of f t)) [
    | inl e ↦ rw e (λ _. refl)
    | inr e ↦ rw e (λ p. ground (arith, ==_iff t.family_id f))
  ],
  revoke_family-IsBurnt f now ts,
)

pub revoke_family-outside :
    (f now : ℕ) (ts : List RefreshToken)
    → outside f (update_where (live_of f) (revoke now) ts) ≡ outside f ts
revoke_family-outside f now [] = refl
revoke_family-outside f now (t ∷ ts) = ground (arith, revoke_family-outside f now ts)

abbrev pub reuse_error : Error
reuse_error = unauthorized (codes "Refresh token reuse detected; all sessions revoked")

module _ (s : Settings) (lib : Library) (sup : Supply) (raw user_agent : Text) (db : AuthDb) where
  abbrev pub after_refresh : Result TokenResponse × Request
  after_refresh = get_db (refresh s lib sup (some raw) user_agent) db

  pub refresh_revoked :
      (t : RefreshToken)
      → is_empty raw ≡ false
      → find_first (by_hash (lib.sha256 raw)) db.tokens ≡ some t
      → is_revoked t ≡ true
      → after_refresh ≡ (
        err reuse_error,
        record {
          committed = revoke_family t.family_id sup.now db;
          working = revoke_family t.family_id sup.now db;
          cookie = cleared;
        },
      )
  unfolding get_db refresh
  refresh_revoked t e f r = ground arith

  -- Presenting a token that was already rotated or revoked is refused with 401, and although the
  -- request raises, the committed database has every token of its family revoked, the users and
  -- all other families as they were.
  pub refresh_reuse :
      (t : RefreshToken)
      → is_empty raw ≡ false
      → find_first (by_hash (lib.sha256 raw)) db.tokens ≡ some t
      → is_revoked t ≡ true
      → (after_refresh.0 ≡ err reuse_error)
        × IsBurnt t.family_id after_refresh.1.committed.tokens
        × (outside t.family_id after_refresh.1.committed.tokens ≡ outside t.family_id db.tokens)
        × (after_refresh.1.committed.users ≡ db.users)
  refresh_reuse t e f r = rw (refresh_revoked t e f r) (
    refl,
    revoke_family-IsBurnt t.family_id sup.now db.tokens,
    revoke_family-outside t.family_id sup.now db.tokens,
    refl,
  )

  pub refresh_live :
      (t : RefreshToken) (user : User)
      → is_empty raw ≡ false
      → find_first (by_hash (lib.sha256 raw)) db.tokens ≡ some t
      → is_revoked t ≡ false
      → sup.now < t.expires_at
      → find_first (λ u. u.id == t.user_id) db.users ≡ some user
      → user.is_active ≡ true
      → after_refresh
        ≡ close_session (
            issue_tokens s lib sup user user_agent
              (some t.family_id)
              (record (begin db) { working = set_revoked t.id sup.now db }))
  unfolding get_db refresh
  refresh_live t user e f r l o a = ground arith

  -- A request that fails for another reason than reuse leaves the database as it was.
  pub refresh_error :
      (cookie : Option Text) (e : Error)
      → (get_db (refresh s lib sup cookie user_agent) db).0 ≡ err e
      → e ≢ reuse_error
      → (get_db (refresh s lib sup cookie user_agent) db).1.committed ≡ db
  unfolding get_db refresh issue_tokens
  refresh_error cookie e h n = ground arith
