-- ===== src/Auth/Access.antt =====
-- Who gets in: passwords at the login route, bearer tokens at every other route.
use safe_shield.Auth.Routes.{
  subject, new_token, stored_hash, issue_tokens, by_email, login, TokenResponse, LoginRequest,
  unauthorized, credentials_error, get_current_user,
}
use safe_shield.Auth.Security.{
  decode_access_token, issued_claims, invalid_hash, mismatch, broken, second, verified,
  create_access_token, Supply, Library,
}
use safe_shield.Auth.Rotation.{IsIssued}
use safe_shield.Config.{Settings}
use safe_shield.Prelude.Effects.{err, ok, Result, Error}
use safe_shield.Prelude.{
  ◌≤◌, refl, subst, sym, Bool-cases, find_first-test, inr, ==_iff, inl, arith, false, ◌*◌, ◌+◌,
  Option-cases, ◌≢◌, ◌∷◌, true, ◌==◌, ◌⊎◌, ◌/◌, none, some, ◌<◌, ◌≡◌, find_first, Option, codes,
  Text, ℕ,
}
use safe_shield.Auth.Models.{RefreshToken, Request, User, get_db, AuthDb}

-- The address and the password of an active account.
abbrev pub Entitled : Library → LoginRequest → AuthDb → User → Type 0
Entitled lib payload db user =
    (find_first (by_email (lib.lower payload.email)) db.users ≡ some user)
    × (lib.argon2_verify user.password_hash payload.password ≡ verified)
    × (user.is_active ≡ true)

abbrev pub bad_login : Error
bad_login = unauthorized (codes "Incorrect email or password")

module _ (s : Settings) (lib : Library) (sup : Supply) (payload : LoginRequest) (agent : Text)
    (db : AuthDb) where
  abbrev pub after_login : Result TokenResponse × Request
  after_login = get_db (login s lib sup payload agent) db

  -- A login that returns tokens was made with the address and the password of an active account,
  -- and the one token that it adds is that account's, in use, in the family that was drawn and under
  -- the hash of the raw token that goes out.
  pub login-Entitled :
      (r : TokenResponse)
      → after_login.0 ≡ ok r
      → (user : User) × (n : RefreshToken) × Entitled lib payload db user
        × (after_login.1.committed.tokens ≡ n ∷ db.tokens)
        × IsIssued s lib sup user.id sup.family_id n
  unfolding get_db login issue_tokens
  login-Entitled r h =
      elim (Option-cases (find_first (by_email (lib.lower payload.email)) db.users)) [
        | inl e ↦ absurd (ground arith)
        | inr (user, e) ↦ (
          user,
          new_token s lib sup user.id none agent,
          (e, ground arith, ground arith),
          ground arith,
          record { live = refl; owner = refl; family = refl; hashed = refl; lifetime = refl },
        )
      ]

  -- An unknown address, a wrong password, a stored hash that is no hash, and a closed account are
  -- answered alike, and the database stays as it was.
  pub login_refused :
      (find_first (by_email (lib.lower payload.email)) db.users ≡ none)
          × (lib.argon2_verify (stored_hash s lib sup none) payload.password ≢ broken)
        ⊎ ((user : User) × (find_first (by_email (lib.lower payload.email)) db.users ≡ some user)
            × ((lib.argon2_verify user.password_hash payload.password ≡ mismatch)
                ⊎ (lib.argon2_verify user.password_hash payload.password ≡ invalid_hash)
                ⊎ ((lib.argon2_verify user.password_hash payload.password ≡ verified)
                    × (user.is_active ≡ false))))
      → (after_login.0 ≡ err bad_login) × (after_login.1.committed ≡ db)
  unfolding get_db login
  login_refused (inl (e, n)) = ground arith
  login_refused (inr (user, e, why)) = ground arith

module _ (s : Settings) (lib : Library) (now : ℕ) (db : AuthDb) where
  abbrev pub bearer : Option Text → Result User
  bearer token = (get_db (get_current_user s lib now token) db).0

  -- A token from `create_access_token` admits its user for the configured lifetime from its issue
  -- on, if the codec decodes what it encoded from the second it was issued until it expires and a
  -- uuid is read back from its text.
  pub bearer-create_access_token :
      (sup : Supply) (user : User)
      → ((second_now : ℕ)
          → (issued_claims lib s sup user.id).iat ≤ second_now
          → second_now < (issued_claims lib s sup user.id).exp
          → lib.jwt_decode
              (lib.jwt_encode (issued_claims lib s sup user.id) s.jwt_secret)
              s.jwt_secret
              second_now
            ≡ some (issued_claims lib s sup user.id))
      → ((id : ℕ) → lib.parse_uuid (lib.str_uuid id) ≡ some id)
      → sup.access_now / second ≤ now / second
      → now / second < sup.access_now / second + s.access_token_ttl_minutes * 60
      → find_first (λ u. u.id == user.id) db.users ≡ some user
      → user.is_active ≡ true
      → bearer (some (create_access_token lib s sup user.id).0) ≡ ok user
  unfolding get_db get_current_user create_access_token
  bearer-create_access_token sup user codec uuid issued early found active =
      ground (arith, uuid user.id, codec (now / second))

  found_by_id :
      (id : ℕ) (user : User)
      → find_first (λ u. u.id == id) db.users ≡ some user
      → find_first (λ u. u.id == user.id) db.users ≡ some user
  found_by_id id user e =
      let same = (==_iff user.id id).0 (find_first-test (λ u. u.id == id) db.users user e) in
      subst (λ k. find_first (λ u. u.id == k) db.users ≡ some user) (sym same) e

  -- Whoever is admitted is a stored, active user; everybody else gets the one 401.
  pub bearer_cases :
      (token : Option Text)
      → (bearer token ≡ err credentials_error)
        ⊎ ((user : User) × (bearer token ≡ ok user)
            × (find_first (λ u. u.id == user.id) db.users ≡ some user)
            × (user.is_active ≡ true))
  unfolding get_db get_current_user
  bearer_cases none = inl refl
  bearer_cases (some token) = elim (Option-cases (decode_access_token lib s now token)) [
    | inl e ↦ inl (ground arith)
    | inr (claims, e) ↦ elim (Option-cases (subject lib claims)) [
      | inl f ↦ inl (ground arith)
      | inr (id, f) ↦ elim (Option-cases (find_first (λ u. u.id == id) db.users)) [
        | inl g ↦ inl (ground arith)
        | inr (user, g) ↦ elim (Bool-cases user.is_active) [
          | inl a ↦ inr (user, ground arith, found_by_id id user g, a)
          | inr a ↦ inl (ground arith)
        ]
      ]
    ]
  ]
