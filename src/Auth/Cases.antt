-- ===== src/Auth/Cases.antt =====
-- The handlers of backend/app/api/auth.py taken apart: what a request leaves in the database, case
-- by case, for any predicate on the database.
use safe_shield.Prelude.{
  ℕ, ◌≡◌, refl, Bool, true, false, ◌==◌, leb, Option, none, some, Text, find_first, exists_in, ◌∷◌,
  Bool-cases, Option-cases, inl, inr,
}
use safe_shield.Config.{Settings}
use safe_shield.Prelude.Effects.{Result, ok, err}
use safe_shield.Auth.Models.{
  User, RefreshToken, AuthDb, is_revoked, begin, settle, same_user, clashes,
}
use safe_shield.Auth.Security.{Library, Supply, verify_password, needs_rehash}
use safe_shield.Auth.Routes.{
  RegisterRequest, LoginRequest, new_token, new_user, demo_user, stored_hash, admitted, by_email,
  set_password_hash, refresh, logout, register, login, demo_login, issue_tokens, revoke_family,
  set_revoked, by_hash, present, available,
}

module _ (s : Settings) (lib : Library) (sup : Supply) (user_agent : Text) (db : AuthDb) where
  -- What issuing tokens leaves, when the transaction has already made `working`.
  abbrev pub issued : User → Option ℕ → AuthDb → AuthDb
  issued user family working =
      settle
        (issue_tokens s lib sup user user_agent family (record (begin db) { working = working }))

module _ (P : AuthDb → Type 0) (s : Settings) (lib : Library) (sup : Supply) (user_agent : Text)
    (db : AuthDb) where
  pub refresh_cases :
      (cookie : Option Text)
      → P db
      → ((t : RefreshToken) (raw : Text)
          → find_first (by_hash (lib.sha256 raw)) db.tokens ≡ some t
          → is_revoked t ≡ true
          → P (revoke_family t.family_id sup.now db))
      → ((t : RefreshToken) (raw : Text) (user : User)
          → find_first (by_hash (lib.sha256 raw)) db.tokens ≡ some t
          → is_revoked t ≡ false
          → P (
              issued s lib sup user_agent db user (some t.family_id) (set_revoked t.id sup.now db)))
      → P (settle (refresh s lib sup cookie user_agent (begin db)))
  unfolding refresh
  refresh_cases cookie same burnt rotated = elim (Option-cases (present cookie)) [
    | inl e ↦ rw (e, refresh) same
    | inr (raw, e) ↦
        rw (e, refresh)
          (elim (Option-cases (find_first (by_hash (lib.sha256 raw)) db.tokens)) [
            | inl f ↦ rw f same
            | inr (t, f) ↦ rw f (elim (Bool-cases (is_revoked t)) [
              | inl e ↦ rw e (burnt t raw f e)
              | inr e ↦ rw e (elim (Bool-cases (leb t.expires_at sup.now)) [
                | inl late ↦ rw late same
                | inr early ↦
                    rw early
                      (elim (Option-cases
                        (available s lib sup (find_first (λ u. u.id == t.user_id) db.users))) [
                          | inl gone ↦ rw gone same
                          | inr (user, here) ↦ rw here (rotated t raw user f e)
                        ])
              ])
            ])
          ])
  ]

  pub issue_cases :
      (user : User) (family : Option ℕ) (working : AuthDb)
      → P db
      → (exists_in (clashes (new_token s lib sup user.id family user_agent)) working.tokens ≡ false
          → P (record working {
            tokens = new_token s lib sup user.id family user_agent ∷ working.tokens;
          }))
      → P (issued s lib sup user_agent db user family working)
  unfolding issue_tokens
  issue_cases user family working same added =
      elim (Bool-cases
        (exists_in (clashes (new_token s lib sup user.id family user_agent)) working.tokens)) [
          | inl e ↦ rw (e, issue_tokens) same
          | inr e ↦ rw (e, issue_tokens) (added e)
        ]

  pub logout_cases :
      (cookie : Option Text)
      → P db
      → ((t : RefreshToken) (raw : Text)
          → find_first (by_hash (lib.sha256 raw)) db.tokens ≡ some t
          → P (revoke_family t.family_id sup.now db))
      → P (settle (logout s lib sup cookie (begin db)))
  unfolding logout
  logout_cases cookie same burnt = elim (Option-cases (present cookie)) [
    | inl e ↦ rw (e, logout) same
    | inr (raw, e) ↦
        rw (e, logout)
          (elim (Option-cases (find_first (by_hash (lib.sha256 raw)) db.tokens)) [
            | inl f ↦ rw f same
            | inr (t, f) ↦ rw f (burnt t raw f)
          ])
  ]

  pub register_cases :
      (payload : RegisterRequest)
      → P db
      → (exists_in (same_user (new_user s lib sup payload)) db.users ≡ false
          → P (
              issued s lib sup user_agent db
                (new_user s lib sup payload)
                none
                (record db { users = new_user s lib sup payload ∷ db.users })))
      → P (settle (register s lib sup payload user_agent (begin db)))
  unfolding register
  register_cases payload same added =
      elim (Bool-cases (exists_in (same_user (new_user s lib sup payload)) db.users)) [
        | inl e ↦ rw (e, register) same
        | inr e ↦ rw (e, register) (added e)
      ]

  pub demo_cases :
      P db
      → (exists_in (same_user (demo_user s lib sup)) db.users ≡ false
          → P (
              issued s lib sup user_agent db
                (demo_user s lib sup)
                none
                (record db { users = demo_user s lib sup ∷ db.users })))
      → ((user : User) → P (issued s lib sup user_agent db user none db))
      → P (settle (demo_login s lib sup user_agent (begin db)))
  unfolding demo_login
  demo_cases same added found = elim (Option-cases (find_first (by_email s.demo_email) db.users)) [
    | inl e ↦
        rw (e, demo_login)
          (elim (Bool-cases (exists_in (same_user (demo_user s lib sup)) db.users)) [
            | inl c ↦ rw c same
            | inr c ↦ rw c (added c)
          ])
    | inr (user, e) ↦
        rw (e, demo_login)
          (elim (Bool-cases user.is_active) [ inl a ↦ rw a (found user) | inr a ↦ rw a same ])
  ]

  pub login_cases :
      (payload : LoginRequest)
      → P db
      → ((user : User) → P (issued s lib sup user_agent db user none db))
      → ((user : User) (hash : Text)
          → P (issued s lib sup user_agent db user none (set_password_hash user.id hash db)))
      → P (settle (login s lib sup payload user_agent (begin db)))
  unfolding login
  login_cases payload same found rehashed =
      after_lookup (find_first (by_email (lib.lower payload.email)) db.users) refl
    where
      after_check :
          (found_user : Option User) (checked : Result Bool)
          → find_first (by_email (lib.lower payload.email)) db.users ≡ found_user
          → verify_password lib payload.password (stored_hash s lib sup found_user) ≡ checked
          → P (settle (login s lib sup payload user_agent (begin db)))
      after_check o (err e) f c = rw (f, login) (rw c same)
      after_check o (ok b) f c =
          rw (f, login)
            (rw c (elim (Option-cases (admitted s lib sup o b)) [
              | inl refused ↦ rw refused same
              | inr (user, a) ↦ rw a (elim (Bool-cases (needs_rehash lib user.password_hash)) [
                | inl n ↦ rw n (rehashed user _)
                | inr n ↦ rw n (found user)
              ])
            ]))

      after_lookup :
          (o : Option User)
          → find_first (by_email (lib.lower payload.email)) db.users ≡ o
          → P (settle (login s lib sup payload user_agent (begin db)))
      after_lookup o f = after_check o _ f refl
