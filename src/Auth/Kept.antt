-- ===== src/Auth/Kept.antt =====
-- What later requests leave of a stored refresh token: it is never deleted, and nothing brings it
-- back into use.
use safe_shield.Prelude.{
  sym, subst, not, ◌&&◌, ◌==◌, inr, text_eq_iff, inl, [], none, Bool-cases, Option, arith, text_eq,
  false, if◌then◌else◌, some, ◌∷◌, ◌≡◌, update_where, exists_in, find_first, Bool, List, ℕ, Text,
  refl,
}
use safe_shield.Auth.Models.{
  is_revoked, begin, get_db-settle, settle, clashes, User, AuthDb, RefreshToken,
}
use safe_shield.Auth.Routes.{
  new_user, demo_user, demo_login, login, register, set_revoked, refresh, logout, new_token,
  by_hash, revoke,
}
use safe_shield.Config.{Settings}
use safe_shield.Auth.Service.{enters_demo, logs_out, refreshes, logs_in, registers, Call, step, run}
use safe_shield.Auth.Security.{Supply, Library}
use safe_shield.Auth.Cases.{
  demo_cases, login_cases, logout_cases, refresh_cases, register_cases, issue_cases, issued,
}

pub find_first-revoke :
    (h : Text) (now : ℕ) (p : RefreshToken → Bool) (ts : List RefreshToken) (t : RefreshToken)
    → find_first (by_hash h) ts ≡ some t
    → find_first (by_hash h) (update_where p (revoke now) ts)
      ≡ some (if p t then revoke now t else t)
find_first-revoke h now p [] t e = cc
find_first-revoke h now p (v ∷ ts) t e = elim (Bool-cases (by_hash h v)) [
  | inl hit ↦ ground arith
  | inr miss ↦ ground (arith, find_first-revoke h now p ts t)
]

pub clashes-revoke :
    (n : RefreshToken) (now : ℕ) (p : RefreshToken → Bool) (ts : List RefreshToken)
    → exists_in (clashes n) (update_where p (revoke now) ts) ≡ exists_in (clashes n) ts
clashes-revoke n now p [] = refl
clashes-revoke n now p (t ∷ ts) = ground (arith, clashes-revoke n now p ts)

-- The unique index keeps a new hash apart from every stored one.
pub hash_ne_of_flush :
    (n : RefreshToken) (h : Text) (ts : List RefreshToken) (t : RefreshToken)
    → exists_in (clashes n) ts ≡ false
    → find_first (by_hash h) ts ≡ some t
    → text_eq n.token_hash h ≡ false
hash_ne_of_flush n h [] t e f = cc
hash_ne_of_flush n h (v ∷ ts) t e f = elim (Bool-cases (by_hash h v)) [
  | inl hit ↦ ground (
    arith,
    text_eq_iff v.token_hash h,
    text_eq_iff n.token_hash h,
    text_eq_iff v.token_hash n.token_hash,
  )
  | inr miss ↦ ground (arith, hash_ne_of_flush n h ts t)
]

-- The token that the hash finds has the property.
abbrev pub Finds : (RefreshToken → Type 0) → Text → AuthDb → Type 0
Finds Q h db = (t : RefreshToken) × (find_first (by_hash h) db.tokens ≡ some t) × Q t

module _ (Q : RefreshToken → Type 0) (stays : (t : RefreshToken) (now : ℕ) → Q t → Q (revoke now t))
    (h : Text) where
  Finds-revoke :
      (now : ℕ) (p : RefreshToken → Bool) (users : List User) (db : AuthDb)
      → Finds Q h db
      → Finds Q h (record { users = users; tokens = update_where p (revoke now) db.tokens })
  Finds-revoke now p users db (t, found, q) = (
    if p t then revoke now t else t,
    find_first-revoke h now p db.tokens t found,
    elim (Bool-cases (p t)) [ inl e ↦ rw e (stays t now q) | inr e ↦ rw e q ],
  )

  module _ (s : Settings) (lib : Library) (sup : Supply) (agent : Text) (db : AuthDb)
      (here : Finds Q h db) where
    issued-Finds :
        (user : User) (family : Option ℕ) (working : AuthDb)
        → Finds Q h working
        → Finds Q h (issued s lib sup agent db user family working)
    issued-Finds user family working (t, found, q) =
        issue_cases (Finds Q h) s lib sup agent db user family working here λ e.
          let fresh = new_token s lib sup user.id family agent in
          (t, rw (hash_ne_of_flush fresh h working.tokens t e found) found, q)

    refresh-Finds :
        (cookie : Option Text) → Finds Q h (settle (refresh s lib sup cookie agent (begin db)))
    refresh-Finds cookie =
        refresh_cases (Finds Q h) s lib sup agent db cookie here
          (λ t raw found revoked.
            Finds-revoke sup.now (λ v. (v.family_id == t.family_id) && not (is_revoked v)) db.users
              db here)
          (λ t raw user found live.
            issued-Finds user (some t.family_id) (set_revoked t.id sup.now db)
              (Finds-revoke sup.now (λ v. v.id == t.id) db.users db here))

    logout-Finds : (cookie : Option Text) → Finds Q h (settle (logout s lib sup cookie (begin db)))
    logout-Finds cookie = logout_cases (Finds Q h) s lib sup agent db cookie here (λ t raw found.
        Finds-revoke sup.now (λ v. (v.family_id == t.family_id) && not (is_revoked v)) db.users db
          here)

    added_user-Finds :
        (user : User) (users : List User)
        → Finds Q h (issued s lib sup agent db user none (record db { users = users }))
    added_user-Finds user users = issued-Finds user none (record db { users = users }) here

  -- Every request keeps such a token, whether it returns or raises.
  step-Finds :
      (s : Settings) (lib : Library) (db : AuthDb) (sup : Supply) (agent : Text) (c : Call)
      → Finds Q h db
      → Finds Q h (step s lib db (sup, agent, c))
  unfolding step
  step-Finds s lib db sup agent (registers p) here =
      subst (Finds Q h) (sym (get_db-settle (register s lib sup p agent) db)) (
        register_cases (Finds Q h) s lib sup agent db p here
          (λ e. added_user-Finds s lib sup agent db here (new_user s lib sup p) _))
  step-Finds s lib db sup agent (logs_in p) here =
      subst (Finds Q h) (sym (get_db-settle (login s lib sup p agent) db)) (
        login_cases (Finds Q h) s lib sup agent db p here
          (λ user. issued-Finds s lib sup agent db here user none db here)
          (λ user hash. added_user-Finds s lib sup agent db here user _))
  step-Finds s lib db sup agent (refreshes c) here =
      subst (Finds Q h) (sym (get_db-settle (refresh s lib sup c agent) db))
        (refresh-Finds s lib sup agent db here c)
  step-Finds s lib db sup agent (logs_out c) here =
      subst (Finds Q h) (sym (get_db-settle (logout s lib sup c) db))
        (logout-Finds s lib sup agent db here c)
  step-Finds s lib db sup agent enters_demo here =
      subst (Finds Q h) (sym (get_db-settle (demo_login s lib sup agent) db)) (
        demo_cases (Finds Q h) s lib sup agent db here
          (λ e. added_user-Finds s lib sup agent db here (demo_user s lib sup) _)
          (λ user. issued-Finds s lib sup agent db here user none db here))

  pub run-Finds :
      (s : Settings) (lib : Library) (db : AuthDb) (cs : List (Supply × Text × Call))
      → Finds Q h db
      → Finds Q h (run s lib db cs)
  unfolding run
  run-Finds s lib db [] here = here
  run-Finds s lib db ((sup, agent, c) ∷ cs) here =
      run-Finds s lib (step s lib db (sup, agent, c)) cs (step-Finds s lib db sup agent c here)
