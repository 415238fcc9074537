-- ===== src/Auth/Families.antt =====
-- The invariant of the token table: a family never has two live tokens, no hash stands twice, and
-- no e-mail address belongs to two users.
use safe_shield.Prelude.{
  ℕ, ◌+◌, ◌≤◌, ◌≡◌, ◌≢◌, refl, Bool, false, ◌==◌, Option, none, some, List, [], ◌∷◌, Text,
  text_eq_iff, find_first, update_where, exists_in, count_where, All, arith, Bool-cases, inl, inr,
}
use safe_shield.Config.{Settings}
use safe_shield.Auth.Models.{
  User, RefreshToken, AuthDb, is_revoked, begin, settle, get_db-settle, same_user, clashes,
}
use safe_shield.Auth.Security.{Library, Supply}
use safe_shield.Auth.Routes.{
  RegisterRequest, LoginRequest, family_or, register, login, refresh, logout, demo_login, revoke,
  revoke_family, set_revoked, by_hash, new_token, set_password_hash,
}
use safe_shield.Auth.Cases.{
  issued, refresh_cases, issue_cases, logout_cases, register_cases, demo_cases, login_cases,
}
use safe_shield.Auth.Rotation.{live_of}
use safe_shield.Auth.Service.{
  Call, registers, logs_in, refreshes, logs_out, enters_demo, empty_db, step, run,
}

abbrev pub live_count : ℕ → List RefreshToken → ℕ
live_count f ts = count_where (live_of f) ts

abbrev pub UniqueHashes : List RefreshToken → Type 0
UniqueHashes [] = Unit {0}
UniqueHashes (t ∷ ts) = All (λ v. v.token_hash ≢ t.token_hash) ts × UniqueHashes ts

abbrev pub UniqueEmails : List User → Type 0
UniqueEmails [] = Unit {0}
UniqueEmails (u ∷ us) = All (λ v. v.email ≢ u.email) us × UniqueEmails us

pub record IsValid (db : AuthDb) : Type 0 where
  pub one_live : (f : ℕ) → live_count f db.tokens ≤ 1
  pub hashes : UniqueHashes db.tokens
  pub emails : UniqueEmails db.users

-- Revoking tokens brings none back.
live_count-revoke :
    (f now : ℕ) (p : RefreshToken → Bool) (ts : List RefreshToken)
    → live_count f (update_where p (revoke now) ts) ≤ live_count f ts
live_count-revoke f now p [] = omega arith
live_count-revoke f now p (t ∷ ts) = ground (arith, live_count-revoke f now p ts)

-- Rotation takes the presented token away from its family.
live_count-rotate :
    (now : ℕ) (p : RefreshToken → Bool) (ts : List RefreshToken) (t : RefreshToken)
    → find_first p ts ≡ some t
    → is_revoked t ≡ false
    → live_count t.family_id (update_where (λ v. v.id == t.id) (revoke now) ts) + 1
      ≤ live_count t.family_id ts
live_count-rotate now p [] t e r = cc
live_count-rotate now p (v ∷ ts) t e r = elim (Bool-cases (p v)) [
  | inl hit ↦ ground (arith, live_count-revoke t.family_id now (λ w. w.id == t.id) ts)
  | inr miss ↦ ground (arith, live_count-rotate now p ts t)
]

All-ne-revoke :
    (h : Text) (now : ℕ) (p : RefreshToken → Bool) (ts : List RefreshToken)
    → All (λ v. v.token_hash ≢ h) ts
    → All (λ v. v.token_hash ≢ h) (update_where p (revoke now) ts)
All-ne-revoke h now p [] a = tt
All-ne-revoke h now p (t ∷ ts) a = ground (arith, All-ne-revoke h now p ts a.1)

UniqueHashes-revoke :
    (now : ℕ) (p : RefreshToken → Bool) (ts : List RefreshToken)
    → UniqueHashes ts
    → UniqueHashes (update_where p (revoke now) ts)
UniqueHashes-revoke now p [] u = tt
UniqueHashes-revoke now p (t ∷ ts) u = elim (Bool-cases (p t)) [
  | inl e ↦ rw e (All-ne-revoke t.token_hash now p ts u.0, UniqueHashes-revoke now p ts u.1)
  | inr e ↦ rw e (All-ne-revoke t.token_hash now p ts u.0, UniqueHashes-revoke now p ts u.1)
]

-- What the unique index on `token_hash` has let through, and that on `email`.
hashes_of_flush :
    (t : RefreshToken) (ts : List RefreshToken)
    → exists_in (clashes t) ts ≡ false
    → All (λ v. v.token_hash ≢ t.token_hash) ts
hashes_of_flush t [] e = tt
hashes_of_flush t (v ∷ ts) e =
    ground (arith, text_eq_iff v.token_hash t.token_hash, hashes_of_flush t ts)

emails_of_flush :
    (u : User) (us : List User)
    → exists_in (same_user u) us ≡ false
    → All (λ v. v.email ≢ u.email) us
emails_of_flush u [] e = tt
emails_of_flush u (v ∷ us) e = ground (arith, text_eq_iff v.email u.email, emails_of_flush u us)

All-ne-set_hash :
    (a : Text) (id : ℕ) (hash : Text) (us : List User)
    → All (λ v. v.email ≢ a) us
    → All
        (λ v. v.email ≢ a)
        (update_where (λ u. u.id == id) (λ u. record u { password_hash = hash }) us)
All-ne-set_hash a id hash [] h = tt
All-ne-set_hash a id hash (u ∷ us) h = ground (arith, All-ne-set_hash a id hash us h.1)

UniqueEmails-set_hash :
    (id : ℕ) (hash : Text) (us : List User)
    → UniqueEmails us
    → UniqueEmails (update_where (λ u. u.id == id) (λ u. record u { password_hash = hash }) us)
UniqueEmails-set_hash id hash [] h = tt
UniqueEmails-set_hash id hash (u ∷ us) h = elim (Bool-cases (u.id == id)) [
  | inl e ↦ rw e (All-ne-set_hash u.email id hash us h.0, UniqueEmails-set_hash id hash us h.1)
  | inr e ↦ rw e (All-ne-set_hash u.email id hash us h.0, UniqueEmails-set_hash id hash us h.1)
]

revoke_family-IsValid : (f now : ℕ) (db : AuthDb) → IsValid db → IsValid (revoke_family f now db)
revoke_family-IsValid f now db v = record {
  one_live = λ g. omega (arith, live_count-revoke g now (live_of f) db.tokens, v.one_live g);
  hashes = UniqueHashes-revoke now (live_of f) db.tokens v.hashes;
  emails = v.emails;
}

set_password_hash-IsValid :
    (id : ℕ) (hash : Text) (db : AuthDb) → IsValid db → IsValid (set_password_hash id hash db)
set_password_hash-IsValid id hash db v = record {
  one_live = v.one_live;
  hashes = v.hashes;
  emails = UniqueEmails-set_hash id hash db.users v.emails;
}

-- A uuid that no stored family carries.
abbrev pub IsFresh : ℕ → List RefreshToken → Type 0
IsFresh f ts = All (λ t. t.family_id ≢ f) ts

live_count_fresh : (f : ℕ) (ts : List RefreshToken) → IsFresh f ts → live_count f ts ≡ 0
live_count_fresh f [] h = refl
live_count_fresh f (t ∷ ts) h = ground (arith, live_count_fresh f ts h.1)

module _ (s : Settings) (lib : Library) (sup : Supply) (agent : Text) (db : AuthDb)
    (v : IsValid db) where
  -- Tokens issued into a family that has no live token.
  issued-IsValid :
      (user : User) (family : Option ℕ) (working : AuthDb)
      → IsValid working
      → live_count (family_or family sup.family_id) working.tokens ≡ 0
      → IsValid (issued s lib sup agent db user family working)
  issued-IsValid user family working w none_live =
      issue_cases IsValid s lib sup agent db user family working v λ e. record {
        one_live = λ f. ground (arith, w.one_live f);
        hashes =
            (hashes_of_flush (new_token s lib sup user.id family agent) working.tokens e, w.hashes);
        emails = w.emails;
      }

  fresh-IsValid :
      (user : User) (working : AuthDb)
      → IsFresh sup.family_id db.tokens
      → working.tokens ≡ db.tokens
      → IsValid working
      → IsValid (issued s lib sup agent db user none working)
  fresh-IsValid user working fresh e w =
      issued-IsValid user none working w (rw e (live_count_fresh sup.family_id db.tokens fresh))

  refresh-IsValid :
      (cookie : Option Text) → IsValid (settle (refresh s lib sup cookie agent (begin db)))
  refresh-IsValid cookie =
      refresh_cases IsValid s lib sup agent db cookie v
        (λ t raw found revoked. revoke_family-IsValid t.family_id sup.now db v)
        (λ t raw user found live.
          issued-IsValid user (some t.family_id) (set_revoked t.id sup.now db)
            (record {
              one_live = λ f.
                  omega (
                    arith,
                    live_count-revoke f sup.now (λ w. w.id == t.id) db.tokens,
                    v.one_live f,
                  );
              hashes = UniqueHashes-revoke sup.now (λ w. w.id == t.id) db.tokens v.hashes;
              emails = v.emails;
            })
            (omega (
              arith,
              v.one_live t.family_id,
              live_count-rotate sup.now (by_hash (lib.sha256 raw)) db.tokens t found live,
            )))

  logout-IsValid : (cookie : Option Text) → IsValid (settle (logout s lib sup cookie (begin db)))
  logout-IsValid cookie =
      logout_cases IsValid s lib sup agent db cookie v
        (λ t raw found. revoke_family-IsValid t.family_id sup.now db v)

  module _ (fresh : IsFresh sup.family_id db.tokens) where
    added_user-IsValid :
        (user : User)
        → exists_in (same_user user) db.users ≡ false
        → IsValid (issued s lib sup agent db user none (record db { users = user ∷ db.users }))
    added_user-IsValid user e = fresh-IsValid user _ fresh refl (record {
      one_live = v.one_live;
      hashes = v.hashes;
      emails = (emails_of_flush user db.users e, v.emails);
    })

    register-IsValid :
        (p : RegisterRequest) → IsValid (settle (register s lib sup p agent (begin db)))
    register-IsValid p = register_cases IsValid s lib sup agent db p v (added_user-IsValid _)

    demo-IsValid : IsValid (settle (demo_login s lib sup agent (begin db)))
    demo-IsValid =
        demo_cases IsValid s lib sup agent db v (added_user-IsValid _)
          (λ user. fresh-IsValid user db fresh refl v)

    login-IsValid : (p : LoginRequest) → IsValid (settle (login s lib sup p agent (begin db)))
    login-IsValid p =
        login_cases IsValid s lib sup agent db p v (λ user. fresh-IsValid user db fresh refl v)
          (λ user hash.
            fresh-IsValid user _ fresh refl (set_password_hash-IsValid user.id hash db v))

-- Every request keeps the table valid, whether it returns or raises, when the uuid drawn for a new
-- family is not one that is stored.
pub step-IsValid :
    (s : Settings) (lib : Library) (db : AuthDb) (sup : Supply) (agent : Text) (c : Call)
    → IsFresh sup.family_id db.tokens
    → IsValid db
    → IsValid (step s lib db (sup, agent, c))
unfolding step
step-IsValid s lib db sup agent (registers p) fresh v =
    rw get_db-settle (register-IsValid s lib sup agent db v fresh p)
step-IsValid s lib db sup agent (logs_in p) fresh v =
    rw get_db-settle (login-IsValid s lib sup agent db v fresh p)
step-IsValid s lib db sup agent (refreshes c) fresh v =
    rw get_db-settle (refresh-IsValid s lib sup agent db v c)
step-IsValid s lib db sup agent (logs_out c) fresh v =
    rw get_db-settle (logout-IsValid s lib sup agent db v c)
step-IsValid s lib db sup agent enters_demo fresh v =
    rw get_db-settle (demo-IsValid s lib sup agent db v fresh)

-- Each request of a history draws a family uuid that is not yet stored.
abbrev pub DrawsFresh : Settings → Library → AuthDb → List (Supply × Text × Call) → Type 0
DrawsFresh s lib db [] = Unit {0}
DrawsFresh s lib db (c ∷ cs) =
    IsFresh c.0.family_id db.tokens × DrawsFresh s lib (step s lib db c) cs

run_from-IsValid :
    (s : Settings) (lib : Library) (db : AuthDb) (cs : List (Supply × Text × Call))
    → DrawsFresh s lib db cs
    → IsValid db
    → IsValid (run s lib db cs)
unfolding run
run_from-IsValid s lib db [] d v = v
run_from-IsValid s lib db ((sup, agent, c) ∷ cs) d v =
    run_from-IsValid s lib (step s lib db (sup, agent, c)) cs d.1
      (step-IsValid s lib db sup agent c d.0 v)

-- After any sequence of requests, each after the end of the one before, on an empty database no
-- family has two live tokens, no token hash stands twice and no address has two users, when each
-- request draws a fresh family uuid.
pub run-IsValid :
    (s : Settings) (lib : Library) (cs : List (Supply × Text × Call))
    → DrawsFresh s lib empty_db cs
    → IsValid (run s lib empty_db cs)
run-IsValid s lib cs d =
    run_from-IsValid s lib empty_db cs d
      (record { one_live = λ f. omega arith; hashes = tt; emails = tt })
