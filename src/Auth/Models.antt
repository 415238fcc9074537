-- ===== src/Auth/Models.antt =====
-- The rows that authentication keeps (backend/app/models/user.py, refresh_token.py) and the
-- transaction of one request (backend/app/db.py). Instants are microseconds; a uuid is
-- a number. `created_at` of a token is left out: nothing reads it.
use safe_shield.Prelude.{
  ℕ, ◌≡◌, Bool, true, false, ◌==◌, ◌||◌, if◌then◌else◌, Option, none, some, List, ◌∷◌, Text,
  text_eq, exists_in, arith,
}
use safe_shield.Prelude.Effects.{Result, ok, err, Action, integrity}

pub record User : Type 0 where
  pub id : ℕ
  pub email : Text
  pub password_hash : Text
  pub full_name : Option Text
  pub is_active : Bool
  pub is_demo : Bool
  pub created_at : ℕ

pub record RefreshToken : Type 0 where
  pub id : ℕ
  pub user_id : ℕ
  pub token_hash : Text
  pub family_id : ℕ
  pub expires_at : ℕ
  pub revoked_at : Option ℕ
  pub user_agent : Option Text

pub record AuthDb : Type 0 where
  pub users : List User
  pub tokens : List RefreshToken

-- What the handler did to the cookie of the injected response.
pub data CookieChange : Type 0 where
  untouched cleared : CookieChange
  set_to : Text → ℕ → CookieChange

-- A request in flight: what the database holds, what the open transaction sees, the response.
pub record Request : Type 0 where
  pub committed : AuthDb
  pub working : AuthDb
  pub cookie : CookieChange

abbrev pub is_some {ℓ} : {A : Type ℓ} → Option A → Bool
is_some none = false
is_some (some a) = true

abbrev pub is_revoked : RefreshToken → Bool
is_revoked t = is_some t.revoked_at

-- `await db.commit()` and `await db.rollback()`
abbrev pub commit : Action Request (Unit {0})
commit r = (ok tt, record r { committed = r.working })

abbrev pub rollback : Action Request (Unit {0})
rollback r = (ok tt, record r { working = r.committed })

-- A row that the unique constraints keep from standing beside `u`, or beside `t`.
abbrev pub same_user : User → User → Bool
same_user u v = (v.id == u.id) || text_eq v.email u.email

abbrev pub clashes : RefreshToken → RefreshToken → Bool
clashes t v = (v.id == t.id) || text_eq v.token_hash t.token_hash

-- `db.add(user)` and the flush: the primary key and the e-mail address are unique.
abbrev pub flush_user : User → Action Request (Unit {0})
flush_user u r =
    if exists_in (same_user u) r.working.users
    then (err integrity, r)
    else (ok tt, record r { working = record r.working { users = u ∷ r.working.users } })

-- `db.add(token)` and the flush: the primary key and the hash are unique.
abbrev pub flush_token : RefreshToken → Action Request (Unit {0})
flush_token t r =
    if exists_in (clashes t) r.working.tokens
    then (err integrity, r)
    else (ok tt, record r { working = record r.working { tokens = t ∷ r.working.tokens } })

abbrev pub close_session : {A : Type 0} → Result A × Request → Result A × Request
close_session (ok a, r) = (ok a, record r { committed = r.working })
close_session (err e, r) = (err e, record r { working = r.committed })

abbrev pub begin : AuthDb → Request
begin db = record { committed = db; working = db; cookie = untouched }

-- `get_db`: commit when the handler returns, roll back when it raises.
unfoldable pub get_db : {A : Type 0} → Action Request A → AuthDb → Result A × Request
get_db handler db = close_session (handler (begin db))

-- What `get_db` leaves in the database.
abbrev pub settle : {A : Type 0} → Result A × Request → AuthDb
settle (ok a, r) = r.working
settle (err e, r) = r.committed

pub get_db-settle :
    {A : Type 0} (handler : Action Request A) (db : AuthDb)
    → (get_db handler db).1.committed ≡ settle (handler (begin db))
unfolding get_db
get_db-settle handler db = ground arith
