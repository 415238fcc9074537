-- ===== src/Auth/Tests.antt =====
use safe_shield.Prelude.{
  text_eq-false_iff, ◌≢◌, ap, ◌==◌, find_first, ◌⊎◌, arith, ◌≤◌, List, refl, ltb, if◌then◌else◌,
  false, ◌≡◌, true, text_eq, none, [], codes, ◌∷◌, Option, some, Text, ℕ, Bool,
}
use safe_shield.Auth.Security.{
  create_access_token, mismatch, verified, Verification, Supply, Claims, Library,
}
use safe_shield.Auth.Routes.{
  credentials_error, TokenResponse, unauthorized, login, refresh, LoginRequest,
}
use safe_shield.Auth.Models.{RefreshToken, AuthDb, User, get_db}
use safe_shield.Auth.Rotation.{
  IsIssued, IsBurnt, refresh_reuse, reuse_error, refresh_error, after_refresh,
}
use safe_shield.Config.{default_settings, Settings}
use safe_shield.Prelude.Effects.{integrity, runtime, http, runtime, http, Error, ok, err, is_ok}
use safe_shield.Auth.Races.{concurrent_refresh, finish_refresh}
use safe_shield.Auth.Replay.{
  logout_ends_family, after_logout, refresh_rotates, replay_burns_successor,
}
use safe_shield.Auth.Access.{
  bearer_cases, login-Entitled, bearer-create_access_token, after_login, Entitled, bearer,
}
use safe_shield.Auth.Families.{run-IsValid, live_count, IsValid}
use safe_shield.Auth.Service.{empty_db, enters_demo, refreshes, Call, run, step}

-- Runs of the authentication routes over a small library and one user.

abbrev same_or_mismatch : Bool → Verification
same_or_mismatch true = verified
same_or_mismatch false = mismatch

abbrev one_number : Text → Option ℕ
one_number [] = none
one_number (n ∷ []) = some n
one_number (n ∷ m ∷ rest) = none

abbrev settings : Settings
settings = default_settings

-- The codec knows the one payload that the tests issue: user 1, at time 0.
abbrev toy_claims : Claims
toy_claims = record {
  sub = some (1 ∷ []);
  iat = 0;
  exp = 900;
  jti = 9 ∷ [];
  typ = some (codes "access");
}

abbrev toy : Library
toy = record {
  lower = λ t. t;
  str_uuid = λ id. id ∷ [];
  parse_uuid = one_number;
  sha256 = λ raw. 35 ∷ raw;
  argon2_hash = λ salt password. password;
  argon2_verify = λ hash password. same_or_mismatch (text_eq hash password);
  check_needs_rehash = λ hash. false;
  jwt_encode = λ claims key. claims.exp ∷ [];
  jwt_decode = λ token key now. if ltb now 900 then some toy_claims else none;
}

abbrev supply : ℕ → Supply
supply n = record {
  now = 0;
  db_now = 0;
  expiry_now = 0;
  access_now = 0;
  salt = codes "salt";
  rehash_salt = codes "salt";
  random_password = codes "random";
  raw_token = n ∷ [];
  token_id = n;
  family_id = n;
  user_id = n;
  jti = 9;
}

abbrev alice : User
alice = record {
  id = 1;
  email = codes "alice@example.org";
  password_hash = codes "secret";
  full_name = none;
  is_active = true;
  is_demo = false;
  created_at = 0;
}

abbrev credentials : LoginRequest
credentials = record { email = codes "alice@example.org"; password = codes "secret" }

-- The token that the raw value `n` stands for, in family 70.
abbrev token : ℕ → Option ℕ → RefreshToken
token n revoked = record {
  id = n;
  user_id = 1;
  token_hash = 35 ∷ n ∷ [];
  family_id = 70;
  expires_at = 1000;
  revoked_at = revoked;
  user_agent = none;
}

abbrev db : AuthDb
db = record { users = alice ∷ []; tokens = token 5 none ∷ token 4 (some 0) ∷ [] }

login_works : is_ok (get_db (login settings toy (supply 6) credentials []) db).0 ≡ true
unfolding get_db login
login_works = refl

refresh_reuse_example : (after_refresh settings toy (supply 6) (4 ∷ []) [] db).0 ≡ err reuse_error
refresh_reuse_example =
    (refresh_reuse settings toy (supply 6) (4 ∷ []) [] db (token 4 (some 0)) refl refl refl).0

abbrev detail : Error → Text
detail (http status text) = text
detail integrity = []
detail (runtime message) = message

missing-ne-reuse : codes "Missing refresh token" ≢ detail reuse_error
missing-ne-reuse = (text_eq-false_iff (codes "Missing refresh token") (detail reuse_error)).0 refl

refresh_error_example : (get_db (refresh settings toy (supply 6) none []) db).1.committed ≡ db
unfolding get_db refresh
refresh_error_example =
    refresh_error settings toy (supply 6) [] [] db none
      (unauthorized (codes "Missing refresh token")) refl (λ e. missing-ne-reuse (ap detail e))

refresh_rotates_example :
    (r : TokenResponse) × ((after_refresh settings toy (supply 6) (5 ∷ []) [] db).0 ≡ ok r)
refresh_rotates_example =
    let all =
      refresh_rotates settings toy (supply 6) (5 ∷ []) [] db (token 5 none) alice refl refl refl
        (omega arith) refl refl refl in
    (all.0, all.2)

-- The successor is used in its turn.
abbrev between : List (Supply × Text × Call)
between = (supply 9, [], refreshes (some (6 ∷ []))) ∷ []

replay_burns_successor_example :
    let first = after_refresh settings toy (supply 6) (5 ∷ []) [] db in
    let replay =
      after_refresh settings toy
        (supply 7)
        (5 ∷ [])
        []
        (run settings toy first.1.committed between) in
    let later =
      after_refresh settings toy
        (supply 8)
        (6 ∷ [])
        []
        (run settings toy replay.1.committed between) in
    (replay.0 ≡ err reuse_error) × (later.0 ≡ err reuse_error)
replay_burns_successor_example =
    replay_burns_successor settings toy (supply 6) (5 ∷ []) [] db (token 5 none) alice refl refl
      refl (omega arith) refl refl refl between between (supply 7) (supply 8) [] [] refl

logout_ends_family_example :
    IsBurnt 70
      (after_logout settings toy (supply 6) (4 ∷ []) db (token 4 (some 0)) refl refl).tokens
logout_ends_family_example =
    (logout_ends_family settings toy (supply 6) (4 ∷ []) db (token 4 (some 0)) refl refl (supply 7)
      (5 ∷ []) [] (token 5 none) refl refl refl).0

login-Entitled_example :
    (user : User) × (n : RefreshToken) × Entitled toy credentials db user
    × ((after_login settings toy (supply 6) credentials [] db).1.committed.tokens ≡ n ∷ db.tokens)
    × IsIssued settings toy (supply 6) user.id 6 n
unfolding get_db login
login-Entitled_example = login-Entitled settings toy (supply 6) credentials [] db _ refl

bearer-create_access_token_example :
    bearer settings toy 0 db (some (create_access_token toy settings (supply 6) 1).0) ≡ ok alice
bearer-create_access_token_example =
    bearer-create_access_token settings toy 0 db (supply 6) alice (λ n from h. ground arith)
      (λ id. refl) (omega arith) (omega arith) refl refl

bearer_cases_example :
    (bearer settings toy 0 db none ≡ err credentials_error)
    ⊎ ((user : User) × (bearer settings toy 0 db none ≡ ok user)
        × (find_first (λ u. u.id == user.id) db.users ≡ some user)
        × (user.is_active ≡ true))
bearer_cases_example = bearer_cases settings toy 0 db none

db-IsValid : IsValid db
db-IsValid = record { one_live = λ f. ground arith; hashes = ground arith; emails = ground arith }

abbrev history : List (Supply × Text × Call)
history = (supply 2, [], enters_demo) ∷ (supply 3, [], refreshes (some (2 ∷ []))) ∷ []

run-IsValid_example : IsValid (run settings toy empty_db history)
unfolding step
run-IsValid_example = run-IsValid settings toy history (tt, (omega arith, tt))

concurrent_refresh_example :
    let one = finish_refresh settings toy [] (token 5 none) alice (supply 6) db in
    let two = finish_refresh settings toy [] (token 5 none) alice (supply 7) one.1.committed in
    2 ≤ live_count 70 two.1.committed.tokens
unfolding finish_refresh
concurrent_refresh_example =
    (concurrent_refresh settings toy [] (token 5 none) alice (supply 6) (supply 7) (5 ∷ []) db refl
      refl refl (omega arith) (omega arith) refl refl refl refl (omega arith)).4
