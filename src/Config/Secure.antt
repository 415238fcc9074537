-- ===== src/Config/Secure.antt =====
-- What the start-up check of backend/app/config.py accepts.
use safe_shield.Prelude.{
  ℕ, ◌≤◌, ◌≡◌, ◌≢◌, ◌↔◌, refl, ap, Bool, true, false, not, ◌&&◌, List, [], ◌∷◌, Text, codes,
  text_eq, text_eq-false_iff, starts_with, exists_in, length, ltb, All, arith,
}
use safe_shield.Config.{
  Settings, started, prod, problems, reject_insecure_defaults, is_set, is_s3, flagged, checks,
  dev_jwt_secret, dev_database_url,
}

-- The nine conditions on a production deployment, each in the words of its own field.
pub record IsSecure (s : Settings) : Type 0 where
  pub own_secret : s.jwt_secret ≢ dev_jwt_secret
  pub long_secret : 32 ≤ length s.jwt_secret
  pub own_database : s.database_url ≢ dev_database_url
  pub secure_cookie : s.cookie_secure ≡ true
  pub no_debug : s.debug ≡ false
  pub no_wildcard : All (λ o. codes "*" ≢ o) s.cors_origins
  pub https_only : All (λ o. starts_with (codes "http://") o ≡ false) s.cors_origins
  pub has_bucket : is_s3 s.storage_backend ≡ true → is_set s.s3_bucket ≡ true
  pub has_api_key : is_set s.openai_api_key ≡ true

flagged-nil_iff : (ts : List (Bool × Text)) → (flagged ts ≡ []) ↔ All (λ t. t.0 ≡ false) ts
unfolding flagged
flagged-nil_iff [] = (λ _. tt, λ _. refl)
flagged-nil_iff ((b, m) ∷ ts) =
    (λ h. ground (arith, flagged-nil_iff ts), λ h. ground (arith, flagged-nil_iff ts))

no_wildcard_iff :
    (w : Text) (os : List Text) → (exists_in (text_eq w) os ≡ false) ↔ All (λ o. w ≢ o) os
no_wildcard_iff w [] = (λ _. tt, λ _. refl)
no_wildcard_iff w (o ∷ os) = (
  λ h. ground (arith, no_wildcard_iff w os, text_eq-false_iff w o),
  λ h. ground (arith, no_wildcard_iff w os, text_eq-false_iff w o),
)

https_only_iff :
    (p : Text) (os : List Text)
    → (exists_in (starts_with p) os ≡ false) ↔ All (λ o. starts_with p o ≡ false) os
https_only_iff w [] = (λ _. tt, λ _. refl)
https_only_iff w (o ∷ os) =
    (λ h. ground (arith, https_only_iff w os), λ h. ground (arith, https_only_iff w os))

true_of_not : (b : Bool) → not b ≡ false → b ≡ true
true_of_not b h = ground arith

true_of_and_not : (a b : Bool) → (a && not b) ≡ false → a ≡ true → b ≡ true
true_of_and_not a b h e = ground arith

le_of_not-ltb : (a b : ℕ) → ltb a b ≡ false → b ≤ a
le_of_not-ltb a b h = ground arith

not-ltb_of_le : (a b : ℕ) → b ≤ a → ltb a b ≡ false
not-ltb_of_le a b h = ground arith

and_not_of_true : (a b : Bool) → (a ≡ true → b ≡ true) → (a && not b) ≡ false
and_not_of_true true b h = rw (h refl)
and_not_of_true false b h = refl

problems-nil : (s : Settings) → problems s ≡ [] → IsSecure s
unfolding problems
problems-nil s h =
    let (a, more) = passed in
    let (b, more) = more in
    let (c, more) = more in
    let (d, more) = more in
    let (e, more) = more in
    let (f, more) = more in
    let (g, more) = more in
    let (i, more) = more in
    record {
      own_secret = (text_eq-false_iff _ _).0 a;
      long_secret = le_of_not-ltb _ _ b;
      own_database = (text_eq-false_iff _ _).0 c;
      secure_cookie = true_of_not _ d;
      no_debug = e;
      no_wildcard = (no_wildcard_iff _ _).0 f;
      https_only = (https_only_iff (codes "http://") _).0 g;
      has_bucket = true_of_and_not _ _ i;
      has_api_key = true_of_not _ more.0;
    }
  where
    passed : All (λ t. t.0 ≡ false) (checks s)
    passed = (flagged-nil_iff (checks s)).0 h

nil-problems : (s : Settings) → IsSecure s → problems s ≡ []
unfolding problems
nil-problems s v = (flagged-nil_iff (checks s)).1 (
  (text_eq-false_iff _ _).1 v.own_secret,
  (
    not-ltb_of_le _ _ v.long_secret,
    (
      (text_eq-false_iff _ _).1 v.own_database,
      (
        ap not v.secure_cookie,
        (
          v.no_debug,
          (
            (no_wildcard_iff _ _).1 v.no_wildcard,
            (
              (https_only_iff (codes "http://") _).1 v.https_only,
              (and_not_of_true _ _ v.has_bucket, (ap not v.has_api_key, tt)),
            ),
          ),
        ),
      ),
    ),
  ),
)

-- With `ENV=prod` the service starts exactly when the nine conditions of `IsSecure` hold, and it
-- starts with the settings unchanged.
pub reject_insecure_defaults-prod :
    (s : Settings) → s.env ≡ prod → (reject_insecure_defaults s ≡ started s) ↔ IsSecure s
unfolding reject_insecure_defaults
reject_insecure_defaults-prod s p =
    (λ h. problems-nil s (ground arith), λ v. ground (arith, nil-problems s v))
