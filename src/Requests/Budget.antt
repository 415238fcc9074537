-- ===== src/Requests/Budget.antt =====
-- Who shares a rate limit.
use safe_shield.Prelude.{
  starts_with, true-false, refl, is_empty, [], drop, codes, if◌then◌else◌, inr, ◌∙◌, ap, some, ◌∷◌,
  none, sym, inl, ◌⊎◌, ◌↔◌, ◌++◌, Option, Text, ◌≡◌,
}
use safe_shield.Requests.RateLimit.{Client, user_key, ip_key, client_key}

-- The identity of a caller: a user, or else an address.
abbrev pub caller_of : Client → Text ⊎ Text
caller_of c = elim c.user_id [
  | none ↦ inr c.address
  | some user ↦ if is_empty user then inr c.address else inl user
]

abbrev key_of : Text ⊎ Text → Text
key_of (inl user) = user_key user
key_of (inr address) = ip_key address

client_key-key_of : (c : Client) → client_key c ≡ key_of (caller_of c)
unfolding client_key
client_key-key_of c = of_user c.user_id
  where
    of_user :
        (user_id : Option Text)
        → elim user_id [
          | none ↦ ip_key c.address
          | some user ↦ if is_empty user then ip_key c.address else user_key user
        ]
          ≡ key_of (elim user_id [
            | none ↦ inr c.address
            | some user ↦ if is_empty user then inr c.address else inl user
          ])
    of_user none = refl
    of_user (some []) = refl
    of_user (some (x ∷ xs)) = refl

append-left : (a b c : Text) → a ++ b ≡ a ++ c → b ≡ c
append-left [] b c h = h
append-left (x ∷ a) b c h = append-left a b c (ap (drop 1) h)

key_of-injective : (a b : Text ⊎ Text) → key_of a ≡ key_of b → a ≡ b
key_of-injective (inl u) (inl v) h = ap inl (append-left (codes "user:") u v h)
key_of-injective (inr u) (inr v) h = ap inr (append-left (codes "ip:") u v h)
key_of-injective (inl u) (inr v) h = absurd (true-false (ap (starts_with (codes "user:")) h))
key_of-injective (inr u) (inl v) h = absurd (true-false (ap (starts_with (codes "ip:")) h))

-- Two callers share a budget exactly if they are the same user, wherever they come from, or if both
-- come without a user from the same address.
pub client_key_iff : (a b : Client) → (client_key a ≡ client_key b) ↔ (caller_of a ≡ caller_of b)
client_key_iff a b = (
  λ h.
      key_of-injective (caller_of a) (caller_of b)
        (sym (client_key-key_of a) ∙ h ∙ client_key-key_of b),
  λ h. client_key-key_of a ∙ ap key_of h ∙ sym (client_key-key_of b),
)
