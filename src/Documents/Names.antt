-- ===== src/Documents/Names.antt =====
-- What a display name can hold.
use mathlib.Core.List.{reverse-cons}
use safe_shield.Prelude.{
  every_in, ◌++◌, false, true, length-take, arith, strip_of, false, ◌||◌, ◌==◌, map, inr, true, ◌≤◌,
  codes, All-append, length, sym, zero, inl, ◌≡◌, [], suc, subst, Bool-cases, ◌∷◌, ◌≢◌, reverse,
  All, Option, drop_while, take, Text, Bool, refl, ℕ,
}
use safe_shield.Documents.Files.{
  given_name, lower_ascii, ends_with, is_safe, with_extension, or_text, sanitize_filename,
  safe_name,
}

abbrev pub AllSafe : Text → Type 0
AllSafe s = All (λ c. is_safe c ≡ true) s

every_safe : (s : Text) → every_in is_safe s ≡ true → AllSafe s
every_safe [] h = tt
every_safe (c ∷ s) h = (ground arith, every_safe s (ground arith))

safe_name-AllSafe : (held : Bool) (s : Text) → AllSafe (safe_name held s)
unfolding safe_name
safe_name-AllSafe held [] = tt
safe_name-AllSafe held (c ∷ s) = elim (Bool-cases (is_safe c)) [
  | inl e ↦ rw e (e, safe_name-AllSafe false s)
  | inr e ↦ elim (Bool-cases held) [
    | inl h ↦ rw e (rw h (safe_name-AllSafe true s))
    | inr h ↦ rw e (rw h (refl, safe_name-AllSafe true s))
  ]
]

drop_while-AllSafe : (p : ℕ → Bool) (s : Text) → AllSafe s → AllSafe (drop_while p s)
drop_while-AllSafe p [] h = tt
drop_while-AllSafe p (c ∷ s) (x, h) = elim (Bool-cases (p c)) [
  | inl e ↦ rw e (drop_while-AllSafe p s h)
  | inr e ↦ rw e (x, h)
]

reverse-AllSafe : (s : Text) → AllSafe s → AllSafe (reverse s)
reverse-AllSafe [] h = tt
reverse-AllSafe (c ∷ s) (x, h) =
    subst AllSafe (sym (reverse-cons c s))
      (All-append (λ d. is_safe d ≡ true) (reverse s) (c ∷ []) (reverse-AllSafe s h) (x, tt))

take-AllSafe : (n : ℕ) (s : Text) → AllSafe s → AllSafe (take n s)
take-AllSafe zero s h = tt
take-AllSafe (suc n) [] h = tt
take-AllSafe (suc n) (c ∷ s) (x, h) = (x, take-AllSafe n s h)

or_text-AllSafe : (s other : Text) → AllSafe s → AllSafe other → AllSafe (or_text s other)
or_text-AllSafe [] other h k = k
or_text-AllSafe (c ∷ s) other h k = h

or_text-some : (s other : Text) → other ≢ [] → or_text s other ≢ []
or_text-some [] other h = h
or_text-some (c ∷ s) other h = λ e. cc

append-some : (a b : Text) → a ≢ [] → a ++ b ≢ []
append-some [] b h = absurd (h refl)
append-some (c ∷ a) b h = λ e. cc

take-some : (n : ℕ) (s : Text) → s ≢ [] → take (suc n) s ≢ []
take-some n [] h = absurd (h refl)
take-some n (c ∷ s) h = λ e. cc

with_extension-AllSafe : (s : Text) → AllSafe s → AllSafe (with_extension s)
with_extension-AllSafe s h = elim (Bool-cases (ends_with (codes ".pdf") (map lower_ascii s))) [
  | inl e ↦ rw e h
  | inr e ↦
      rw e (All-append (λ d. is_safe d ≡ true) s (codes ".pdf") h (every_safe (codes ".pdf") refl))
]

with_extension-some : (s : Text) → s ≢ [] → with_extension s ≢ []
with_extension-some s h = elim (Bool-cases (ends_with (codes ".pdf") (map lower_ascii s))) [
  | inl e ↦ rw e h
  | inr e ↦ rw e (append-some s (codes ".pdf") h)
]

-- Whatever name a client sends, the display name is not empty, has at most 255 characters, and each
-- is an ASCII letter, a digit, a dot, a dash or an underscore: no separator and no control character.
pub sanitize_filename-AllSafe :
    (path_name : Text → Text) (filename : Option Text)
    → AllSafe (sanitize_filename path_name filename)
      × (sanitize_filename path_name filename ≢ [])
      × (length (sanitize_filename path_name filename) ≤ 255)
unfolding sanitize_filename
sanitize_filename-AllSafe path_name filename =
    let p = (λ (c : ℕ). (c == b'.') || (c == b'_')) in
    let name = safe_name false (path_name (given_name filename)) in
    let front =
      drop_while-AllSafe p name (safe_name-AllSafe false (path_name (given_name filename))) in
    let back = reverse-AllSafe (drop_while p (reverse (drop_while p name))) (
      drop_while-AllSafe p (reverse (drop_while p name))
        (reverse-AllSafe (drop_while p name) front)) in
    let whole = or_text (strip_of p name) (codes "document.pdf") in
    (
      take-AllSafe 255 (with_extension whole) (
          with_extension-AllSafe whole (
            or_text-AllSafe (strip_of p name) (codes "document.pdf") back
              (every_safe (codes "document.pdf") refl))),
      take-some 254 (with_extension whole) (
          with_extension-some whole
            (or_text-some (strip_of p name) (codes "document.pdf") (λ e. cc))),
      omega (arith, length-take 255 (with_extension whole)),
    )
