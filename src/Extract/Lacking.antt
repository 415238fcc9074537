-- ===== src/Extract/Lacking.antt =====
-- Counting one character in joined and cleaned texts.
use mathlib.Core.List.{reverse-cons}
use safe_shield.Prelude.{
  join, All, List, length, ◌+◌, ◌++◌, ◌∙◌, ==_iff, refl, subst, ap, [], sym, inr, true, arith,
  true-false, inl, ◌==◌, Bool-cases, reverse, drop_while, ◌≡◌, false, ◌∷◌, strip, Text, is_space,
  Bool, ℕ,
}
use safe_shield.Extract.Characters.{normalize_chars, single_spaces, clean}
use safe_shield.Extract.Headings.{count_char}

pub count-append : (c : ℕ) (a b : Text) → count_char c (a ++ b) ≡ count_char c a + count_char c b
count-append c [] b = omega arith
count-append c (x ∷ a) b = elim (Bool-cases (x == c)) [
  | inl e ↦ rw e (omega (arith, count-append c a b))
  | inr e ↦ rw e (count-append c a b)
]

-- A text without a character.
abbrev pub Lacks : ℕ → Text → Type 0
Lacks c s = count_char c s ≡ 0

pub Lacks-append : (c : ℕ) (a b : Text) → Lacks c a → Lacks c b → Lacks c (a ++ b)
Lacks-append c a b h k = omega (arith, count-append c a b, h, k)

Lacks-reverse : (c : ℕ) (s : Text) → Lacks c s → Lacks c (reverse s)
Lacks-reverse c [] h = refl
Lacks-reverse c (x ∷ s) h = elim (Bool-cases (x == c)) [
  | inl e ↦ absurd (ground (arith, h, e))
  | inr e ↦
      subst (Lacks c) (sym (reverse-cons x s))
        (Lacks-append c (reverse s) (x ∷ []) (Lacks-reverse c s (rw e at h)) (rw e refl))
]

Lacks-drop_while : (c : ℕ) (p : ℕ → Bool) (s : Text) → Lacks c s → Lacks c (drop_while p s)
Lacks-drop_while c p [] h = h
Lacks-drop_while c p (x ∷ s) h = elim (Bool-cases (x == c)) [
  | inl e ↦ absurd (ground (arith, h, e))
  | inr e ↦ elim (Bool-cases (p x)) [
    | inl f ↦ rw f (Lacks-drop_while c p s (rw e at h))
    | inr f ↦ rw f h
  ]
]

Lacks-strip : (c : ℕ) (s : Text) → Lacks c s → Lacks c (strip s)
Lacks-strip c s h =
    let front = drop_while is_space s in
    Lacks-reverse c (drop_while is_space (reverse front)) (
      Lacks-drop_while c is_space (reverse front)
        (Lacks-reverse c front (Lacks-drop_while c is_space s h)))

space_or_other : (c : ℕ) → is_space c ≡ false → (c == 10) ≡ false
space_or_other c h = elim (Bool-cases (c == 10)) [
  | inl e ↦ absurd (true-false (sym (ap is_space ((==_iff c 10).0 e)) ∙ h))
  | inr e ↦ e
]

single_spaces-Lacks : (held : Bool) (s : Text) → Lacks 10 (single_spaces held s)
unfolding single_spaces
single_spaces-Lacks held [] = refl
single_spaces-Lacks held (c ∷ s) = elim (Bool-cases (is_space c)) [
  | inl e ↦ elim (Bool-cases held) [
    | inl f ↦ rw e (rw f (single_spaces-Lacks true s))
    | inr f ↦ rw e (rw f (single_spaces-Lacks true s))
  ]
  | inr e ↦ rw e (rw (space_or_other c e) (single_spaces-Lacks false s))
]

pub clean-Lacks : (text : Text) → Lacks 10 (clean text)
unfolding clean
clean-Lacks text =
    Lacks-strip 10 (single_spaces false (normalize_chars text))
      (single_spaces-Lacks false (normalize_chars text))

-- Joined texts without a character, with a separator that has none, or one.
pub join-Lacks :
    (c : ℕ) (sep : Text) (ts : List Text) → Lacks c sep → All (Lacks c) ts → Lacks c (join sep ts)
join-Lacks c sep [] h k = refl
join-Lacks c sep (t ∷ []) h (k, _) = k
join-Lacks c sep (t ∷ u ∷ us) h (k, more) =
    Lacks-append c t (sep ++ join sep (u ∷ us)) k
      (Lacks-append c sep (join sep (u ∷ us)) h (join-Lacks c sep (u ∷ us) h more))

pub count-join :
    (c : ℕ) (sep t : Text) (ts : List Text)
    → count_char c sep ≡ 1
    → All (Lacks c) (t ∷ ts)
    → count_char c (join sep (t ∷ ts)) ≡ length ts
count-join c sep t [] h (k, _) = k
count-join c sep t (u ∷ us) h (k, more) = omega (
  arith,
  count-append c t (sep ++ join sep (u ∷ us)),
  count-append c sep (join sep (u ∷ us)),
  count-join c sep u us h more,
  h,
  k,
)
