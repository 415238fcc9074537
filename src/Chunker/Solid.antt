-- ===== src/Chunker/Solid.antt =====
-- Splitting a paragraph into sentences loses white space only.
use mathlib.Core.List.{reverse-cons, reverse-reverse, append_assoc, append-nil}
use safe_shield.Prelude.{
  sym, true, ◌++◌, inr, inl, map, refl, ◌∙◌, is_empty, arith, Bool-cases, is_space, [], ap, not,
  drop_while, strip, ◌∷◌, ◌≡◌, reverse, keep, List, Text, ℕ,
}
use safe_shield.Chunker.Sentences.{
  after_end, between, ends_sentence, inside, or_whole, moved, parts_of, split_sentences, scan,
  Place,
}

-- A text without its white space.
abbrev pub solid : Text → Text
solid s = keep (λ c. not (is_space c)) s

abbrev pub all_solid : List Text → Text
all_solid [] = []
all_solid (p ∷ ps) = solid p ++ all_solid ps

solid-append : (a b : Text) → solid (a ++ b) ≡ solid a ++ solid b
solid-append [] b = refl
solid-append (c ∷ a) b = ground (arith, solid-append a b)

solid-reverse : (s : Text) → solid (reverse s) ≡ reverse (solid s)
solid-reverse [] = refl
solid-reverse (c ∷ s) =
    ap solid (reverse-cons c s)
    ∙ solid-append (reverse s) (c ∷ [])
    ∙ elim (Bool-cases (is_space c)) [
      | inl e ↦ rw e (append-nil (solid (reverse s)) ∙ solid-reverse s)
      | inr e ↦ rw e (ap (λ r. r ++ (c ∷ [])) (solid-reverse s) ∙ sym (reverse-cons c (solid s)))
    ]

solid-drop_while : (s : Text) → solid (drop_while is_space s) ≡ solid s
solid-drop_while [] = refl
solid-drop_while (c ∷ s) = ground (arith, solid-drop_while s)

solid-strip : (s : Text) → solid (strip s) ≡ solid s
solid-strip s =
    let front = drop_while is_space s in
    solid-reverse (drop_while is_space (reverse front))
    ∙ ap reverse (solid-drop_while (reverse front) ∙ solid-reverse front)
    ∙ reverse-reverse (solid front)
    ∙ solid-drop_while s

-- One more character of the part so far.
solid-longer :
    (c : ℕ) (current s : Text)
    → solid (reverse (c ∷ current)) ++ solid s ≡ solid (reverse current) ++ solid (c ∷ s)
solid-longer c current s =
    ap (λ r. solid r ++ solid s) (reverse-cons c current)
    ∙ ap (λ r. r ++ solid s) (solid-append (reverse current) (c ∷ []))
    ∙ append_assoc (solid (reverse current)) (solid (c ∷ [])) (solid s)
    ∙ ap (λ r. solid (reverse current) ++ r) (sym (solid-append (c ∷ []) s))

-- Between two parts nothing is held.
abbrev Settled : Place → Text → Type 0
Settled between current = current ≡ []
Settled _ current = Unit {0}

moved-Settled : (c : ℕ) (current : Text) → Settled (moved c) current
moved-Settled c current = elim (Bool-cases (ends_sentence c)) [ inl e ↦ rw e tt | inr e ↦ rw e tt ]

scan-solid :
    (place : Place) (current s : Text)
    → Settled place current
    → all_solid (scan place current s) ≡ solid (reverse current) ++ solid s
unfolding scan
scan-solid place current [] h = refl
scan-solid inside current (c ∷ s) h =
    scan-solid (moved c) (c ∷ current) s (moved-Settled c (c ∷ current)) ∙ solid-longer c current s
scan-solid after_end current (c ∷ s) h = elim (Bool-cases (is_space c)) [
  | inl e ↦ rw e (ap (λ r. solid (reverse current) ++ r) (scan-solid between [] s refl))
  | inr e ↦
      let step =
        scan-solid (moved c) (c ∷ current) s (moved-Settled c (c ∷ current))
        ∙ solid-longer c current s in
      rw e (rw e at step)
]
scan-solid between current (c ∷ s) h = elim (Bool-cases (is_space c)) [
  | inl e ↦ rw e (scan-solid between [] s refl ∙ ap (λ r. solid (reverse r) ++ solid s) (sym h))
  | inr e ↦
      let step =
        scan-solid (moved c) (c ∷ current) s (moved-Settled c (c ∷ current))
        ∙ solid-longer c current s in
      rw e (rw e at step)
]

empty_text : (s : Text) → is_empty s ≡ true → s ≡ []
empty_text [] e = refl
empty_text (c ∷ s) e = cc

kept-solid :
    (ps : List Text) → all_solid (keep (λ p. not (is_empty p)) (map strip ps)) ≡ all_solid ps
kept-solid [] = refl
kept-solid (p ∷ ps) =
    let same = solid-strip p in
    let rest = kept-solid ps in
    elim (Bool-cases (is_empty (strip p))) [
      | inl e ↦
          rw e (rest ∙ ap (λ r. r ++ all_solid ps) (sym (ap solid (empty_text (strip p) e)) ∙ same))
      | inr e ↦ rw e (
          ap (λ r. r ++ all_solid (keep (λ q. not (is_empty q)) (map strip ps))) same
          ∙ ap (λ r. solid p ++ r) rest)
    ]

or_whole-solid :
    (ps : List Text) (text : Text)
    → all_solid ps ≡ solid text
    → all_solid (or_whole ps text) ≡ solid text
or_whole-solid [] text h = elim (Bool-cases (is_empty (strip text))) [
  | inl e ↦ rw e h
  | inr e ↦ rw e (append-nil (solid text))
]
or_whole-solid (p ∷ ps) text h = h

-- The sentences of a paragraph, put together, are the paragraph up to white space: no other
-- character is lost, doubled or moved.
pub split_sentences-solid : (text : Text) → all_solid (split_sentences text) ≡ solid text
unfolding split_sentences parts_of
split_sentences-solid text =
    or_whole-solid (parts_of text) text
      (kept-solid (scan inside [] text) ∙ scan-solid inside [] text tt)
