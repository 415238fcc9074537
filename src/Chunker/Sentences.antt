-- ===== src/Chunker/Sentences.antt =====
-- `_split_sentences` of backend/app/rag/chunk.py: the split by the expression `(?<=[.!?;:])\s+`.
use safe_shield.Prelude.{
  reverse, [], ◌∷◌, map, ◌||◌, strip, not, is_space, keep, false, ◌==◌, is_empty, Bool, Text,
  if◌then◌else◌, List, ℕ,
}

abbrev pub ends_sentence : ℕ → Bool
ends_sentence c = (c == b'.') || (c == b'!') || (c == b'?') || (c == b';') || (c == b':')

-- Where the scan stands: inside a part, just after the end of a sentence, or in the white space that
-- separates two parts.
pub data Place : Type 0 where
  inside after_end between : Place

abbrev pub moved : ℕ → Place
moved c = if ends_sentence c then after_end else inside

-- The place after one character, and whether the character separates.
abbrev pub next_place : Place → ℕ → Place
next_place inside c = moved c
next_place after_end c = if is_space c then between else moved c
next_place between c = if is_space c then between else moved c

abbrev pub separates : Place → ℕ → Bool
separates inside c = false
separates after_end c = is_space c
separates between c = is_space c

abbrev pub closes : Place → ℕ → Bool
closes after_end c = is_space c
closes _ c = false

-- The parts from here on, where `current` is the part so far, backwards.
unfoldable pub scan : Place → Text → Text → List Text
scan place current [] = reverse current ∷ []
scan place current (c ∷ s) =
    let rest = scan (next_place place c) (if separates place c then [] else c ∷ current) s in
    if closes place c then reverse current ∷ rest else rest

unfoldable pub parts_of : Text → List Text
unfolding scan
parts_of text = keep (λ p. not (is_empty p)) (map strip (scan inside [] text))

abbrev pub or_whole : List Text → Text → List Text
or_whole [] text = if is_empty (strip text) then [] else text ∷ []
or_whole (p ∷ ps) text = p ∷ ps

unfoldable pub split_sentences : Text → List Text
unfolding parts_of
split_sentences text = or_whole (parts_of text) text
