-- ===== src/Extract/Headings.antt =====
-- The expressions and `_heading_level` of backend/app/rag/extract.py.
use safe_shield.Prelude.{
  false, ltb, ◌+◌, suc, ◌-◌, codes, is_space, min, [], exists_in, is_empty, ◌&&◌, length, ◌==◌,
  some, none, not, ◌||◌, ◌∷◌, take, count_where, if◌then◌else◌, Option, leb, Text, Bool, List, ℕ,
}
use safe_shield.Extract.Regex.{
  searches, at_end, alt, at_most, boundary, dot, start_of, literal, exactly, space, fold_case,
  at_start, plus, concat_map, word, optional, matches, char, star, any_of, in_order, ends, seq,
  Regex, Cursor,
}
use safe_shield.Extract.Lines.{below, Line, Unicode, Floats}
use safe_shield.Documents.Files.{ends_with}

-- `(?:section|clause|article|part)`
abbrev pub keyword : Regex
keyword = any_of (
    word (codes "section")
    ∷ word (codes "clause")
    ∷ word (codes "article")
    ∷ word (codes "part")
    ∷ [])

abbrev pub spaces : Regex
spaces = star space

abbrev pub one_of : Text → Regex
one_of cs = char (λ c. exists_in (λ d. d == c) cs)

abbrev pub is_capital : ℕ → Bool
is_capital c = leb b'A' c && leb c b'Z'

-- `[A-Z]` under `re.IGNORECASE`
abbrev pub is_letter : ℕ → Bool
is_letter c = leb b'a' (fold_case c) && leb (fold_case c) b'z'

abbrev pub lettered_heading : Regex
lettered_heading = in_order (
    at_start
    ∷ spaces
    ∷ keyword
    ∷ plus space
    ∷ char is_letter
    ∷ optional (one_of (codes ").-:"))
    ∷ spaces
    ∷ star dot
    ∷ at_end
    ∷ [])

-- `[A-Z0-9 ,&()/'\-]`
abbrev pub is_all_caps_char : ℕ → Bool
is_all_caps_char c =
    is_capital c || (leb b'0' c && leb c b'9') || exists_in (λ d. d == c) (codes " ,&()/'-")

abbrev pub all_caps_heading : Regex
all_caps_heading = in_order (
    at_start
    ∷ char is_capital
    ∷ exactly 3 (char is_all_caps_char)
    ∷ at_most 77 (char is_all_caps_char)
    ∷ at_end
    ∷ [])

-- `text.split()`, counted; `held` is that the character before was not white space.
abbrev pub count_words : Bool → Text → ℕ
count_words held [] = 0
count_words held (c ∷ s) =
    let rest = count_words (not (is_space c)) s in
    if is_space c then rest else if held then rest else suc rest

abbrev pub count_char : ℕ → Text → ℕ
count_char c s = count_where (λ d. d == c) s

abbrev pub consumed : Cursor → Cursor → Text
consumed from until = take (length from.rest - length until.rest) from.rest

abbrev pub first_of {ℓ} : {A : Type ℓ} → List A → Option A
first_of [] = none
first_of (a ∷ rest) = some a

module _ (uc : Unicode) where
  abbrev pub digit : Regex
  digit = char uc.is_digit

  abbrev pub noise : Regex
  noise = any_of (
      word (codes "www.")
      ∷ in_order (word (codes "http") ∷ optional (word (codes "s")) ∷ literal (codes "://") ∷ [])
      ∷ literal (codes "@")
      ∷ in_order (word (codes "toll") ∷ spaces ∷ word (codes "free") ∷ [])
      ∷ word (codes "call at")
      ∷ in_order (word (codes "e") ∷ optional (literal (codes "-")) ∷ word (codes "mail") ∷ [])
      ∷ in_order
          (word (codes "reg") ∷ optional (literal (codes ".")) ∷ spaces ∷ word (codes "no") ∷ [])
      ∷ in_order (word (codes "cin") ∷ boundary ∷ [])
      ∷ in_order (word (codes "uin") ∷ char (λ c. (c == b'-') || is_space c) ∷ [])
      ∷ word (codes "irdai")
      ∷ in_order (at_start ∷ word (codes "page") ∷ plus space ∷ plus digit ∷ [])
      ∷ in_order (boundary ∷ word (codes "ltd") ∷ optional (literal (codes ".")) ∷ at_end ∷ [])
      ∷ in_order (boundary ∷ word (codes "limited") ∷ at_end ∷ [])
      ∷ [])

  abbrev pub page_marker : Regex
  page_marker = in_order (
      at_start
      ∷ spaces
      ∷ optional (seq (word (codes "page")) spaces)
      ∷ plus digit
      ∷ spaces
      ∷ optional (alt (literal (codes "|")) (alt (word (codes "of")) (one_of (codes "/-"))))
      ∷ spaces
      ∷ optional (
          alt
            (in_order (
              word (codes "p")
              ∷ spaces
              ∷ word (codes "a")
              ∷ spaces
              ∷ word (codes "g")
              ∷ spaces
              ∷ word (codes "e")
              ∷ []))
            (word (codes "page")))
      ∷ spaces
      ∷ star digit
      ∷ spaces
      ∷ at_end
      ∷ [])

  -- The parts of `_NUMBERED_HEADING` before, in and after its first group.
  abbrev pub before_number : Regex
  before_number = in_order (at_start ∷ spaces ∷ optional (seq keyword (plus space)) ∷ [])

  abbrev pub number : Regex
  number = seq (plus digit) (star (seq (literal (codes ".")) (plus digit)))

  abbrev pub after_number : Regex
  after_number = in_order (
      optional (literal (codes "."))
      ∷ plus space
      ∷ char (λ c. not (is_space c))
      ∷ star dot
      ∷ at_end
      ∷ [])

  abbrev pub number_if_followed : Cursor → Cursor → List Text
  number_if_followed from until =
      if is_empty (ends uc.is_word after_number until) then [] else consumed from until ∷ []

  -- The first group of a match of `_NUMBERED_HEADING`.
  unfoldable pub heading_number : Text → Option Text
  unfolding ends
  heading_number text = first_of (
      concat_map (λ from. concat_map (number_if_followed from) (ends uc.is_word number from))
        (ends uc.is_word before_number (start_of uc.is_word text)))

  -- Too long, noise, or too many words.
  unfoldable pub is_body_text : Text → Bool
  unfolding searches
  is_body_text text =
      is_empty text
      || ltb 120 (length text)
      || searches uc.is_word noise text
      || ltb 14 (count_words false text)

module _ {F : Type 0} (fl : Floats F) (uc : Unicode) where
  abbrev pub is_large : F → F → Bool
  is_large size body_size =
      below fl fl.naught body_size && fl.leq (fl.times body_size fl.heading_ratio) size

  abbrev pub is_short_bold : Line F → Bool
  is_short_bold line =
      line.bold && leb (length line.text) 70 && not (ends_with (codes ".") line.text)

  unfoldable pub unnumbered_level : Line F → F → ℕ
  unfolding matches
  unnumbered_level line body_size =
      if matches uc.is_word lettered_heading line.text
      then 1
      else if is_large line.size body_size
      then 1
      else if matches uc.is_word all_caps_heading line.text
      then 2
      else if is_short_bold line
      then 3
      else 0

  abbrev pub level_of : Option Text → Line F → F → ℕ
  level_of (some number) line body_size = min (count_char b'.' number + 1) 6
  level_of none line body_size = unnumbered_level line body_size

  unfoldable pub heading_level : Line F → F → ℕ
  unfolding heading_number is_body_text unnumbered_level
  heading_level line body_size =
      if is_body_text uc line.text then 0 else level_of (heading_number uc line.text) line body_size
