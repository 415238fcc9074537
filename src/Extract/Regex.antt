-- ===== src/Extract/Regex.antt =====
-- The matching of Python's `re`: an expression gives the places where it can end, in the order in
-- which backtracking tries them.
use safe_shield.Prelude.{
  length, ltb, ◌+◌, [], ◌||◌, ◌&&◌, some, ◌++◌, none, true, leb, ◌==◌, ◌∷◌, false, is_empty, zero,
  Option, Bool, suc, Text, if◌then◌else◌, not, is_space, List, ℕ,
}

-- The character before the place, and the text from the place on.
pub record Cursor : Type 0 where
  pub before : Option ℕ
  pub rest : Text

pub data Regex : Type 0 where
  char : (ℕ → Bool) → Regex
  at_start at_end boundary nothing : Regex
  seq alt : Regex → Regex → Regex
  -- greedy
  star : Regex → Regex

abbrev pub concat_map : {A B : Type 0} → (A → List B) → List A → List B
concat_map f [] = []
concat_map f (x ∷ xs) = f x ++ concat_map f xs

-- A class of characters that ignores case meets four letters that are not ASCII.
abbrev pub fold_case : ℕ → ℕ
fold_case c =
    if leb b'A' c && leb c b'Z'
    then c + 32
    else if (c == 304) || (c == 305)
    then b'i'
    else if c == 383
    then b's'
    else if c == 8490
    then b'k'
    else c

abbrev pub literal : Text → Regex
literal [] = nothing
literal (c ∷ []) = char (λ d. c == d)
literal (c ∷ d ∷ s) = seq (char (λ e. c == e)) (literal (d ∷ s))

-- A literal in lower case under `re.IGNORECASE`.
abbrev pub word : Text → Regex
word [] = nothing
word (c ∷ []) = char (λ d. c == fold_case d)
word (c ∷ d ∷ s) = seq (char (λ e. c == fold_case e)) (word (d ∷ s))

abbrev pub optional : Regex → Regex
optional r = alt r nothing

abbrev pub plus : Regex → Regex
plus r = seq r (star r)

abbrev pub exactly : ℕ → Regex → Regex
exactly zero r = nothing
exactly (suc n) r = seq r (exactly n r)

abbrev pub at_most : ℕ → Regex → Regex
at_most zero r = nothing
at_most (suc n) r = optional (seq r (at_most n r))

abbrev pub any_of : List Regex → Regex
any_of [] = char (λ c. false)
any_of (r ∷ []) = r
any_of (r ∷ q ∷ rs) = alt r (any_of (q ∷ rs))

abbrev pub in_order : List Regex → Regex
in_order [] = nothing
in_order (r ∷ []) = r
in_order (r ∷ q ∷ rs) = seq r (in_order (q ∷ rs))

-- `.` and `\s`
abbrev pub dot : Regex
dot = char (λ c. not (c == 10))

abbrev pub space : Regex
space = char is_space

abbrev pub is_at_end : Text → Bool
is_at_end [] = true
is_at_end (c ∷ s) = (c == 10) && is_empty s

-- One more round of a repetition, where it has moved on.
unfoldable pub rounds : (Cursor → List Cursor) → ℕ → Cursor → List Cursor
rounds f zero at = at ∷ []
rounds f (suc n) at =
    concat_map
      (λ next. elim (ltb (length next.rest) (length at.rest)) [
        | true ↦ rounds f n next
        | false ↦ []
      ])
      (f at)
    ++ (at ∷ [])

abbrev pub read_char : (ℕ → Bool) → Text → List Cursor
read_char p [] = []
read_char p (c ∷ s) = if p c then record { before = some c; rest = s } ∷ [] else []

abbrev pub first_matches : (ℕ → Bool) → Text → Bool
first_matches p [] = false
first_matches p (c ∷ s) = p c

abbrev pub last_matches : (ℕ → Bool) → Option ℕ → Bool
last_matches p none = false
last_matches p (some c) = p c

abbrev pub at_if : Bool → Cursor → List Cursor
at_if true at = at ∷ []
at_if false at = []

abbrev pub differ : Bool → Bool → Bool
differ true b = not b
differ false b = b

abbrev pub is_none {ℓ} : {A : Type ℓ} → Option A → Bool
is_none none = true
is_none (some a) = false

-- `is_word` is the class `\w`.
module _ (is_word : ℕ → Bool) where
  unfoldable pub ends : Regex → Cursor → List Cursor
  unfolding rounds
  ends (char p) at = read_char p at.rest
  ends at_start at = at_if (is_none at.before) at
  ends at_end at = at_if (is_at_end at.rest) at
  ends boundary at =
      at_if (differ (last_matches is_word at.before) (first_matches is_word at.rest)) at
  ends nothing at = at ∷ []
  ends (seq a b) at = concat_map (ends b) (ends a at)
  ends (alt a b) at = ends a at ++ ends b at
  ends (star r) at = rounds (ends r) (length at.rest) at

  abbrev pub start_of : Text → Cursor
  start_of text = record { before = none; rest = text }

  -- `pattern.match(text)`, as a test
  unfoldable pub matches : Regex → Text → Bool
  unfolding ends
  matches r text = not (is_empty (ends r (start_of text)))

  unfoldable pub search_from : Regex → Option ℕ → Text → Bool
  unfolding ends
  search_from r before [] = not (is_empty (ends r (record { before = before; rest = [] })))
  search_from r before (c ∷ s) =
      not (is_empty (ends r (record { before = before; rest = c ∷ s }))) || search_from r (some c) s

  -- `pattern.search(text)`, as a test
  unfoldable pub searches : Regex → Text → Bool
  unfolding search_from
  searches r text = search_from r none text
