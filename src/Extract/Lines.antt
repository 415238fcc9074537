-- ===== src/Extract/Lines.antt =====
-- Words into lines, the median size and the margins of backend/app/rag/extract.py.
use safe_shield.Prelude.{
  false, true, ◌-◌, ◌==◌, none, ◌%◌, map, ◌++◌, some, ◌/◌, starts_with, if◌then◌else◌, codes,
  get_elem?, exists_in, ◌||◌, is_empty, ◌&&◌, length, ◌∷◌, [], keep, join, not, Text, Bool, List,
  Option, ℕ,
}
use safe_shield.Extract.Characters.{Row, clean}
use safe_shield.Rag.Order.{sort_by}

-- The arithmetic on floats, with the constants that the source compares with.
pub record Floats (F : Type 0) : Type 0 where
  pub naught : F
  pub leq : F → F → Bool
  pub plus : F → F → F
  pub minus : F → F → F
  pub times : F → F → F
  pub halved : F → F
  pub absolute : F → F
  -- `round(x, 1)`
  pub rounded : F → F
  -- 2.5 and 1.15
  pub line_gap : F
  pub heading_ratio : F

-- Unicode's tables, as `re` and `str` read them.
pub record Unicode : Type 0 where
  -- `\d` and `\w`
  pub is_digit : ℕ → Bool
  pub is_word : ℕ → Bool
  -- `str.lower`
  pub lower : Text → Text

-- A word of `page.extract_words(extra_attrs=["size", "fontname"])`.
pub record Word (F : Type 0) : Type 0 where
  pub text : Text
  pub size : Option F
  pub fontname : Text
  pub x0 : F
  pub x1 : F
  pub top : F
  pub bottom : F

pub record Line (F : Type 0) : Type 0 where
  pub text : Text
  pub size : F
  pub bold : Bool
  pub top : F

-- A table of `page.find_tables()`: its corners and its cells.
pub record Table (F : Type 0) : Type 0 where
  pub x0 : F
  pub y0 : F
  pub x1 : F
  pub y1 : F
  pub rows : List Row

abbrev pub contains : Text → Text → Bool
contains part [] = is_empty part
contains part (c ∷ s) = starts_with part (c ∷ s) || contains part s

module _ {F : Type 0} (fl : Floats F) where
  abbrev pub below : F → F → Bool
  below a b = not (fl.leq b a)

  abbrev pub same : F → F → Bool
  same a b = fl.leq a b && fl.leq b a

  -- `if x`
  abbrev pub is_nonzero : F → Bool
  is_nonzero a = not (same a fl.naught)

  abbrev pub measured : Option F → List F
  measured none = []
  measured (some size) = if is_nonzero size then size ∷ [] else []

  abbrev pub sizes_of : List (Word F) → List F
  sizes_of [] = []
  sizes_of (w ∷ ws) = measured w.size ++ sizes_of ws

  -- The running maximum, which keeps the first of equals.
  abbrev pub largest_from : F → List F → F
  largest_from a [] = a
  largest_from a (b ∷ bs) = largest_from (if fl.leq b a then a else b) bs

  abbrev pub largest : List F → F
  largest [] = fl.naught
  largest (a ∷ more) = largest_from a more

  abbrev pub is_bold : Unicode → Text → Bool
  is_bold uc fontname =
      contains (codes "bold") (uc.lower fontname) || contains (codes "black") (uc.lower fontname)

  unfoldable pub build_line : Unicode → List (Word F) → F → Line F
  unfolding clean
  build_line uc words top = record {
    text = clean (join (codes " ") (map (λ w. w.text) words));
    size = largest (sizes_of words);
    bold = exists_in (λ w. is_bold uc w.fontname) words;
    top = top;
  }

  -- The order of the sort key `(round(top, 1), x0)`.
  abbrev pub reads_before : Word F → Word F → Bool
  reads_before a b =
      below (fl.rounded a.top) (fl.rounded b.top)
      || (same (fl.rounded a.top) (fl.rounded b.top) && fl.leq a.x0 b.x0)

  abbrev pub on_line : F → F → Bool
  on_line top current_top = fl.leq (fl.absolute (fl.minus top current_top)) fl.line_gap

  -- The loop over the sorted words, with `current` and `current_top`.
  unfoldable pub gather : Unicode → List (Word F) → F → List (Word F) → List (Line F)
  unfolding build_line
  gather uc current current_top [] = build_line uc current current_top ∷ []
  gather uc current current_top (w ∷ ws) = elim (on_line w.top current_top) [
    | true ↦ gather uc (current ++ (w ∷ [])) current_top ws
    | false ↦ build_line uc current current_top ∷ gather uc (w ∷ []) w.top ws
  ]

  abbrev pub first_line : Unicode → List (Word F) → List (Line F)
  first_line uc [] = []
  first_line uc (w ∷ ws) = gather uc (w ∷ []) w.top ws

  unfoldable pub words_to_lines : Unicode → List (Word F) → List (Line F)
  unfolding gather sort_by
  words_to_lines uc words =
      keep (λ line. not (is_empty line.text)) (first_line uc (sort_by reads_before words))

  -- `ordered[i]`, which is in range where it is used.
  abbrev pub nth : List F → ℕ → F
  nth values i = elim (get_elem? values i) [ none ↦ fl.naught | some a ↦ a ]

  abbrev pub middle : List F → F
  middle ordered =
      let mid = length ordered / 2 in
      if length ordered % 2 == 1
      then nth ordered mid
      else fl.halved (fl.plus (nth ordered (mid - 1)) (nth ordered mid))

  unfoldable pub median : List F → F
  unfolding sort_by
  median [] = fl.naught
  median (a ∷ more) = middle (sort_by fl.leq (a ∷ more))

  abbrev pub covers : F → F → Table F → Bool
  covers cx cy t = fl.leq t.x0 cx && fl.leq cx t.x1 && fl.leq t.y0 cy && fl.leq cy t.y1

  unfoldable pub inside_any : Word F → List (Table F) → Bool
  inside_any w tables =
      exists_in (covers (fl.halved (fl.plus w.x0 w.x1)) (fl.halved (fl.plus w.top w.bottom))) tables
