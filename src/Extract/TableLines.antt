-- ===== src/Extract/TableLines.antt =====
-- The bars and line breaks of the lines of a rendered table.
use safe_shield.Prelude.{
  All-append, ◌++◌, All-map, [], length-append, subst, map, arith, ◌-◌, ◌+◌, zero, codes, ap, join,
  ◌≤◌, ◌≡◌, ◌∷◌, length, suc, All, ℕ, Text, List, refl,
}
use safe_shield.Extract.Characters.{width_of, bar_row, rule_row, copies, padded}
use safe_shield.Extract.Headings.{count_char}
use safe_shield.Extract.Lacking.{join-Lacks, Lacks-append, count-join, count-append, Lacks}

-- The cells of a row, none of which holds a bar or a line break.
abbrev pub IsPlain : List Text → Type 0
IsPlain row = All (Lacks b'|') row × All (Lacks 10) row

-- A line of a table with so many cells.
abbrev pub IsTableLine : ℕ → Text → Type 0
IsTableLine width line = (count_char b'|' line ≡ 1 + width) × Lacks 10 line

bar_row-IsTableLine :
    (t : Text) (ts : List Text)
    → IsPlain (t ∷ ts)
    → IsTableLine (length (t ∷ ts)) (bar_row (t ∷ ts))
bar_row-IsTableLine t ts (bars, breaks) =
    let inner = join (codes " | ") (t ∷ ts) in
    (
      omega (
        arith,
        count-append b'|' (codes "| ") (inner ++ codes " |"),
        count-append b'|' inner (codes " |"),
        count-join b'|' (codes " | ") t ts refl bars,
      ),
      Lacks-append 10 (codes "| ") (inner ++ codes " |") refl (
          Lacks-append 10 inner (codes " |") (join-Lacks 10 (codes " | ") (t ∷ ts) refl breaks)
            refl),
    )

pub copies-All : {A : Type 0} (P : A → Type 0) (n : ℕ) (a : A) → P a → All P (copies n a)
copies-All P zero a h = tt
copies-All P (suc n) a h = (h, copies-All P n a h)

length-copies : {A : Type 0} (n : ℕ) (a : A) → length (copies n a) ≡ n
length-copies zero a = refl
length-copies (suc n) a = ap suc (length-copies n a)

pub rule_row-IsTableLine : (n : ℕ) → IsTableLine (suc n) (rule_row (suc n))
rule_row-IsTableLine n =
    let dashes = codes "---" in
    let inner = join (codes "|") (copies (suc n) dashes) in
    (
      omega (
        arith,
        count-append b'|' (codes "|") (inner ++ codes "|"),
        count-append b'|' inner (codes "|"),
        count-join b'|' (codes "|") dashes (copies n dashes) refl
            (copies-All (Lacks b'|') (suc n) dashes refl),
        length-copies n dashes,
      ),
      Lacks-append 10 (codes "|") (inner ++ codes "|") refl (
          Lacks-append 10 inner (codes "|")
            (join-Lacks 10 (codes "|") (copies (suc n) dashes) refl
              (copies-All (Lacks 10) (suc n) dashes refl))
            refl),
    )

padded-IsPlain : (width : ℕ) (row : List Text) → IsPlain row → IsPlain (padded width row)
padded-IsPlain width row (bars, breaks) =
    let fill = copies (width - length row) [] in
    (
      All-append (Lacks b'|') row fill bars (copies-All (Lacks b'|') (width - length row) [] refl),
      All-append (Lacks 10) row fill breaks (copies-All (Lacks 10) (width - length row) [] refl),
    )

pub length-padded :
    (width : ℕ) (row : List Text) → length row ≤ width → length (padded width row) ≡ width
length-padded width row fits = omega (
  arith,
  length-append row (copies (width - length row) []),
  length-copies (width - length row) [],
  fits,
)

row-IsTableLine :
    (n : ℕ) (row : List Text) → length row ≡ suc n → IsPlain row → IsTableLine (suc n) (bar_row row)
row-IsTableLine n [] long plain = absurd (omega (arith, long))
row-IsTableLine n (t ∷ ts) long plain =
    subst (λ k. IsTableLine k (bar_row (t ∷ ts))) long (bar_row-IsTableLine t ts plain)

pub width_of-le : (rows : List (List Text)) → All (λ row. length row ≤ width_of rows) rows
width_of-le [] = tt
width_of-le (row ∷ rows) = (omega arith, All-map rows (λ r h. omega (arith, h)) (width_of-le rows))

pub bars-IsTableLine :
    (n : ℕ) (rows : List (List Text))
    → All (λ row. (length row ≤ suc n) × IsPlain row) rows
    → All (IsTableLine (suc n)) (map bar_row (map (padded (suc n)) rows))
bars-IsTableLine n [] h = tt
bars-IsTableLine n (row ∷ rows) ((fits, plain), h) = (
  row-IsTableLine n (padded (suc n) row) (length-padded (suc n) row fits)
      (padded-IsPlain (suc n) row plain),
  bars-IsTableLine n rows h,
)
