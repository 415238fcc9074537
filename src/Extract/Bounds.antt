-- ===== src/Extract/Bounds.antt =====
-- The pages and the heading levels of extracted blocks.
use safe_shield.Prelude.{
  ℕ-cases, length-map, subst, le→leb, inr, inl, refl, none, All-map, All-append, suc, length, some,
  [], ◌++◌, ◌+◌, Bool-cases, arith, map, ◌∷◌, keep, true, All, ◌<◌, Text, ◌≡◌, Option, ◌≤◌, leb,
  List, Bool, ℕ,
}
use safe_shield.Chunker.Chunks.{table, paragraph, heading, Block, BlockKind}
use safe_shield.Extract.Lines.{Line, Unicode, Floats}
use safe_shield.Extract.Pages.{
  heading_block, read_or_skip, detect_boilerplate, body_size_of, is_kept, table_block, Page,
  buffered, blocks_of_pages, lines_to_blocks, Pdf, blocks_of, opened, extract_blocks, page_blocks,
  blocks_from,
}
use safe_shield.Rag.Order.{All-In, In-All, Sorted, In}
use safe_shield.Extract.Headings.{
  heading_number, is_body_text, level_of, unnumbered_level, heading_level,
}
use safe_shield.Prelude.Effects.{err, ok, Result}

-- A heading has a level from 1 to 6, another block has level 0.
abbrev pub LevelFits : BlockKind → ℕ → Type 0
LevelFits heading level = (1 ≤ level) × (level ≤ 6)
LevelFits paragraph level = level ≡ 0
LevelFits table level = level ≡ 0

abbrev pub by_page : Block → Block → Bool
by_page a b = leb a.page_no b.page_no

-- A block of a page with a number from `low` on and below `high`.
abbrev pub IsWithin : ℕ → ℕ → Block → Type 0
IsWithin low high b = (low ≤ b.page_no) × (b.page_no < high) × LevelFits b.kind b.level

module _ {A : Type 0} (before : A → A → Bool) where
  Sorted-append :
      (xs ys : List A)
      → Sorted before xs
      → Sorted before ys
      → All (λ x. All (λ y. before x y ≡ true) ys) xs
      → Sorted before (xs ++ ys)
  Sorted-append [] ys h k cross = k
  Sorted-append (x ∷ xs) ys h k cross =
      (All-append (λ y. before x y ≡ true) xs ys h.0 cross.0, Sorted-append xs ys h.1 k cross.1)

  Sorted-all :
      (xs : List A) → ((a b : A) → In a xs → In b xs → before a b ≡ true) → Sorted before xs
  Sorted-all [] f = tt
  Sorted-all (x ∷ xs) f = (
    In-All (λ y. before x y ≡ true) xs (λ y i. f x y (inl refl) (inr i)),
    Sorted-all xs (λ a b i j. f a b (inr i) (inr j)),
  )

module _ {F : Type 0} (fl : Floats F) (uc : Unicode) where
  unnumbered_level-le : (line : Line F) (body_size : F) → unnumbered_level fl uc line body_size ≤ 3
  unfolding unnumbered_level
  unnumbered_level-le line body_size = ground arith

  level_of-le :
      (number : Option Text) (line : Line F) (body_size : F)
      → level_of fl uc number line body_size ≤ 6
  level_of-le none line body_size = omega (arith, unnumbered_level-le line body_size)
  level_of-le (some number) line body_size = omega arith

  heading_level-le : (line : Line F) (body_size : F) → heading_level fl uc line body_size ≤ 6
  unfolding heading_level
  heading_level-le line body_size = elim (Bool-cases (is_body_text uc line.text)) [
    | inl e ↦ rw e (omega arith)
    | inr e ↦ rw e (level_of-le (heading_number uc line.text) line body_size)
  ]

  -- A block of just this page.
  abbrev IsOn : ℕ → Block → Type 0
  IsOn page_no b = (b.page_no ≡ page_no) × LevelFits b.kind b.level

  buffered-IsOn : (page_no : ℕ) (texts : List Text) → All (IsOn page_no) (buffered page_no texts)
  buffered-IsOn page_no [] = tt
  buffered-IsOn page_no (t ∷ ts) = ((refl, refl), tt)

  blocks_from-IsOn :
      (page_no : ℕ) (body_size : F) (buffer : List Text) (lines : List (Line F))
      → All (IsOn page_no) (blocks_from fl uc page_no body_size buffer lines)
  unfolding blocks_from
  blocks_from-IsOn page_no body_size buffer [] = buffered-IsOn page_no buffer
  blocks_from-IsOn page_no body_size buffer (line ∷ lines) =
      elim (ℕ-cases (heading_level fl uc line body_size)) [
        | inl e ↦
            rw (e, All) (blocks_from-IsOn page_no body_size (buffer ++ (line.text ∷ [])) lines)
        | inr (above, e) ↦
            rw (e, All)
              (All-append (IsOn page_no) (buffered page_no buffer)
                (heading_block page_no (suc above) line.text
                  ∷ blocks_from fl uc page_no body_size [] lines)
                (buffered-IsOn page_no buffer)
                (
                  (refl, (omega arith, omega (arith, heading_level-le line body_size, e))),
                  blocks_from-IsOn page_no body_size [] lines,
                ))
      ]

  tables-IsOn :
      (page_no : ℕ) (tables : List Text) → All (IsOn page_no) (map (table_block page_no) tables)
  tables-IsOn page_no [] = tt
  tables-IsOn page_no (t ∷ ts) = ((refl, refl), tables-IsOn page_no ts)

  page_blocks-IsOn :
      (page_no : ℕ) (boilerplate : List Text) (page : List (Line F) × List Text)
      → All (IsOn page_no) (page_blocks fl uc page_no boilerplate page)
  unfolding page_blocks lines_to_blocks
  page_blocks-IsOn page_no boilerplate (lines, tables) =
      let kept = keep (is_kept uc boilerplate) lines in
      All-append (IsOn page_no) (map (table_block page_no) tables)
        (lines_to_blocks fl uc lines page_no boilerplate) (tables-IsOn page_no tables)
        (blocks_from-IsOn page_no (body_size_of fl uc kept) [] kept)

  blocks_of_pages-IsWithin :
      (page_no : ℕ) (boilerplate : List Text) (pages : List (List (Line F) × List Text))
      → All
          (IsWithin page_no (page_no + length pages))
          (blocks_of_pages fl uc page_no boilerplate pages)
  blocks_of_pages-IsWithin page_no boilerplate [] = tt
  blocks_of_pages-IsWithin page_no boilerplate (page ∷ pages) =
      let front = page_blocks fl uc page_no boilerplate page in
      let back = blocks_of_pages fl uc (suc page_no) boilerplate pages in
      All-append (IsWithin page_no (page_no + suc (length pages))) front back
        (All-map front (λ b h. (omega (arith, h.0), omega (arith, h.0), h.1))
          (page_blocks-IsOn page_no boilerplate page))
        (All-map back (λ b h. (omega (arith, h.0), omega (arith, h.1), h.2))
          (blocks_of_pages-IsWithin (suc page_no) boilerplate pages))

  blocks_of_pages-Sorted :
      (page_no : ℕ) (boilerplate : List Text) (pages : List (List (Line F) × List Text))
      → Sorted by_page (blocks_of_pages fl uc page_no boilerplate pages)
  blocks_of_pages-Sorted page_no boilerplate [] = tt
  blocks_of_pages-Sorted page_no boilerplate (page ∷ pages) =
      let front = page_blocks fl uc page_no boilerplate page in
      let here = page_blocks-IsOn page_no boilerplate page in
      let later = blocks_of_pages-IsWithin (suc page_no) boilerplate pages in
      Sorted-append by_page front (blocks_of_pages fl uc (suc page_no) boilerplate pages)
        (Sorted-all by_page front (λ a b i j.
          let p = (All-In (IsOn page_no) front a here i).0 in
          let q = (All-In (IsOn page_no) front b here j).0 in
          le→leb a.page_no b.page_no (omega (arith, p, q))))
        (blocks_of_pages-Sorted (suc page_no) boilerplate pages)
        (All-map front
          (λ a h.
            All-map (blocks_of_pages fl uc (suc page_no) boilerplate pages)
              (λ b k. le→leb a.page_no b.page_no (omega (arith, h.0, k.0))) later)
          here)

  opened-pages :
      (pages : Result (List (Result (Page F)))) (blocks : List Block)
      → opened fl uc pages ≡ ok blocks
      → (read : List (Result (Page F))) × (pages ≡ ok read)
        × Sorted by_page blocks
        × All (IsWithin 1 (1 + length read)) blocks
  unfolding opened blocks_of
  opened-pages (err e) blocks h = cc
  opened-pages (ok read) blocks h =
      let boilerplate = detect_boilerplate uc (map (λ p. p.0) (map (read_or_skip fl uc) read)) in
      let all = map (read_or_skip fl uc) read in
      let same : blocks_of_pages fl uc 1 boilerplate all ≡ blocks = cc in
      let within = blocks_of_pages-IsWithin 1 boilerplate all in
      (
        read,
        refl,
        subst (Sorted by_page) same (blocks_of_pages-Sorted 1 boilerplate all),
        subst (λ n. All (IsWithin 1 (1 + n)) blocks) (length-map (read_or_skip fl uc) read)
            (subst (All (IsWithin 1 (1 + length all))) same within),
      )

  -- The blocks of a file that is extracted stand in the order of its pages, have the number of one
  -- of its pages, counted from 1, and are headings of a level from 1 to 6 or have level 0.
  pub extract_blocks-IsWithin :
      (pdf : Pdf F) (blocks : List Block)
      → extract_blocks fl uc pdf ≡ ok blocks
      → (read : List (Result (Page F))) × (pdf.pages ≡ ok read)
        × Sorted by_page blocks
        × All (IsWithin 1 (1 + length read)) blocks
  unfolding extract_blocks
  extract_blocks-IsWithin pdf blocks h = elim (Bool-cases pdf.exists) [
    | inl e ↦ opened-pages pdf.pages blocks (rw e at h)
    | inr e ↦ absurd (ground arith)
  ]
