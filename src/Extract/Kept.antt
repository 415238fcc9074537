-- ===== src/Extract/Kept.antt =====
-- What is left of the lines and tables of the pages.
use mathlib.Core.List.{append_assoc, append-nil}
use safe_shield.Prelude.{
  All-map, All-append, keep_none, keep_unchanged, suc, inr, keep-append, inl, not, keep, ℕ-cases,
  All, sym, ◌∙◌, false, refl, ap, true, codes, [], ◌≡◌, ◌∷◌, map, ◌++◌, join, Bool, Text, List, ℕ,
}
use safe_shield.Chunker.Chunks.{paragraph, heading, table, Block, BlockKind}
use safe_shield.Extract.Pages.{
  heading_block, Pdf, body_size_of, is_kept, blocks_of, blocks_of_pages, read_or_skip, Page,
  lines_to_blocks, opened, extract_blocks, table_block, blocks_from, page_blocks,
  detect_boilerplate, buffered,
}
use safe_shield.Extract.Lines.{Line, Floats, Unicode}
use safe_shield.Prelude.Effects.{ok, Result}
use safe_shield.Extract.Headings.{heading_level}
use safe_shield.Extract.Regex.{concat_map}

-- Texts, each followed by a space.
abbrev pub spaced : List Text → Text
spaced [] = []
spaced (t ∷ ts) = t ++ (b' ' ∷ spaced ts)

abbrev pub texts : List Block → List Text
texts blocks = map (λ b. b.text) blocks

abbrev pub is_table_kind : BlockKind → Bool
is_table_kind table = true
is_table_kind heading = false
is_table_kind paragraph = false

abbrev pub is_table : Block → Bool
is_table b = is_table_kind b.kind

spaced-append : (ts us : List Text) → spaced (ts ++ us) ≡ spaced ts ++ spaced us
spaced-append [] us = refl
spaced-append (t ∷ ts) us =
    ap (λ r. t ++ (b' ' ∷ r)) (spaced-append ts us)
    ∙ sym (append_assoc t (b' ' ∷ spaced ts) (spaced us))

spaced-join :
    (t : Text) (ts : List Text) → join (codes " ") (t ∷ ts) ++ (b' ' ∷ []) ≡ spaced (t ∷ ts)
spaced-join t [] = refl
spaced-join t (u ∷ us) =
    append_assoc t (b' ' ∷ join (codes " ") (u ∷ us)) (b' ' ∷ [])
    ∙ ap (λ r. t ++ (b' ' ∷ r)) (spaced-join u us)

texts-append : (front bs : List Block) → texts (front ++ bs) ≡ texts front ++ texts bs
texts-append [] bs = refl
texts-append (a ∷ rest) bs = ap (◌∷◌ a.text) (texts-append rest bs)

spaced-buffered : (n : ℕ) (ts : List Text) → spaced (texts (buffered n ts)) ≡ spaced ts
spaced-buffered n [] = refl
spaced-buffered n (t ∷ ts) = spaced-join t ts

module _ {F : Type 0} (fl : Floats F) (uc : Unicode) where
  blocks_from-spaced :
      (n : ℕ) (body_size : F) (buffer : List Text) (lines : List (Line F))
      → spaced (texts (blocks_from fl uc n body_size buffer lines))
        ≡ spaced (buffer ++ map (λ l. l.text) lines)
  unfolding blocks_from
  blocks_from-spaced n body_size buffer [] =
      spaced-buffered n buffer ∙ ap spaced (sym (append-nil buffer))
  blocks_from-spaced n body_size buffer (line ∷ lines) =
      elim (ℕ-cases (heading_level fl uc line body_size)) [
        | inl e ↦
            rw (e, map)
              (blocks_from-spaced n body_size (buffer ++ (line.text ∷ [])) lines
                ∙ ap spaced (append_assoc buffer (line.text ∷ []) (map (λ l. l.text) lines)))
        | inr (above, e) ↦
            rw (e, map)
              (ap spaced (
                  texts-append (buffered n buffer) (
                    heading_block n (suc above) line.text ∷ blocks_from fl uc n body_size [] lines))
                ∙ spaced-append (texts (buffered n buffer))
                    (line.text ∷ texts (blocks_from fl uc n body_size [] lines))
                ∙ ap (λ r. r ++ spaced (line.text ∷ texts (blocks_from fl uc n body_size [] lines)))
                    (spaced-buffered n buffer)
                ∙ ap (λ r. spaced buffer ++ (line.text ++ (b' ' ∷ r)))
                    (blocks_from-spaced n body_size [] lines)
                ∙ sym (spaced-append buffer (line.text ∷ map (λ l. l.text) lines)))
      ]

  abbrev IsText : Block → Type 0
  IsText b = is_table b ≡ false

  buffered-IsText : (n : ℕ) (ts : List Text) → All IsText (buffered n ts)
  buffered-IsText n [] = tt
  buffered-IsText n (t ∷ ts) = (refl, tt)

  blocks_from-IsText :
      (n : ℕ) (body_size : F) (buffer : List Text) (lines : List (Line F))
      → All IsText (blocks_from fl uc n body_size buffer lines)
  unfolding blocks_from
  blocks_from-IsText n body_size buffer [] = buffered-IsText n buffer
  blocks_from-IsText n body_size buffer (line ∷ lines) =
      elim (ℕ-cases (heading_level fl uc line body_size)) [
        | inl e ↦ rw (e, All) (blocks_from-IsText n body_size (buffer ++ (line.text ∷ [])) lines)
        | inr (above, e) ↦
            rw (e, All)
              (All-append IsText (buffered n buffer)
                (heading_block n (suc above) line.text ∷ blocks_from fl uc n body_size [] lines)
                (buffered-IsText n buffer) (refl, blocks_from-IsText n body_size [] lines))
      ]

  tables-All : (n : ℕ) (ts : List Text) → All (λ b. is_table b ≡ true) (map (table_block n) ts)
  tables-All n [] = tt
  tables-All n (t ∷ ts) = (refl, tables-All n ts)

  tables-texts : (n : ℕ) (ts : List Text) → texts (map (table_block n) ts) ≡ ts
  tables-texts n [] = refl
  tables-texts n (t ∷ ts) = ap (◌∷◌ t) (tables-texts n ts)

  -- The texts of the lines of a page that are neither boilerplate nor page markers.
  abbrev pub kept_texts : List Text → List (Line F) × List Text → List Text
  kept_texts boilerplate page = map (λ l. l.text) (keep (is_kept uc boilerplate) page.0)

  page_blocks-tables :
      (n : ℕ) (boilerplate : List Text) (page : List (Line F) × List Text)
      → keep is_table (page_blocks fl uc n boilerplate page) ≡ map (table_block n) page.1
  unfolding page_blocks lines_to_blocks
  page_blocks-tables n boilerplate (lines, tables) =
      let kept = keep (is_kept uc boilerplate) lines in
      let rest = blocks_from fl uc n (body_size_of fl uc kept) [] kept in
      keep-append is_table (map (table_block n) tables) rest
      ∙ ap (λ r. r ++ keep is_table rest)
          (keep_unchanged is_table (map (table_block n) tables) (tables-All n tables))
      ∙ ap (λ r. map (table_block n) tables ++ r)
          (keep_none is_table rest (blocks_from-IsText n (body_size_of fl uc kept) [] kept))
      ∙ append-nil (map (table_block n) tables)

  page_blocks-lines :
      (n : ℕ) (boilerplate : List Text) (page : List (Line F) × List Text)
      → spaced (texts (keep (λ b. not (is_table b)) (page_blocks fl uc n boilerplate page)))
        ≡ spaced (kept_texts boilerplate page)
  unfolding page_blocks lines_to_blocks
  page_blocks-lines n boilerplate (lines, tables) =
      let kept = keep (is_kept uc boilerplate) lines in
      let rest = blocks_from fl uc n (body_size_of fl uc kept) [] kept in
      ap (λ r. spaced (texts r))
        (keep-append (λ b. not (is_table b)) (map (table_block n) tables) rest
          ∙ ap (λ r. r ++ keep (λ b. not (is_table b)) rest)
              (keep_none (λ b. not (is_table b)) (map (table_block n) tables)
                (All-map (map (table_block n) tables) (λ b h. ap not h) (tables-All n tables)))
          ∙ keep_unchanged (λ b. not (is_table b)) rest
              (All-map rest (λ b h. ap not h)
                (blocks_from-IsText n (body_size_of fl uc kept) [] kept)))
      ∙ blocks_from-spaced n (body_size_of fl uc kept) [] kept

  blocks_of_pages-tables :
      (n : ℕ) (boilerplate : List Text) (pages : List (List (Line F) × List Text))
      → texts (keep is_table (blocks_of_pages fl uc n boilerplate pages))
        ≡ concat_map (λ p. p.1) pages
  blocks_of_pages-tables n boilerplate [] = refl
  blocks_of_pages-tables n boilerplate (page ∷ pages) =
      let here = page_blocks fl uc n boilerplate page in
      let later = blocks_of_pages fl uc (suc n) boilerplate pages in
      ap texts (keep-append is_table here later)
      ∙ texts-append (keep is_table here) (keep is_table later)
      ∙ ap (λ r. texts r ++ texts (keep is_table later)) (page_blocks-tables n boilerplate page)
      ∙ ap (λ r. r ++ texts (keep is_table later)) (tables-texts n page.1)
      ∙ ap (λ r. page.1 ++ r) (blocks_of_pages-tables (suc n) boilerplate pages)

  blocks_of_pages-lines :
      (n : ℕ) (boilerplate : List Text) (pages : List (List (Line F) × List Text))
      → spaced (texts (keep (λ b. not (is_table b)) (blocks_of_pages fl uc n boilerplate pages)))
        ≡ spaced (concat_map (kept_texts boilerplate) pages)
  blocks_of_pages-lines n boilerplate [] = refl
  blocks_of_pages-lines n boilerplate (page ∷ pages) =
      let p = λ (b : Block). not (is_table b) in
      let here = page_blocks fl uc n boilerplate page in
      let later = blocks_of_pages fl uc (suc n) boilerplate pages in
      ap (λ r. spaced (texts r)) (keep-append p here later)
      ∙ ap spaced (texts-append (keep p here) (keep p later))
      ∙ spaced-append (texts (keep p here)) (texts (keep p later))
      ∙ ap (λ r. r ++ spaced (texts (keep p later))) (page_blocks-lines n boilerplate page)
      ∙ ap (λ r. spaced (kept_texts boilerplate page) ++ r)
          (blocks_of_pages-lines (suc n) boilerplate pages)
      ∙ sym
          (spaced-append (kept_texts boilerplate page) (concat_map (kept_texts boilerplate) pages))

  -- The pages of a file, the unreadable ones empty, and the boilerplate of their lines.
  abbrev pub pages_read : List (Result (Page F)) → List (List (Line F) × List Text)
  pages_read pages = map (read_or_skip fl uc) pages

  abbrev pub boilerplate_of : List (Result (Page F)) → List Text
  boilerplate_of pages = detect_boilerplate uc (map (λ p. p.0) (pages_read pages))

  -- The table blocks of a file that is extracted are the tables of its pages in order, and its other
  -- blocks hold, in order and up to where a block ends, the lines of its pages that are neither
  -- boilerplate nor page markers, each followed by a space: no line is lost, doubled or moved, and an
  -- unreadable page counts as an empty one.
  pub extract_blocks-texts :
      (pdf : Pdf F) (pages : List (Result (Page F)))
      → pdf.exists ≡ true
      → pdf.pages ≡ ok pages
      → (blocks : List Block) × (extract_blocks fl uc pdf ≡ ok blocks)
        × (texts (keep is_table blocks) ≡ concat_map (λ p. p.1) (pages_read pages))
        × (spaced (texts (keep (λ b. not (is_table b)) blocks))
            ≡ spaced (concat_map (kept_texts (boilerplate_of pages)) (pages_read pages)))
  unfolding extract_blocks opened blocks_of
  extract_blocks-texts pdf pages there read = (
    blocks_of_pages fl uc 1 (boilerplate_of pages) (pages_read pages),
    rw there (rw read refl),
    blocks_of_pages-tables 1 (boilerplate_of pages) (pages_read pages),
    blocks_of_pages-lines 1 (boilerplate_of pages) (pages_read pages),
  )
