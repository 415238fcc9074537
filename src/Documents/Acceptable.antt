-- ===== src/Documents/Acceptable.antt =====
-- Which files the validation of backend/app/core/files.py lets through.
use safe_shield.Prelude.{
  arith, ltb, inr, Bool-cases, ==_iff, ◌==◌, ◌∙◌, inl, and_true, Option-cases, ap, codes,
  true-false, sym, false, ◌++◌, ◌≤◌, ◌∷◌, ◌↔◌, length, none, true, [], is_empty, ◌≢◌, some, ◌≡◌,
  Option, starts_with, ℕ, Text, refl,
}
use safe_shield.Documents.Files.{validate_pdf_bytes, check_page_count, PageCount}

-- Some bytes, not too many, that begin like a PDF and are read as one of not too many pages.
abbrev pub IsAcceptable : PageCount → Text → ℕ → ℕ → Type 0
IsAcceptable pages content max_bytes max_pages =
    (content ≢ [])
    × (length content ≤ max_bytes)
    × ((rest : Text) × (content ≡ codes "%PDF-" ++ rest))
    × ((n : ℕ) × (pages content ≡ some n) × (n ≤ max_pages))

starts_with_iff : (p s : Text) → (starts_with p s ≡ true) ↔ ((rest : Text) × (s ≡ p ++ rest))
starts_with_iff [] s = (λ h. (s, refl), λ e. refl)
starts_with_iff (p ∷ ps) [] = (λ h. cc, λ (rest, e). absurd (cons_nil (sym e)))
  where
    cons_nil : {c : ℕ} {t : Text} → c ∷ t ≡ [] → ⊥
    cons_nil h = cc
starts_with_iff (p ∷ ps) (c ∷ s) = (
  λ h.
      let (same, more) = and_true (p == c) (starts_with ps s) h in
      let (rest, e) = (starts_with_iff ps s).0 more in
      (rest, ap (λ x. x ∷ s) (sym ((==_iff p c).0 same)) ∙ ap (λ t. p ∷ t) e),
  λ (rest, e).
      let head : c ≡ p = cc in
      let tail : s ≡ ps ++ rest = cc in
      rw ((==_iff p c).1 (sym head)) ((starts_with_iff ps s).1 (rest, tail)),
)

module _ (pages : PageCount) (content : Text) (max_bytes max_pages : ℕ) where
  -- The validation has no complaint, or it has one.
  abbrev pub Judged : Option Text → Type 0
  Judged none = IsAcceptable pages content max_bytes max_pages
  Judged (some detail) = ¬ IsAcceptable pages content max_bytes max_pages

  pages-Judged :
      content ≢ []
      → length content ≤ max_bytes
      → starts_with (codes "%PDF-") content ≡ true
      → Judged (check_page_count pages content max_pages)
  pages-Judged some_bytes small begins = elim (Option-cases (pages content)) [
    | inl e ↦ rw (e, Judged) (λ (_, _, _, (n, h, _)). absurd (none_some (sym e ∙ h)))
    | inr (n, e) ↦ elim (Bool-cases (ltb max_pages n)) [
      | inl over ↦
          rw (e, Judged)
            (rw over (λ (_, _, _, (m, h, few)).
              absurd (ground (arith, over, few, some_injective (sym e ∙ h)))))
      | inr few ↦
          rw (e, Judged)
            (rw few (
              some_bytes,
              small,
              (starts_with_iff (codes "%PDF-") content).0 begins,
              (n, e, ground (arith, few)),
            ))
    ]
  ]
    where
      none_some : {n : ℕ} → ◌≡◌ {A = Option ℕ} none (some n) → ⊥
      none_some h = cc

      some_injective : {m n : ℕ} → some m ≡ some n → m ≡ n
      some_injective h = cc

  pub validate_pdf_bytes-Judged :
      Judged (validate_pdf_bytes pages content max_bytes (some max_pages))
  unfolding validate_pdf_bytes
  validate_pdf_bytes-Judged = elim (Bool-cases (is_empty content)) [
    | inl e ↦ rw e (λ (some_bytes, _, _, _). some_bytes (empty content e))
    | inr e ↦ elim (Bool-cases (ltb max_bytes (length content))) [
      | inl over ↦ rw e (rw over (λ (_, small, _, _). absurd (ground (arith, over, small))))
      | inr small ↦ elim (Bool-cases (starts_with (codes "%PDF-") content)) [
        | inl begins ↦
            rw e (
              rw small (rw begins (pages-Judged (filled content e) (ground (arith, small)) begins)))
        | inr other ↦ rw e (
            rw small (
              rw other (λ (_, _, begins, _).
                true-false (sym ((starts_with_iff (codes "%PDF-") content).1 begins) ∙ other))))
      ]
    ]
  ]
    where
      empty : (t : Text) → is_empty t ≡ true → t ≡ []
      empty [] h = refl
      empty (c ∷ t) h = cc

      filled : (t : Text) → is_empty t ≡ false → t ≢ []
      filled t h e = true-false (sym (ap is_empty e) ∙ h)
