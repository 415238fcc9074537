-- ===== src/Extract/Boilerplate.antt =====
-- What counts as a running header or footer.
use safe_shield.Prelude.{
  refl, le→leb, leb→le, ap, inr, arith, inl, ltb, Bool-cases, leb, is_empty, not, ◌&&◌, true, ◌≡◌,
  Bool, text_eq, count_where, ◌≢◌, length, ◌≤◌, ◌↔◌, Text, List, ◌∷◌, [],
}
use safe_shield.Extract.Lines.{Line, Unicode}
use safe_shield.Extract.Pages.{boilerplate_threshold, margin_templates, detect_boilerplate}
use safe_shield.Rag.Order.{keep-In, In-keep, In}

module _ {F : Type 0} (uc : Unicode) where
  -- A template is boilerplate exactly if the file has four pages or more, the template is not empty
  -- and it is counted among the margins at least as often as the threshold, which is 2 or more.
  pub detect_boilerplate_iff :
      (pages : List (List (Line F))) (t : Text)
      → In t (detect_boilerplate uc pages) ↔ (
          (4 ≤ length pages)
          × (t ≢ [])
          × In t (margin_templates uc pages)
          × (boilerplate_threshold (length pages)
              ≤ count_where (text_eq t) (margin_templates uc pages)))
  unfolding detect_boilerplate
  detect_boilerplate_iff pages t =
      let counts = margin_templates uc pages in
      let often = λ (u : Text).
        leb (boilerplate_threshold (length pages)) (count_where (text_eq u) counts)
        && not (is_empty u) in
      elim (Bool-cases (ltb (length pages) 4)) [
        | inl e ↦ (rw e (λ i. absurd i), λ h. absurd (ground (arith, h.0)))
        | inr e ↦ (
          rw e (λ i.
              let (j, q) = In-keep often t counts i in
              (
                ground arith,
                λ empty. ground (arith, ap (λ u. is_empty u) empty),
                j,
                leb→le _ _ (ground arith),
              )),
          rw e (λ (four, full, i, enough).
              keep-In often t counts i (both_true (le→leb _ _ enough) (not_empty t full))),
        )
      ]
    where
      both_true : {a b : Bool} → a ≡ true → b ≡ true → a && b ≡ true
      both_true {a} {b} h k = rw h k

      not_empty : (u : Text) → u ≢ [] → not (is_empty u) ≡ true
      not_empty [] h = absurd (h refl)
      not_empty (c ∷ u) h = refl
