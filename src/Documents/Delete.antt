-- ===== src/Documents/Delete.antt =====
-- The request to delete a document, on every branch.
use safe_shield.Prelude.{
  text_eq_sound, ◌∙◌, keep-keep, keep-All, sym, text_eq-false_iff, All-map, ap, keep_none, ==_iff,
  text_eq, false, ◌&&◌, arith, Bool-cases, ◌==◌, true, ◌∷◌, not, find_first-test, find_first,
  Option, List, refl, ◌≢◌, [], keep, none, inr, codes, inl, some, Option-cases, ◌⊎◌, ◌≡◌, Text, ℕ,
}
use safe_shield.Config.{Settings}
use safe_shield.Documents.Routes.{delete_row, delete_document, in_request, Draw}
use safe_shield.Documents.Storage.{content_of, has_key, Files, delete, stored, get_storage}
use safe_shield.Prelude.Effects.{http, err, Result, ok}
use safe_shield.Documents.World.{with_tables, with_files, has_id, is_of, find_document, World}
use safe_shield.Corpus.{visible_to_iff, is_null, visible_to, MayRead, Document}
use safe_shield.Rag.Order.{find_first-none, find_first-In, In}
use safe_shield.Answer.Chat.{document_not_found, visible_document}

hidden :
    (ds : List Document) (i caller : ℕ)
    → visible_document ds caller i ≡ none
    → (d : Document) → In d ds
    → d.id ≡ i
    → ¬ MayRead (some caller) d.user_id
hidden ds i caller none_visible d here same read =
    let refused =
      find_first-none (λ x. (x.id == i) && visible_to caller x.user_id) ds d none_visible here in
    ground (arith, (visible_to_iff caller d.user_id).1 read)

owner_of :
    (owner : Option ℕ) (caller : ℕ)
    → visible_to caller owner ≡ true
    → is_null owner ≡ false
    → owner ≡ some caller
owner_of none caller h k = cc
owner_of (some o) caller h k = ap some ((==_iff o caller).0 (ground arith))

null_of : (owner : Option ℕ) → is_null owner ≡ true → owner ≡ none
null_of none h = refl
null_of (some o) h = cc

find_document-deleted :
    (i : ℕ) (ds : List Document) → find_document i (keep (λ d. not (has_id i d)) ds) ≡ none
find_document-deleted i [] = refl
find_document-deleted i (x ∷ xs) = ground (arith, find_document-deleted i xs)

find_first-delete :
    (k : Text) (files : Files) → find_first (has_key k) (keep (λ e. not (has_key k e)) files) ≡ none
find_first-delete k [] = refl
find_first-delete k (x ∷ xs) = ground (arith, find_first-delete k xs)

find_first-delete_other :
    (k l : Text) (files : Files)
    → l ≢ k
    → find_first (has_key l) (keep (λ e. not (has_key k e)) files) ≡ find_first (has_key l) files
find_first-delete_other k l [] ne = refl
find_first-delete_other k l ((m, content) ∷ xs) ne = elim (Bool-cases (text_eq m k)) [
  | inl e ↦
      let apart = (text_eq-false_iff m l).1 (λ same. ne (sym same ∙ text_eq_sound m k e)) in
      rw e (rw apart (find_first-delete_other k l xs ne))
  | inr e ↦ rw e (ground (arith, find_first-delete_other k l xs ne))
]

module _ {V : Type 0} (s : Settings) (draw : Draw) (path : ℕ → Text)
    (configured : get_storage draw.str_uuid s ≡ ok path) where
  -- A document of the caller is gone with its chunks and its file, and nothing else is.
  pub record Deleted (i caller : ℕ) (w w' : World V) : Type 0 where
    pub owned : (d : Document) × In d w.tables.documents × (d.id ≡ i) × (d.user_id ≡ some caller)
    pub no_row : find_document i w'.tables.documents ≡ none
    pub no_chunk : keep (is_of i) w'.tables.chunks ≡ []
    pub no_file : stored (path i) w'.files ≡ none
    pub other_rows :
        (j : ℕ)
        → j ≢ i
        → (keep (has_id j) w'.tables.documents ≡ keep (has_id j) w.tables.documents)
          × (keep (is_of j) w'.tables.chunks ≡ keep (is_of j) w.tables.chunks)
    pub other_files : (k : Text) → k ≢ path i → stored k w'.files ≡ stored k w.files

  -- The three answers to a request to delete.
  abbrev pub DeleteEnd : ℕ → ℕ → World V → Result (Unit {0}) × World V → Type 0
  DeleteEnd i caller w (r, w') =
      ((r ≡ ok tt) × Deleted i caller w w')
      ⊎ ((r ≡ err (http 403 (codes "Shared sample documents cannot be deleted")))
          × (w' ≡ w)
          × ((d : Document) × In d w.tables.documents × (d.id ≡ i) × (d.user_id ≡ none)))
      ⊎ ((r ≡ err document_not_found)
          × (w' ≡ w)
          × ((d : Document)
              → In d w.tables.documents
              → d.id ≡ i
              → ¬ MayRead (some caller) d.user_id))

  delete_row-Deleted :
      (i caller : ℕ) (w : World V) (d : Document)
      → In d w.tables.documents
      → d.id ≡ i
      → d.user_id ≡ some caller
      → Deleted i caller w
          (with_files (delete (path i) w.files) (with_tables (delete_row i w.tables) w))
  unfolding delete stored
  delete_row-Deleted i caller w d here same own = record {
    owned = (d, here, same, own);
    no_row = find_document-deleted i w.tables.documents;
    no_chunk = keep_none (is_of i) (keep (λ c. not (is_of i c)) w.tables.chunks) (
        All-map (keep (λ c. not (is_of i c)) w.tables.chunks) (λ c h. ground arith)
          (keep-All (λ c. not (is_of i c)) w.tables.chunks));
    no_file = ap content_of (find_first-delete (path i) w.files);
    other_rows = λ j ne. (
      keep-keep (λ d. not (has_id i d)) (has_id j) w.tables.documents (λ d h. other i j d.id ne h),
      keep-keep (λ c. not (is_of i c)) (is_of j) w.tables.chunks
          (λ c h. other i j c.document_id ne h),
    );
    other_files = λ k ne. ap content_of (find_first-delete_other (path i) k w.files ne);
  }
    where
      other : (i j k : ℕ) → j ≢ i → (k == j) ≡ true → not (k == i) ≡ true
      other i j k ne h = ground (arith, ne)

  -- A request to delete has three answers. The caller's own document goes with its chunks and its
  -- file, and no other row, chunk or file does. A shared document is refused with 403, and a
  -- document that is missing or another user's with 404; both change nothing.
  pub delete_document-End :
      (i caller : ℕ) (w : World V)
      → DeleteEnd i caller w (in_request (delete_document s draw i caller) w)
  unfolding in_request delete_document
  delete_document-End i caller w =
      elim (Option-cases (visible_document w.tables.documents caller i)) [
        | inl e ↦ rw e (inr (inr (refl, refl, hidden w.tables.documents i caller e)))
        | inr (d, e) ↦
            let here = find_first-In _ w.tables.documents d e in
            let test =
              find_first-test (λ x. (x.id == i) && visible_to caller x.user_id) w.tables.documents d
                e in
            let same = (==_iff d.id i).0 (ground arith) in
            elim (Bool-cases (is_null d.user_id)) [
              | inl n ↦ rw e (rw n (inr (inl (refl, refl, (d, here, same, null_of d.user_id n)))))
              | inr n ↦
                  let own = owner_of d.user_id caller (ground arith) n in
                  rw e (
                    rw n
                      (rw configured (inl (refl, delete_row-Deleted i caller w d here same own))))
            ]
      ]
