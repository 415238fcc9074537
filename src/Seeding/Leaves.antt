-- ===== src/Seeding/Leaves.antt =====
-- What the loop leaves of the other documents as it ends with one file.
use safe_shield.Prelude.{
  subst, ◌∙◌, find_first-test, sym, refl, [], false, text_eq, ap, inr, none, ◌⊎◌, and_true, inl,
  ◌∷◌, text_eq_sound, Bool-cases, some, ◌≢◌, true, ◌≡◌, Option, find_first, List, Bool, Text, ◌++◌,
  ℕ,
}
use safe_shield.Config.{Settings}
use safe_shield.Corpus.{is_null, Document}
use safe_shield.Chunker.Chunks.{Tokenizer}
use safe_shield.Seeding.{
  seed_file, ingested, new_sample, is_skipped, stored_sample, seed_found, Sample, is_sample,
}
use safe_shield.Documents.Routes.{to_storage, in_request}
use safe_shield.Prelude.Effects.{err_ok_after, err, ok, Result}
use safe_shield.Documents.World.{World}
use safe_shield.Rag.Order.{find_first-In, In}
use safe_shield.Documents.Worker.{ingest_document_task}
use safe_shield.Seeding.Frame.{task-Touches, Touches, Keyed}
use safe_shield.Documents.Storage.{get_storage}
use safe_shield.Documents.Sweep.{In-append}

find_first-front :
    {A : Type 0} (q : A → Bool) (xs ys : List A) (a : A)
    → find_first q xs ≡ some a
    → find_first q (xs ++ ys) ≡ some a
find_first-front q [] ys a h = cc
find_first-front q (x ∷ xs) ys a h = elim (Bool-cases (q x)) [
  | inl e ↦ rw e (rw e at h)
  | inr e ↦ rw e (find_first-front q xs ys a (rw e at h))
]

-- The file names of two documents of one kind.
sample_name : (name : Text) (d : Document) → is_sample name d ≡ true → d.filename ≡ name
sample_name name d h =
    text_eq_sound d.filename name (and_true (text_eq d.filename name) (is_null d.user_id) h).0

module _ {V : Type 0} (s : Settings) (tk : Tokenizer) (pdf : Sample V) where
  -- The ways in which the loop ends with one file.
  data Way (existing : Option Document) (n : ℕ) (w v : World V) : Type 0 where
    left : w ≡ v → Way existing n w v
    again :
        (d : Document) (m : World V)
        → existing ≡ some d
        → m.tables ≡ w.tables
        → ingest_document_task s tk pdf.run d.id m ≡ (ok n, v)
        → Way existing n w v
    added :
        (m : World V)
        → existing ≡ none
        → m.tables.documents ≡ w.tables.documents ++ (new_sample s tk false pdf ∷ [])
        → ingest_document_task s tk pdf.run pdf.draw.new_id m ≡ (ok n, v)
        → Way existing n w v

  stored-Way :
      (force : Bool) (existing : Option Document) (path : Result (ℕ → Text)) (n : ℕ) (w v : World V)
      → get_storage pdf.draw.str_uuid s ≡ path
      → ingested s tk force pdf (in_request (stored_sample s tk force pdf existing) w) ≡ (ok n, v)
      → Way existing n w v
  unfolding in_request stored_sample to_storage
  stored-Way force none (err e) n w v same h = absurd (err_ok_after (rw same at h))
  stored-Way force (some d) (err e) n w v same h = absurd (err_ok_after (rw same at h))
  stored-Way force none (ok path) n w v same h = added _ refl refl (rw same at h)
  stored-Way force (some d) (ok path) n w v same h = again d _ refl refl (rw same at h)

  seed_found-Way :
      (force : Bool) (existing : Option Document) (n : ℕ) (w v : World V)
      → seed_found s tk force pdf existing w ≡ (ok n, v)
      → Way existing n w v
  unfolding seed_found
  seed_found-Way force existing n w v h = elim (Bool-cases (is_skipped s tk force pdf existing)) [
    | inl e ↦ left (ap (λ r. r.1) (rw e at h))
    | inr e ↦ stored-Way force existing (get_storage pdf.draw.str_uuid s) n w v refl (rw e at h)
  ]

  -- The new id is none of those that are in use.
  abbrev pub IsFresh : World V → Type 0
  IsFresh w = (d : Document) → In d w.tables.documents → d.id ≢ pdf.draw.new_id

  -- What one file leaves: the first samples of other names, the key, and no id but the new one.
  pub record Leaves (w v : World V) : Type 0 where
    pub firsts :
        (name : Text) (d : Document)
        → name ≢ pdf.name
        → find_first (is_sample name) w.tables.documents ≡ some d
        → find_first (is_sample name) v.tables.documents ≡ some d
    pub keyed : Keyed v.tables.documents
    pub ids :
        (d : Document)
        → In d v.tables.documents
        → ((e : Document) × In e w.tables.documents × (e.id ≡ d.id)) ⊎ (d.id ≡ pdf.draw.new_id)

  module _ (alone : (w : World V) → pdf.run.meanwhile w ≡ w) where
    Touches-Leaves :
        (w v : World V) (d : Document)
        → Keyed w.tables.documents
        → find_first (is_sample pdf.name) w.tables.documents ≡ some d
        → Touches d.id w.tables.documents v.tables.documents
        → Leaves w v
    Touches-Leaves w v d key here t = record {
      firsts = λ name e ne h. t.firsts name e h (λ same. ne (
          let one =
            key e d (find_first-In (is_sample name) w.tables.documents e h)
              (find_first-In (is_sample pdf.name) w.tables.documents d here) same in
          sym (sample_name name e (find_first-test (is_sample name) w.tables.documents e h))
          ∙ ap (λ x. x.filename) one
          ∙ sample_name pdf.name d
              (find_first-test (is_sample pdf.name) w.tables.documents d here)));
      keyed = t.keyed key;
      ids = λ e j. inl (t.ids e j);
    }

    placed :
        (w : World V) (d : Document)
        → In d (w.tables.documents ++ (new_sample s tk false pdf ∷ []))
        → In d w.tables.documents ⊎ In d (new_sample s tk false pdf ∷ [])
    placed w d = (In-append d w.tables.documents (new_sample s tk false pdf ∷ [])).0

    added-Keyed :
        (w : World V)
        → Keyed w.tables.documents
        → IsFresh w
        → Keyed (w.tables.documents ++ (new_sample s tk false pdf ∷ []))
    added-Keyed w key fresh a b j k same = elim (placed w a j) [
      | inl old ↦ elim (placed w b k) [
        | inl old' ↦ key a b old old' same
        | inr new' ↦ absurd (fresh a old (same ∙ ap (λ d. d.id) (only new')))
      ]
      | inr new ↦ elim (placed w b k) [
        | inl old' ↦ absurd (fresh b old' (sym same ∙ ap (λ d. d.id) (only new)))
        | inr new' ↦ only new ∙ sym (only new')
      ]
    ]
      where
        only :
            {d : Document} → In d (new_sample s tk false pdf ∷ []) → d ≡ new_sample s tk false pdf
        only (inl e) = e
        only (inr none_here) = absurd none_here

    added-Leaves :
        (w v : World V)
        → Keyed w.tables.documents
        → IsFresh w
        → Touches pdf.draw.new_id
            (w.tables.documents ++ (new_sample s tk false pdf ∷ []))
            v.tables.documents
        → Leaves w v
    added-Leaves w v key fresh t = record {
      firsts = λ name e ne h.
          t.firsts name e
            (find_first-front (is_sample name) w.tables.documents (new_sample s tk false pdf ∷ []) e
              h)
            (fresh e (find_first-In (is_sample name) w.tables.documents e h));
      keyed = t.keyed (added-Keyed w key fresh);
      ids = λ e j.
          let (x, k, same) = t.ids e j in
          elim (placed w x k) [
            | inl old ↦ inl (x, old, same)
            | inr (inl new) ↦ inr (sym same ∙ ap (λ d. d.id) new)
            | inr (inr none_here) ↦ absurd none_here
          ];
    }

    Way-Leaves :
        (existing : Option Document) (n : ℕ) (w v : World V)
        → find_first (is_sample pdf.name) w.tables.documents ≡ existing
        → Keyed w.tables.documents
        → IsFresh w
        → Way existing n w v
        → Leaves w v
    Way-Leaves existing n w v here key fresh (left same) =
        subst (Leaves w) same
          (record { firsts = λ name d ne h. h; keyed = key; ids = λ d j. inl (d, j, refl) })
    Way-Leaves existing n w v here key fresh (again d m it same h) =
        Touches-Leaves w v d key (here ∙ it) (
          subst (λ t. Touches d.id t.documents v.tables.documents) same
            (task-Touches s tk pdf.run d.id alone n m v h))
    Way-Leaves existing n w v here key fresh (added m it same h) = added-Leaves w v key fresh (
        subst (λ ds. Touches pdf.draw.new_id ds v.tables.documents) same
          (task-Touches s tk pdf.run pdf.draw.new_id alone n m v h))

    pub seed_file-Leaves :
        (force : Bool) (n : ℕ) (w v : World V)
        → Keyed w.tables.documents
        → IsFresh w
        → seed_file s tk force pdf w ≡ (ok n, v)
        → Leaves w v
    unfolding seed_file
    seed_file-Leaves force n w v key fresh h =
        Way-Leaves (find_first (is_sample pdf.name) w.tables.documents) n w v refl key fresh
          (seed_found-Way force (find_first (is_sample pdf.name) w.tables.documents) n w v h)
