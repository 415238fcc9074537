-- ===== src/Seeding/Frame.antt =====
-- What seeding one file leaves of the other documents.
use safe_shield.Prelude.{
  subst, none, arith, refl, [], inr, false, ap, ◌≢◌, inl, Bool-cases, ◌∷◌, sym, some, find_first,
  update_where, if◌then◌else◌, ◌∙◌, ◌≡◌, Text, List, ℕ,
}
use safe_shield.Corpus.{ready, processing, Document}
use safe_shield.Config.{Settings}
use safe_shield.Rag.Order.{In}
use safe_shield.Chunker.Chunks.{Tokenizer}
use safe_shield.Documents.World.{set_progress, World, has_id}
use safe_shield.Seeding.{is_sample}
use safe_shield.Documents.Ingest.{claimed, Run}
use safe_shield.Documents.Worker.{ingest_document_task}
use safe_shield.Prelude.Effects.{ok}
use safe_shield.Seeding.Updated.{task-Updated}

-- The id is the key of a document.
abbrev pub Keyed : List Document → Type 0
Keyed ds = (a b : Document) → In a ds → In b ds → a.id ≡ b.id → a ≡ b

-- A change of the rows of one document that keeps ids, names and owners.
pub record Touches (i : ℕ) (ds es : List Document) : Type 0 where
  pub firsts :
      (name : Text) (d : Document)
      → find_first (is_sample name) ds ≡ some d
      → d.id ≢ i
      → find_first (is_sample name) es ≡ some d
  pub keyed : Keyed ds → Keyed es
  pub ids : (d : Document) → In d es → (e : Document) × In e ds × (e.id ≡ d.id)

then-Touches :
    (i : ℕ) (ds es fs : List Document) → Touches i ds es → Touches i es fs → Touches i ds fs
then-Touches i ds es fs a b = record {
  firsts = λ name d h ne. b.firsts name d (a.firsts name d h ne) ne;
  keyed = λ k. b.keyed (a.keyed k);
  ids =
      λ d j. let (e, k, same) = b.ids d j in let (x, l, same') = a.ids e k in (x, l, same' ∙ same);
}

module _ (i : ℕ) (f : Document → Document) where
  abbrev updated : Document → Document
  updated d = if has_id i d then f d else d

  In-update :
      (ds : List Document) (d : Document)
      → In d (update_where (has_id i) f ds)
      → (e : Document) × In e ds × (d ≡ updated e)
  In-update [] d j = absurd j
  In-update (x ∷ xs) d (inl same) = (x, inl refl, same)
  In-update (x ∷ xs) d (inr j) = let (e, k, same) = In-update xs d j in (e, inr k, same)

  module _ (ids : (d : Document) → (f d).id ≡ d.id)
      (tests : (name : Text) (d : Document) → is_sample name (f d) ≡ is_sample name d) where
    updated_id : (d : Document) → (updated d).id ≡ d.id
    updated_id d = elim (Bool-cases (has_id i d)) [ inl e ↦ rw e (ids d) | inr e ↦ rw e refl ]

    update-first :
        (name : Text) (ds : List Document) (d : Document)
        → find_first (is_sample name) ds ≡ some d
        → d.id ≢ i
        → find_first (is_sample name) (update_where (has_id i) f ds) ≡ some d
    update-first name [] d h ne = cc
    update-first name (x ∷ xs) d h ne = elim (Bool-cases (is_sample name x)) [
      | inl e ↦
          let found : some x ≡ some d = rw e at h in
          let it : x ≡ d = cc in
          let off : has_id i x ≡ false = ground (arith, ap (λ y. y.id) it, ne) in
          rw off (rw e (ap (λ y. some y) it))
      | inr e ↦ elim (Bool-cases (has_id i x)) [
        | inl at ↦ rw at (rw (tests name x ∙ e) (update-first name xs d (rw e at h) ne))
        | inr off ↦ rw off (rw e (update-first name xs d (rw e at h) ne))
      ]
    ]

    update-Touches : (ds : List Document) → Touches i ds (update_where (has_id i) f ds)
    update-Touches ds = record {
      firsts = λ name d h ne. update-first name ds d h ne;
      keyed = λ k a b j l same.
          let (x, jx, ax) = In-update ds a j in
          let (y, jy, by) = In-update ds b l in
          let one_row = k x y jx jy (
            sym (updated_id x)
            ∙ sym (ap (λ d. d.id) ax)
            ∙ same
            ∙ ap (λ d. d.id) by
            ∙ updated_id y) in
          ax ∙ ap updated one_row ∙ sym by;
      ids = λ d j.
          let (e, k, same) = In-update ds d j in
          (e, k, sym (updated_id e) ∙ sym (ap (λ x. x.id) same));
    }

module _ {V : Type 0} (s : Settings) (tk : Tokenizer) (run : Run V) (i : ℕ)
    (alone : (w : World V) → run.meanwhile w ≡ w) where
  pub task-Touches :
      (n : ℕ) (m w : World V)
      → ingest_document_task s tk run i m ≡ (ok n, w)
      → Touches i m.tables.documents w.tables.documents
  unfolding claimed
  task-Touches n m w h =
      let (pages, after) = task-Updated tk run i s n m w h in
      let start = λ (d : Document). set_progress processing d.error d.page_count d.chunk_count d in
      let begun = update_where (has_id i) start m.tables.documents in
      let finished = update_where (has_id i) (set_progress ready none pages n) begun in
      let same : w.tables.documents ≡ finished =
        after
        ∙ ap (λ u. update_where (has_id i) (set_progress ready none pages n) u.tables.documents)
            (alone (claimed tk run i m)) in
      subst (Touches i m.tables.documents) (sym same) (
        then-Touches i m.tables.documents begun finished
          (update-Touches i start (λ d. refl) (λ name d. refl) m.tables.documents)
          (update-Touches i (set_progress ready none pages n) (λ d. refl) (λ name d. refl) begun))
