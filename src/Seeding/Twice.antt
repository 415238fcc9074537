-- ===== src/Seeding/Twice.antt =====
-- A second run of the script over the same file names.
use safe_shield.Prelude.{
  refl, ◌+◌, sym, ◌∙◌, inr, inl, ◌∷◌, ap, subst, false, ◌≡◌, ℕ, Text, ◌≢◌, Bool, [], List, map,
}
use safe_shield.Seeding.{seed, seed_file, Sample}
use safe_shield.Seeding.Again.{IsSeeded-skipped, seed_file-IsSeeded, IsSeeded}
use safe_shield.Seeding.Leaves.{seed_file-Leaves, IsFresh, Leaves}
use safe_shield.Seeding.Frame.{Keyed}
use safe_shield.Config.{Settings}
use safe_shield.Chunker.Chunks.{Tokenizer}
use safe_shield.Documents.World.{World}
use safe_shield.Rag.Order.{In}
use safe_shield.Prelude.Effects.{err_ok_after, err, ok, follow, Result}

-- The files of a directory: their names and the new ids differ, and nothing else writes meanwhile.
pub data Apart {V : Type 0} : List (Sample V) → Type 0 where
  no_files : Apart []
  one_more :
      {pdf : Sample V} {pdfs : List (Sample V)}
      → ((o : Sample V) → In o pdfs → (pdf.name ≢ o.name) × (pdf.draw.new_id ≢ o.draw.new_id))
      → ((w : World V) → pdf.run.meanwhile w ≡ w)
      → Apart pdfs
      → Apart (pdf ∷ pdfs)

-- The id is the key of a document, and the ids to be drawn are new.
pub record IsFree {V : Type 0} (s : Settings) (tk : Tokenizer) (pdfs : List (Sample V))
    (w : World V) : Type 0 where
  pub keyed : Keyed w.tables.documents
  pub fresh : (o : Sample V) → In o pdfs → IsFresh s tk o w

module _ {V : Type 0} (s : Settings) (tk : Tokenizer) (force : Bool) where
  IsFree-next :
      (pdf : Sample V) (pdfs : List (Sample V)) (n : ℕ) (w v : World V)
      → ((o : Sample V) → In o pdfs → (pdf.name ≢ o.name) × (pdf.draw.new_id ≢ o.draw.new_id))
      → IsFree s tk (pdf ∷ pdfs) w
      → Leaves s tk pdf w v
      → IsFree s tk pdfs v
  IsFree-next pdf pdfs n w v apart free left = record {
    keyed = left.keyed;
    fresh = λ o j d k same. elim (left.ids d k) [
      | inl (e, l, e_d) ↦ free.fresh o (inr j) e l (e_d ∙ same)
      | inr new ↦ (apart o j).1 (sym new ∙ same)
    ];
  }

  IsSeeded-next :
      (pdf : Sample V) (name : Text) (n : ℕ) (w v : World V)
      → name ≢ pdf.name
      → Leaves s tk pdf w v
      → IsSeeded name n w
      → IsSeeded name n v
  IsSeeded-next pdf name n w v ne left seeded = record {
    document = seeded.document;
    found = left.firsts name seeded.document ne seeded.found;
    shared = seeded.shared;
    is_ready_now = seeded.is_ready_now;
    counted = seeded.counted;
  }

  -- The two steps of a run over at least one file.
  seed-steps :
      (total_chunks t : ℕ) (pdfs : List (Sample V)) (v : World V)
      → (r : Result ℕ × World V)
      → follow r (λ count. seed s tk force (total_chunks + count) pdfs) ≡ (ok t, v)
      → (n : ℕ) × (m : World V) × (r ≡ (ok n, m))
        × (seed s tk force (total_chunks + n) pdfs m ≡ (ok t, v))
  seed-steps total_chunks t pdfs v (err e, m) h = absurd (err_ok_after h)
  seed-steps total_chunks t pdfs v (ok n, m) h = (n, m, refl, h)

  seed-keeps :
      (total_chunks t : ℕ) (pdfs : List (Sample V)) (w v : World V) (name : Text) (n : ℕ)
      → Apart pdfs
      → IsFree s tk pdfs w
      → ((o : Sample V) → In o pdfs → name ≢ o.name)
      → seed s tk force total_chunks pdfs w ≡ (ok t, v)
      → IsSeeded name n w
      → IsSeeded name n v
  unfolding seed
  seed-keeps total_chunks t [] w v name n apart free others h seeded =
      subst (IsSeeded name n) (ap (λ r. r.1) h) seeded
  seed-keeps total_chunks t (pdf ∷ pdfs) w v name n (one_more differ alone apart) free others h
        seeded =
      let (k, m, first, rest) = seed-steps total_chunks t pdfs v (seed_file s tk force pdf w) h in
      let left =
        seed_file-Leaves s tk pdf alone force k w m free.keyed (free.fresh pdf (inl refl)) first in
      seed-keeps (total_chunks + k) t pdfs m v name n apart
        (IsFree-next pdf pdfs k w m differ free left) (λ o j. others o (inr j)) rest
        (IsSeeded-next pdf name n w m (others pdf (inl refl)) left seeded)

-- A run, with or without `--force`, over files whose names differ, with ids that are new and differ
-- and with no other writer, where it ends: every file is a shared document under its name and ready,
-- and the next run over the same names without `--force` changes nothing and counts the same chunks.
pub seed-IsSeeded :
    {V : Type 0} (s : Settings) (tk : Tokenizer) (force : Bool) (total_chunks t : ℕ)
    → (pdfs later : List (Sample V)) (w v : World V) → Apart pdfs
    → IsFree s tk pdfs w
    → seed s tk force total_chunks pdfs w ≡ (ok t, v)
    → map (λ o. o.name) later ≡ map (λ o. o.name) pdfs
    → ((o : Sample V) → In o pdfs → (n : ℕ) × IsSeeded o.name n v)
      × (seed s tk false total_chunks later v ≡ (ok t, v))
unfolding seed
seed-IsSeeded s tk force total_chunks t [] [] w v apart free h same =
    (λ o j. absurd j, ap (λ r. (r.0, v)) h)
seed-IsSeeded s tk force total_chunks t [] (l ∷ later) w v apart free h same = cc
seed-IsSeeded s tk force total_chunks t (pdf ∷ pdfs) [] w v apart free h same = cc
seed-IsSeeded s tk force total_chunks t (pdf ∷ pdfs) (l ∷ later) w v (one_more differ alone apart)
      free h same =
    let (k, m, first, rest) =
      seed-steps s tk force total_chunks t pdfs v (seed_file s tk force pdf w) h in
    let left =
      seed_file-Leaves s tk pdf alone force k w m free.keyed (free.fresh pdf (inl refl)) first in
    let name : l.name ≡ pdf.name = cc in
    let names : map (λ o. o.name) later ≡ map (λ o. o.name) pdfs = cc in
    let next = IsFree-next s tk force pdf pdfs k w m differ free left in
    let seeded =
      seed-keeps s tk force (total_chunks + k) t pdfs m v pdf.name k apart next
        (λ o j. (differ o j).0) rest (seed_file-IsSeeded s tk force pdf k w m alone first) in
    let skipped : seed_file s tk false l v ≡ (ok k, v) =
      IsSeeded-skipped s tk l k v (subst (λ name. IsSeeded name k v) (sym name) seeded) in
    let (others, again) =
      seed-IsSeeded s tk force (total_chunks + k) t pdfs later m v apart next rest names in
    (
      λ o j. elim j [
        | inl it ↦ (k, subst (λ name. IsSeeded name k v) (sym (ap (λ x. x.name) it)) seeded)
        | inr j' ↦ others o j'
      ],
      rw skipped again,
    )
