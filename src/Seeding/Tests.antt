-- ===== src/Seeding/Tests.antt =====
-- Concrete seedings.
use safe_shield.Prelude.{
  none, sym, text_eq, true, refl, ◌∷◌, [], false, ◌≡◌, codes, ℕ, ◌+◌, inl, inr, ap, ◌∙◌, arith, ◌≢◌,
}
use safe_shield.Documents.World.{with_tables, World}
use safe_shield.Seeding.{seed, Sample, seed_file, main}
use safe_shield.Seeding.Again.{IsSeeded}
use safe_shield.Seeding.Twice.{Apart, IsFree, one_more, no_files, seed-IsSeeded}
use safe_shield.Seeding.Leaves.{IsFresh}
use safe_shield.Seeding.Frame.{Keyed}
use safe_shield.Config.{default_settings}
use safe_shield.Chunker.Tests.{letters}
use safe_shield.Documents.Tests.{draw, toy_world, toy_ingestion}
use safe_shield.Prelude.Effects.{ok}
use safe_shield.Rag.Order.{In}
use safe_shield.Rag.Tests.{stored_document}
use safe_shield.Corpus.{Document}

abbrev sample : Sample ℕ
sample = record {
  name = codes "cover.pdf";
  stem = codes "cover";
  content = codes "%PDF-x";
  draw = draw 9;
  run = toy_ingestion;
}

-- The world after the first run, which adds the document.
abbrev after_seeding : World ℕ
after_seeding = (seed_file default_settings letters false sample toy_world).1

seed_run : seed_file default_settings letters false sample toy_world ≡ (ok 1, after_seeding)
unfolding seed_file
seed_run = refl

-- A second file, whose chunks have other ids.
abbrev terms : Sample ℕ
terms = record {
  name = codes "terms.pdf";
  stem = codes "terms";
  content = codes "%PDF-y";
  draw = draw 10;
  run = record {
    extracted = toy_ingestion.extracted;
    embed = toy_ingestion.embed;
    meanwhile = toy_ingestion.meanwhile;
    claiming = toy_ingestion.claiming;
    persisting = toy_ingestion.persisting;
    recording = toy_ingestion.recording;
    str_uuid = toy_ingestion.str_uuid;
    chunk_id = λ n. 200 + n;
  };
}

files-Apart : Apart (sample ∷ terms ∷ [])
files-Apart = one_more differ (λ u. refl) (one_more (λ o j. absurd j) (λ u. refl) no_files)
  where
    differ :
        (o : Sample ℕ)
        → In o (terms ∷ [])
        → (sample.name ≢ o.name) × (sample.draw.new_id ≢ o.draw.new_id)
    differ o (inl same) =
        let name : o.name ≡ codes "terms.pdf" = ap (λ x. x.name) same in
        let id : o.draw.new_id ≡ 10 = ap (λ x. x.draw.new_id) same in
        (λ h. names (h ∙ name), λ h. ids (h ∙ id))
      where
        names : codes "cover.pdf" ≢ codes "terms.pdf"
        names h = let e : true ≡ false = ap (text_eq (codes "cover.pdf")) h in cc

        ids : ◌≢◌ {A = ℕ} 9 10
        ids h = omega arith
    differ o (inr none_here) = absurd none_here

-- A world with one document.
abbrev small_world : World ℕ
small_world =
    with_tables (record { documents = stored_document 1 none ∷ []; chunks = [] }) toy_world

small_world-IsFree : IsFree default_settings letters (sample ∷ terms ∷ []) small_world
small_world-IsFree = record { keyed = keyed; fresh = fresh }
  where
    keyed : Keyed small_world.tables.documents
    keyed a b (inl x) (inl y) same = x ∙ sym y
    keyed a b (inr none_here) k same = absurd none_here
    keyed a b j (inr none_here) same = absurd none_here

    used : (d : Document) → In d small_world.tables.documents → d.id ≡ 1
    used d (inl it) = ap (λ x. x.id) it
    used d (inr none_here) = absurd none_here

    fresh :
        (o : Sample ℕ) → In o (sample ∷ terms ∷ []) → IsFresh default_settings letters o small_world
    fresh o (inl it) d k same =
        let new : o.draw.new_id ≡ 9 = ap (λ x. x.draw.new_id) it in
        let old = used d k in omega arith
    fresh o (inr (inl it)) d k same =
        let new : o.draw.new_id ≡ 10 = ap (λ x. x.draw.new_id) it in
        let old = used d k in omega arith
    fresh o (inr (inr none_here)) d k same = absurd none_here

-- The world after the run over both.
abbrev after_both : World ℕ
after_both = (seed default_settings letters true 0 (sample ∷ terms ∷ []) small_world).1

both_run :
    seed default_settings letters true 0 (sample ∷ terms ∷ []) small_world ≡ (ok 2, after_both)
unfolding seed
both_run = refl

seed-IsSeeded_example :
    ((o : Sample ℕ) → In o (sample ∷ terms ∷ []) → (n : ℕ) × IsSeeded o.name n after_both)
    × (seed default_settings letters false 0 (sample ∷ terms ∷ []) after_both ≡ (ok 2, after_both))
seed-IsSeeded_example =
    seed-IsSeeded default_settings letters true 0 2 (sample ∷ terms ∷ []) (sample ∷ terms ∷ [])
      small_world after_both files-Apart small_world-IsFree both_run refl

-- Two runs of the script: the second, without `--force`, changes nothing.
twice :
    main default_settings letters false
      (sample ∷ [])
      (main default_settings letters true (sample ∷ []) toy_world).1
    ≡ (ok 0, (main default_settings letters true (sample ∷ []) toy_world).1)
unfolding main
twice = refl

empty_directory : main default_settings letters false [] toy_world ≡ (ok 1, toy_world)
unfolding main
empty_directory = refl
