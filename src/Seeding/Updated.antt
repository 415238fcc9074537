-- ===== src/Seeding/Updated.antt =====
-- What an ingestion that returns leaves of the documents, and the first of a kind among them.
use safe_shield.Prelude.{
  subst, inr, ◌∙◌, ap, arith, inl, length, [], Bool-cases, Text, ◌∷◌, ◌++◌, update_where, some,
  Option, true, none, ◌≡◌, find_first, ℕ, List, Bool, refl,
}
use safe_shield.Chunker.Chunks.{Tokenizer}
use safe_shield.Documents.Ingest.{
  ingest_claimed, slow_work, violation, claimed, ingest_document, replaced, persist, persisted,
  ingest_found, finish_ingestion, Run,
}
use safe_shield.Documents.World.{
  with_tables, count_success, find_document, set_progress, has_id, World,
}
use safe_shield.Documents.Worker.{with_provider, ingest_document_task, with_file, with_storage}
use safe_shield.Config.{Settings}
use safe_shield.Corpus.{ready, ChunkRow, Document}
use safe_shield.Prelude.Effects.{Error, err, Result, ok}
use safe_shield.Documents.Storage.{get_storage, stored}
use safe_shield.Embed.{Provider, get_embedding_provider}

module _ {A : Type 0} (p q : A → Bool) (f : A → A) where
  -- The first entry of a kind that an update keeps, where the update is of this entry.
  pub find_first-update :
      (xs : List A) (a : A)
      → ((x : A) → q (f x) ≡ q x)
      → p a ≡ true
      → find_first q xs ≡ some a
      → find_first q (update_where p f xs) ≡ some (f a)
  find_first-update [] a same here h = cc
  find_first-update (x ∷ xs) a same here h = elim (Bool-cases (q x)) [
    | inl e ↦
        let found : some x ≡ some a = rw e at h in
        let it : x ≡ a = cc in
        let at : p x ≡ true = ap p it ∙ here in rw (at) (rw (same x ∙ e) (ap (λ y. some (f y)) it))
    | inr e ↦ elim (Bool-cases (p x)) [
      | inl at ↦ rw at (rw (same x ∙ e) (find_first-update xs a same here (rw e at h)))
      | inr off ↦ rw off (rw e (find_first-update xs a same here (rw e at h)))
    ]
  ]

pub find_first-append :
    {A : Type 0} (q : A → Bool) (xs : List A) (a : A)
    → find_first q xs ≡ none
    → q a ≡ true
    → find_first q (xs ++ (a ∷ [])) ≡ some a
find_first-append q [] a h here = rw here refl
find_first-append q (x ∷ xs) a h here = elim (Bool-cases (q x)) [
  | inl e ↦ absurd (ground (arith, h, e))
  | inr e ↦ rw e (find_first-append q xs a (rw e at h) here)
]

module _ {V : Type 0} (tk : Tokenizer) (run : Run V) (i : ℕ) where
  -- The documents after an ingestion that returns.
  abbrev pub Updated : ℕ → World V → World V → Type 0
  Updated n m w =
      (pages : ℕ) × (w.tables.documents
        ≡ update_where (has_id i) (set_progress ready none pages n) m.tables.documents)

  persisted-Updated :
      (rows : List (ChunkRow V)) (pages n : ℕ) (m w : World V) (v : Option Error)
      → persisted tk run i rows pages m v ≡ (ok n, w)
      → Updated n m w
  unfolding persisted replaced
  persisted-Updated rows pages n m w (some e) h = cc
  persisted-Updated rows pages n m w none h =
      let count : length rows ≡ n = cc in
      let world : count_success (with_tables (replaced tk run i rows pages m.tables) m) ≡ w = cc in
      (
        pages,
        subst
            (λ u.
              u.tables.documents
              ≡ update_where (has_id i) (set_progress ready none pages n) m.tables.documents)
            world
            (ap (λ k. update_where (has_id i) (set_progress ready none pages k) m.tables.documents)
              count),
      )

  finish-Updated :
      (work : Result (List (ChunkRow V) × ℕ)) (n : ℕ) (m w : World V)
      → finish_ingestion tk run i work m ≡ (ok n, w)
      → Updated n m w
  unfolding finish_ingestion persist
  finish-Updated (err e) n m w h = cc
  finish-Updated (ok (rows, pages)) n m w h =
      persisted-Updated rows pages n m w (violation tk run i rows m.tables) h

  ingest_found-Updated :
      (found : Option Document) (n : ℕ) (m w : World V)
      → ingest_found tk run i m found ≡ (ok n, w)
      → Updated n (run.meanwhile (claimed tk run i m)) w
  unfolding ingest_found
  ingest_found-Updated none n m w h = cc
  ingest_found-Updated (some d) n m w h =
      finish-Updated (slow_work tk run i d.user_id run.extracted) n
        (run.meanwhile (claimed tk run i m)) w h

  ingest_claimed-Updated :
      (claiming : Option Error) (n : ℕ) (m w : World V)
      → ingest_claimed tk run i m claiming ≡ (ok n, w)
      → Updated n (run.meanwhile (claimed tk run i m)) w
  unfolding ingest_claimed
  ingest_claimed-Updated (some e) n m w h = cc
  ingest_claimed-Updated none n m w h =
      ingest_found-Updated (find_document i m.tables.documents) n m w h

  with_provider-Updated :
      (s : Settings) (provider : Result Provider) (n : ℕ) (m w : World V)
      → with_provider s tk run i m provider ≡ (ok n, w)
      → Updated n (run.meanwhile (claimed tk run i m)) w
  unfolding with_provider ingest_document
  with_provider-Updated s (err e) n m w h = cc
  with_provider-Updated s (ok provider) n m w h = ingest_claimed-Updated run.claiming n m w h

  with_file-Updated :
      (s : Settings) (n : ℕ) (m w : World V) (k : Text) (content : Option Text)
      → with_file s tk run i m k content ≡ (ok n, w)
      → Updated n (run.meanwhile (claimed tk run i m)) w
  unfolding with_file
  with_file-Updated s n m w k none h = cc
  with_file-Updated s n m w k (some content) h =
      with_provider-Updated s (get_embedding_provider s) n m w h

  with_storage-Updated :
      (s : Settings) (n : ℕ) (m w : World V) (path : Result (ℕ → Text))
      → with_storage s tk run i m path ≡ (ok n, w)
      → Updated n (run.meanwhile (claimed tk run i m)) w
  unfolding with_storage
  with_storage-Updated s n m w (err e) h = cc
  with_storage-Updated s n m w (ok path) h =
      with_file-Updated s n m w (path i) (stored (path i) m.files) h

  pub task-Updated :
      (s : Settings) (n : ℕ) (m w : World V)
      → ingest_document_task s tk run i m ≡ (ok n, w)
      → Updated n (run.meanwhile (claimed tk run i m)) w
  unfolding ingest_document_task
  task-Updated s n m w h = with_storage-Updated s n m w (get_storage run.str_uuid s) h
