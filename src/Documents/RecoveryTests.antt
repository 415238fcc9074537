-- ===== src/Documents/RecoveryTests.antt =====
-- Concrete runs of the worker and of the stores.
use safe_shield.Prelude.{arith, refl, none, [], ◌∷◌, some, codes, ◌≡◌, List, ℕ}
use safe_shield.Documents.Recovery.{requeue_stranded_documents-IsSettled, run_jobs, IsSettled}
use safe_shield.Documents.World.{World}
use safe_shield.Documents.Tests.{waiting_document, toy_ingestion, waiting_world, decimal_uuid}
use safe_shield.Documents.Storage.{local_key, stored}
use safe_shield.Documents.Refinement.{
  get_storage-Represents, promised, read_bytes, Represents, delete_bytes, put_bytes, performed,
  Command,
}
use safe_shield.Embed.{get_embedding_provider, fake_embeddings}
use safe_shield.Prelude.Effects.{ok}
use safe_shield.Config.{default_settings}
use safe_shield.Chunker.Tests.{letters}
use safe_shield.Documents.Worker.{requeue_stranded_documents}

-- The waiting document with its file in the store.
abbrev stored_world : World ℕ
stored_world = record waiting_world {
  files = (local_key decimal_uuid (codes "uploads") 9, codes "%PDF-1") ∷ [];
}

it_is_stored :
    stored (local_key decimal_uuid (codes "uploads") 9) stored_world.files ≡ some (codes "%PDF-1")
unfolding stored
it_is_stored = refl

fakes : get_embedding_provider default_settings ≡ ok fake_embeddings
unfolding get_embedding_provider
fakes = refl

requeue_stranded_documents-IsSettled_example : IsSettled 9 (
    run_jobs default_settings letters
      (λ j. toy_ingestion)
      (requeue_stranded_documents default_settings 951 stored_world).1.queue
      (requeue_stranded_documents default_settings 951 stored_world).1)
requeue_stranded_documents-IsSettled_example =
    requeue_stranded_documents-IsSettled default_settings letters (λ j. toy_ingestion)
      fake_embeddings (local_key decimal_uuid (codes "uploads")) (codes "%PDF-1") 951 stored_world
      waiting_document fakes (λ j. refl) (λ j u. refl) (λ j. refl) (λ j. refl) refl
      (record { status = refl; age = omega arith }) it_is_stored

abbrev some_commands : List Command
some_commands =
    put_bytes 1 (codes "a")
    ∷ put_bytes 2 (codes "b")
    ∷ delete_bytes 1
    ∷ read_bytes 1
    ∷ read_bytes 2
    ∷ []

first_same : (i j : ℕ) → decimal_uuid i ≡ decimal_uuid j → i ≡ j
first_same i j e = cc

get_storage-Represents_example :
    ((performed (local_key decimal_uuid (codes "uploads")) some_commands []).0
      ≡ none ∷ some (codes "b") ∷ [])
    × Represents
        (local_key decimal_uuid (codes "uploads"))
        (performed (local_key decimal_uuid (codes "uploads")) some_commands []).1
        (promised some_commands (λ i. none)).1
unfolding stored
get_storage-Represents_example =
    get_storage-Represents decimal_uuid first_same default_settings
      (local_key decimal_uuid (codes "uploads")) some_commands [] (λ i. none) refl (λ i. refl)
