-- ===== src/Documents.antt =====
-- The life of a document: upload, storage, ingestion, deletion. backend/app/api/documents.py,
-- rag/ingest.py, worker/tasks.py and core/storage.py.
pub mod World
pub mod Storage
pub mod Ingest
pub mod Worker
pub mod Files
pub mod Routes
pub mod Outcome
pub mod Ending
pub mod Owned
pub mod Acceptable
pub mod Upload
pub mod Changes
pub mod Finish
pub mod Names
pub mod Listing
pub mod Isolation
pub mod Lifetime
pub mod Sweep
pub mod Delete
pub mod OneJob
pub mod Recovery
pub mod Refinement
pub mod Tests
pub mod RecoveryTests
