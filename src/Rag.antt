-- ===== src/Rag.antt =====
-- Retrieval: backend/app/rag/retrieve.py.
pub mod Score
pub mod Order
pub mod Retrieve
pub mod Results
pub mod Scope
pub mod Fusion
pub mod Tests
