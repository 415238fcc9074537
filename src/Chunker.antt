-- ===== src/Chunker.antt =====
-- backend/app/rag/chunk.py: blocks of a page into chunks. The tokenizer (tiktoken) is a parameter.
-- The list of chunks and the heading stack have their last entry first.
pub mod Sentences
pub mod Headings
pub mod Chunks
pub mod Solid
pub mod Overlap
pub mod Shape
pub mod Fuel
pub mod Tests
