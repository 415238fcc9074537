-- ===== src/Answer.antt =====
-- Answering a question: backend/app/rag/synthesize.py and api/chat.py.
pub mod Synthesize
pub mod Chat
mod Client
mod Numbering
mod Refusal
mod Reach
mod Tests
