-- ===== src/Auth.antt =====
-- Authentication: backend/app/api/auth.py, core/security.py, core/deps.py, db.py, and the models
-- of users and refresh tokens. Models and Security hold the state and the primitives, Routes the
-- handlers; the other children hold proofs.
pub mod Models
pub mod Security
pub mod Routes
pub mod Cases
pub mod Service
pub mod Rotation
pub mod Kept
pub mod Replay
pub mod Access
pub mod Families
pub mod Races
mod Tests
