-- ===== src/Rag/Score.antt =====
-- The fused score of backend/app/rag/retrieve.py. Postgres computes `1.0 / (k + rank)` as a decimal
-- of twenty places, rounded half up; a score is counted in units of 10^-20.
use safe_shield.Prelude.{none, arith, ◌/◌, ◌≤◌, ◌+◌, some, ◌<◌, ◌*◌, ◌^◌, Option, ℕ}

abbrev pub score_one : ℕ
score_one = 10 ^ 20

unfoldable pub reciprocal : ℕ → ℕ
reciprocal n = (2 * score_one + n) / (2 * n)

-- `COALESCE(1.0 / (:rrf_k + rank), 0.0)`
unfoldable pub term : ℕ → Option ℕ → ℕ
term k none = 0
term k (some rank) = reciprocal (k + rank)

unfoldable pub fused : ℕ → Option ℕ → Option ℕ → ℕ
unfolding term
fused k dense sparse = term k dense + term k sparse

pub le-reciprocal : (m n : ℕ) → 0 < n → m * n ≤ score_one → m ≤ reciprocal n
unfolding reciprocal
le-reciprocal m n pos h = grind arith

pub reciprocal_mono : (a b : ℕ) → 0 < a → a ≤ b → reciprocal b ≤ reciprocal a
unfolding reciprocal
reciprocal_mono a b pos h = grind arith
