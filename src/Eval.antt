-- ===== src/Eval.antt =====
-- backend/eval/run_eval.py, the gate on the quality of retrieval and answers. The arithmetic of
-- floats, the judge behind the chat client, `json.loads`, `str.lower` and the clock are parameters.
pub mod Cases
pub mod Runs
pub mod Summary
pub mod Gate
pub mod Ranks
pub mod Regression
pub mod Rounds
pub mod Bounds
pub mod Tests
