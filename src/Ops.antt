-- ===== src/Ops.antt =====
-- backend/app/api/ops.py: liveness and readiness. What a probe met is an argument.
pub mod Readiness
use safe_shield.Prelude.{
  false, [], true, if◌then◌else◌, text_eq, every_in, ◌∷◌, List, ◌++◌, Text, codes, Bool, ℕ,
}
use safe_shield.Config.{Settings}

-- How the query, or the ping, ended.
pub data Probe : Type 0 where
  answered timed_out : Probe
  raised : Text → Probe

abbrev pub finding : Probe → Text
finding answered = codes "ok"
finding timed_out = codes "timeout"
finding (raised kind) = codes "error: " ++ kind

abbrev pub check_database : Probe → Text × Text
check_database p = (codes "database", finding p)

abbrev pub check_redis : Probe → Text × Text
check_redis p = (codes "redis", finding p)

pub record Report : Type 0 where
  pub status_code : ℕ
  pub status : Text
  pub checks : List (Text × Text)

abbrev pub probes : Settings → Probe → Probe → List (Text × Text)
probes s database redis =
    check_database database ∷ (if s.redis_enabled then check_redis redis ∷ [] else [])

abbrev pub is_fine : Text × Text → Bool
is_fine (name, value) = text_eq value (codes "ok")

abbrev pub report_of : Bool → List (Text × Text) → Report
report_of true results = record { status_code = 200; status = codes "ready"; checks = results }
report_of false results = record { status_code = 503; status = codes "not ready"; checks = results }

unfoldable pub ready : Settings → Probe → Probe → Report
ready s database redis =
    let results = probes s database redis in report_of (every_in is_fine results) results

abbrev pub health : List (Text × Text)
health = (codes "status", codes "ok") ∷ (codes "version", codes "0.1.0") ∷ []
