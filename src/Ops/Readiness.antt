-- ===== src/Ops/Readiness.antt =====
-- When the service reports that it is ready.
use safe_shield.Prelude.{
  [], if◌then◌else◌, false, ◌∷◌, inr, inl, refl, Bool-cases, arith, true, codes, ◌↔◌, Text, ◌≡◌,
  text_eq, List, every_in, Bool,
}
use safe_shield.Ops.{
  check_redis, timed_out, probes, raised, answered, report_of, check_database, finding, is_fine,
  Probe, ready,
}
use safe_shield.Config.{Settings}

finding_ok : (p : Probe) → text_eq (finding p) (codes "ok") ≡ true → p ≡ answered
finding_ok answered h = refl
finding_ok timed_out h = cc
finding_ok (raised kind) h = cc

status_iff :
    (b : Bool) (results : List (Text × Text)) → (report_of b results).status_code ≡ 200 → b ≡ true
status_iff true results h = refl
status_iff false results h = absurd (omega arith)

fine_iff :
    (enabled : Bool) (database redis : Probe)
    → every_in is_fine (check_database database ∷ (if enabled then check_redis redis ∷ [] else []))
      ≡ true
    → (database ≡ answered) × (enabled ≡ true → redis ≡ answered)
fine_iff true database redis h =
    (finding_ok database (ground arith), λ _. finding_ok redis (ground arith))
fine_iff false database redis h = (finding_ok database (ground arith), λ e. cc)

-- The service answers 200 exactly if the database answered and, where Redis is in use, Redis did.
-- Without Redis its probe plays no part.
pub ready_iff :
    (s : Settings) (database redis : Probe)
    → ((ready s database redis).status_code ≡ 200)
      ↔ ((database ≡ answered) × (s.redis_enabled ≡ true → redis ≡ answered))
unfolding ready
ready_iff s database redis = (
  λ h. fine_iff s.redis_enabled database redis (status_iff _ (probes s database redis) h),
  λ (d, r). elim (Bool-cases s.redis_enabled) [
    | inl e ↦ rw d (rw (r e) (rw e refl))
    | inr e ↦ rw d (rw e refl)
  ],
)
