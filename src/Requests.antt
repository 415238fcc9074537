-- ===== src/Requests.antt =====
-- What surrounds every request: backend/app/core/observability.py and backend/app/core/ratelimit.py.
pub mod Middleware
pub mod RateLimit
pub mod Balance
pub mod Budget
pub mod Tests
