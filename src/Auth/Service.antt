-- ===== src/Auth/Service.antt =====
-- The requests of backend/app/api/auth.py as one step function, and histories of requests. Each
-- request runs in its own transaction, one after the other.
use safe_shield.Prelude.{Option, List, [], ◌∷◌, Text}
use safe_shield.Config.{Settings}
use safe_shield.Auth.Models.{AuthDb, get_db}
use safe_shield.Auth.Security.{Library, Supply}
use safe_shield.Auth.Routes.{
  RegisterRequest, LoginRequest, register, login, refresh, logout, demo_login,
}

pub data Call : Type 0 where
  registers : RegisterRequest → Call
  logs_in : LoginRequest → Call
  refreshes : Option Text → Call
  logs_out : Option Text → Call
  enters_demo : Call

abbrev pub empty_db : AuthDb
empty_db = record { users = []; tokens = [] }

module _ (s : Settings) (lib : Library) where
  -- The database after the request, whether it returned or raised.
  unfoldable pub step : AuthDb → Supply × Text × Call → AuthDb
  unfolding get_db register login refresh logout demo_login
  step db (sup, agent, registers p) = (get_db (register s lib sup p agent) db).1.committed
  step db (sup, agent, logs_in p) = (get_db (login s lib sup p agent) db).1.committed
  step db (sup, agent, refreshes c) = (get_db (refresh s lib sup c agent) db).1.committed
  step db (sup, agent, logs_out c) = (get_db (logout s lib sup c) db).1.committed
  step db (sup, agent, enters_demo) = (get_db (demo_login s lib sup agent) db).1.committed

  unfoldable pub run : AuthDb → List (Supply × Text × Call) → AuthDb
  unfolding step
  run db [] = db
  run db (c ∷ cs) = run (step db c) cs
