-- ===== src/Requests/Tests.antt =====
-- Concrete requests.
use safe_shield.Prelude.{arith, refl, ◌∷◌, [], ◌≡◌, none, Text, codes, some, Option}
use safe_shield.Requests.RateLimit.{Client}
use safe_shield.Requests.Middleware.{
  Request, entered, dispatch, Response, Process, LogRecord, format,
}
use safe_shield.Requests.Balance.{dispatch-IsPassedOn, IsPassedOn, IsShort}
use safe_shield.Prelude.Effects.{runtime, err, Result}

abbrev toy_request : Request
toy_request = record {
  method = codes "GET";
  path = codes "/api/documents/7";
  incoming_id = some [];
  route_path = some (codes "/api/documents/{document_id}");
}

abbrev idle : Process
idle = record {
  request_id = codes "-";
  http_in_flight = 2;
  http_duration = [];
  http_requests = [];
  log = [];
}

-- A service that fails.
abbrev failing : Process → Result Response × Process
failing p = (err (runtime (codes "boom")), p)

dispatch-IsPassedOn_example :
    IsShort (codes "f00d")
    × IsPassedOn
        (codes "f00d")
        (err (runtime (codes "boom")))
        (dispatch toy_request (codes "f00d") failing idle).0
    × ((dispatch toy_request (codes "f00d") failing idle).1.http_in_flight ≡ 2)
    × ((dispatch toy_request (codes "f00d") failing idle).1.request_id ≡ codes "-")
    × ((dispatch toy_request (codes "f00d") failing idle).1.http_requests
        ≡ (codes "GET", codes "/api/documents/{document_id}", codes "5xx") ∷ [])
    × ((dispatch toy_request (codes "f00d") failing idle).1.http_duration
        ≡ (codes "GET", codes "/api/documents/{document_id}") ∷ [])
dispatch-IsPassedOn_example =
    dispatch-IsPassedOn toy_request (codes "f00d") failing idle (entered (codes "f00d") idle)
      (err (runtime (codes "boom"))) (omega arith, omega arith) refl refl

abbrev from_office : Option Text → Client
from_office user = record { user_id = user; address = codes "10.0.0.1" }

abbrev warning : LogRecord
warning = record {
  ts = codes "t";
  level = codes "INFO";
  logger = codes "seed";
  message = codes "hi";
  exception = none;
  attributes = (codes "ctx_status", codes "200") ∷ (codes "module", codes "m") ∷ [];
}

format_run :
    format (codes "f00d") warning
    ≡ (codes "ts", codes "t")
      ∷ (codes "level", codes "INFO")
      ∷ (codes "logger", codes "seed")
      ∷ (codes "message", codes "hi")
      ∷ (codes "request_id", codes "f00d")
      ∷ (codes "status", codes "200")
      ∷ []
unfolding format
format_run = refl
