-- ===== src/Requests/Middleware.antt =====
-- backend/app/core/observability.py. Header names compare as Starlette does, so a request holds the
-- one header that is read; durations are left out.
use safe_shield.Prelude.{
  length, leb, ◌&&◌, drop, text_eq, starts_with, is_empty, if◌then◌else◌, ◌/◌, not, ◌-◌, codes,
  some, [], none, keep, ◌+◌, ◌∷◌, Option, List, ◌++◌, Text, ℕ,
}
use safe_shield.Answer.Synthesize.{decimal}
use safe_shield.Prelude.Effects.{ok, err, Result}

pub record Request : Type 0 where
  pub method : Text
  pub path : Text
  -- `X-Request-ID`
  pub incoming_id : Option Text
  -- `scope["route"].path`, after the routing, if it is a string
  pub route_path : Option Text

pub record Response : Type 0 where
  pub status_code : ℕ
  pub headers : List (Text × Text)

pub data Event : Type 0 where
  request_failed : Text → Text → Event
  -- method, path, route and status
  request_ended : Text → Text → Text → ℕ → Event

-- A line of the log carries the request id of the context.
pub record Process : Type 0 where
  -- `request_id_var`
  pub request_id : Text
  pub http_in_flight : ℕ
  -- the labels of each observation
  pub http_duration : List (Text × Text)
  pub http_requests : List (Text × Text × Text)
  pub log : List (Text × Event)

abbrev pub request_id_header : Text
request_id_header = codes "X-Request-ID"

abbrev pub route_template : Request → Text
route_template request = elim request.route_path [ none ↦ codes "unmatched" | some path ↦ path ]

-- `incoming if incoming and len(incoming) <= 64 else uuid.uuid4().hex`
abbrev pub chosen_id : Option Text → Text → Text
chosen_id none fresh = fresh
chosen_id (some incoming) fresh =
    if not (is_empty incoming) && leb (length incoming) 64 then incoming else fresh

abbrev pub set_header : Text → Text → List (Text × Text) → List (Text × Text)
set_header name value headers = keep (λ h. not (text_eq h.0 name)) headers ++ ((name, value) ∷ [])

abbrev pub status_class : ℕ → Text
status_class status = decimal (status / 100) ++ codes "xx"

abbrev pub logged : Event → Process → Process
logged event p = record p { log = p.log ++ ((p.request_id, event) ∷ []) }

abbrev pub entered : Text → Process → Process
entered id p = record p { request_id = id; http_in_flight = p.http_in_flight + 1 }

-- The `finally` block; `outer` is the id that the token restores.
unfoldable pub finished : Request → Text → ℕ → Process → Process
finished request outer status p =
    let route = route_template request in
    let counted = record p {
      http_in_flight = p.http_in_flight - 1;
      http_duration = p.http_duration ++ ((request.method, route) ∷ []);
      http_requests = p.http_requests ++ ((request.method, route, status_class status) ∷ []);
    } in
    record (logged (request_ended request.method request.path route status) counted) {
      request_id = outer;
    }

-- What follows `call_next`.
unfoldable pub returned :
    Request → Text → Text → Result Response × Process → Result Response × Process
unfolding finished
returned request id outer (err e, p) =
    (err e, finished request outer 500 (logged (request_failed request.method request.path) p))
returned request id outer (ok response, p) = (
  ok (record response { headers = set_header request_id_header id response.headers }),
  finished request outer response.status_code p,
)

-- `dispatch`, with the id that uuid4 would give and the rest of the service.
unfoldable pub dispatch :
    Request → Text → (Process → Result Response × Process) → Process → Result Response × Process
unfolding returned
dispatch request fresh call_next p =
    let id = chosen_id request.incoming_id fresh in
    returned request id p.request_id (call_next (entered id p))

-- A record of `logging`, with the attributes that `extra=` gave it.
pub record LogRecord : Type 0 where
  pub ts : Text
  pub level : Text
  pub logger : Text
  pub message : Text
  pub exception : Option Text
  pub attributes : List (Text × Text)

abbrev pub exception_entry : Option Text → List (Text × Text)
exception_entry none = []
exception_entry (some trace) = (codes "exception", trace) ∷ []

-- `payload[key] = value`, where an old key keeps its place
abbrev pub set_entry : Text × Text → List (Text × Text) → List (Text × Text)
set_entry entry [] = entry ∷ []
set_entry entry (e ∷ es) =
    let rest = set_entry entry es in if text_eq e.0 entry.0 then entry ∷ es else e ∷ rest

abbrev pub with_extras : List (Text × Text) → List (Text × Text) → List (Text × Text)
with_extras [] payload = payload
with_extras (a ∷ more) payload =
    with_extras more
      (if starts_with (codes "ctx_") a.0 then set_entry (drop 4 a.0, a.1) payload else payload)

-- The payload of `JsonFormatter.format`, before `json.dumps`.
unfoldable pub format : Text → LogRecord → List (Text × Text)
format request_id r = with_extras r.attributes (
    (codes "ts", r.ts)
    ∷ (codes "level", r.level)
    ∷ (codes "logger", r.logger)
    ∷ (codes "message", r.message)
    ∷ (codes "request_id", request_id)
    ∷ exception_entry r.exception)
