-- ===== src/Requests/Balance.antt =====
-- What the middleware leaves behind.
use safe_shield.Prelude.{
  refl, none, ◌+◌, [], leb→le, arith, inr, inl, leb, text_eq_refl, Bool-cases, ◌∷◌, text_eq, length,
  some, find_first, ◌≡◌, ◌++◌, ◌≤◌, List, Text, Option, ℕ,
}
use safe_shield.Prelude.Effects.{ok, err, Result}
use safe_shield.Requests.Middleware.{
  status_class, route_template, entered, Process, Request, request_id_header, finished, set_header,
  Response, chosen_id, returned, dispatch,
}

-- A request id that is neither empty nor longer than 64 characters.
abbrev pub IsShort : Text → Type 0
IsShort id = (1 ≤ length id) × (length id ≤ 64)

abbrev pub status_of : Result Response → ℕ
status_of (err e) = 500
status_of (ok response) = response.status_code

abbrev pub header_of : Text → Response → Option (Text × Text)
header_of name response = find_first (λ h. text_eq h.0 name) response.headers

-- What the client gets of what the service answered: an exception as it is, or the answer with the
-- id.
abbrev pub IsPassedOn : Text → Result Response → Result Response → Type 0
IsPassedOn id (err e) r = r ≡ err e
IsPassedOn id (ok response) r =
    (sent : Response) × (r ≡ ok sent)
    × (sent.status_code ≡ response.status_code)
    × (header_of request_id_header sent ≡ some (request_id_header, id))

chosen_id-IsShort :
    (incoming : Option Text) (fresh : Text) → IsShort fresh → IsShort (chosen_id incoming fresh)
chosen_id-IsShort none fresh h = h
chosen_id-IsShort (some []) fresh h = h
chosen_id-IsShort (some (c ∷ cs)) fresh h = elim (Bool-cases (leb (length (c ∷ cs)) 64)) [
  | inl e ↦ rw e (omega arith, leb→le _ _ e)
  | inr e ↦ rw e h
]

find_first-set :
    (name value : Text) (headers : List (Text × Text))
    → find_first (λ h. text_eq h.0 name) (set_header name value headers) ≡ some (name, value)
find_first-set name value [] = rw (text_eq_refl name) refl
find_first-set name value (h ∷ hs) = elim (Bool-cases (text_eq h.0 name)) [
  | inl e ↦ rw e (find_first-set name value hs)
  | inr e ↦ rw e (rw e (find_first-set name value hs))
]

-- Whatever a request is and however it ends, where the service itself left the gauge of running
-- requests as it found it: the gauge is as before the request, the context has its old id again, the
-- request is counted and timed once, under its route and the class of its status, which is 5xx for
-- an exception; the exception goes on, or the answer does, with its status and the id as a header.
-- The id is not empty and has at most 64 characters, if the fresh one is so.
pub dispatch-IsPassedOn :
    (request : Request) (fresh : Text) (call_next : Process → Result Response × Process)
    → (p q : Process) (answer : Result Response) → IsShort fresh
    → call_next (entered (chosen_id request.incoming_id fresh) p) ≡ (answer, q)
    → q.http_in_flight ≡ 1 + p.http_in_flight
    → IsShort (chosen_id request.incoming_id fresh)
      × IsPassedOn
          (chosen_id request.incoming_id fresh)
          answer
          (dispatch request fresh call_next p).0
      × ((dispatch request fresh call_next p).1.http_in_flight ≡ p.http_in_flight)
      × ((dispatch request fresh call_next p).1.request_id ≡ p.request_id)
      × ((dispatch request fresh call_next p).1.http_requests
          ≡ q.http_requests
            ++ ((request.method, route_template request, status_class (status_of answer)) ∷ []))
      × ((dispatch request fresh call_next p).1.http_duration
          ≡ q.http_duration ++ ((request.method, route_template request) ∷ []))
unfolding dispatch returned finished
dispatch-IsPassedOn request fresh call_next p q (err e) short ended balanced = (
  chosen_id-IsShort request.incoming_id fresh short,
  rw ended refl,
  rw ended (omega (arith, balanced)),
  rw ended refl,
  rw ended refl,
  rw ended refl,
)
dispatch-IsPassedOn request fresh call_next p q (ok response) short ended balanced =
    let id = chosen_id request.incoming_id fresh in
    (
      chosen_id-IsShort request.incoming_id fresh short,
      (
        record response { headers = set_header request_id_header id response.headers },
        rw ended refl,
        refl,
        find_first-set request_id_header id response.headers,
      ),
      rw ended (omega (arith, balanced)),
      rw ended refl,
      rw ended refl,
      rw ended refl,
    )
