-- ===== src/MacServing/App.antt =====
-- mac-serving/src/mac_serving/app.py: the metrics and the middleware that counts requests, the
-- proxy, the health endpoints and the life of the application. Times are in milliseconds; the body
-- of an answer is passed on as it is. The HTTP client is a parameter over an unknown World.
pub mod Counting
pub mod Proxy
pub mod Lifespan
use foundation_ai_platform.Prelude.{
  ℕ, suc, ◌+◌, ◌-◌, String, Bool, true, false, not, ◌&&◌, ◌||◌, Option, none, some, List, [], ◌∷◌,
  if◌then◌else◌, leb, nat_eq, truthy, contains, ◌==◌, ◌<>◌,
}
use foundation_ai_platform.Prelude.Int.{ℤ, pos, ◌+ℤ◌, ◌-ℤ◌}
use foundation_ai_platform.Prelude.Dict.{Dict, lookup, insert, get_or}
use foundation_ai_platform.Prelude.Texts.{lower}
use foundation_ai_platform.Exec.{Error, Result, ok, err, other, Exec}
use foundation_ai_platform.Value.{Value, text}
use foundation_ai_platform.MacServing.{Machine}
use foundation_ai_platform.MacServing.Config.{AppConfig}
use foundation_ai_platform.MacServing.Backend.{Os, Backend, start, stop}

pub record Metrics : Type 0 where
  pub requests : ℕ
  pub failures : ℕ
  pub in_flight : ℤ
  pub total : ℕ

abbrev pub no_metrics : Metrics
no_metrics = record { requests = 0; failures = 0; in_flight = pos 0; total = 0 }

-- Each runs under the lock; `begin` returns the time.
unfoldable pub begin : Metrics → Metrics
begin m = record m { requests = m.requests + 1; in_flight = m.in_flight +ℤ pos 1 }

unfoldable pub finish : (started now : ℕ) → Bool → Metrics → Metrics
finish started now failed m = record m {
  in_flight = m.in_flight -ℤ pos 1;
  total = m.total + (now - started);
  failures = if failed then m.failures + 1 else m.failures;
}

pub record HttpRequest : Type 0 where
  pub method : String
  pub path : String
  pub query : String
  -- in the order in which they came, with lower-case names
  pub headers : List (String × String)
  pub body : String

pub record HttpResponse : Type 0 where
  pub status_code : ℕ
  pub headers : Dict String
  pub media_type : Option String
  pub body : String

pub record UpstreamRequest : Type 0 where
  pub method : String
  pub path : String
  pub query : String
  pub headers : Dict String
  pub body : String

-- What `client.send` gives: an answer, an `httpx.HTTPError` or another exception.
pub data Sent : Type 0 where
  answered : ℕ → List (String × String) → String → Sent
  http_error : Sent
  raised : Error → Sent

pub record Client (World : Type 0) : Type 0 where
  pub send : UpstreamRequest → World → Sent × World
  pub aclose : Exec World (Unit {0})
  pub monotonic : World → ℕ

-- An HTTPException is an answer as well.
abbrev pub http_exception : ℕ → String → HttpResponse
http_exception status detail = record {
  status_code = status;
  headers = [];
  media_type = some "application/json";
  body = detail;
}

abbrev pub hop_by_hop : List String
hop_by_hop =
    "connection" ∷ "keep-alive" ∷ "proxy-authenticate" ∷ "proxy-authorization" ∷ "te" ∷ "trailers"
    ∷ "transfer-encoding" ∷ "upgrade" ∷ "content-length" ∷ []

-- `{key: value for key, value in headers if key.lower() not in dropped}`, from the left
unfoldable pub keep_headers : List String → List (String × String) → Dict String → Dict String
keep_headers dropped [] kept = kept
keep_headers dropped ((key, value) ∷ headers) kept =
    keep_headers dropped headers
      (if contains (lower key) dropped then kept else insert key value kept)

-- The last value under a name, as a dict of all headers holds it.
unfoldable pub header : String → List (String × String) → Option String
header name [] = none
header name ((key, value) ∷ headers) = elim (header name headers) [
  | some later ↦ some later
  | none ↦ if key == name then some value else none
]

-- The first one, which `request.headers.get` returns.
unfoldable pub first_header : String → List (String × String) → Option String
first_header name [] = none
first_header name ((key, value) ∷ headers) =
    let rest = first_header name headers in if key == name then some value else rest

abbrev is_text : String → Option String → Bool
is_text s none = false
is_text s (some t) = t == s

-- Whether the request is let through.
unfoldable pub verify_api_key : Option String → List (String × String) → Bool
unfolding first_header
verify_api_key none headers = true
verify_api_key (some expected) headers =
    not (truthy expected) || is_text ("Bearer " <> expected) (first_header "authorization" headers)

unfoldable pub upstream_request : HttpRequest → UpstreamRequest
unfolding keep_headers
upstream_request r = record {
  method = r.method;
  path = "/v1/" <> r.path;
  query = r.query;
  headers = keep_headers ("host" ∷ hop_by_hop) r.headers [];
  body = r.body;
}

unfoldable pub proxied : Sent → Result HttpResponse
unfolding keep_headers first_header
proxied (answered status headers body) = ok (record {
  status_code = status;
  headers = keep_headers hop_by_hop headers [];
  media_type = first_header "content-type" headers;
  body = body;
})
proxied http_error = ok (http_exception 503 "inference backend unavailable")
proxied (raised e) = err e

abbrev env_of : Machine → Value → Option String
env_of machine (text name) = machine.getenv name
env_of machine _ = none

module _ {World : Type 0} (client : Client World) where
  unfoldable pub proxy_v1 : Option String → HttpRequest → Exec World HttpResponse
  unfolding verify_api_key proxied upstream_request
  proxy_v1 expected request w =
      if verify_api_key expected request.headers
      then (let (sent, w') = client.send (upstream_request request) w in (proxied sent, w'))
      else (ok (http_exception 401 "invalid API key"), w)

  abbrev pub is_failure : Result HttpResponse → Bool
  is_failure (ok response) = leb 500 response.status_code
  is_failure (err e) = true

  -- The middleware around an endpoint that does not read the metrics.
  unfoldable pub observe : String → Exec World HttpResponse → Exec (Metrics × World) HttpResponse
  unfolding begin finish
  observe path call_next (m, w) =
      let started = client.monotonic w in
      let (r, w') = call_next w in
      if path == "/metrics"
      then (r, (m, w'))
      else (r, (finish started (client.monotonic w') (is_failure r) (begin m), w'))

  health_request : UpstreamRequest
  health_request = record { method = "GET"; path = "/health"; query = ""; headers = []; body = "" }

  healthy_of : Sent × World → Result Bool × World
  healthy_of (answered status headers body, w) = (ok (nat_eq status 200), w)
  healthy_of (http_error, w) = (ok false, w)
  healthy_of (raised e, w) = (err e, w)

  unfoldable pub backend_healthy : Exec World Bool
  unfolding health_request healthy_of
  backend_healthy w = healthy_of (client.send health_request w)

  ready_of : Result Bool × World → Result (String × ℕ) × World
  ready_of (ok healthy, w) = (ok (if healthy then ("ready", 200) else ("not_ready", 503)), w)
  ready_of (err e, w) = (err e, w)

  unfoldable pub ready : Exec World (String × ℕ)
  unfolding backend_healthy ready_of
  ready w = ready_of (backend_healthy w)

  -- The `finally` block: where `aclose` raises, the backend is not stopped.
  shut :
      Os World
      → Result (Unit {0})
      → Result (Unit {0})
      → Backend World
      → Result (Unit {0}) × Backend World
  shut os r (ok u) b = (r, stop os b)
  shut os r (err e) b = (err e, b)

  served :
      Os World
      → Exec (Backend World) (Unit {0})
      → Result (Unit {0}) × Backend World
      → Result (Unit {0}) × Backend World
  unfolding shut
  served os body (err e, b) = (err e, b)
  served os body (ok u, b) =
      let (r, b') = body b in
      let (c, w) = client.aclose b'.world in shut os r c (record b' { world = w })

  -- The application from its start to its end; `body` is what it does in between.
  unfoldable pub lifespan :
      Os World
      → Machine
      → AppConfig
      → Exec (Backend World) (Unit {0})
      → Exec (Backend World) (Unit {0})
  unfolding served
  lifespan os machine config body b = served os body (start os machine config b)
