-- ===== src/MacServing/App/Proxy.antt =====
-- Which headers the proxy of mac-serving/src/mac_serving/app.py passes on, and which requests.
use foundation_ai_platform.Prelude.{
  ℕ, ◌≢◌, ◌≡◌, refl, ap, eq_refl, String, true, false, Option, none, some, List, [], ◌∷◌,
  if◌then◌else◌, ◌==◌, ◌<>◌, contains, truthy, arith, eq_iff, Bool-cases, inl, inr,
}
use foundation_ai_platform.Prelude.Dict.{Dict, lookup, insert, lookup-insert}
use foundation_ai_platform.Prelude.Texts.{lower}
use foundation_ai_platform.Exec.{ok}
use foundation_ai_platform.MacServing.App.{
  HttpRequest, HttpResponse, Client, answered, hop_by_hop, keep_headers, header, first_header,
  verify_api_key, upstream_request, proxied, proxy_v1, http_exception, is_text,
}

abbrev or_kept : Option String → Option String → Option String
or_kept (some v) kept = some v
or_kept none kept = kept

keep_headers_from :
    (name : String) (dropped : List String) (headers : List (String × String)) (kept : Dict String)
    → lookup name (keep_headers dropped headers kept) ≡ (
        if contains (lower name) dropped
        then lookup name kept
        else or_kept (header name headers) (lookup name kept))
unfolding keep_headers header
keep_headers_from name dropped [] kept = ground arith
keep_headers_from name dropped ((key, value) ∷ headers) kept = ground (
  arith,
  eq_iff key name,
  lookup-insert key name value kept,
  keep_headers_from name dropped headers kept,
  keep_headers_from name dropped headers (insert key value kept),
)

-- Of the headers with a name that is hop by hop, or `host` on the way to the backend, none is passed
-- on, and of any other name the last one, in both directions.
pub proxy_headers :
    (name : String) (r : HttpRequest) (status : ℕ) (headers : List (String × String))
    (body : String)
    → (lookup name (upstream_request r).headers
        ≡ (if contains (lower name) ("host" ∷ hop_by_hop) then none else header name r.headers))
      × ((response : HttpResponse) × (proxied (answered status headers body) ≡ ok response)
          × (response.status_code ≡ status)
          × (lookup name response.headers
              ≡ (if contains (lower name) hop_by_hop then none else header name headers)))
unfolding upstream_request proxied
proxy_headers name r status headers body =
    (kept ("host" ∷ hop_by_hop) r.headers, (_, refl, refl, kept hop_by_hop headers))
  where
    kept :
        (dropped : List String) (hs : List (String × String))
        → lookup name (keep_headers dropped hs [])
          ≡ (if contains (lower name) dropped then none else header name hs)
    kept dropped hs = unfold lookup in ground (arith, keep_headers_from name dropped hs [])

is_text_other : (s : String) (o : Option String) → o ≢ some s → is_text s o ≡ false
is_text_other s none h = refl
is_text_other s (some t) h = elim (Bool-cases (t == s)) [
  | inl e ↦ absurd (h (ap some ((eq_iff t s).0 e)))
  | inr e ↦ e
]

is_text_same : (s : String) (o : Option String) → o ≡ some s → is_text s o ≡ true
is_text_same s o h = rw h (eq_refl s)

verified :
    (key : String) (headers : List (String × String))
    → truthy key ≡ true
    → verify_api_key (some key) headers
      ≡ is_text ("Bearer " <> key) (first_header "authorization" headers)
unfolding verify_api_key
verified key headers set = rw set

-- Where a key is set, a request that does not bear it is refused before the backend is called, and
-- one that bears it gets what the backend answers to it, or 503 where the backend is not reached.
pub proxy_authorizes :
    {World : Type 0} (client : Client World) (key : String) (r : HttpRequest) (w : World)
    → truthy key ≡ true
    → let bearer = first_header "authorization" r.headers in
      (bearer ≢ some ("Bearer " <> key)
        → proxy_v1 client (some key) r w ≡ (ok (http_exception 401 "invalid API key"), w))
      × (bearer ≡ some ("Bearer " <> key)
          → proxy_v1 client (some key) r w ≡ (
            proxied (client.send (upstream_request r) w).0,
            (client.send (upstream_request r) w).1,
          ))
unfolding proxy_v1
proxy_authorizes client key r w set = (
  λ other. rw (verified key r.headers set) (rw (is_text_other _ _ other)),
  λ same. rw (verified key r.headers set) (rw (is_text_same _ _ same)),
)
