-- ===== src/Chat/Failures.antt =====
-- A cold start that fails in `chat` (llm_platform/services/chat.py), and a model that nobody knows.
use foundation_ai_platform.Prelude.{
  String, ◌≡◌, refl, ◌⊎◌, inl, inr, true, Option, none, some, ◌<>◌, truthy, eq_refl, eq_iff, ◌≢◌,
  ap, Bool-cases, List, [], ◌∷◌, Elem, or_else, ◌==◌, false,
}
use foundation_ai_platform.Exec.{Error, Result, ok, err, routing, not_found}
use foundation_ai_platform.Prelude.Dict.{lookup}
use foundation_ai_platform.Value.{Value, null, bool, int, hundredths, text, items, table}
use foundation_ai_platform.Schemas.Enums.{DeploymentStatus, is_ready}
use foundation_ai_platform.Schemas.Records.{ModelRecord, DeploymentRecord, RouteDecision}
use foundation_ai_platform.Schemas.Gateway.{ChatCompletionRequest}
use foundation_ai_platform.Registry.{list_models, get_deployment}
use foundation_ai_platform.Registry.Laws.{get_deployment-update_deployment}
use foundation_ai_platform.Routing.Decision.{Random}
use foundation_ai_platform.Platform.{Host, HasLedger, Platform, memory_of, memory_of-release}
use foundation_ai_platform.Chat.{find_fallback_deployment, find_named, may_onboard, is_password}
use foundation_ai_platform.Chat.Fallback.{find_fallback_sound}
use foundation_ai_platform.Chat.Decisions.{resolve_named, resolve_request, resolve_model}
use foundation_ai_platform.Chat.Starts.{
  at_deployment, use_fallback, fall_back, mark_failed, start_failed,
}
use foundation_ai_platform.Chat.Requests.{chat}

abbrev as_failed : DeploymentRecord → DeploymentRecord
as_failed d = record d { status = DeploymentStatus.failed }

unknown-find_named :
    (name : String) (ms : List ModelRecord)
    → ((m : ModelRecord) → Elem m ms → ((m.id == name) ≡ false) × ((m.name == name) ≡ false))
    → find_named name ms ≡ none
unfolding find_named
unknown-find_named name [] h = refl
unknown-find_named name (m ∷ ms) h =
    let (id, own) = h m (inl refl) in rw (id, own, unknown-find_named name ms (λ n e. h n (inr e)))

wrong_given :
    (o : Option String)
    → truthy (or_else o "") ≡ true
    → o ≢ some "dhruv"
    → (or_else o "" == "dhruv") ≡ false
wrong_given none t h = refl
wrong_given (some s) t h = elim (Bool-cases (truthy s)) [
  | inr v ↦ rw v refl
  | inl u ↦ rw u (elim (Bool-cases (s == "dhruv")) [
    | inr f ↦ f
    | inl same ↦ absurd (h (ap some ((eq_iff s "dhruv").0 same)))
  ])
]

wrong_noted : (o : Option Value) → o ≢ some (text "dhruv") → is_password o ≡ false
unfolding is_password
wrong_noted none h = refl
wrong_noted (some (text s)) h = elim (Bool-cases (s == "dhruv")) [
  | inr f ↦ f
  | inl same ↦ absurd (h (ap (λ x. some (text x)) ((eq_iff s "dhruv").0 same)))
]
wrong_noted (some null) h = refl
wrong_noted (some (bool b)) h = refl
wrong_noted (some (int n)) h = refl
wrong_noted (some (hundredths n)) h = refl
wrong_noted (some (items vs)) h = refl
wrong_noted (some (table fs)) h = refl

stranger-may_onboard :
    (request : ChatCompletionRequest)
    → request.password ≢ some "dhruv"
    → ((truthy (or_else request.password "") ≡ true)
        ⊎ (lookup "password" request.metadata ≢ some (text "dhruv")))
    → may_onboard request ≡ false
unfolding may_onboard
stranger-may_onboard request p q = elim (Bool-cases (truthy (or_else request.password ""))) [
  | inl t ↦ rw t (wrong_given request.password t p)
  | inr f ↦
      rw f
        (elim q [ inl t ↦ absurd cc | inr n ↦ wrong_noted (lookup "password" request.metadata) n ])
]

module _ {World : Type 0} (host : Host World) (random : Random) where
  -- Where a failed start leaves the deployment, and where the request goes on.
  pub record IsAbandoned (d : DeploymentRecord)
      (r : Result (RouteDecision × Option DeploymentRecord) × Platform World) : Type 0 where
    pub marked : get_deployment r.1.registry d.deployment_id ≡ ok (as_failed d)
    pub freed : memory_of r.1.gpu_tracker d.deployment_id ≡ none
    pub moves :
        ((e : DeploymentRecord) × (t : RouteDecision) × (r.0 ≡ ok (t, some e))
          × (t.deployment_id ≡ some e.deployment_id)
          × (is_ready e.status ≡ true))
        ⊎ ((message : String) × (r.0 ≡ err (routing message)))

  fallback-Abandoned :
      (t : RouteDecision) (capability message : String) (d : DeploymentRecord) (s : Platform World)
      (o : Option DeploymentRecord)
      → find_fallback_deployment capability s ≡ o
      → get_deployment s.registry d.deployment_id ≡ ok (as_failed d)
      → memory_of s.gpu_tracker d.deployment_id ≡ none
      → IsAbandoned d (use_fallback host random t message o s)
  unfolding use_fallback at_deployment
  fallback-Abandoned t capability message d s none e m f = record {
    marked = m;
    freed = f;
    moves = inr (message, refl);
  }
  fallback-Abandoned t capability message d s (some c) e m f =
      let (takes, _) = find_fallback_sound capability s c e in
      record { marked = m; freed = f; moves = inl (c, _, refl, refl, takes.is_up) }

  -- When a start has failed, its deployment is FAILED in the registry and holds no memory, and the
  -- request goes on at a deployment that is ready, or ends with a routing error.
  pub start_failed-IsAbandoned :
      (t : RouteDecision) (request : ChatCompletionRequest) (model : ModelRecord)
      (d : DeploymentRecord) (e : Error) (p : Platform World)
      → HasLedger p.gpu_tracker
      → IsAbandoned d (start_failed host random t request model (some d) e p)
  unfolding start_failed mark_failed fall_back
  start_failed-IsAbandoned t request model d e p h =
      fallback-Abandoned t request.capability _ d _ _ refl
        (rw (get_deployment-update_deployment, eq_refl d.deployment_id))
        (memory_of-release d.deployment_id p.gpu_tracker h)

  -- A request for a model that no record of the registry has as its id or its name ends with a
  -- not-found error and changes nothing, unless its password is "dhruv". A password of its metadata
  -- is one only where the request gives none.
  pub chat_refuses :
      (request : ChatCompletionRequest) (name : String) (p : Platform World)
      → request.model ≡ some name
      → truthy name ≡ true
      → ((m : ModelRecord)
          → Elem m (list_models p.registry)
          → ((m.id == name) ≡ false) × ((m.name == name) ≡ false))
      → request.password ≢ some "dhruv"
      → ((truthy (or_else request.password "") ≡ true)
          ⊎ (lookup "password" request.metadata ≢ some (text "dhruv")))
      → chat host random request p
        ≡ (err (not_found ("Requested model was not found in registry: " <> name)), p)
  unfolding chat resolve_model resolve_request resolve_named may_onboard
  chat_refuses request name p m t unknown no_password no_metadata = rw (
    m,
    t,
    unknown-find_named name (list_models p.registry) unknown,
    stranger-may_onboard request no_password no_metadata,
  )
