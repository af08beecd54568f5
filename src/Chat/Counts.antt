-- ===== src/Chat/Counts.antt =====
-- `chat` (llm_platform/services/chat.py) and the counts of active requests.
use foundation_ai_platform.Prelude.{
  String, ◌≡◌, refl, ◌∙◌, Bool-cases, inl, inr, not, Option, none, some, truthy, or_else,
}
use foundation_ai_platform.Schemas.Records.{
  ModelRecord, DeploymentRecord, LifecycleRecord, ModelRegistrationRequest, ValidationReport,
  RouteDecision,
}
use foundation_ai_platform.Schemas.Gateway.{ChatCompletionRequest}
use foundation_ai_platform.Registry.{get_model, get_lifecycle}
use foundation_ai_platform.Routing.Decision.{Random}
use foundation_ai_platform.Platform.{Host, Platform, outside, reads, active_on, unload_deployment}
use foundation_ai_platform.Balanced.{
  IsBalanced, observed, active-observed, bind-IsBalanced, if-IsBalanced, counted-IsBalanced,
}
use foundation_ai_platform.Chat.{counted, may_onboard}
use foundation_ai_platform.Chat.Onboarding.{
  is_servable, download_head, draw, register, pending_deployment, checked_report, onboard_checked,
  onboard_model,
}
use foundation_ai_platform.Chat.Decisions.{
  needs_start, reserve_for, resolve_named, resolve_request, resolve_model, decide_route,
  reserve_memory, evict, fetch,
}
use foundation_ai_platform.Chat.Starts.{start_if_needed}
use foundation_ai_platform.Chat.Requests.{touched, touch_lifecycle, answer, serve, follow, chat}
use foundation_ai_platform.Chat.StartCounts.{
  unload-IsBalanced, fetch-IsBalanced, start_if_needed-IsBalanced,
}

module _ {World : Type 0} (host : Host World) (random : Random) where
  register-IsBalanced : (request : ModelRegistrationRequest) → IsBalanced (register host request)
  unfolding register draw
  register-IsBalanced request p k = refl

  pending-IsBalanced : (model : ModelRecord) → IsBalanced (pending_deployment host model)
  unfolding pending_deployment draw
  pending-IsBalanced model p k = refl

  pub report-IsBalanced : (repo : String) → IsBalanced (checked_report host repo)
  unfolding checked_report
  report-IsBalanced repo =
      bind-IsBalanced (outside (host.inspect repo)) _ (λ p k. refl)
        λ report.
          if-IsBalanced (not (is_servable report.recommended_backend)) _ _ (λ p k. refl)
            (λ p k. refl)

  pub onboarded-IsBalanced :
      (repo : String) (head : Option String) (report : ValidationReport)
      → IsBalanced (onboard_checked host repo head report)
  unfolding onboard_checked
  onboarded-IsBalanced repo head report =
      bind-IsBalanced (outside (host.snapshot_download repo)) _ (λ p k. refl)
        λ u. bind-IsBalanced (outside (download_head host head)) _ (λ p k. refl) λ u p k. refl

  onboard-IsBalanced :
      (repo : String) (head : Option String) → IsBalanced (onboard_model host repo head)
  unfolding onboard_model
  onboard-IsBalanced repo head =
      bind-IsBalanced (checked_report host repo) _ (report-IsBalanced repo)
        λ report. onboarded-IsBalanced repo head report

  resolve_named-IsBalanced :
      (request : ChatCompletionRequest) (name : String) (o : Option ModelRecord)
      → IsBalanced (resolve_named host random request name o)
  unfolding resolve_named
  resolve_named-IsBalanced request name (some m) p k = refl
  resolve_named-IsBalanced request name none p k =
      if-IsBalanced (may_onboard request) _ _
        (bind-IsBalanced (onboard_model host (or_else request.huggingface_id name) none) _
          (onboard-IsBalanced (or_else request.huggingface_id name) none) λ m p k. refl)
        (λ p k. refl) p k

  pub resolve-IsBalanced :
      (request : ChatCompletionRequest) (name : Option String)
      → IsBalanced (resolve_request host random request name)
  unfolding resolve_request
  resolve-IsBalanced request none p k = refl
  resolve-IsBalanced request (some name) p k = elim (Bool-cases (truthy name)) [
    | inl t ↦ rw t (resolve_named-IsBalanced request name _ p k)
    | inr f ↦ rw f
  ]

  reserve-Balanced :
      (r : RouteDecision) (id : Option String) (m : Option ModelRecord) (p : Platform World)
      (k : String)
      → observed (reserve_for host random r id m p).concurrency_tracker k
        ≡ observed p.concurrency_tracker k
  unfolding reserve_for
  reserve-Balanced r none m p k = refl
  reserve-Balanced r (some id) none p k = refl
  reserve-Balanced r (some id) (some m) p k = elim (Bool-cases (truthy id)) [
    | inl t ↦ rw t
    | inr f ↦ rw f
  ]

  pub reserve_memory-IsBalanced : (r : RouteDecision) → IsBalanced (reserve_memory host random r)
  unfolding reserve_memory
  reserve_memory-IsBalanced r p k = elim (Bool-cases (needs_start r)) [
    | inl t ↦ rw t (reserve-Balanced r r.deployment_id _ p k)
    | inr f ↦ rw f
  ]

  pub evict-IsBalanced : (o : Option String) → IsBalanced (evict host random o)
  unfolding evict
  evict-IsBalanced none p k = refl
  evict-IsBalanced (some id) p k =
      if-IsBalanced (truthy id) _ _
        (bind-IsBalanced (unload_deployment host id) _ (unload-IsBalanced host id) λ u p k. refl)
        (λ p k. refl) p k

  touched-IsBalanced :
      (l : Option LifecycleRecord) (d : Option DeploymentRecord)
      → IsBalanced (touched host random l d)
  unfolding touched
  touched-IsBalanced (some l) d p k = refl
  touched-IsBalanced none none p k = refl
  touched-IsBalanced none (some d) p k = refl

  pub touch-IsBalanced :
      (id : Option String) (d : Option DeploymentRecord)
      → IsBalanced (touch_lifecycle host random id d)
  unfolding touch_lifecycle
  touch-IsBalanced none d p k = touched-IsBalanced none d p k
  touch-IsBalanced (some id) d p k = touched-IsBalanced (get_lifecycle p.registry id) d p k

  pub answer-IsBalanced :
      (request : ChatCompletionRequest) (d : Option DeploymentRecord)
      → IsBalanced (answer host random request d)
  unfolding answer
  answer-IsBalanced request none p k = refl
  answer-IsBalanced request (some d) p k = refl

  serve-IsBalanced :
      (request : ChatCompletionRequest) (r : RouteDecision) (model : ModelRecord)
      (d : Option DeploymentRecord)
      → IsBalanced (serve host random request r model d)
  unfolding serve
  serve-IsBalanced request r model d =
      bind-IsBalanced (touch_lifecycle host random r.deployment_id d) _
        (touch-IsBalanced r.deployment_id d)
        λ u.
          bind-IsBalanced (counted r.deployment_id (answer host random request d)) _
            (counted-IsBalanced r.deployment_id (answer host random request d)
              (answer-IsBalanced request d))
            λ message p k. refl

  follow-IsBalanced :
      (request : ChatCompletionRequest) (r : RouteDecision)
      → IsBalanced (follow host random request r)
  unfolding follow
  follow-IsBalanced request r =
      bind-IsBalanced (evict host random r.evict_deployment_id) _
        (evict-IsBalanced r.evict_deployment_id)
        λ u.
          bind-IsBalanced (fetch host random r.deployment_id) _
            (fetch-IsBalanced host random r.deployment_id)
            λ d.
              bind-IsBalanced (reads (λ registry. get_model registry r.model_id)) _ (λ p k. refl)
                λ model.
                  bind-IsBalanced (start_if_needed host random r request model d) _
                    (start_if_needed-IsBalanced host random r request model d)
                    λ target. serve-IsBalanced request target.0 model target.1

  decided :
      (request : ChatCompletionRequest) (named : Option ModelRecord)
      → IsBalanced (decide_route host random request named)
  unfolding decide_route
  decided request named p k = refl

  chat-keeps : (request : ChatCompletionRequest) → IsBalanced (chat host random request)
  unfolding chat
  chat-keeps request =
      bind-IsBalanced (resolve_model host random request) _
        (resolve-IsBalanced request request.model)
        λ named.
          bind-IsBalanced (decide_route host random request named) _ (decided request named)
            λ r p k.
              follow-IsBalanced request r (reserve_memory host random r p).1 k
              ∙ reserve_memory-IsBalanced r p k

  -- A chat request, whether it is answered or raises at any point, leaves every deployment's count
  -- of active requests as it found it.
  pub chat-IsBalanced :
      (request : ChatCompletionRequest) (p : Platform World) (id : String)
      → active_on (chat host random request p).1.concurrency_tracker id
        ≡ active_on p.concurrency_tracker id
  chat-IsBalanced request p id = active-observed _ _ id (chat-keeps request p id)
