-- ===== src/Chat/Decisions.antt =====
-- The first steps of `chat` (llm_platform/services/chat.py): the model, the decision, the memory and
-- the eviction.
use foundation_ai_platform.Prelude.{
  String, Bool, ◌||◌, Option, none, some, List, [], ◌∷◌, if◌then◌else◌, ◌<>◌, ◌==◌, truthy, or_else,
}
use foundation_ai_platform.Exec.{Exec, not_found, pure, raise, modify, ◌>>=◌, ◌>>◌}
use foundation_ai_platform.Schemas.Records.{
  ModelRecord, DeploymentRecord, LifecycleRecord, RouteDecision,
}
use foundation_ai_platform.Schemas.Gateway.{ChatCompletionRequest}
use foundation_ai_platform.Gpu.{GpuTracker, allocate}
use foundation_ai_platform.Registry.{
  Registry, list_models, list_deployments, get_deployment, get_lifecycle,
}
use foundation_ai_platform.Routing.Decision.{Random, route}
use foundation_ai_platform.Platform.{Host, Platform, reads, release_memory, unload_deployment}
use foundation_ai_platform.Chat.{find_named, may_onboard}
use foundation_ai_platform.Chat.Onboarding.{onboard_model}

-- The lifecycle records of the deployments that have one.
unfoldable pub records_of : Registry → List DeploymentRecord → List LifecycleRecord
records_of r [] = []
records_of r (d ∷ ds) =
    let rest = records_of r ds in
    elim (get_lifecycle r d.deployment_id) [ none ↦ rest | some l ↦ l ∷ rest ]

unfoldable pub find_model : String → List ModelRecord → Option ModelRecord
find_model id [] = none
find_model id (m ∷ ms) = if m.id == id then some m else find_model id ms

abbrev pub reserve_on : String → ModelRecord → Option GpuTracker → Option GpuTracker
reserve_on id model none = none
reserve_on id model (some t) = some (allocate id model.memory_requirement_gb t)

unfoldable pub needs_start : RouteDecision → Bool
needs_start r = r.requires_cold_start || r.requires_new_instance

unfoldable pub preferred_id : Option ModelRecord → Option String
preferred_id none = none
preferred_id (some m) = some m.id

module _ {World : Type 0} (host : Host World) (random : Random) where
  unfoldable pub resolve_named :
      ChatCompletionRequest
      → String
      → Option ModelRecord
      → Exec (Platform World) (Option ModelRecord)
  resolve_named request name (some m) = pure (some m)
  resolve_named request name none =
      if may_onboard request
      then (do
        model ← onboard_model host (or_else request.huggingface_id name) none
        pure (some model))
      else raise (not_found ("Requested model was not found in registry: " <> name))

  unfoldable pub resolve_request :
      ChatCompletionRequest → Option String → Exec (Platform World) (Option ModelRecord)
  unfolding resolve_named
  resolve_request request none p = pure none p
  resolve_request request (some name) p =
      if truthy name
      then resolve_named request name (find_named name (list_models p.registry)) p
      else pure none p

  unfoldable pub resolve_model : ChatCompletionRequest → Exec (Platform World) (Option ModelRecord)
  unfolding resolve_request
  resolve_model request = resolve_request request request.model

  unfoldable pub decide_route :
      ChatCompletionRequest → Option ModelRecord → Exec (Platform World) RouteDecision
  unfolding records_of preferred_id
  decide_route request model p = (
    route random (record { gpu = p.gpu_tracker; concurrency = p.concurrency_tracker })
        (record {
          capability = request.capability;
          preferred_model_id = preferred_id model;
          registry = some p.registry;
        })
        (list_models p.registry) (list_deployments p.registry)
        (records_of p.registry (list_deployments p.registry)),
    p,
  )

  unfoldable pub reserve_for :
      RouteDecision → Option String → Option ModelRecord → Platform World → Platform World
  reserve_for r none m p = p
  reserve_for r (some id) none p = p
  reserve_for r (some id) (some m) p =
      if truthy id then record p { gpu_tracker = reserve_on id m p.gpu_tracker } else p

  unfoldable pub reserve_memory : RouteDecision → Exec (Platform World) (Unit {0})
  unfolding needs_start find_model reserve_for
  reserve_memory r = modify (λ p.
      if needs_start r
      then reserve_for r r.deployment_id (find_model r.model_id (list_models p.registry)) p
      else p)

  unfoldable pub evict : Option String → Exec (Platform World) (Unit {0})
  evict none = pure tt
  evict (some id) = if truthy id then (do unload_deployment host id; release_memory id) else pure tt

  unfoldable pub fetch : Option String → Exec (Platform World) (Option DeploymentRecord)
  fetch none = pure none
  fetch (some id) =
      if truthy id then (do d ← reads (λ r. get_deployment r id); pure (some d)) else pure none
