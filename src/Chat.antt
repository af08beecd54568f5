-- ===== src/Chat.antt =====
-- ChatService of llm_platform/services/chat.py: the way of a chat request. The locks are left out,
-- since one request runs alone; so are the times of the telemetry event.
mod Tests
pub mod Onboarding
pub mod Decisions
pub mod Starts
pub mod Requests
pub mod Tasks
pub mod StartCounts
pub mod Counts
pub mod Keeping
pub mod Fallback
pub mod Failures
pub mod Prewarming
pub mod Startup
use foundation_ai_platform.Prelude.{
  ℕ, String, Bool, true, false, not, ◌&&◌, ◌||◌, Option, none, some, List, [], ◌∷◌, if◌then◌else◌,
  leb, ◌<>◌, ◌==◌, truthy, contains, or_else,
}
use foundation_ai_platform.Prelude.Int.{ℤ}
use foundation_ai_platform.Prelude.Dict.{Dict, lookup, insert}
use foundation_ai_platform.Prelude.Sorting.{sort}
use foundation_ai_platform.Exec.{
  Exec, Result, ok, err, routing, not_found, pure, raise, lift, gets, modify, try_except, ◌>>=◌,
  ◌>>◌,
}
use foundation_ai_platform.Value.{Value, text}
use foundation_ai_platform.Schemas.Enums.{DeploymentStatus, is_ready, is_broken}
use foundation_ai_platform.Schemas.Records.{
  ModelRecord, DeploymentRecord, LifecycleRecord, RouteDecision,
}
use foundation_ai_platform.Schemas.Gateway.{ChatCompletionRequest, ChatCompletionResponse}
use foundation_ai_platform.Concurrency.{ConcurrencyTracker, increment, decrement}
use foundation_ai_platform.Gpu.{GpuTracker}
use foundation_ai_platform.Gpu
use foundation_ai_platform.Lifecycle.{initialize, touch}
use foundation_ai_platform.Registry.{
  Registry, list_models, list_deployments, get_model, get_deployment, update_deployment,
  get_lifecycle, upsert_lifecycle,
}
use foundation_ai_platform.Platform.{
  Host, Platform, outside, reads, writes, release_memory, active_on, unload_deployment,
}
use foundation_ai_platform.Boot.Containers.{deploy_vllm_container}

-- `models.get(id)` of `{m.id: m for m in self._registry.list_models()}`, where a later model wins.
unfoldable pub model_by_id : List ModelRecord → Dict ModelRecord → Dict ModelRecord
model_by_id [] d = d
model_by_id (m ∷ ms) d = model_by_id ms (insert m.id m d)

unfoldable pub offers : String → Option ModelRecord → Bool
offers capability none = false
offers capability (some m) = contains capability m.capabilities

-- `candidates`, with each deployment's load.
unfoldable pub fallback_candidates :
    String
    → Dict ModelRecord
    → Option ConcurrencyTracker
    → List DeploymentRecord
    → List (ℕ × DeploymentRecord)
unfolding offers
fallback_candidates capability models tracker [] = []
fallback_candidates capability models tracker (d ∷ ds) =
    let rest = fallback_candidates capability models tracker ds in
    if is_ready d.status && offers capability (lookup d.model_id models)
    then (active_on tracker d.deployment_id, d) ∷ rest
    else rest

unfoldable pub lighter : ℕ × DeploymentRecord → ℕ × DeploymentRecord → Bool
lighter x y = leb x.0 y.0

unfoldable pub first_deployment : List (ℕ × DeploymentRecord) → Option DeploymentRecord
first_deployment [] = none
first_deployment (c ∷ cs) = some c.1

abbrev pub on_tracker :
    (ConcurrencyTracker → ConcurrencyTracker)
    → Option ConcurrencyTracker
    → Option ConcurrencyTracker
on_tracker f none = none
on_tracker f (some t) = some (f t)

module _ {World : Type 0} where
  unfoldable pub find_fallback_deployment : String → Platform World → Option DeploymentRecord
  unfolding fallback_candidates lighter first_deployment
  find_fallback_deployment capability p = first_deployment (
      sort lighter (
        fallback_candidates capability (model_by_id (list_models p.registry) [])
          p.concurrency_tracker (list_deployments p.registry)))

  -- `try: body` / `finally: last`, where `last` cannot raise.
  abbrev pub finally :
      {A : Type 0}
      → (Platform World → Platform World)
      → Exec (Platform World) A
      → Exec (Platform World) A
  finally last body p = let (r, q) = body p in (r, last q)

  -- `if self._concurrency_tracker and route.deployment_id: ...`
  unfoldable pub count_on :
      (String → ConcurrencyTracker → ConcurrencyTracker)
      → Option String
      → Platform World
      → Platform World
  count_on f none p = p
  count_on f (some id) p =
      if truthy id
      then record p { concurrency_tracker = on_tracker (f id) p.concurrency_tracker }
      else p

  -- The requests that run are counted around the call of the model server.
  unfoldable pub counted :
      {A : Type 0} → Option String → Exec (Platform World) A → Exec (Platform World) A
  unfolding count_on
  counted id body p = finally (count_on decrement id) body (count_on increment id p)

-- The record that a chat request names by its id or its name.
unfoldable pub find_named : String → List ModelRecord → Option ModelRecord
find_named name [] = none
find_named name (m ∷ ms) = if m.id == name || m.name == name then some m else find_named name ms

-- `password == "dhruv"`, where the password is the request's or, without one, its metadata's.
unfoldable pub is_password : Option Value → Bool
is_password (some (text s)) = s == "dhruv"
is_password _ = false

unfoldable pub may_onboard : ChatCompletionRequest → Bool
unfolding is_password
may_onboard request =
    let given = or_else request.password "" in
    if truthy given then given == "dhruv" else is_password (lookup "password" request.metadata)
