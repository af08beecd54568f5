-- ===== src/Chat/Starts.antt =====
-- The cold start in `chat` (llm_platform/services/chat.py), and what follows when it fails.
use foundation_ai_platform.Prelude.{String, Option, none, some, if◌then◌else◌, ◌<>◌}
use foundation_ai_platform.Exec.{Error, Exec, routing, pure, raise, try_except, ◌>>=◌, ◌>>◌}
use foundation_ai_platform.Schemas.Enums.{DeploymentStatus, is_ready, is_broken}
use foundation_ai_platform.Schemas.Records.{ModelRecord, DeploymentRecord, RouteDecision}
use foundation_ai_platform.Schemas.Gateway.{ChatCompletionRequest}
use foundation_ai_platform.Registry.{update_deployment}
use foundation_ai_platform.Routing.Decision.{Random}
use foundation_ai_platform.Platform.{Host, Platform, writes, release_memory}
use foundation_ai_platform.Boot.Containers.{deploy_vllm_container}
use foundation_ai_platform.Chat.{find_fallback_deployment}
use foundation_ai_platform.Chat.Decisions.{needs_start, fetch}

module _ {World : Type 0} (host : Host World) (random : Random) where
  unfoldable pub at_deployment : RouteDecision → DeploymentRecord → RouteDecision
  at_deployment r d = record r { deployment_id = some d.deployment_id; endpoint = some d.endpoint }

  -- Queues on a deployment that runs.
  unfoldable pub use_fallback :
      RouteDecision
      → String
      → Option DeploymentRecord
      → Exec (Platform World) (RouteDecision × Option DeploymentRecord)
  unfolding at_deployment
  use_fallback r message none = raise (routing message)
  use_fallback r message (some d) = pure (at_deployment r d, some d)

  unfoldable pub fall_back :
      RouteDecision
      → ChatCompletionRequest
      → String
      → Exec (Platform World) (RouteDecision × Option DeploymentRecord)
  unfolding use_fallback
  fall_back r request message p =
      use_fallback r message (find_fallback_deployment request.capability p) p

  -- A start that failed gives its memory back, and the router skips the deployment from now on.
  unfoldable pub mark_failed : Option DeploymentRecord → Exec (Platform World) (Unit {0})
  mark_failed none = pure tt
  mark_failed (some d) = do
    release_memory d.deployment_id
    writes (update_deployment (record d { status = DeploymentStatus.failed }))

  unfoldable pub start_failed :
      RouteDecision
      → ChatCompletionRequest
      → ModelRecord
      → Option DeploymentRecord
      → Error
      → Exec (Platform World) (RouteDecision × Option DeploymentRecord)
  unfolding mark_failed fall_back
  start_failed r request model existing e = do
    mark_failed existing
    fall_back r request (
        "Cold start failed for " <> model.name
        <> " and no fallback deployment is available for capability: " <> request.capability)

  unfoldable pub try_start :
      RouteDecision
      → ChatCompletionRequest
      → ModelRecord
      → Option DeploymentRecord
      → Exec (Platform World) (RouteDecision × Option DeploymentRecord)
  unfolding at_deployment start_failed
  try_start r request model existing =
      try_except
        (do d ← deploy_vllm_container host model existing; pure (at_deployment r d, some d))
        (start_failed r request model existing)

  -- The body under the model's lock.
  unfoldable pub start_or_reuse :
      RouteDecision
      → ChatCompletionRequest
      → ModelRecord
      → Option DeploymentRecord
      → Exec (Platform World) (RouteDecision × Option DeploymentRecord)
  unfolding try_start fall_back
  start_or_reuse r request model none = try_start r request model none
  start_or_reuse r request model (some d) =
      if is_ready d.status
      then pure (record r { endpoint = some d.endpoint }, some d)
      else if is_broken d.status
      then fall_back r request
          ("No running deployment available for capability: " <> request.capability)
      else try_start r request model (some d)

  unfoldable pub start_if_needed :
      RouteDecision
      → ChatCompletionRequest
      → ModelRecord
      → Option DeploymentRecord
      → Exec (Platform World) (RouteDecision × Option DeploymentRecord)
  unfolding needs_start fetch start_or_reuse
  start_if_needed r request model deployment =
      if needs_start r
      then (do again ← fetch host random r.deployment_id; start_or_reuse r request model again)
      else pure (r, deployment)
