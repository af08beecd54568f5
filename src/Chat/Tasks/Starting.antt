-- ===== src/Chat/Tasks/Starting.antt =====
-- The parts of a request that start a container: `deploy_vllm_container` of
-- llm_platform/services/chat.py as `chat` calls it, under the cold start lock and the boot lock.
use foundation_ai_platform.Prelude.{ℕ, zero, suc, Option, none, some, if◌then◌else◌}
use foundation_ai_platform.Exec.{Exec, pure, try_except, ◌>>=◌, ◌>>◌}
use foundation_ai_platform.Schemas.Enums.{is_ready}
use foundation_ai_platform.Schemas.Records.{ModelRecord, DeploymentRecord, RouteDecision}
use foundation_ai_platform.Schemas.Gateway.{ChatCompletionRequest}
use foundation_ai_platform.Registry.{get_deployment, update_deployment}
use foundation_ai_platform.Routing.Decision.{Random}
use foundation_ai_platform.Platform.{Host, Platform, Utilization, outside, reads, writes}
use foundation_ai_platform.Boot.{free_port, ports_from_8002, utilization, total_hardware_vram}
use foundation_ai_platform.Boot.Containers.{run_docker, adopt_port, give_up, discarding, booted}
use foundation_ai_platform.Chat.Starts.{at_deployment, start_failed}
use foundation_ai_platform.Chat.Tasks.{Task, running, polling, serving, serve_target}

module _ {World : Type 0} (host : Host World) (random : Random) where
  -- `except Exception as cold_start_error`, around each part of `deploy_vllm_container`.
  unfoldable pub or_failed :
      ChatCompletionRequest
      → RouteDecision
      → ModelRecord
      → Option DeploymentRecord
      → Exec (Platform World) Task
      → Exec (Platform World) Task
  unfolding serve_target
  or_failed q r m d body =
      try_except body
        (λ e. do target ← start_failed host random r q m d e; pure (serve_target q m target))

  unfoldable pub take_port :
      ChatCompletionRequest
      → RouteDecision
      → ModelRecord
      → Option DeploymentRecord
      → Exec (Platform World) Task
  take_port q r m d = do
    port ← free_port host ports_from_8002
    u ← λ p. (utilization (total_hardware_vram p.gpu_tracker) m.memory_requirement_gb, p)
    pure (running q r m d port u)

  unfoldable pub recheck :
      ChatCompletionRequest
      → RouteDecision
      → ModelRecord
      → Option DeploymentRecord
      → Exec (Platform World) Task
  unfolding take_port
  recheck q r m none = take_port q r m none
  recheck q r m (some d) = do
    refreshed ← reads (λ registry. get_deployment registry d.deployment_id)
    (if is_ready refreshed.status
        then pure (serving q (at_deployment host random r refreshed) m (some refreshed))
        else take_port q r m (some d))

  unfoldable pub begin_boot :
      ChatCompletionRequest
      → RouteDecision
      → ModelRecord
      → Option DeploymentRecord
      → Exec (Platform World) Task
  unfolding or_failed recheck
  begin_boot q r m d = or_failed q r m d (recheck q r m d)

  unfoldable pub run_on :
      ChatCompletionRequest
      → RouteDecision
      → ModelRecord
      → Option DeploymentRecord
      → ℕ
      → Utilization
      → Exec (Platform World) Task
  run_on q r m d port u = do
    actual ← discarding host port (outside (run_docker host m port u))
    port' ← adopt_port host port actual
    pure (polling q r m d port' 360)

  unfoldable pub run_docker_part :
      ChatCompletionRequest
      → RouteDecision
      → ModelRecord
      → Option DeploymentRecord
      → ℕ
      → Utilization
      → Exec (Platform World) Task
  unfolding or_failed run_on
  run_docker_part q r m d port u = or_failed q r m d (run_on q r m d port u)

  -- The container is healthy.
  unfoldable pub complete_boot :
      ChatCompletionRequest
      → RouteDecision
      → ModelRecord
      → Option DeploymentRecord
      → ℕ
      → Exec (Platform World) Task
  complete_boot q r m d port = do
    deployment ← booted host m port d
    writes (update_deployment deployment)
    pure (serving q (at_deployment host random r deployment) m (some deployment))

  -- One poll, or, after the last one, the end of the container.
  unfoldable pub poll_container :
      ChatCompletionRequest
      → RouteDecision
      → ModelRecord
      → Option DeploymentRecord
      → ℕ
      → ℕ
      → Exec (Platform World) Task
  unfolding complete_boot
  poll_container q r m d port zero = discarding host port (outside (give_up host m))
  poll_container q r m d port (suc n) = do
    answered ← discarding host port (outside (host.answers port))
    if answered then complete_boot q r m d port else pure (polling q r m d port n)

  unfoldable pub finish_boot :
      ChatCompletionRequest
      → RouteDecision
      → ModelRecord
      → Option DeploymentRecord
      → ℕ
      → ℕ
      → Exec (Platform World) Task
  unfolding or_failed poll_container
  finish_boot q r m d port n = or_failed q r m d (poll_container q r m d port n)
