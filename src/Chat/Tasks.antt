-- ===== src/Chat/Tasks.antt =====
-- Concurrent requests to `chat` (llm_platform/services/chat.py). A request is cut into parts at the
-- awaits at which another one may run: at the locks, at the downloads of a model, at the container and
-- each poll of it, and at the answer; a call takes effect at the moment at which its await ends, with
-- what follows it up to the next await. It is also cut where a stage of `chat` is over.
-- `_routing_lock` and `_port_lock` are held over no await, so nothing ever waits for them. A record
-- that was read is a copy, as the SQLAlchemy repositories hand it out.
pub mod Starting
pub mod Advance
pub mod Interleaving
pub mod Outcomes
pub mod Balance
pub mod Counted
pub mod Keeping
pub mod Kept
pub mod Moves
pub mod Safety
pub mod Protection
pub mod Progress
pub mod Completion
mod Tests
use foundation_ai_platform.Prelude.{
  ℕ, String, Bool, true, false, Option, none, some, List, [], ◌∷◌, ◌<>◌, if◌then◌else◌, truthy,
  or_else,
}
use foundation_ai_platform.Prelude.Int.{ℤ}
use foundation_ai_platform.Prelude.Dict.{Dict, get_or, insert}
use foundation_ai_platform.Exec.{
  Error, Exec, Result, ok, err, not_found, pure, raise, lift, modify, try_except, ◌>>=◌, ◌>>◌,
}
use foundation_ai_platform.Schemas.Enums.{is_ready, is_broken}
use foundation_ai_platform.Schemas.Records.{
  ModelRecord, DeploymentRecord, RouteDecision, ValidationReport,
}
use foundation_ai_platform.Schemas.Gateway.{ChatCompletionRequest, ChatCompletionResponse}
use foundation_ai_platform.Concurrency.{increment, decrement}
use foundation_ai_platform.Registry.{list_models, get_model, get_deployment, update_deployment}
use foundation_ai_platform.Routing.Decision.{Random}
use foundation_ai_platform.Platform.{Host, Platform, Utilization, outside, reads, writes}
use foundation_ai_platform.Boot.{free_port, ports_from_8002, utilization, total_hardware_vram}
use foundation_ai_platform.Boot.Containers.{run_docker, adopt_port, wait_ready, discarding, booted}
use foundation_ai_platform.Chat.{count_on, find_named, may_onboard}
use foundation_ai_platform.Chat.Onboarding.{checked_report, onboard_checked}
use foundation_ai_platform.Chat.Decisions.{needs_start, decide_route, reserve_memory, evict, fetch}
use foundation_ai_platform.Chat.Starts.{at_deployment, fall_back, start_failed}
use foundation_ai_platform.Chat.Requests.{touch_lifecycle, answer, emit}

-- Where a request stands.
pub data Task : Type 0 where
  arriving : ChatCompletionRequest → Task
  -- the files of a model that is not registered are downloaded
  onboarding : ChatCompletionRequest → String → ValidationReport → Task
  resolved : ChatCompletionRequest → Option ModelRecord → Task
  decided : ChatCompletionRequest → RouteDecision → Task
  -- before the cold start lock of the model
  waiting : ChatCompletionRequest → RouteDecision → ModelRecord → Task
  -- under it, before the global boot lock
  starting : ChatCompletionRequest → RouteDecision → ModelRecord → Option DeploymentRecord → Task
  -- under both: the container is to be run on the port, and is polled so many times more
  running :
      ChatCompletionRequest
      → RouteDecision
      → ModelRecord
      → Option DeploymentRecord
      → ℕ
      → Utilization
      → Task
  polling :
      ChatCompletionRequest → RouteDecision → ModelRecord → Option DeploymentRecord → ℕ → ℕ → Task
  serving : ChatCompletionRequest → RouteDecision → ModelRecord → Option DeploymentRecord → Task
  generating : ChatCompletionRequest → RouteDecision → ModelRecord → Option DeploymentRecord → Task
  done : Result ChatCompletionResponse → Task

-- What the requests share. A lock that is in the dict is held or free.
pub record Shared (World : Type 0) : Type 0 where
  pub platform : Platform World
  pub cold_start_locks : Dict Bool
  pub global_boot_lock : Bool

-- Whether a request is inside the cold start lock of its model, and inside the boot lock.
unfoldable pub starts : Task → Bool
starts (starting q r m d) = true
starts (running q r m d port u) = true
starts (polling q r m d port n) = true
starts _ = false

unfoldable pub boots : Task → Bool
boots (running q r m d port u) = true
boots (polling q r m d port n) = true
boots _ = false

-- An exception ends the request.
abbrev pub task_of : Result Task → Task
task_of (ok t) = t
task_of (err e) = done (err e)

-- The request goes on at the deployment that was found for it.
unfoldable pub serve_target :
    ChatCompletionRequest → ModelRecord → RouteDecision × Option DeploymentRecord → Task
serve_target q m target = serving q target.0 m target.1

module _ {World : Type 0} (host : Host World) (random : Random) where
  part_named : ChatCompletionRequest → String → Option ModelRecord → Exec (Platform World) Task
  part_named q name (some m) = pure (resolved q (some m))
  part_named q name none =
      let repo = or_else q.huggingface_id name in
      if may_onboard q
      then (do report ← checked_report host repo; pure (onboarding q repo report))
      else raise (not_found ("Requested model was not found in registry: " <> name))

  part_request : ChatCompletionRequest → Option String → Exec (Platform World) Task
  unfolding part_named
  part_request q none p = pure (resolved q none) p
  part_request q (some name) p =
      if truthy name
      then part_named q name (find_named name (list_models p.registry)) p
      else pure (resolved q none) p

  unfoldable pub resolve_part : ChatCompletionRequest → Exec (Platform World) Task
  unfolding part_request
  resolve_part q = part_request q q.model

  -- The rest of `onboard_model`, once the downloads are there.
  unfoldable pub onboard_part :
      ChatCompletionRequest → String → ValidationReport → Exec (Platform World) Task
  onboard_part q repo report = do
    model ← onboard_checked host repo none report
    pure (resolved q (some model))

  unfoldable pub decide_part :
      ChatCompletionRequest → Option ModelRecord → Exec (Platform World) Task
  decide_part q named = do
    r ← decide_route host random q named
    reserve_memory host random r
    pure (decided q r)

  unfoldable pub prepare_part : ChatCompletionRequest → RouteDecision → Exec (Platform World) Task
  prepare_part q r = do
    evict host random r.evict_deployment_id
    d ← fetch host random r.deployment_id
    model ← reads (λ registry. get_model registry r.model_id)
    pure (if needs_start r then waiting q r model else serving q r model d)

  reuse_or_start :
      ChatCompletionRequest
      → RouteDecision
      → ModelRecord
      → Option DeploymentRecord
      → Exec (Platform World) Task
  unfolding serve_target
  reuse_or_start q r m none = pure (starting q r m none)
  reuse_or_start q r m (some d) =
      if is_ready d.status
      then pure (serving q (record r { endpoint = some d.endpoint }) m (some d))
      else if is_broken d.status
      then (do
        target ←
            fall_back host random r q
              ("No running deployment available for capability: " <> q.capability)
        pure (serve_target q m target))
      else pure (starting q r m (some d))

  -- The first part of the body under the model's lock.
  unfoldable pub enter :
      ChatCompletionRequest → RouteDecision → ModelRecord → Exec (Platform World) Task
  unfolding reuse_or_start
  enter q r m = do again ← fetch host random r.deployment_id; reuse_or_start q r m again

  unfoldable pub begin_answer :
      ChatCompletionRequest
      → RouteDecision
      → ModelRecord
      → Option DeploymentRecord
      → Exec (Platform World) Task
  begin_answer q r m d = do
    touch_lifecycle host random r.deployment_id d
    modify (count_on increment r.deployment_id)
    pure (generating q r m d)

  -- The telemetry and the response, if the model server has answered.
  unfoldable pub close :
      ChatCompletionRequest
      → RouteDecision
      → ModelRecord
      → Result String
      → Exec (Platform World) Task
  close q r m message = do
    text ← lift message
    emit host random q r m text
    pure (
        done (
          ok
            (record { request_id = q.request_id; status = "accepted"; route = r; message = text })))

  -- The count is taken back whether or not the model server has answered.
  unfoldable pub end_answer :
      ChatCompletionRequest
      → RouteDecision
      → ModelRecord
      → Option DeploymentRecord
      → Exec (Platform World) Task
  unfolding close
  end_answer q r m d p =
      let (message, p') = answer host random q d p in
      close q r m message (count_on decrement r.deployment_id p')
