-- ===== src/Chat/Requests.antt =====
-- `chat` (llm_platform/services/chat.py): the lifecycle record, the answer, the telemetry and the whole.
use foundation_ai_platform.Prelude.{
  String, Bool, false, Option, none, some, [], ◌∷◌, if◌then◌else◌, truthy, leb, ◌++◌,
}
use foundation_ai_platform.Prelude.Texts.{word_count}
use foundation_ai_platform.Exec.{Exec, other, pure, raise, modify, ◌>>=◌, ◌>>◌}
use foundation_ai_platform.Schemas.Records.{
  ModelRecord, DeploymentRecord, LifecycleRecord, RouteDecision,
}
use foundation_ai_platform.Schemas.Gateway.{ChatCompletionRequest, ChatCompletionResponse}
use foundation_ai_platform.Lifecycle.{initialize, touch}
use foundation_ai_platform.Registry.{get_model, get_lifecycle, upsert_lifecycle}
use foundation_ai_platform.Routing.Decision.{Random}
use foundation_ai_platform.Platform.{Host, Platform, outside, reads, writes}
use foundation_ai_platform.Chat.{counted}
use foundation_ai_platform.Chat.Decisions.{
  resolve_model, decide_route, reserve_memory, evict, fetch,
}
use foundation_ai_platform.Chat.Starts.{start_if_needed}

module _ {World : Type 0} (host : Host World) (random : Random) where
  unfoldable pub touched :
      Option LifecycleRecord → Option DeploymentRecord → Exec (Platform World) (Unit {0})
  touched (some l) d p = writes (upsert_lifecycle (touch (host.now p.world) l)) p
  touched none none p = raise (other "'NoneType' object has no attribute 'deployment_id'") p
  touched none (some d) p = writes (upsert_lifecycle (initialize (host.now p.world) d)) p

  unfoldable pub touch_lifecycle :
      Option String → Option DeploymentRecord → Exec (Platform World) (Unit {0})
  unfolding touched
  touch_lifecycle none d p = touched none d p
  touch_lifecycle (some id) d p = touched (get_lifecycle p.registry id) d p

  unfoldable pub answer :
      ChatCompletionRequest → Option DeploymentRecord → Exec (Platform World) String
  answer request none = raise (other "'NoneType' object has no attribute 'deployment_id'")
  answer request (some d) = outside (host.generate d request)

  unfoldable pub has_head : Option String → Bool
  has_head none = false
  has_head (some head) = truthy head

  unfoldable pub id_text : Option String → String
  id_text none = ""
  id_text (some id) = id

  unfoldable pub emit :
      ChatCompletionRequest
      → RouteDecision
      → ModelRecord
      → String
      → Exec (Platform World) (Unit {0})
  unfolding has_head id_text
  emit request r model message =
      let words = word_count message in
      modify (λ p. record p {
        events =
            p.events
            ++ record {
              request_id = request.request_id;
              deployment_id = id_text r.deployment_id;
              model_name = model.name;
              completion_tokens = if leb words 1 then 1 else words;
              speculative_decoding = has_head model.vllm_eagle_head;
              cold_start = r.requires_cold_start;
              new_instance = r.requires_new_instance;
              evicted = r.evict_deployment_id;
            }
              ∷ [];
      })

  -- From the decision on.
  unfoldable pub serve :
      ChatCompletionRequest
      → RouteDecision
      → ModelRecord
      → Option DeploymentRecord
      → Exec (Platform World) ChatCompletionResponse
  unfolding touch_lifecycle answer emit
  serve request r model d = do
    touch_lifecycle r.deployment_id d
    message ← counted r.deployment_id (answer request d)
    emit request r model message
    pure (record {
      request_id = request.request_id;
      status = "accepted";
      route = r;
      message = message;
    })

  -- From the eviction on.
  unfoldable pub follow :
      ChatCompletionRequest → RouteDecision → Exec (Platform World) ChatCompletionResponse
  unfolding evict fetch start_if_needed serve
  follow request r = do
    evict host random r.evict_deployment_id
    deployment ← fetch host random r.deployment_id
    model ← reads (λ registry. get_model registry r.model_id)
    target ← start_if_needed host random r request model deployment
    serve request target.0 model target.1

  unfoldable pub chat : ChatCompletionRequest → Exec (Platform World) ChatCompletionResponse
  unfolding resolve_model decide_route reserve_memory follow
  chat request = do
    named ← resolve_model host random request
    r ← decide_route host random request named
    reserve_memory host random r
    follow request r
