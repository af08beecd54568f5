-- ===== src/Chat/StartCounts.antt =====
-- The eviction and the cold start of `chat` (llm_platform/services/chat.py) leave the counts of
-- active requests.
use foundation_ai_platform.Prelude.{String, refl, Option, none, some, truthy}
use foundation_ai_platform.Prelude.Dict.{lookup}
use foundation_ai_platform.Exec.{pure, ◌>>=◌}
use foundation_ai_platform.Schemas.Enums.{is_ready, is_broken}
use foundation_ai_platform.Schemas.Records.{ModelRecord, DeploymentRecord, RouteDecision}
use foundation_ai_platform.Schemas.Gateway.{ChatCompletionRequest}
use foundation_ai_platform.Registry.{get_deployment}
use foundation_ai_platform.Routing.Decision.{Random}
use foundation_ai_platform.Platform.{Host, outside, reads, unload_deployment, remove_named}
use foundation_ai_platform.Boot.Containers.{deploy_vllm_container}
use foundation_ai_platform.Boot.Counts.{deploy-IsBalanced}
use foundation_ai_platform.Balanced.{IsBalanced, bind-IsBalanced, try-IsBalanced, if-IsBalanced}
use foundation_ai_platform.Chat.Decisions.{needs_start, fetch}
use foundation_ai_platform.Chat.Starts.{
  at_deployment, use_fallback, fall_back, mark_failed, start_failed, try_start, start_or_reuse,
  start_if_needed,
}

module _ {World : Type 0} (host : Host World) where
  pub unload-IsBalanced : (id : String) → IsBalanced (unload_deployment host id)
  unfolding unload_deployment
  unload-IsBalanced id =
      bind-IsBalanced (reads (λ r. get_deployment r id)) _ (λ p k. refl)
        λ d.
          bind-IsBalanced (outside (remove_named host (lookup "container_name" d.metadata))) _
            (λ p k. refl) λ u p k. refl

module _ {World : Type 0} (host : Host World) (random : Random) where
  pub fallback-IsBalanced :
      (r : RouteDecision) (message : String) (o : Option DeploymentRecord)
      → IsBalanced (use_fallback host random r message o)
  unfolding use_fallback
  fallback-IsBalanced r message none p k = refl
  fallback-IsBalanced r message (some d) p k = refl

  pub fall_back-IsBalanced :
      (r : RouteDecision) (request : ChatCompletionRequest) (message : String)
      → IsBalanced (fall_back host random r request message)
  unfolding fall_back
  fall_back-IsBalanced r request message p k = fallback-IsBalanced r message _ p k

  pub mark_failed-IsBalanced :
      (o : Option DeploymentRecord) → IsBalanced (mark_failed host random o)
  unfolding mark_failed
  mark_failed-IsBalanced none p k = refl
  mark_failed-IsBalanced (some d) p k = refl

  pub try_start-IsBalanced :
      (r : RouteDecision) (request : ChatCompletionRequest) (model : ModelRecord)
      (o : Option DeploymentRecord)
      → IsBalanced (try_start host random r request model o)
  unfolding try_start start_failed
  try_start-IsBalanced r request model o =
      try-IsBalanced
        (deploy_vllm_container host model o >>= λ d. pure (at_deployment host random r d, some d))
        (start_failed host random r request model o)
        (bind-IsBalanced (deploy_vllm_container host model o) _ (deploy-IsBalanced host model o)
          λ d p k. refl)
        λ e.
          bind-IsBalanced (mark_failed host random o) _ (mark_failed-IsBalanced o)
            λ u. fall_back-IsBalanced r request _

  pub start_or_reuse-IsBalanced :
      (r : RouteDecision) (request : ChatCompletionRequest) (model : ModelRecord)
      (o : Option DeploymentRecord)
      → IsBalanced (start_or_reuse host random r request model o)
  unfolding start_or_reuse
  start_or_reuse-IsBalanced r request model none = try_start-IsBalanced r request model none
  start_or_reuse-IsBalanced r request model (some d) =
      if-IsBalanced (is_ready d.status) _ _ (λ p k. refl)
        (if-IsBalanced (is_broken d.status) _ _ (fall_back-IsBalanced r request _)
          (try_start-IsBalanced r request model (some d)))

  pub fetch-IsBalanced : (o : Option String) → IsBalanced (fetch host random o)
  unfolding fetch
  fetch-IsBalanced none p k = refl
  fetch-IsBalanced (some id) p k =
      if-IsBalanced (truthy id) _ _
        (bind-IsBalanced (reads (λ r. get_deployment r id)) _ (λ p k. refl) λ d p k. refl)
        (λ p k. refl) p k

  pub start_if_needed-IsBalanced :
      (r : RouteDecision) (request : ChatCompletionRequest) (model : ModelRecord)
      (o : Option DeploymentRecord)
      → IsBalanced (start_if_needed host random r request model o)
  unfolding start_if_needed
  start_if_needed-IsBalanced r request model o =
      if-IsBalanced (needs_start r) _ _
        (bind-IsBalanced (fetch host random r.deployment_id) _ (fetch-IsBalanced r.deployment_id)
          λ again. start_or_reuse-IsBalanced r request model again)
        (λ p k. refl)
