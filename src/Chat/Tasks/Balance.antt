-- ===== src/Chat/Tasks/Balance.antt =====
-- The parts of a request (Chat/Tasks, llm_platform/services/chat.py) around its answer, and the counts
-- of active requests.
use foundation_ai_platform.Prelude.{
  ℕ, zero, suc, refl, String, Bool-cases, inl, inr, truthy, or_else, Option, none, some,
}
use foundation_ai_platform.Exec.{Exec, pure, ◌>>=◌}
use foundation_ai_platform.Schemas.Enums.{is_ready, is_broken}
use foundation_ai_platform.Schemas.Records.{
  ModelRecord, DeploymentRecord, RouteDecision, ValidationReport,
}
use foundation_ai_platform.Schemas.Gateway.{ChatCompletionRequest}
use foundation_ai_platform.Registry.{list_models, get_model, get_deployment}
use foundation_ai_platform.Routing.Decision.{Random}
use foundation_ai_platform.Platform.{Host, Platform, Utilization, outside, reads}
use foundation_ai_platform.Boot.{free_port, ports_from_8002}
use foundation_ai_platform.Boot.Containers.{run_docker, adopt_port, give_up, discarding, booted}
use foundation_ai_platform.Boot.Counts.{
  free_port-IsBalanced, adopt_port-IsBalanced, discarding-IsBalanced, booted-IsBalanced,
}
use foundation_ai_platform.Balanced.{IsBalanced, bind-IsBalanced, try-IsBalanced, if-IsBalanced}
use foundation_ai_platform.Chat.{find_named, may_onboard}
use foundation_ai_platform.Chat.Onboarding.{checked_report, onboard_checked}
use foundation_ai_platform.Chat.Decisions.{decide_route, reserve_memory, evict, fetch}
use foundation_ai_platform.Chat.Starts.{fall_back, start_failed, mark_failed}
use foundation_ai_platform.Chat.StartCounts.{
  fetch-IsBalanced, fall_back-IsBalanced, mark_failed-IsBalanced,
}
use foundation_ai_platform.Chat.Counts.{
  report-IsBalanced, onboarded-IsBalanced, reserve_memory-IsBalanced, evict-IsBalanced,
}
use foundation_ai_platform.Chat.Tasks.{
  Task, resolve_part, part_named, part_request, onboard_part, decide_part, prepare_part,
  reuse_or_start, enter, serve_target,
}
use foundation_ai_platform.Chat.Tasks.Starting.{
  or_failed, take_port, recheck, begin_boot, run_on, run_docker_part, complete_boot, poll_container,
  finish_boot,
}

module _ {World : Type 0} (host : Host World) (random : Random) where
  named-IsBalanced :
      (q : ChatCompletionRequest) (name : String) (o : Option ModelRecord)
      → IsBalanced (part_named host random q name o)
  unfolding part_named
  named-IsBalanced q name (some m) = λ p k. refl
  named-IsBalanced q name none =
      if-IsBalanced (may_onboard q) _ _
        (bind-IsBalanced (checked_report host (or_else q.huggingface_id name)) _
          (report-IsBalanced host random (or_else q.huggingface_id name)) λ report p k. refl)
        (λ p k. refl)

  requested-IsBalanced :
      (q : ChatCompletionRequest) (name : Option String)
      → IsBalanced (part_request host random q name)
  unfolding part_request
  requested-IsBalanced q none p k = refl
  requested-IsBalanced q (some name) p k = elim (Bool-cases (truthy name)) [
    | inl t ↦ rw t (named-IsBalanced q name (find_named name (list_models p.registry)) p k)
    | inr f ↦ rw f refl
  ]

  pub resolving-IsBalanced : (q : ChatCompletionRequest) → IsBalanced (resolve_part host random q)
  unfolding resolve_part
  resolving-IsBalanced q = requested-IsBalanced q q.model

  pub onboard_part-IsBalanced :
      (q : ChatCompletionRequest) (repo : String) (report : ValidationReport)
      → IsBalanced (onboard_part host random q repo report)
  unfolding onboard_part
  onboard_part-IsBalanced q repo report =
      bind-IsBalanced (onboard_checked host repo none report) _
        (onboarded-IsBalanced host random repo none report) λ m p k. refl

  pub decide_part-IsBalanced :
      (q : ChatCompletionRequest) (named : Option ModelRecord)
      → IsBalanced (decide_part host random q named)
  unfolding decide_part decide_route
  decide_part-IsBalanced q named =
      bind-IsBalanced (decide_route host random q named) _ (λ p k. refl)
        λ r.
          bind-IsBalanced (reserve_memory host random r) _ (reserve_memory-IsBalanced host random r)
            λ u p k. refl

  pub prepare_part-IsBalanced :
      (q : ChatCompletionRequest) (r : RouteDecision) → IsBalanced (prepare_part host random q r)
  unfolding prepare_part
  prepare_part-IsBalanced q r =
      bind-IsBalanced (evict host random r.evict_deployment_id) _
        (evict-IsBalanced host random r.evict_deployment_id)
        λ u.
          bind-IsBalanced (fetch host random r.deployment_id) _
            (fetch-IsBalanced host random r.deployment_id)
            λ d.
              bind-IsBalanced (reads (λ registry. get_model registry r.model_id)) _ (λ p k. refl)
                λ m p k. refl

  reuse-IsBalanced :
      (q : ChatCompletionRequest) (r : RouteDecision) (m : ModelRecord)
      (d : Option DeploymentRecord)
      → IsBalanced (reuse_or_start host random q r m d)
  unfolding reuse_or_start
  reuse-IsBalanced q r m none = λ p k. refl
  reuse-IsBalanced q r m (some d) =
      if-IsBalanced (is_ready d.status) _ _ (λ p k. refl)
        (if-IsBalanced (is_broken d.status) _ _
          (bind-IsBalanced (fall_back host random r q _) _ (fall_back-IsBalanced host random r q _)
            λ t p k. refl)
          (λ p k. refl))

  pub enter-IsBalanced :
      (q : ChatCompletionRequest) (r : RouteDecision) (m : ModelRecord)
      → IsBalanced (enter host random q r m)
  unfolding enter
  enter-IsBalanced q r m =
      bind-IsBalanced (fetch host random r.deployment_id) _
        (fetch-IsBalanced host random r.deployment_id) λ d. reuse-IsBalanced q r m d

  failed-IsBalanced :
      (q : ChatCompletionRequest) (r : RouteDecision) (m : ModelRecord)
      (d : Option DeploymentRecord) (body : Exec (Platform World) Task)
      → IsBalanced body
      → IsBalanced (or_failed host random q r m d body)
  unfolding or_failed start_failed
  failed-IsBalanced q r m d body h =
      try-IsBalanced body
        (λ e. start_failed host random r q m d e >>= λ target. pure (serve_target q m target)) h
        λ e.
          bind-IsBalanced (start_failed host random r q m d e) _
            (bind-IsBalanced (mark_failed host random d) _ (mark_failed-IsBalanced host random d)
              λ u. fall_back-IsBalanced host random r q _)
            λ t p k. refl

  take_port-IsBalanced :
      (q : ChatCompletionRequest) (r : RouteDecision) (m : ModelRecord)
      (d : Option DeploymentRecord)
      → IsBalanced (take_port host random q r m d)
  unfolding take_port
  take_port-IsBalanced q r m d =
      bind-IsBalanced (free_port host ports_from_8002) _ (free_port-IsBalanced host ports_from_8002)
        λ port. bind-IsBalanced _ _ (λ p k. refl) λ u p k. refl

  recheck-IsBalanced :
      (q : ChatCompletionRequest) (r : RouteDecision) (m : ModelRecord)
      (d : Option DeploymentRecord)
      → IsBalanced (recheck host random q r m d)
  unfolding recheck
  recheck-IsBalanced q r m none = take_port-IsBalanced q r m none
  recheck-IsBalanced q r m (some d) =
      bind-IsBalanced (reads (λ registry. get_deployment registry d.deployment_id)) _ (λ p k. refl)
        λ x.
          if-IsBalanced (is_ready x.status) _ _ (λ p k. refl) (take_port-IsBalanced q r m (some d))

  pub begin_boot-IsBalanced :
      (q : ChatCompletionRequest) (r : RouteDecision) (m : ModelRecord)
      (d : Option DeploymentRecord)
      → IsBalanced (begin_boot host random q r m d)
  unfolding begin_boot
  begin_boot-IsBalanced q r m d = failed-IsBalanced q r m d _ (recheck-IsBalanced q r m d)

  run_on-IsBalanced :
      (q : ChatCompletionRequest) (r : RouteDecision) (m : ModelRecord)
      (d : Option DeploymentRecord) (port : ℕ) (u : Utilization)
      → IsBalanced (run_on host random q r m d port u)
  unfolding run_on
  run_on-IsBalanced q r m d port u =
      bind-IsBalanced (discarding host port (outside (run_docker host m port u))) _
        (discarding-IsBalanced host port (outside (run_docker host m port u)) (λ p k. refl))
        λ actual.
          bind-IsBalanced (adopt_port host port actual) _ (adopt_port-IsBalanced host port actual)
            λ port' p k. refl

  pub run_docker_part-IsBalanced :
      (q : ChatCompletionRequest) (r : RouteDecision) (m : ModelRecord)
      (d : Option DeploymentRecord) (port : ℕ) (u : Utilization)
      → IsBalanced (run_docker_part host random q r m d port u)
  unfolding run_docker_part
  run_docker_part-IsBalanced q r m d port u =
      failed-IsBalanced q r m d _ (run_on-IsBalanced q r m d port u)

  complete-IsBalanced :
      (q : ChatCompletionRequest) (r : RouteDecision) (m : ModelRecord)
      (d : Option DeploymentRecord) (port : ℕ)
      → IsBalanced (complete_boot host random q r m d port)
  unfolding complete_boot
  complete-IsBalanced q r m d port =
      bind-IsBalanced (booted host m port d) _ (booted-IsBalanced host m port d) λ x p k. refl

  polls-IsBalanced :
      (q : ChatCompletionRequest) (r : RouteDecision) (m : ModelRecord)
      (d : Option DeploymentRecord) (port n : ℕ)
      → IsBalanced (poll_container host random q r m d port n)
  unfolding poll_container
  polls-IsBalanced q r m d port zero =
      discarding-IsBalanced host port (outside (give_up host m)) (λ p k. refl)
  polls-IsBalanced q r m d port (suc n) =
      bind-IsBalanced (discarding host port (outside (host.answers port))) _
        (discarding-IsBalanced host port (outside (host.answers port)) (λ p k. refl))
        λ answered. if-IsBalanced answered _ _ (complete-IsBalanced q r m d port) (λ p k. refl)

  pub finish_boot-IsBalanced :
      (q : ChatCompletionRequest) (r : RouteDecision) (m : ModelRecord)
      (d : Option DeploymentRecord) (port n : ℕ)
      → IsBalanced (finish_boot host random q r m d port n)
  unfolding finish_boot
  finish_boot-IsBalanced q r m d port n =
      failed-IsBalanced q r m d _ (polls-IsBalanced q r m d port n)
