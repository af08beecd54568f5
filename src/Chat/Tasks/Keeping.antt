-- ===== src/Chat/Tasks/Keeping.antt =====
-- The parts of a request (Chat/Tasks, llm_platform/services/chat.py) and the well-formedness of the
-- state.
use foundation_ai_platform.Prelude.{ℕ, zero, suc, or_else, Option, none, some}
use foundation_ai_platform.Exec.{Exec, pure, ◌>>=◌}
use foundation_ai_platform.Schemas.Enums.{is_ready, is_broken}
use foundation_ai_platform.Schemas.Records.{
  ModelRecord, DeploymentRecord, RouteDecision, ValidationReport,
}
use foundation_ai_platform.Schemas.Gateway.{ChatCompletionRequest}
use foundation_ai_platform.Registry.{list_models, get_model, get_deployment}
use foundation_ai_platform.Routing.Decision.{Random}
use foundation_ai_platform.Platform.{Host, Platform, Utilization, outside, reads}
use foundation_ai_platform.Boot.{free_port, ports_from_8002}
use foundation_ai_platform.Boot.Containers.{run_docker, adopt_port, give_up, discarding, booted}
use foundation_ai_platform.Boot.Keeping.{
  free_port-IsKeeping, adopt_port-IsKeeping, discarding-IsKeeping, booted-IsKeeping,
}
use foundation_ai_platform.WellFormed.{
  IsKeeping, outside-IsKeeping, update-IsKeeping, bind-IsKeeping, try-IsKeeping, if-IsKeeping,
}
use foundation_ai_platform.Chat.Decisions.{decide_route, reserve_memory, evict, fetch}
use foundation_ai_platform.Chat.Starts.{fall_back, start_failed, mark_failed}
use foundation_ai_platform.Chat.Requests.{touch_lifecycle, answer, emit}
use foundation_ai_platform.Concurrency.{increment, decrement}
use foundation_ai_platform.Chat.{count_on, find_named, may_onboard}
use foundation_ai_platform.Chat.Onboarding.{checked_report, onboard_checked}
use foundation_ai_platform.Chat.Keeping.{
  fetch-IsKeeping, fall_back-IsKeeping, mark_failed-IsKeeping, report-IsKeeping,
  onboarded-IsKeeping, reserve_memory-IsKeeping, evict-IsKeeping, touch-IsKeeping, answer-IsKeeping,
}
use foundation_ai_platform.Exec.{Result, ok, err}
use foundation_ai_platform.Prelude.{String, Bool-cases, inl, inr, truthy}
use foundation_ai_platform.Platform.{IsWellFormed}
use foundation_ai_platform.Chat.Tasks.{
  begin_answer, end_answer, close, Task, resolve_part, part_named, part_request, onboard_part,
  decide_part, prepare_part, reuse_or_start, enter, serve_target,
}
use foundation_ai_platform.Chat.Tasks.Starting.{
  or_failed, take_port, recheck, begin_boot, run_on, run_docker_part, complete_boot, poll_container,
  finish_boot,
}

module _ {World : Type 0} (host : Host World) (random : Random) where
  named-IsKeeping :
      (q : ChatCompletionRequest) (name : String) (o : Option ModelRecord)
      → IsKeeping (part_named host random q name o)
  unfolding part_named
  named-IsKeeping q name (some m) = λ p w. w
  named-IsKeeping q name none =
      if-IsKeeping (may_onboard q) _ _
        (bind-IsKeeping (checked_report host (or_else q.huggingface_id name)) _
          (report-IsKeeping host random (or_else q.huggingface_id name)) λ report p w. w)
        (λ p w. w)

  requested-IsKeeping :
      (q : ChatCompletionRequest) (name : Option String)
      → IsKeeping (part_request host random q name)
  unfolding part_request
  requested-IsKeeping q none p w = w
  requested-IsKeeping q (some name) p w = elim (Bool-cases (truthy name)) [
    | inl t ↦ rw t (named-IsKeeping q name (find_named name (list_models p.registry)) p w)
    | inr f ↦ rw f w
  ]

  pub resolving-IsKeeping : (q : ChatCompletionRequest) → IsKeeping (resolve_part host random q)
  unfolding resolve_part
  resolving-IsKeeping q = requested-IsKeeping q q.model

  pub onboard_part-IsKeeping :
      (q : ChatCompletionRequest) (repo : String) (report : ValidationReport)
      → IsKeeping (onboard_part host random q repo report)
  unfolding onboard_part
  onboard_part-IsKeeping q repo report =
      bind-IsKeeping (onboard_checked host repo none report) _
        (onboarded-IsKeeping host random repo none report) λ m p w. w

  pub decide_part-IsKeeping :
      (q : ChatCompletionRequest) (named : Option ModelRecord)
      → IsKeeping (decide_part host random q named)
  unfolding decide_part decide_route
  decide_part-IsKeeping q named =
      bind-IsKeeping (decide_route host random q named) _ (λ p w. w)
        λ r.
          bind-IsKeeping (reserve_memory host random r) _ (reserve_memory-IsKeeping host random r)
            λ u p w. w

  pub prepare_part-IsKeeping :
      (q : ChatCompletionRequest) (r : RouteDecision) → IsKeeping (prepare_part host random q r)
  unfolding prepare_part
  prepare_part-IsKeeping q r =
      bind-IsKeeping (evict host random r.evict_deployment_id) _
        (evict-IsKeeping host random r.evict_deployment_id)
        λ u.
          bind-IsKeeping (fetch host random r.deployment_id) _
            (fetch-IsKeeping host random r.deployment_id)
            λ d.
              bind-IsKeeping (reads (λ registry. get_model registry r.model_id)) _ (λ p w. w)
                λ m p w. w

  reuse-IsKeeping :
      (q : ChatCompletionRequest) (r : RouteDecision) (m : ModelRecord)
      (d : Option DeploymentRecord)
      → IsKeeping (reuse_or_start host random q r m d)
  unfolding reuse_or_start
  reuse-IsKeeping q r m none = λ p w. w
  reuse-IsKeeping q r m (some d) =
      if-IsKeeping (is_ready d.status) _ _ (λ p w. w)
        (if-IsKeeping (is_broken d.status) _ _
          (bind-IsKeeping (fall_back host random r q _) _ (fall_back-IsKeeping host random r q _)
            λ t p w. w)
          (λ p w. w))

  pub enter-IsKeeping :
      (q : ChatCompletionRequest) (r : RouteDecision) (m : ModelRecord)
      → IsKeeping (enter host random q r m)
  unfolding enter
  enter-IsKeeping q r m =
      bind-IsKeeping (fetch host random r.deployment_id) _
        (fetch-IsKeeping host random r.deployment_id) λ d. reuse-IsKeeping q r m d

  failed-IsKeeping :
      (q : ChatCompletionRequest) (r : RouteDecision) (m : ModelRecord)
      (d : Option DeploymentRecord) (body : Exec (Platform World) Task)
      → IsKeeping body
      → IsKeeping (or_failed host random q r m d body)
  unfolding or_failed start_failed
  failed-IsKeeping q r m d body h =
      try-IsKeeping body
        (λ e. start_failed host random r q m d e >>= λ target. pure (serve_target q m target)) h
        λ e.
          bind-IsKeeping (start_failed host random r q m d e) _
            (bind-IsKeeping (mark_failed host random d) _ (mark_failed-IsKeeping host random d)
              λ u. fall_back-IsKeeping host random r q _)
            λ t p w. w

  take_port-IsKeeping :
      (q : ChatCompletionRequest) (r : RouteDecision) (m : ModelRecord)
      (d : Option DeploymentRecord)
      → IsKeeping (take_port host random q r m d)
  unfolding take_port
  take_port-IsKeeping q r m d =
      bind-IsKeeping (free_port host ports_from_8002) _ (free_port-IsKeeping host ports_from_8002)
        λ port. bind-IsKeeping _ _ (λ p w. w) λ u p w. w

  recheck-IsKeeping :
      (q : ChatCompletionRequest) (r : RouteDecision) (m : ModelRecord)
      (d : Option DeploymentRecord)
      → IsKeeping (recheck host random q r m d)
  unfolding recheck
  recheck-IsKeeping q r m none = take_port-IsKeeping q r m none
  recheck-IsKeeping q r m (some d) =
      bind-IsKeeping (reads (λ registry. get_deployment registry d.deployment_id)) _ (λ p w. w)
        λ x. if-IsKeeping (is_ready x.status) _ _ (λ p w. w) (take_port-IsKeeping q r m (some d))

  pub begin_boot-IsKeeping :
      (q : ChatCompletionRequest) (r : RouteDecision) (m : ModelRecord)
      (d : Option DeploymentRecord)
      → IsKeeping (begin_boot host random q r m d)
  unfolding begin_boot
  begin_boot-IsKeeping q r m d = failed-IsKeeping q r m d _ (recheck-IsKeeping q r m d)

  run_on-IsKeeping :
      (q : ChatCompletionRequest) (r : RouteDecision) (m : ModelRecord)
      (d : Option DeploymentRecord) (port : ℕ) (u : Utilization)
      → IsKeeping (run_on host random q r m d port u)
  unfolding run_on
  run_on-IsKeeping q r m d port u =
      bind-IsKeeping (discarding host port (outside (run_docker host m port u))) _
        (discarding-IsKeeping host port (outside (run_docker host m port u))
          (outside-IsKeeping (run_docker host m port u)))
        λ actual.
          bind-IsKeeping (adopt_port host port actual) _ (adopt_port-IsKeeping host port actual)
            λ port' p w. w

  pub run_docker_part-IsKeeping :
      (q : ChatCompletionRequest) (r : RouteDecision) (m : ModelRecord)
      (d : Option DeploymentRecord) (port : ℕ) (u : Utilization)
      → IsKeeping (run_docker_part host random q r m d port u)
  unfolding run_docker_part
  run_docker_part-IsKeeping q r m d port u =
      failed-IsKeeping q r m d _ (run_on-IsKeeping q r m d port u)

  complete-IsKeeping :
      (q : ChatCompletionRequest) (r : RouteDecision) (m : ModelRecord)
      (d : Option DeploymentRecord) (port : ℕ)
      → IsKeeping (complete_boot host random q r m d port)
  unfolding complete_boot
  complete-IsKeeping q r m d port =
      bind-IsKeeping (booted host m port d) _ (booted-IsKeeping host m port d)
        λ x p w. update-IsKeeping x p w

  polls-IsKeeping :
      (q : ChatCompletionRequest) (r : RouteDecision) (m : ModelRecord)
      (d : Option DeploymentRecord) (port n : ℕ)
      → IsKeeping (poll_container host random q r m d port n)
  unfolding poll_container
  polls-IsKeeping q r m d port zero =
      discarding-IsKeeping host port (outside (give_up host m)) (outside-IsKeeping (give_up host m))
  polls-IsKeeping q r m d port (suc n) =
      bind-IsKeeping (discarding host port (outside (host.answers port))) _
        (discarding-IsKeeping host port (outside (host.answers port))
          (outside-IsKeeping (host.answers port)))
        λ answered. if-IsKeeping answered _ _ (complete-IsKeeping q r m d port) (λ p w. w)

  pub finish_boot-IsKeeping :
      (q : ChatCompletionRequest) (r : RouteDecision) (m : ModelRecord)
      (d : Option DeploymentRecord) (port n : ℕ)
      → IsKeeping (finish_boot host random q r m d port n)
  unfolding finish_boot
  finish_boot-IsKeeping q r m d port n = failed-IsKeeping q r m d _ (polls-IsKeeping q r m d port n)

  counting-Keeping :
      (f : _) (id : Option String) (p : Platform World)
      → IsWellFormed p
      → IsWellFormed (count_on f id p)
  unfolding count_on
  counting-Keeping f none p w = w
  counting-Keeping f (some id) p w = elim (Bool-cases (truthy id)) [
    | inl t ↦ rw t (record { consistent = w.consistent; ledger = w.ledger })
    | inr e ↦ rw e w
  ]

  pub begin_answer-IsKeeping :
      (q : ChatCompletionRequest) (r : RouteDecision) (m : ModelRecord)
      (d : Option DeploymentRecord)
      → IsKeeping (begin_answer host random q r m d)
  unfolding begin_answer
  begin_answer-IsKeeping q r m d =
      bind-IsKeeping (touch_lifecycle host random r.deployment_id d) _
        (touch-IsKeeping host random r.deployment_id d)
        λ u p w. counting-Keeping increment r.deployment_id p w

  close-IsKeeping :
      (q : ChatCompletionRequest) (r : RouteDecision) (m : ModelRecord) (x : Result String)
      → IsKeeping (close host random q r m x)
  unfolding close emit
  close-IsKeeping q r m (ok text) p w = record { consistent = w.consistent; ledger = w.ledger }
  close-IsKeeping q r m (err e) p w = w

  pub end_answer-IsKeeping :
      (q : ChatCompletionRequest) (r : RouteDecision) (m : ModelRecord)
      (d : Option DeploymentRecord)
      → IsKeeping (end_answer host random q r m d)
  unfolding end_answer
  end_answer-IsKeeping q r m d p w =
      let (x, p') = answer host random q d p in
      close-IsKeeping q r m x (count_on decrement r.deployment_id p')
        (counting-Keeping decrement r.deployment_id p' (answer-IsKeeping host random q d p w))
