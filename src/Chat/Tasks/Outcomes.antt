-- ===== src/Chat/Tasks/Outcomes.antt =====
-- Which part of a request follows which (Chat/Tasks).
use foundation_ai_platform.Prelude.{
  ◌≡◌, refl, String, Bool, true, false, not, ◌&&◌, ◌==◌, eq_refl, arith, ℕ, zero, suc, Bool-cases,
  inl, inr, Option, none, some,
}
use foundation_ai_platform.Exec.{Exec, Result, ok, err, continue}
use foundation_ai_platform.Schemas.Records.{
  ModelRecord, DeploymentRecord, RouteDecision, ValidationReport,
}
use foundation_ai_platform.Schemas.Gateway.{ChatCompletionRequest}
use foundation_ai_platform.Routing.Decision.{Random}
use foundation_ai_platform.Platform.{Host, Platform, Utilization, outside}
use foundation_ai_platform.Boot.Containers.{discarding, give_up}
use foundation_ai_platform.Registry.{list_models}
use foundation_ai_platform.Chat.{find_named}
use foundation_ai_platform.Chat.Decisions.{fetch}
use foundation_ai_platform.Chat.Tasks.{
  Task, starting, running, polling, generating, resolve_part, part_named, part_request,
  onboard_part, decide_part, prepare_part, reuse_or_start, enter, boots, end_answer, serve_target,
}
use foundation_ai_platform.Chat.Tasks.Starting.{
  or_failed, take_port, recheck, begin_boot, run_docker_part, finish_boot, complete_boot,
  poll_container, run_on,
}

-- A task that holds no lock and is not counted.
abbrev pub is_open : Task → Bool
is_open (starting q r m d) = false
is_open (running q r m d port u) = false
is_open (polling q r m d port n) = false
is_open (generating q r m d) = false
is_open _ = true

-- A task that is not counted, and holds no lock of another model.
abbrev pub is_within : String → Task → Bool
is_within k (starting q r m d) = r.model_id == k
is_within k (running q r m d port u) = r.model_id == k
is_within k (polling q r m d port n) = r.model_id == k
is_within k t = is_open t

-- What holds of the next task, if the part does not raise.
abbrev pub leads : (Task → Bool) → Result Task → Bool
leads test (ok t) = test t
leads test (err e) = true

continue-leads :
    {World A : Type 0} (test : Task → Bool) (r : Result A) (f : A → Exec (Platform World) Task)
    (p : Platform World)
    → ((a : A) → leads test (f a p).0 ≡ true)
    → leads test (continue r f p).0 ≡ true
continue-leads test (ok a) f p h = h a
continue-leads test (err e) f p h = refl

module _ {World : Type 0} (host : Host World) (random : Random) where
  names :
      (q : ChatCompletionRequest) (name : String) (o : Option ModelRecord) (p : Platform World)
      → leads is_open (part_named host random q name o p).0 ≡ true
  unfolding part_named
  names q name (some m) p = refl
  names q name none p = ground arith

  requests :
      (q : ChatCompletionRequest) (name : Option String) (p : Platform World)
      → leads is_open (part_request host random q name p).0 ≡ true
  unfolding part_request
  requests q none p = refl
  requests q (some name) p =
      ground (arith, names q name (find_named name (list_models p.registry)) p)

  pub resolve_part-is_open :
      (q : ChatCompletionRequest) (p : Platform World)
      → leads is_open (resolve_part host random q p).0 ≡ true
  unfolding resolve_part
  resolve_part-is_open q p = requests q q.model p

  pub onboard_part-is_open :
      (q : ChatCompletionRequest) (repo : String) (report : ValidationReport) (p : Platform World)
      → leads is_open (onboard_part host random q repo report p).0 ≡ true
  unfolding onboard_part
  onboard_part-is_open q repo report p = ground arith

  pub decide_part-is_open :
      (q : ChatCompletionRequest) (named : Option ModelRecord) (p : Platform World)
      → leads is_open (decide_part host random q named p).0 ≡ true
  unfolding decide_part
  decide_part-is_open q named p = ground arith

  pub prepare_part-is_open :
      (q : ChatCompletionRequest) (r : RouteDecision) (p : Platform World)
      → leads is_open (prepare_part host random q r p).0 ≡ true
  unfolding prepare_part
  prepare_part-is_open q r p = ground arith

  reuse-is_within :
      (q : ChatCompletionRequest) (r : RouteDecision) (m : ModelRecord)
      (d : Option DeploymentRecord) (p : Platform World)
      → leads
          (λ t. is_within r.model_id t && not (boots t))
          (reuse_or_start host random q r m d p).0
        ≡ true
  unfolding reuse_or_start serve_target boots
  reuse-is_within q r m none p = ground (arith, eq_refl r.model_id)
  reuse-is_within q r m (some d) p = ground (arith, eq_refl r.model_id)

  pub enter-is_within :
      (q : ChatCompletionRequest) (r : RouteDecision) (m : ModelRecord) (p : Platform World)
      → leads (λ t. is_within r.model_id t && not (boots t)) (enter host random q r m p).0 ≡ true
  unfolding enter
  enter-is_within q r m p =
      continue-leads (λ t. is_within r.model_id t && not (boots t))
        (fetch host random r.deployment_id p).0 (reuse_or_start host random q r m)
        (fetch host random r.deployment_id p).1 (λ d. reuse-is_within q r m d _)

  or_failed-is_within :
      (q : ChatCompletionRequest) (r : RouteDecision) (m : ModelRecord)
      (d : Option DeploymentRecord) (body : Exec (Platform World) Task) (p : Platform World)
      → leads (is_within r.model_id) (body p).0 ≡ true
      → leads (is_within r.model_id) (or_failed host random q r m d body p).0 ≡ true
  unfolding or_failed serve_target
  or_failed-is_within q r m d body p h = ground arith

  take_port-is_within :
      (q : ChatCompletionRequest) (r : RouteDecision) (m : ModelRecord)
      (d : Option DeploymentRecord) (p : Platform World)
      → leads (is_within r.model_id) (take_port host random q r m d p).0 ≡ true
  unfolding take_port
  take_port-is_within q r m d p = ground (arith, eq_refl r.model_id)

  recheck-is_within :
      (q : ChatCompletionRequest) (r : RouteDecision) (m : ModelRecord)
      (d : Option DeploymentRecord) (p : Platform World)
      → leads (is_within r.model_id) (recheck host random q r m d p).0 ≡ true
  unfolding recheck
  recheck-is_within q r m none p = take_port-is_within q r m none p
  recheck-is_within q r m (some d) p = ground (arith, take_port-is_within q r m (some d) p)

  pub begin_boot-is_within :
      (q : ChatCompletionRequest) (r : RouteDecision) (m : ModelRecord)
      (d : Option DeploymentRecord) (p : Platform World)
      → leads (is_within r.model_id) (begin_boot host random q r m d p).0 ≡ true
  unfolding begin_boot
  begin_boot-is_within q r m d p =
      or_failed-is_within q r m d (recheck host random q r m d) p (recheck-is_within q r m d p)

  polls :
      (q : ChatCompletionRequest) (r : RouteDecision) (m : ModelRecord)
      (d : Option DeploymentRecord) (port : ℕ) (u : Utilization) (p : Platform World)
      → leads (is_within r.model_id) (run_on host random q r m d port u p).0 ≡ true
  unfolding run_on
  polls q r m d port u p = ground (arith, eq_refl r.model_id)

  pub run_docker_part-is_within :
      (q : ChatCompletionRequest) (r : RouteDecision) (m : ModelRecord)
      (d : Option DeploymentRecord) (port : ℕ) (u : Utilization) (p : Platform World)
      → leads (is_within r.model_id) (run_docker_part host random q r m d port u p).0 ≡ true
  unfolding run_docker_part
  run_docker_part-is_within q r m d port u p =
      or_failed-is_within q r m d (run_on host random q r m d port u) p (polls q r m d port u p)

  serves :
      (q : ChatCompletionRequest) (r : RouteDecision) (m : ModelRecord)
      (d : Option DeploymentRecord) (port : ℕ) (p : Platform World)
      → leads (is_within r.model_id) (complete_boot host random q r m d port p).0 ≡ true
  unfolding complete_boot
  serves q r m d port p = ground arith

  polls_once :
      (q : ChatCompletionRequest) (r : RouteDecision) (m : ModelRecord)
      (d : Option DeploymentRecord) (port n : ℕ) (p : Platform World)
      → leads (is_within r.model_id) (poll_container host random q r m d port n p).0 ≡ true
  unfolding poll_container discarding give_up
  polls_once q r m d port zero p = ground arith
  polls_once q r m d port (suc n) p =
      let x = discarding host port (outside (host.answers port)) p in
      continue-leads (is_within r.model_id) x.0 _ x.1 λ answered. elim (Bool-cases answered) [
        | inl t ↦ rw t (serves q r m d port x.1)
        | inr f ↦ rw f (eq_refl r.model_id)
      ]

  pub finish_boot-is_within :
      (q : ChatCompletionRequest) (r : RouteDecision) (m : ModelRecord)
      (d : Option DeploymentRecord) (port n : ℕ) (p : Platform World)
      → leads (is_within r.model_id) (finish_boot host random q r m d port n p).0 ≡ true
  unfolding finish_boot
  finish_boot-is_within q r m d port n p =
      or_failed-is_within q r m d (poll_container host random q r m d port n) p
        (polls_once q r m d port n p)

  pub end_answer-is_open :
      (q : ChatCompletionRequest) (r : RouteDecision) (m : ModelRecord)
      (d : Option DeploymentRecord) (p : Platform World)
      → leads is_open (end_answer host random q r m d p).0 ≡ true
  unfolding end_answer
  end_answer-is_open q r m d p = ground arith
