-- ===== src/Chat/Keeping.antt =====
-- The stages of `chat` (llm_platform/services/chat.py) and the well-formedness of the state.
use foundation_ai_platform.Prelude.{
  String, Bool-cases, inl, inr, not, Option, none, some, truthy, or_else,
}
use foundation_ai_platform.Prelude.Dict.{insert-NodupKeys}
use foundation_ai_platform.Exec.{pure, ◌>>=◌, ◌>>◌}
use foundation_ai_platform.Schemas.Enums.{DeploymentStatus}
use foundation_ai_platform.Schemas.Records.{
  ModelRecord, DeploymentRecord, LifecycleRecord, ModelRegistrationRequest, ValidationReport,
  RouteDecision,
}
use foundation_ai_platform.Schemas.Gateway.{ChatCompletionRequest}
use foundation_ai_platform.Gpu.{GpuTracker, allocate}
use foundation_ai_platform.Registry.{
  get_deployment, get_lifecycle, register_model, update_deployment,
}
use foundation_ai_platform.Registry.Laws.{update_model-IsConsistent}
use foundation_ai_platform.Routing.Decision.{Random}
use foundation_ai_platform.Platform.{
  Host, Platform, IsWellFormed, HasLedger, outside, reads, writes, release_memory,
  unload_deployment,
}
use foundation_ai_platform.WellFormed.{
  IsKeeping, bind-IsKeeping, if-IsKeeping, outside-IsKeeping, update-IsKeeping, upsert-IsKeeping,
  release-IsKeeping, unload-IsKeeping,
}
use foundation_ai_platform.Chat.{may_onboard}
use foundation_ai_platform.Chat.Onboarding.{
  is_servable, registration_of, download_head, draw, register, pending_deployment, checked_report,
  onboard_checked, onboard_model,
}
use foundation_ai_platform.Chat.Decisions.{
  needs_start, reserve_on, reserve_for, resolve_named, resolve_request, reserve_memory, evict,
  fetch,
}
use foundation_ai_platform.Chat.Starts.{use_fallback, fall_back, mark_failed, start_failed}
use foundation_ai_platform.Chat.Requests.{touched, touch_lifecycle, answer}

module _ {World : Type 0} (host : Host World) (random : Random) where
  register-IsKeeping : (request : ModelRegistrationRequest) → IsKeeping (register host request)
  unfolding register draw register_model
  register-IsKeeping request p w = record {
    consistent = update_model-IsConsistent p.registry _ w.consistent;
    ledger = w.ledger;
  }

  pending-IsKeeping : (model : ModelRecord) → IsKeeping (pending_deployment host model)
  unfolding pending_deployment draw
  pending-IsKeeping model p w =
      update-IsKeeping _ _ (record { consistent = w.consistent; ledger = w.ledger })

  stored-IsKeeping :
      (request : ModelRegistrationRequest)
      → IsKeeping (do m ← register host request; pending_deployment host m; pure m)
  stored-IsKeeping request =
      bind-IsKeeping (register host request) (λ m. pending_deployment host m >> pure m)
        (register-IsKeeping request)
        λ m.
          bind-IsKeeping (pending_deployment host m) (λ u. pure m) (pending-IsKeeping m) λ u p w. w

  pub report-IsKeeping : (repo : String) → IsKeeping (checked_report host repo)
  unfolding checked_report
  report-IsKeeping repo =
      bind-IsKeeping (outside (host.inspect repo)) _ (outside-IsKeeping (host.inspect repo))
        λ report.
          if-IsKeeping (not (is_servable report.recommended_backend)) _ _ (λ p w. w) (λ p w. w)

  pub onboarded-IsKeeping :
      (repo : String) (head : Option String) (report : ValidationReport)
      → IsKeeping (onboard_checked host repo head report)
  unfolding onboard_checked
  onboarded-IsKeeping repo head report =
      bind-IsKeeping (outside (host.snapshot_download repo)) _
        (outside-IsKeeping (host.snapshot_download repo))
        λ u.
          bind-IsKeeping (outside (download_head host head)) _
            (outside-IsKeeping (download_head host head))
            λ u. stored-IsKeeping (registration_of repo head report)

  onboard-IsKeeping :
      (repo : String) (head : Option String) → IsKeeping (onboard_model host repo head)
  unfolding onboard_model
  onboard-IsKeeping repo head =
      bind-IsKeeping (checked_report host repo) _ (report-IsKeeping repo)
        λ report. onboarded-IsKeeping repo head report

  resolve_named-IsKeeping :
      (request : ChatCompletionRequest) (name : String) (o : Option ModelRecord)
      → IsKeeping (resolve_named host random request name o)
  unfolding resolve_named
  resolve_named-IsKeeping request name (some m) p w = w
  resolve_named-IsKeeping request name none p w =
      if-IsKeeping (may_onboard request) _ _
        (bind-IsKeeping (onboard_model host (or_else request.huggingface_id name) none) _
          (onboard-IsKeeping (or_else request.huggingface_id name) none) λ m p w. w)
        (λ p w. w) p w

  pub resolve-IsKeeping :
      (request : ChatCompletionRequest) (name : Option String)
      → IsKeeping (resolve_request host random request name)
  unfolding resolve_request
  resolve-IsKeeping request none p w = w
  resolve-IsKeeping request (some name) p w = elim (Bool-cases (truthy name)) [
    | inl t ↦ rw t (resolve_named-IsKeeping request name _ p w)
    | inr f ↦ rw f w
  ]

  reserved-HasLedger :
      (id : String) (m : ModelRecord) (o : Option GpuTracker)
      → HasLedger o
      → HasLedger (reserve_on id m o)
  unfolding allocate
  reserved-HasLedger id m none h = h
  reserved-HasLedger id m (some t) h = insert-NodupKeys id _ t.allocated h

  reserve-Keeping :
      (r : RouteDecision) (id : Option String) (m : Option ModelRecord) (p : Platform World)
      → IsWellFormed p
      → IsWellFormed (reserve_for host random r id m p)
  unfolding reserve_for
  reserve-Keeping r none m p w = w
  reserve-Keeping r (some id) none p w = w
  reserve-Keeping r (some id) (some m) p w = elim (Bool-cases (truthy id)) [
    | inl t ↦ rw t (record {
      consistent = w.consistent;
      ledger = reserved-HasLedger id m p.gpu_tracker w.ledger;
    })
    | inr f ↦ rw f w
  ]

  pub reserve_memory-IsKeeping : (r : RouteDecision) → IsKeeping (reserve_memory host random r)
  unfolding reserve_memory
  reserve_memory-IsKeeping r p w = elim (Bool-cases (needs_start r)) [
    | inl t ↦ rw t (reserve-Keeping r r.deployment_id _ p w)
    | inr f ↦ rw f w
  ]

  pub evict-IsKeeping : (o : Option String) → IsKeeping (evict host random o)
  unfolding evict
  evict-IsKeeping none = λ p w. w
  evict-IsKeeping (some id) =
      if-IsKeeping (truthy id) _ _
        (bind-IsKeeping (unload_deployment host id) _ (unload-IsKeeping host id)
          λ u. release-IsKeeping id)
        (λ p w. w)

  pub fetch-IsKeeping : (o : Option String) → IsKeeping (fetch host random o)
  unfolding fetch
  fetch-IsKeeping none = λ p w. w
  fetch-IsKeeping (some id) =
      if-IsKeeping (truthy id) _ _
        (bind-IsKeeping (reads (λ r. get_deployment r id)) _ (λ p w. w) λ d p w. w) (λ p w. w)

  pub fall_back-IsKeeping :
      (r : RouteDecision) (request : ChatCompletionRequest) (message : String)
      → IsKeeping (fall_back host random r request message)
  unfolding fall_back
  fall_back-IsKeeping r request message p w = used _ w
    where
      used :
          (o : Option DeploymentRecord)
          → IsWellFormed p
          → IsWellFormed (use_fallback host random r message o p).1
      used none w = w
      used (some d) w = w

  pub mark_failed-IsKeeping : (o : Option DeploymentRecord) → IsKeeping (mark_failed host random o)
  unfolding mark_failed
  mark_failed-IsKeeping none = λ p w. w
  mark_failed-IsKeeping (some d) =
      bind-IsKeeping (release_memory d.deployment_id)
        (λ u. writes (update_deployment (record d { status = DeploymentStatus.failed })))
        (release-IsKeeping d.deployment_id)
        λ u. update-IsKeeping (record d { status = DeploymentStatus.failed })

  pub start_failed-IsKeeping :
      (r : RouteDecision) (request : ChatCompletionRequest) (m : ModelRecord)
      (o : Option DeploymentRecord) (e : _)
      → IsKeeping (start_failed host random r request m o e)
  unfolding start_failed
  start_failed-IsKeeping r request m o e =
      bind-IsKeeping (mark_failed host random o) _ (mark_failed-IsKeeping o)
        λ u. fall_back-IsKeeping r request _

  touched-IsKeeping :
      (l : Option LifecycleRecord) (d : Option DeploymentRecord)
      → IsKeeping (touched host random l d)
  unfolding touched
  touched-IsKeeping (some l) d p w = upsert-IsKeeping _ p w
  touched-IsKeeping none none p w = w
  touched-IsKeeping none (some d) p w = upsert-IsKeeping _ p w

  pub touch-IsKeeping :
      (id : Option String) (d : Option DeploymentRecord)
      → IsKeeping (touch_lifecycle host random id d)
  unfolding touch_lifecycle
  touch-IsKeeping none d p w = touched-IsKeeping none d p w
  touch-IsKeeping (some id) d p w = touched-IsKeeping (get_lifecycle p.registry id) d p w

  pub answer-IsKeeping :
      (request : ChatCompletionRequest) (d : Option DeploymentRecord)
      → IsKeeping (answer host random request d)
  unfolding answer
  answer-IsKeeping request none = λ p w. w
  answer-IsKeeping request (some d) = outside-IsKeeping (host.generate d request)
