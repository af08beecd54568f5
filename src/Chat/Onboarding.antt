-- ===== src/Chat/Onboarding.antt =====
-- `onboard_model` of llm_platform/services/chat.py.
use foundation_ai_platform.Prelude.{
  ℕ, ◌+◌, ◌/◌, String, Bool, not, ◌||◌, Option, none, some, List, [], ◌∷◌, if◌then◌else◌, ◌<>◌,
  ◌==◌, truthy, nat_eq,
}
use foundation_ai_platform.Prelude.Int.{pos}
use foundation_ai_platform.Prelude.Texts.{lower, has}
use foundation_ai_platform.Exec.{Exec, ok, validation, pure, raise, ◌>>=◌, ◌>>◌}
use foundation_ai_platform.Value.{Value, null, int, hundredths, text}
use foundation_ai_platform.Schemas.Enums.{pending}
use foundation_ai_platform.Schemas.Records.{ModelRecord, ModelRegistrationRequest, ValidationReport}
use foundation_ai_platform.Registry.{register_model, update_deployment}
use foundation_ai_platform.Platform.{Host, Platform, outside, writes}

unfoldable pub is_servable : String → Bool
is_servable backend = backend == "vllm" || backend == "huggingface-transformers"

unfoldable pub family_of : Option String → String
family_of none = "generic"
family_of (some architecture) =
    let arch = lower architecture in
    if not (truthy architecture)
    then "generic"
    else if has arch "qwen"
    then "qwen"
    else if has arch "llama"
    then "llama"
    else if has arch "mistral"
    then "mistral"
    else if has arch "deepseek"
    then "deepseek"
    else "generic"

unfoldable pub capabilities_of : String → List String
capabilities_of hf_repo =
    let repo = lower hf_repo in
    if has repo "phi-3"
    then "math" ∷ []
    else if has repo "deepseek"
    then "reasoning" ∷ []
    else if has repo "qwen"
    then "summarization" ∷ []
    else "chat" ∷ []

-- `math.ceil(report.estimated_gpu_memory_gb or 16)`, of hundredths.
unfoldable pub whole_gb : Option ℕ → ℕ
whole_gb none = 16
whole_gb (some h) = if nat_eq h 0 then 16 else (h + 99) / 100

unfoldable pub known_architecture : Option String → String
known_architecture none = "unknown"
known_architecture (some a) = if truthy a then a else "unknown"

unfoldable pub known_memory : Option ℕ → ℕ
known_memory none = 0
known_memory (some h) = h

unfoldable pub context_value : Option ℕ → Value
context_value none = null
context_value (some n) = int (pos n)

unfoldable pub registration_of :
    String → Option String → ValidationReport → ModelRegistrationRequest
unfolding family_of capabilities_of whole_gb known_architecture known_memory context_value
registration_of hf_repo eagle_head report = record {
  name = hf_repo;
  version = "1.0";
  family = family_of report.architecture;
  engine = "vllm";
  capabilities = capabilities_of hf_repo;
  vllm_eagle_head = eagle_head;
  memory_requirement_gb = pos (whole_gb report.estimated_gpu_memory_gb);
  ownership = "user";
  metadata =
      ("architecture", text (known_architecture report.architecture))
      ∷ ("estimated_gpu_memory_gb", hundredths (known_memory report.estimated_gpu_memory_gb))
      ∷ ("max_context_length", context_value report.max_context_length)
      ∷ [];
}

module _ {World : Type 0} (host : Host World) where
  unfoldable pub download_head : Option String → Exec World (Unit {0})
  download_head none = pure tt
  download_head (some repo) = if truthy repo then host.snapshot_download repo else pure tt

  unfoldable pub draw : Exec (Platform World) String
  draw p = let (id, w) = host.uuid4 p.world in (ok id, record p { world = w })

  unfoldable pub register : ModelRegistrationRequest → Exec (Platform World) ModelRecord
  unfolding draw
  register request = do
    id ← draw
    λ p.
        let (model, registry) = register_model id (host.now p.world) request p.registry in
        (ok model, record p { registry = registry })

  unfoldable pub pending_deployment : ModelRecord → Exec (Platform World) (Unit {0})
  unfolding draw
  pending_deployment model = do
    id ← draw
    λ p.
        writes
          (update_deployment (record {
            deployment_id = id;
            model_id = model.id;
            endpoint = "http://localhost:pending";
            engine = "vllm";
            status = pending;
            last_used = none;
            created_at = host.now p.world;
            metadata = [];
          }))
          p

  -- The report on a model that the platform can serve.
  unfoldable pub checked_report : String → Exec (Platform World) ValidationReport
  unfolding is_servable
  checked_report hf_repo = do
    report ← outside (host.inspect hf_repo)
    if not (is_servable report.recommended_backend)
        then raise (
            validation (
              "Model " <> hf_repo <> " is not compatible with the platform. Recommended backend: "
              <> report.recommended_backend))
        else pure report

  -- What follows: the downloads, and then the two writes.
  unfoldable pub onboard_checked :
      String → Option String → ValidationReport → Exec (Platform World) ModelRecord
  unfolding registration_of download_head register pending_deployment
  onboard_checked hf_repo eagle_head report = do
    outside (host.snapshot_download hf_repo)
    outside (download_head eagle_head)
    model ← register (registration_of hf_repo eagle_head report)
    pending_deployment model
    pure model

  unfoldable pub onboard_model : String → Option String → Exec (Platform World) ModelRecord
  unfolding checked_report onboard_checked
  onboard_model hf_repo eagle_head = do
    report ← checked_report hf_repo
    onboard_checked hf_repo eagle_head report
