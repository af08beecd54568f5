-- ===== src/Compatibility.antt =====
-- llm_platform/compatibility/checker.py and the choice of a backend in inspector.py.
pub mod Inspector
use foundation_ai_platform.Prelude.{
  String, not, Option, none, some, List, [], ◌∷◌, if◌then◌else◌, ◌<>◌, ◌==◌, contains,
}
use foundation_ai_platform.Exec.{Result, ok, err, validation}
use foundation_ai_platform.Schemas.Records.{ModelRecord, DeploymentCreateRequest}
use foundation_ai_platform.Serving.{target_engine}

no_capability : ModelRecord → List String → Result (Unit {0})
no_capability model [] = err (validation "Model must declare at least one capability.")
no_capability model (c ∷ cs) = ok tt

supported : List String → String → Result (Unit {0})
supported engines engine =
    if contains engine engines then ok tt else err (validation ("Unsupported engine: " <> engine))

then_check : Result (Unit {0}) → Result (Unit {0}) → Result (Unit {0})
then_check (ok u) next = next
then_check (err e) next = err e

unfoldable pub validate_model : List String → ModelRecord → Result (Unit {0})
unfolding no_capability supported then_check
validate_model engines model =
    then_check (no_capability model model.capabilities) (supported engines model.engine)

unfoldable pub validate_deployment :
    List String → ModelRecord → DeploymentCreateRequest → Result (Unit {0})
validate_deployment engines model request =
    let engine = target_engine model request in
    if not (engine == model.engine)
    then err (validation "Deployment engine must match model engine in the current platform phase.")
    else if not (contains engine engines)
    then err (validation ("Unsupported deployment engine: " <> engine))
    else ok tt

-- The lists of the compatibility file.
pub record Rules : Type 0 where
  pub vllm_native : List String
  pub tgi : List String
  pub transformers_fallback : List String

-- The recommended backend, and the compatibility.
unfoldable pub choose_backend : Rules → Option String → String × String
choose_backend rules none = ("manual_review", "unsupported")
choose_backend rules (some architecture) =
    if contains architecture rules.vllm_native
    then ("vllm", "vllm_native")
    else if contains architecture rules.tgi
    then ("tgi", "tgi_messages_api")
    else ("huggingface-transformers", "transformers_fallback")
