-- ===== src/Management/Laws/Tests.antt =====
-- Deployments through ModelManagementService on a small store
-- (llm_platform/services/model_management.py).
use foundation_ai_platform.Prelude.{◌≡◌, ◌⊎◌, refl, none, some, [], ◌∷◌}
use foundation_ai_platform.Prelude.Dict.{lookup}
use foundation_ai_platform.Exec.{err, validation}
use foundation_ai_platform.Schemas.Records.{DeploymentCreateRequest}
use foundation_ai_platform.Registry.{get_model}
use foundation_ai_platform.Samples.{bare, at_rest}
use foundation_ai_platform.Serving.{fake_model_server, target_engine}
use foundation_ai_platform.Compatibility.{validate_deployment}
use foundation_ai_platform.Management.{deploy_model}
use foundation_ai_platform.Management.Laws.{IsRefused, IsDone, deploy_model_atomic}

abbrev with_engine : DeploymentCreateRequest
with_engine = record {
  model_id = "tiny";
  endpoint = "http://localhost";
  engine = some "vllm";
  placement = none;
  fallback_placements = [];
  metadata = [];
}

other_engine :
    (deploy_model bare
      (fake_model_server bare)
      ("vllm" ∷ [])
      (record with_engine { engine = some "tgi" })
      at_rest).0
    ≡ err (validation "Deployment engine must match model engine in the current platform phase.")
unfolding deploy_model get_model lookup validate_deployment target_engine
other_engine = refl

deploy_model_atomic_example :
    IsRefused bare
      (fake_model_server bare)
      ("vllm" ∷ [])
      at_rest
      (deploy_model bare (fake_model_server bare) ("vllm" ∷ []) with_engine at_rest)
    ⊎ IsDone bare
        (fake_model_server bare)
        ("vllm" ∷ [])
        with_engine
        at_rest
        (deploy_model bare (fake_model_server bare) ("vllm" ∷ []) with_engine at_rest)
deploy_model_atomic_example =
    deploy_model_atomic bare (fake_model_server bare) ("vllm" ∷ []) with_engine at_rest
