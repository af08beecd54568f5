-- ===== src/Gateway/Routes/Tests.antt =====
-- Requests to a small platform (llm_platform/gateway/routes.py).
use foundation_ai_platform.Prelude.{◌≡◌, refl, none, [], ◌∷◌, Elem, contains}
use foundation_ai_platform.Prelude.Int.{pos}
use foundation_ai_platform.Prelude.Dict.{lookup}
use foundation_ai_platform.Schemas.Enums.{ModelStatus}
use foundation_ai_platform.Schemas.Records.{ModelRegistrationRequest}
use foundation_ai_platform.Registry
use foundation_ai_platform.Samples.{bare, at_rest}
use foundation_ai_platform.Serving.{fake_model_server}
use foundation_ai_platform.Compatibility
use foundation_ai_platform.Management
use foundation_ai_platform.Gateway.{http, success, translate_error, respond}
use foundation_ai_platform.Gateway.Routes.{
  handle, ModelResponse, register_model, unload_model, get_model, list_models,
}
use foundation_ai_platform.Gateway.Routes.Refusals.{unloading, after, IsRefusedWith, refused_keeps}
use foundation_ai_platform.Gateway.Routes.Registrations.{registered_reads}

unknown :
    IsRefusedWith bare
      (fake_model_server bare)
      ("vllm" ∷ [])
      (http 404 "Deployment not found: zz")
      (unloading (record { deployment_id = "zz" }))
      at_rest
unfolding unload_model Management.unload_model Registry.get_deployment handle respond
    translate_error lookup
unknown = refl

refused_keeps_example :
    (after bare
      (fake_model_server bare)
      ("vllm" ∷ [])
      (unloading (record { deployment_id = "zz" }))
      at_rest).registry
    ≡ at_rest.registry
refused_keeps_example =
    refused_keeps bare (fake_model_server bare) ("vllm" ∷ [])
      (unloading (record { deployment_id = "zz" })) at_rest (http 404 "Deployment not found: zz")
      unknown

abbrev qwen : ModelRegistrationRequest
qwen = record {
  name = "qwen";
  version = "1";
  family = "qwen";
  engine = "vllm";
  capabilities = "chat" ∷ [];
  vllm_eagle_head = none;
  memory_requirement_gb = pos 4;
  ownership = "team";
  metadata = [];
}

abbrev registered : ModelResponse
registered = record {
  model = record {
    id = "id";
    name = "qwen";
    version = "1";
    family = "qwen";
    engine = "vllm";
    capabilities = "chat" ∷ [];
    vllm_eagle_head = none;
    memory_requirement_gb = pos 4;
    ownership = "team";
    status = ModelStatus.registered;
    created_at = 7;
    metadata = [];
  };
}

registers :
    (register_model bare (fake_model_server bare) ("vllm" ∷ []) qwen at_rest).0 ≡ success registered
unfolding register_model Management.register Management.store_model Registry.register_model handle
    respond Compatibility.validate_model contains
registers = refl

registered_reads_example :
    ((get_model "id" (register_model bare (fake_model_server bare) ("vllm" ∷ []) qwen at_rest).1).0
      ≡ success registered)
    × Elem registered.model
        (list_models
          (register_model bare (fake_model_server bare) ("vllm" ∷ []) qwen at_rest).1).models
registered_reads_example =
    registered_reads bare (fake_model_server bare) ("vllm" ∷ []) qwen at_rest registered registers
