-- ===== src/Serving/Remote/Deployed/Tests.antt =====
-- A deployment on a local server (llm_platform/serving/openai_compatible_remote.py).
use foundation_ai_platform.Prelude.{ℕ, String, ◌≡◌, refl, true, none, some, [], ◌∷◌}
use foundation_ai_platform.Prelude.Dict.{lookup, insert}
use foundation_ai_platform.Exec.{ok, err, not_found}
use foundation_ai_platform.Value.{Value, text}
use foundation_ai_platform.Schemas.Enums.{ready}
use foundation_ai_platform.Schemas.Records.{DeploymentRecord, DeploymentCreateRequest}
use foundation_ai_platform.Samples.{bare, tiny}
use foundation_ai_platform.Serving.{ready_deployment}
use foundation_ai_platform.Settings.Schema.{OpenAiCompatibleBackendConfig, default_backend}
use foundation_ai_platform.Serving.Remote.{
  Remote, url_of, resolve_base_url, resolve_remote_model_name, deploy,
}

abbrev show_text : Value → String
show_text (text s) = s
show_text v = "?"

-- Texts with no spaces and no slash at the end.
abbrev healthy : Remote ℕ
healthy = record {
  str = show_text;
  check_health = λ url w. (ok tt, w);
  post = λ url path payload w. (ok (true, "", err (not_found "no answer")), w);
  strip = λ s. s;
  rstrip_slash = λ s. s;
}

abbrev local : OpenAiCompatibleBackendConfig
local = record default_backend { base_url = some "http://127.0.0.1:8001" }

abbrev wanted : DeploymentCreateRequest
wanted = record {
  model_id = "tiny";
  endpoint = "/v1/tiny";
  engine = some "vllm";
  placement = none;
  fallback_placements = [];
  metadata = ("remote_model_name", text "org/tiny") ∷ [];
}

abbrev made : DeploymentRecord
made = record {
  deployment_id = "id";
  model_id = "tiny";
  endpoint = "/v1/tiny";
  engine = "vllm";
  status = ready;
  last_used = none;
  created_at = 3;
  metadata =
      ("remote_model_name", text "org/tiny")
      ∷ ("base_url", text "http://127.0.0.1:8001")
      ∷ ("implementation", text "vllm")
      ∷ [];
}

makes : deploy healthy bare "vllm" local tiny wanted 3 ≡ (ok made, 4)
unfolding deploy resolve_base_url resolve_remote_model_name ready_deployment lookup insert
makes = refl

resolves : resolve_base_url healthy bare "vllm" local wanted ≡ ok "http://127.0.0.1:8001"
unfolding resolve_base_url url_of lookup
resolves = refl
