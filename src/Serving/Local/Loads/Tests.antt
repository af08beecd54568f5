-- ===== src/Serving/Local/Loads/Tests.antt =====
-- One deployment in the process (llm_platform/serving/huggingface_model_server.py).
use foundation_ai_platform.Prelude.{
  ℕ, String, ◌≡◌, refl, true, false, none, some, List, [], ◌∷◌, ◌++◌, ◌<>◌, contains,
}
use foundation_ai_platform.Prelude.Dict.{lookup, insert}
use foundation_ai_platform.Exec.{ok, err, not_found}
use foundation_ai_platform.Value.{Value, text}
use foundation_ai_platform.Schemas.Enums.{ready}
use foundation_ai_platform.Schemas.Records.{DeploymentRecord, DeploymentCreateRequest}
use foundation_ai_platform.Samples.{bare, tiny, hello}
use foundation_ai_platform.Settings.Schema.{default_serving}
use foundation_ai_platform.Serving.{resolve_placement, ready_deployment}
use foundation_ai_platform.Serving.Local.{
  Runtime, Process, lazy_runtime_imports, resolve_source_model_id, source_of, resolve_torch_dtype,
  placement_of, fallbacks_of, load, keep, deploy, unload, generate, complete_if, complete,
  generation_kwargs, template_kwargs,
}
use foundation_ai_platform.Serving.Local.Loads.{IsLoaded, deploy-IsLoaded, unload_forgets}

abbrev show_text : Value → String
show_text (text s) = s
show_text v = "?"

-- A machine with CUDA, whose model answers each request with one token after the prompt.
abbrev machine : Runtime ℕ String String (List ℕ)
machine = record {
  imports = λ w. true;
  discover = λ w. record { cpu = true; cuda = true; mps = false };
  has_dtype = λ s. false;
  mkdir = λ s w. (ok tt, w);
  load_tokenizer = λ c s w. (ok s, w);
  load_model = λ c s dtype w. (ok (s <> dtype), w);
  place = λ m s w. (ok tt, w);
  collect = λ w. (ok tt, w);
  apply_chat_template = λ t ms kwargs w. (ok (1 ∷ 2 ∷ []), w);
  move = λ i s w. (ok i, w);
  generate = λ m i kwargs w. (ok (i ++ 3 ∷ []), w);
  prompt_length = λ i. 2;
  decode = λ t ids w. (ok "hi", w);
  str = show_text;
  to_int = λ v. ok v;
  to_float = λ v. ok v;
  strip = λ s. s;
}

abbrev wanted : DeploymentCreateRequest
wanted = record {
  model_id = "tiny";
  endpoint = "local";
  engine = some "vllm";
  placement = some "CUDA";
  fallback_placements = [];
  metadata = ("source_model_id", text "org/tiny") ∷ [];
}

abbrev idle : Process ℕ String String
idle = record { loaded_deployments = []; world = 3 }

abbrev made : DeploymentRecord
made = record {
  deployment_id = "id";
  model_id = "tiny";
  endpoint = "local";
  engine = "vllm";
  status = ready;
  last_used = none;
  created_at = 3;
  metadata =
      ("source_model_id", text "org/tiny")
      ∷ ("placement", text "cuda")
      ∷ ("implementation", text "huggingface-transformers")
      ∷ [];
}

abbrev busy : Process ℕ String String
busy = record {
  loaded_deployments =
      (
        "id",
        record {
          model_name = "tiny";
          source_model_id = "org/tiny";
          placement = "cuda";
          tokenizer = "org/tiny";
          model = "org/tinyfloat16";
        },
      )
      ∷ [];
  world = 4;
}

makes : deploy machine bare default_serving tiny wanted idle ≡ (ok made, busy)
unfolding deploy lazy_runtime_imports resolve_source_model_id source_of placement_of fallbacks_of
    load keep resolve_torch_dtype ready_deployment resolve_placement contains lookup insert
makes = refl

answers : (generate machine bare default_serving made hello busy).0 ≡ ok "hi"
unfolding generate lazy_runtime_imports complete_if complete generation_kwargs template_kwargs
    lookup
answers = refl

deploy-IsLoaded_example : IsLoaded machine bare default_serving tiny wanted 3 made busy
deploy-IsLoaded_example =
    deploy-IsLoaded machine bare default_serving tiny wanted idle busy made makes

imported : machine.imports (unload machine bare default_serving "id" busy).1.world ≡ true
imported = refl

unload_forgets_example :
    ((generate machine bare default_serving made hello
        (unload machine bare default_serving "id" busy).1).0
      ≡ err (not_found "Deployment not loaded: id"))
    × (lookup "x" (unload machine bare default_serving "id" busy).1.loaded_deployments
        ≡ lookup "x" busy.loaded_deployments)
unload_forgets_example =
    unload_forgets machine bare default_serving made hello "x" busy (unfold lookup in (refl, tt))
      refl imported
