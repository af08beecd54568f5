-- ===== src/Compatibility/Inspector/Tests.antt =====
-- Inspections of small repositories (llm_platform/compatibility/inspector.py).
use foundation_ai_platform.Prelude.{ℕ, ◌≡◌, ◌/◌, refl, true, false, none, some, [], ◌∷◌, contains}
use foundation_ai_platform.Exec.{ok}
use foundation_ai_platform.Value.{null, bool, text}
use foundation_ai_platform.Compatibility.{Rules, choose_backend}
use foundation_ai_platform.Compatibility.Inspector.{Hub, inspect}

abbrev rules : Rules
rules = record {
  vllm_native = "QwenForCausalLM" ∷ [];
  tgi = "GPT2LMHeadModel" ∷ [];
  transformers_fallback = [];
}

-- Every repository holds the same model, of eight gigabytes and without a chat template.
abbrev hub : Hub ℕ
hub = record {
  is_installed = true;
  model_info = λ repo revision w. (
    ok (record {
      safetensors_total = some 8589934592;
      sha = text "abc";
      is_private = bool false;
      library_name = null;
    }),
    w,
  );
  load_config = λ repo revision w. (
    ok (record {
      architectures = some ("QwenForCausalLM" ∷ []);
      max_position_embeddings = some 4096;
    }),
    w,
  );
  load_tokenizer = λ repo revision w. (ok none, w);
  round_gib = λ total. total / 10737418;
}

reported : inspect hub rules "qwen" none 0 ≡ (
  ok (record {
    hf_repo = "qwen";
    revision = none;
    architecture = some "QwenForCausalLM";
    tokenizer_status = "ok";
    chat_template_status = "missing";
    config_status = "ok";
    compatibility = "vllm_native";
    recommended_backend = "vllm";
    estimated_gpu_memory_gb = some 800;
    max_context_length = some 4096;
    smoke_test_status = "not_run";
    json_validity_status = "not_run";
    notes =
        "Tokenizer does not expose a chat template. Gateway chat proxy may require a configured template."
        ∷ "Estimated GPU memory is derived from safetensors weight size and should be treated as a lower bound, not full runtime residency."
        ∷ [];
    metadata = ("model_sha", text "abc") ∷ ("private", bool false) ∷ ("library_name", null) ∷ [];
  }),
  0,
)
unfolding inspect choose_backend contains
reported = refl
