-- ===== src/Compatibility/Inspector.antt =====
-- The inspection of a repository, llm_platform/compatibility/inspector.py. The libraries of Hugging
-- Face are parameters over an unknown World.
mod Tests
use foundation_ai_platform.Prelude.{
  ℕ, String, Bool, not, Option, none, some, List, [], ◌∷◌, ◌++◌, if◌then◌else◌, false, truthy,
  nat_eq,
}
use foundation_ai_platform.Exec.{Exec, Result, ok, err, validation, pure, lift, ◌>>=◌, ◌>>◌}
use foundation_ai_platform.Value.{Value}
use foundation_ai_platform.Schemas.Records.{ValidationReport}
use foundation_ai_platform.Compatibility.{Rules, choose_backend}

-- What `HfApi().model_info` returns: the total of `safetensors`, if there is one.
pub record ModelInfo : Type 0 where
  pub safetensors_total : Option ℕ
  pub sha : Value
  pub is_private : Value
  pub library_name : Value

-- The attributes of the loaded configuration, where there are any.
pub record ModelConfig : Type 0 where
  pub architectures : Option (List String)
  pub max_position_embeddings : Option ℕ

pub record Hub (World : Type 0) : Type 0 where
  -- whether `huggingface_hub` and `transformers` can be imported
  pub is_installed : Bool
  pub model_info : String → Option String → Exec World ModelInfo
  pub load_config : String → Option String → Exec World ModelConfig
  -- the chat template of the loaded tokenizer
  pub load_tokenizer : String → Option String → Exec World (Option String)
  -- `round(float(total) / 1024**3, 2)`, in hundredths
  pub round_gib : ℕ → ℕ

installed : Bool → Result (Unit {0})
installed b =
    if b
    then ok tt
    else err (
        validation
          "Validation tooling requires `huggingface_hub` and `transformers`. Install inference dependencies first.")

-- `(architectures or [None])[0]`
unfoldable pub architecture_of : Option (List String) → Option String
architecture_of none = none
architecture_of (some []) = none
architecture_of (some (a ∷ rest)) = some a

unfoldable pub has_template : Option String → Bool
has_template none = false
has_template (some template) = truthy template

template_note : Bool → List String
template_note b =
    if b
    then []
    else "Tokenizer does not expose a chat template. Gateway chat proxy may require a configured template."
      ∷ []

memory_note : Option ℕ → List String
memory_note none = []
memory_note (some gb) =
    "Estimated GPU memory is derived from safetensors weight size and should be treated as a lower bound, not full runtime residency."
    ∷ []

module _ {World : Type 0} (hub : Hub World) (rules : Rules) where
  unfoldable pub estimated_memory : Option ℕ → Option ℕ
  estimated_memory none = none
  estimated_memory (some total) = if nat_eq total 0 then none else some (hub.round_gib total)

  report_of : String → Option String → ModelInfo → ModelConfig → Option String → ValidationReport
  unfolding architecture_of has_template template_note memory_note estimated_memory
  report_of hf_repo revision info config template =
      let architecture = architecture_of config.architectures in
      let gb = estimated_memory info.safetensors_total in
      let chosen = choose_backend rules architecture in
      record {
        hf_repo = hf_repo;
        revision = revision;
        architecture = architecture;
        tokenizer_status = "ok";
        chat_template_status = if has_template template then "ok" else "missing";
        config_status = "ok";
        compatibility = chosen.1;
        recommended_backend = chosen.0;
        estimated_gpu_memory_gb = gb;
        max_context_length = config.max_position_embeddings;
        smoke_test_status = "not_run";
        json_validity_status = "not_run";
        notes = template_note (has_template template) ++ memory_note gb;
        metadata =
            ("model_sha", info.sha)
            ∷ ("private", info.is_private)
            ∷ ("library_name", info.library_name)
            ∷ [];
      }

  unfoldable pub inspect : String → Option String → Exec World ValidationReport
  unfolding installed report_of
  inspect hf_repo revision = do
    lift (installed hub.is_installed)
    info ← hub.model_info hf_repo revision
    config ← hub.load_config hf_repo revision
    template ← hub.load_tokenizer hf_repo revision
    pure (report_of hf_repo revision info config template)
