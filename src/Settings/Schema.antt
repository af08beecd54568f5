-- ===== src/Settings/Schema.antt =====
-- llm_platform/schemas/config.py, and the choices that llm_platform/bootstrap.py and
-- llm_platform/serving/factory.py make by it. Floats are in hundredths.
use foundation_ai_platform.Prelude.{
  ℕ, String, Bool, true, false, Option, none, some, List, [], ◌∷◌, ◌==◌, ◌<>◌, if◌then◌else◌,
  truthy?, truthy, or_else, contains, nat_eq,
}
use foundation_ai_platform.Prelude.Texts.{lower, str}
use foundation_ai_platform.Exec.{Result, ok, err, other, validation}

pub record PlatformMetadataConfig : Type 0 where
  pub name : String
  pub environment : String

pub record GatewayConfig : Type 0 where
  pub host : String
  pub port : ℕ
  pub enable_metrics : Bool

pub record DatabaseConfig : Type 0 where
  pub engine : String
  pub path : String
  pub host : String
  pub port : Option ℕ
  pub database : String
  pub username : Option String
  pub password : Option String
  pub driver : Option String
  pub url : Option String
  pub echo : Bool

pub record PluginConfig : Type 0 where
  pub enabled : List String

pub record HuggingFaceGenerationDefaults : Type 0 where
  pub max_new_tokens : ℕ
  pub temperature : ℕ
  pub top_p : ℕ
  pub do_sample : Bool

pub record HuggingFaceRuntimeConfig : Type 0 where
  pub trust_remote_code : Bool
  pub revision : Option String
  pub default_dtype : String
  pub generation : HuggingFaceGenerationDefaults

pub record OpenAiCompatibleBackendConfig : Type 0 where
  pub base_url : Option String
  pub api_key : String
  pub health_path : String
  pub models_path : String
  pub chat_completions_path : String
  pub metrics_path : String
  pub request_timeout_seconds : ℕ
  pub default_remote_model : Option String

pub record ServingConfig : Type 0 where
  pub implementation : String
  pub default_engine : String
  pub supported_engines : List String
  pub default_placement : String
  pub fallback_placements : List String
  pub model_cache_dir : String
  pub gpu_vram_gb : ℕ
  pub num_speculative_tokens : ℕ
  pub huggingface : HuggingFaceRuntimeConfig
  pub vllm : OpenAiCompatibleBackendConfig
  pub tgi : OpenAiCompatibleBackendConfig

pub record TelemetrySinkConfig : Type 0 where
  pub enabled : Bool

pub record TelemetryConfig : Type 0 where
  pub provider : String
  pub prometheus : TelemetrySinkConfig
  pub opentelemetry : TelemetrySinkConfig

pub record PlatformConfig : Type 0 where
  pub platform : PlatformMetadataConfig
  pub gateway : GatewayConfig
  pub database : DatabaseConfig
  pub plugins : PluginConfig
  pub serving : ServingConfig
  pub telemetry : TelemetryConfig

-- The defaults of the fields.
abbrev pub default_backend : OpenAiCompatibleBackendConfig
default_backend = record {
  base_url = none;
  api_key = "-";
  health_path = "/health";
  models_path = "/v1/models";
  chat_completions_path = "/v1/chat/completions";
  metrics_path = "/metrics";
  request_timeout_seconds = 30000;
  default_remote_model = none;
}

abbrev pub default_database : DatabaseConfig
default_database = record {
  engine = "sqlite";
  path = "./data/platform.db";
  host = "localhost";
  port = none;
  database = "llm_platform";
  username = none;
  password = none;
  driver = none;
  url = none;
  echo = false;
}

abbrev pub default_serving : ServingConfig
default_serving = record {
  implementation = "fake";
  default_engine = "vllm";
  supported_engines = "vllm" ∷ "tgi" ∷ "huggingface-transformers" ∷ [];
  default_placement = "cpu";
  fallback_placements = [];
  model_cache_dir = "./data/model-cache";
  gpu_vram_gb = 24;
  num_speculative_tokens = 5;
  huggingface = record {
    trust_remote_code = false;
    revision = none;
    default_dtype = "auto";
    generation = record { max_new_tokens = 96; temperature = 0; top_p = 100; do_sample = false };
  };
  vllm = default_backend;
  tgi = default_backend;
}

abbrev pub default_config : PlatformConfig
default_config = record {
  platform = record { name = "foundation-ai-platform"; environment = "development" };
  gateway = record { host = "0.0.0.0"; port = 8000; enable_metrics = true };
  database = default_database;
  plugins = record { enabled = [] };
  serving = default_serving;
  telemetry = record {
    provider = "database";
    prometheus = record { enabled = true };
    opentelemetry = record { enabled = false };
  };
}

-- `self.port or default`
port_or : Option ℕ → ℕ → ℕ
port_or none default = default
port_or (some n) default = if nat_eq n 0 then default else n

credentials : Option String → Option String → String
credentials none password = ""
credentials (some user) password =
    if truthy user
    then (if truthy? password then user <> ":" <> or_else password "" <> "@" else user <> "@")
    else ""

server_url : DatabaseConfig → String → String → ℕ → String
unfolding port_or credentials
server_url c scheme driver port =
    scheme
    <> "+"
    <> or_else c.driver driver
    <> "://"
    <> credentials c.username c.password
    <> c.host
    <> ":"
    <> str (port_or c.port port)
    <> "/"
    <> c.database

-- `path_text` is the text of a path that was made of a text.
unfoldable pub sqlalchemy_url : (String → String) → DatabaseConfig → Result String
unfolding server_url
sqlalchemy_url path_text c =
    if truthy? c.url
    then ok (or_else c.url "")
    else let engine = lower c.engine in
      if engine == "sqlite"
      then ok ("sqlite+pysqlite:///" <> path_text c.path)
      else if contains engine ("postgres" ∷ "postgresql" ∷ [])
      then ok (server_url c "postgresql" "psycopg" 5432)
      else if engine == "mysql"
      then ok (server_url c "mysql" "pymysql" 3306)
      else err (other ("Unsupported database engine: " <> c.engine))

pub data Implementation : Type 0 where
  fake : Implementation
  hugging_face : ServingConfig → Implementation
  vllm tgi : OpenAiCompatibleBackendConfig → Implementation

unfoldable pub build_model_server : ServingConfig → Result Implementation
build_model_server c =
    let implementation = lower c.implementation in
    if implementation == "fake"
    then ok fake
    else if contains implementation ("huggingface-transformers" ∷ "transformers-local" ∷ [])
    then ok (hugging_face c)
    else if contains implementation ("vllm" ∷ "vllm-openai" ∷ [])
    then ok (vllm c.vllm)
    else if contains implementation ("tgi" ∷ "tgi-messages-api" ∷ [])
    then ok (tgi c.tgi)
    else err (validation ("Unsupported serving implementation: " <> c.implementation))

pub data Repositories : Type 0 where
  in_memory sqlalchemy : Repositories

unfoldable pub build_repositories : DatabaseConfig → Repositories
build_repositories c = if lower c.engine == "memory" then in_memory else sqlalchemy
