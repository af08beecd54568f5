-- ===== src/MacServing/Config.antt =====
-- mac-serving/src/mac_serving/config.py. A dataclass does not check the types of its fields, so a
-- field holds any value; a comparison that Python refuses is a TypeError. Arrays, which Python
-- orders item by item, count as refused.
pub mod Safety
use Prim.Native.String.{compare}
use package.text.Mathlib.Text.{is_lt}
use foundation_ai_platform.Prelude.{
  ℕ, suc, ◌+◌, ◌*◌, String, Bool, true, false, not, Option, none, some, List, [], ◌∷◌,
  if◌then◌else◌, contains, truthy?, ◌<>◌,
}
use foundation_ai_platform.Prelude.Int.{ℤ, pos, negsuc, ltb_ℤ}
use foundation_ai_platform.Prelude.Dict.{lookup, get_or}
use foundation_ai_platform.Exec.{Error, Result, ok, err, other}
use foundation_ai_platform.Value.{
  Value, null, bool, int, hundredths, text, items, table, Fields, end, field, truth, Metadata,
  entries,
}
use foundation_ai_platform.MacServing.{Machine}

infixl 10 ◌>>=◌ ◌>>◌
abbrev pub ◌>>=◌ : {A B : Type 0} → Result A → (A → Result B) → Result B
ok a >>= f = f a
err e >>= f = err e

abbrev pub ◌>>◌ : {A B : Type 0} → Result A → Result B → Result B
m >> n = m >>= λ _. n

pub record ServerConfig : Type 0 where
  pub host : Value
  pub port : Value
  pub backend_host : Value
  pub backend_port : Value
  pub startup_timeout_seconds : Value
  pub api_key_env : Value

pub record ModelConfig : Type 0 where
  pub path : String
  pub alias : String
  pub chat : Bool

pub record EngineConfig : Type 0 where
  pub binary : Value
  pub manage_process : Value
  pub gpu_layers : Value
  pub threads : Value
  pub context_size : Value
  pub parallel : Value
  pub batch_size : Value
  pub micro_batch_size : Value
  pub cache_type_k : Value
  pub cache_type_v : Value
  pub flash_attention : Value
  pub continuous_batching : Value
  pub cache_prompt : Value
  pub lazy_mode : Value
  pub jinja : Value
  pub mlock : Value

-- FootprintConfig: its table as it was read, since only its keys are checked.
pub record AppConfig : Type 0 where
  pub server : ServerConfig
  pub model : ModelConfig
  pub engine : EngineConfig
  pub footprint : Metadata
  pub source : String

abbrev pub type_error : {A : Type 0} → Result A
type_error = err (other "TypeError")

abbrev pub value_error : {A : Type 0} → String → Result A
value_error s = err (other s)

table_of : String → Option Value → Result Metadata
table_of name none = ok []
table_of name (some (table fs)) = ok (entries fs)
table_of name (some v) = value_error ("[" <> name <> "] must be a TOML table")

unfoldable pub section : Metadata → String → Result Metadata
unfolding table_of
section doc name = table_of name (lookup name doc)

-- The call with keyword arguments refuses a name that is no field.
known : List String → Metadata → Result (Unit {0})
known names [] = ok tt
known names ((k, v) ∷ d) = let rest = known names d in if contains k names then rest else type_error

abbrev pub num : ℕ → Value
num n = int (pos n)

unfoldable pub server_config : Metadata → Result ServerConfig
unfolding known
server_config d = do
  known
      ("host" ∷ "port" ∷ "backend_host" ∷ "backend_port" ∷ "startup_timeout_seconds" ∷ "api_key_env"
        ∷ [])
      d
  ok (record {
    host = get_or "host" (text "127.0.0.1") d;
    port = get_or "port" (num 8080) d;
    backend_host = get_or "backend_host" (text "127.0.0.1") d;
    backend_port = get_or "backend_port" (num 8081) d;
    startup_timeout_seconds = get_or "startup_timeout_seconds" (hundredths 30000) d;
    api_key_env = get_or "api_key_env" (text "MAC_SERVING_API_KEY") d;
  })

unfoldable pub engine_config : Metadata → Result EngineConfig
unfolding known
engine_config d = do
  known
      ("binary" ∷ "manage_process" ∷ "gpu_layers" ∷ "threads" ∷ "context_size" ∷ "parallel"
        ∷ "batch_size" ∷ "micro_batch_size" ∷ "cache_type_k" ∷ "cache_type_v" ∷ "flash_attention"
        ∷ "continuous_batching" ∷ "cache_prompt" ∷ "lazy_mode" ∷ "jinja" ∷ "mlock" ∷ [])
      d
  ok (record {
    binary = get_or "binary" (text "auto") d;
    manage_process = get_or "manage_process" (bool true) d;
    gpu_layers = get_or "gpu_layers" (text "all") d;
    threads = get_or "threads" (num 8) d;
    context_size = get_or "context_size" (num 8192) d;
    parallel = get_or "parallel" (num 1) d;
    batch_size = get_or "batch_size" (num 512) d;
    micro_batch_size = get_or "micro_batch_size" (num 256) d;
    cache_type_k = get_or "cache_type_k" (text "q8_0") d;
    cache_type_v = get_or "cache_type_v" (text "q8_0") d;
    flash_attention = get_or "flash_attention" (bool true) d;
    continuous_batching = get_or "continuous_batching" (bool true) d;
    cache_prompt = get_or "cache_prompt" (bool false) d;
    lazy_mode = get_or "lazy_mode" (text "auto") d;
    jinja = get_or "jinja" (bool true) d;
    mlock = get_or "mlock" (bool false) d;
  })

unfoldable pub footprint_config : Metadata → Result Metadata
unfolding known
footprint_config d = do
  known
      ("model_billions" ∷ "quant_bits" ∷ "layers" ∷ "attention_heads" ∷ "kv_heads" ∷ "hidden_size"
        ∷ "head_dim" ∷ "cache_bytes" ∷ [])
      d
  ok d

-- A number, in hundredths; `True` and `False` are 1 and 0.
abbrev pub amount : Value → Option ℤ
amount (int (pos n)) = some (pos (n * 100))
amount (int (negsuc n)) = some (negsuc (n * 100 + 99))
amount (hundredths n) = some (pos n)
amount (bool true) = some (pos 100)
amount (bool false) = some (pos 0)
amount _ = none

less_amounts : Option ℤ → Option ℤ → Result Bool
less_amounts (some a) (some b) = ok (ltb_ℤ a b)
less_amounts _ _ = type_error

-- `a < b` of two texts or two numbers
unfoldable pub less : Value → Value → Result Bool
unfolding less_amounts
less (text s) (text t) = ok (is_lt (compare s t))
less a b = less_amounts (amount a) (amount b)

-- `v in {names}`, which needs a hash of `v`
unfoldable pub member : Value → List String → Result Bool
member (text s) names = ok (contains s names)
member (items vs) names = type_error
member (table fs) names = type_error
member _ names = ok false

abbrev pub loopback : List String
loopback = "127.0.0.1" ∷ "localhost" ∷ "::1" ∷ []

abbrev pub lazy_modes : List String
lazy_modes = "auto" ∷ "on" ∷ "off" ∷ []

-- `a or b()`
abbrev or_then : Result Bool → Result Bool → Result Bool
or_then (ok true) b = ok true
or_then (ok false) b = b
or_then (err e) b = err e

refuse_if : Result Bool → String → Result (Unit {0})
refuse_if (ok true) message = value_error message
refuse_if (ok false) message = ok tt
refuse_if (err e) message = err e

module _ (machine : Machine) where
  env_set : Value → Result Bool
  env_set (text name) = ok (truthy? (machine.getenv name))
  env_set _ = type_error

  -- `server.host not in {...} and not os.getenv(server.api_key_env)`
  exposed : ServerConfig → Result Bool
  unfolding env_set member
  exposed s = do
    local ← member s.host loopback
    if local then ok false else (do key ← env_set s.api_key_env; ok (not key))

  unfoldable pub validate : ServerConfig → EngineConfig → Result (Unit {0})
  unfolding exposed refuse_if less
  validate server engine = do
    refuse_if (exposed server) "Refusing non-loopback bind"
    refuse_if (or_then (less engine.parallel (num 1)) (less engine.context_size engine.parallel))
        "engine.parallel must be positive and no larger than context_size"
    refuse_if (less engine.batch_size engine.micro_batch_size)
        "engine.micro_batch_size cannot exceed engine.batch_size"
    allowed ← member engine.lazy_mode lazy_modes
    if allowed then ok tt else value_error "engine.lazy_mode must be auto, on, or off"

  model_path : String → Option Value → Result String
  model_path source none = value_error "[model].path is required"
  model_path source (some v) =
      let path = machine.expanduser (machine.str v) in
      ok (
        if machine.is_absolute path
        then path
        else machine.resolve (machine.join (machine.parent source) path))

  unfoldable pub load_config : String → Result AppConfig
  unfolding model_path section server_config engine_config footprint_config validate
  load_config path = do
    let source = machine.resolve (machine.expanduser path)
    doc ← machine.load_toml source
    server_table ← section doc "server"
    server ← server_config server_table
    engine_table ← section doc "engine"
    engine ← engine_config engine_table
    footprint_table ← section doc "footprint"
    footprint ← footprint_config footprint_table
    model_values ← section doc "model"
    path' ← model_path source (lookup "path" model_values)
    let model : ModelConfig = record {
      path = path';
      alias = machine.str (get_or "alias" (text "local-model") model_values);
      chat = truth (get_or "chat" (bool true) model_values);
    }
    validate server engine
    ok (record {
      server = server;
      model = model;
      engine = engine;
      footprint = footprint;
      source = source;
    })

  unfoldable pub default_config_path : String
  default_config_path = elim (machine.getenv "MAC_SERVING_CONFIG") [
    | some override ↦
        if truthy? (some override)
        then machine.resolve (machine.expanduser override)
        else machine.join machine.package_root "config/mac-serving.toml"
    | none ↦ machine.join machine.package_root "config/mac-serving.toml"
  ]
