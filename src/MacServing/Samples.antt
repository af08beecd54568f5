-- ===== src/MacServing/Samples.antt =====
-- A machine, an operating system and a client for the tests of mac-serving.
use foundation_ai_platform.Prelude.{
  ℕ, ◌+◌, refl, Bool, true, false, ◌||◌, none, some, List, [], ◌∷◌, if◌then◌else◌, nat_eq, arith,
}
use foundation_ai_platform.Prelude.Int.{pos}
use foundation_ai_platform.Exec.{ok}
use foundation_ai_platform.Value.{text, bool, hundredths, table, field, end}
use foundation_ai_platform.MacServing.{Machine}
use foundation_ai_platform.MacServing.Config.{AppConfig, ServerConfig, EngineConfig, num}
use foundation_ai_platform.MacServing.Config.Safety.{IsTyped}
use foundation_ai_platform.MacServing.Backend.{Os, Backend, status}
use foundation_ai_platform.MacServing.Backend.Process.{IsOs}
use foundation_ai_platform.MacServing.App.{Client, HttpRequest, answered}

-- Every file is there, and the configuration names a model and nothing else.
abbrev pub desk : Machine
desk = record {
  expanduser = λ p. p;
  resolve = λ p. p;
  is_absolute = λ p. true;
  parent = λ p. "/etc";
  join = λ p q. q;
  is_file = λ p. true;
  which = λ p. some "/bin/llama-server";
  getenv = λ p. none;
  load_toml = λ p. ok (("model", table (field "path" (text "/m.gguf") end)) ∷ []);
  str = λ v. elim v [ text s ↦ s | _ ↦ "8" ];
  package_root = "/opt";
}

-- The clock, the next process and those that have ended.
pub record Pc : Type 0 where
  pub clock : ℕ
  pub next : ℕ
  pub ended : List ℕ

abbrev listed : ℕ → List ℕ → Bool
listed p [] = false
listed p (q ∷ qs) = nat_eq p q || listed p qs

abbrev end_one : ℕ → Pc → Pc
end_one p w = record w { ended = p ∷ w.ended }

abbrev pub mac : Os Pc
mac = record {
  open_log = λ path w. (ok 3, w);
  close_log = λ h w. w;
  create_subprocess = λ command h w. (ok w.next, record w { next = w.next + 1 });
  returncode = λ p w. if listed p w.ended then some (pos 0) else none;
  time = λ w. w.clock;
  get_health = λ h p w. (status 200, w);
  sleep = λ w. record w { clock = w.clock + 250 };
  terminate = λ p w. w;
  kill = λ p w. w;
  wait_for = λ p w. (true, end_one p w);
  wait = end_one;
}

pub mac-IsOs : IsOs mac
mac-IsOs = record {
  wait_for_ends = λ p w h. (pos 0, ground arith);
  wait_ends = λ p w. (pos 0, ground arith);
  close_keeps = λ p h w. refl;
  health_takes = λ h p w. omega arith;
  sleep_takes = λ w. omega arith;
}

abbrev pub off : Backend Pc
off = record {
  process = none;
  log_handle = none;
  world = record { clock = 0; next = 1; ended = [] };
}

-- A backend that answers every request.
abbrev pub echo : Client Pc
echo = record {
  send = λ r w. (answered 200 (("te", "x") ∷ ("server", "llama") ∷ []) "hi", w);
  aclose = λ w. (ok tt, w);
  monotonic = λ w. w.clock;
}

abbrev pub ask : HttpRequest
ask = record {
  method = "GET";
  path = "models";
  query = "";
  headers = ("host", "here") ∷ ("accept", "json") ∷ [];
  body = "";
}

abbrev pub local : ServerConfig
local = record {
  host = text "127.0.0.1";
  port = num 8080;
  backend_host = text "127.0.0.1";
  backend_port = num 8081;
  startup_timeout_seconds = hundredths 30000;
  api_key_env = text "MAC_SERVING_API_KEY";
}

abbrev pub engine : EngineConfig
engine = record {
  binary = text "auto";
  manage_process = bool true;
  gpu_layers = text "all";
  threads = num 8;
  context_size = num 8192;
  parallel = num 1;
  batch_size = num 512;
  micro_batch_size = num 256;
  cache_type_k = text "q8_0";
  cache_type_v = text "q8_0";
  flash_attention = bool true;
  continuous_batching = bool true;
  cache_prompt = bool false;
  lazy_mode = text "auto";
  jinja = bool true;
  mlock = bool false;
}

-- What `desk` loads.
abbrev pub defaults : AppConfig
defaults = record {
  server = local;
  model = record { path = "/m.gguf"; alias = "local-model"; chat = true };
  engine = engine;
  footprint = [];
  source = "/etc/mac.toml";
}

abbrev pub typed : IsTyped local engine
typed = record {
  host = "127.0.0.1";
  key = "MAC_SERVING_API_KEY";
  parallel = 1;
  context_size = 8192;
  batch_size = 512;
  micro_batch_size = 256;
  lazy_mode = "auto";
  host_eq = refl;
  key_eq = refl;
  parallel_eq = refl;
  context_size_eq = refl;
  batch_size_eq = refl;
  micro_batch_size_eq = refl;
  lazy_mode_eq = refl;
}
