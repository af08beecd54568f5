-- ===== src/Telemetry/Samples.antt =====
-- Two events, with whole milliseconds for floats: the data of the tests.
use foundation_ai_platform.Prelude.{ℕ, ◌+◌, ◌/◌, true, false, none, [], ◌∷◌, leb, arith, String}
use foundation_ai_platform.Prelude.Dict.{Dict}
use foundation_ai_platform.Telemetry.{Floats, TelemetryEvent}
use foundation_ai_platform.Telemetry.Percentiles.{IsOrdered}

abbrev pub whole : Floats
whole = record {
  Float = ℕ;
  zero_ms = 0;
  add = λ a b. a + b;
  over = λ a n. a / n;
  at_most = leb;
  avg = λ xs. none;
}

pub whole-IsOrdered : IsOrdered whole
whole-IsOrdered = record { total = λ x y h. ground arith; transitive = λ x y z h k. ground arith }

abbrev pub event : String → ℕ → TelemetryEvent whole
event id ms = record {
  request_id = id;
  deployment_id = "d1";
  model_name = "tiny";
  latency_ms = ms;
  e2e_latency_ms = ms;
  ttft_ms = 1;
  tpot_ms = 1;
  itl_ms = 1;
  prompt_tokens = 3;
  completion_tokens = 4;
  cache_hit = false;
  speculative_decoding = true;
  error = none;
  timestamp = 0;
  metadata = [];
}

abbrev pub store : Dict (TelemetryEvent whole)
store = ("r1", event "r1" 30) ∷ ("r2", event "r2" 20) ∷ []
