-- ===== src/Gateway/Metrics.antt =====
-- The metrics of llm_platform/gateway/routes.py and llm_platform/services/health.py, over the telemetry
-- providers. The rounding to two digits and the text of a time are parameters.
pub mod Recent
mod Tests
use foundation_ai_platform.Prelude.{
  ℕ, zero, suc, ◌-◌, ◌+◌, String, Bool, List, [], drop, ◌∷◌, map, length,
}
use foundation_ai_platform.Prelude.Int.{ℤ, pos, negsuc}
use foundation_ai_platform.Prelude.Dict.{Dict}
use foundation_ai_platform.Exec.{Result, ok, err}
use foundation_ai_platform.Value.{Metadata}
use foundation_ai_platform.Schemas.Records.{Timestamp}
use foundation_ai_platform.Telemetry.{Floats, TelemetryEvent, MetricsSnapshot}
use foundation_ai_platform.Telemetry.Providers.{
  TelemetryProvider, TelemetryRepository, repository_list, provider_snapshot,
}

-- `raw_events[-limit:]`: a limit of zero takes all, and a negative one leaves out that many.
unfoldable pub recent : {A : Type 0} → ℤ → List A → List A
unfolding drop
recent (pos zero) xs = xs
recent (pos (suc n)) xs = drop (length xs - suc n) xs
recent (negsuc n) xs = drop (suc n) xs

module _ (floats : Floats) (round2 : floats.Float → floats.Float)
    (isoformat : Timestamp → String) where
  open floats use {Float}

  -- `telemetry_provider._repository.list()`, and nothing where there is no repository.
  unfoldable pub raw_events :
      TelemetryProvider → TelemetryRepository floats → List (TelemetryEvent floats)
  unfolding repository_list
  raw_events TelemetryProvider.no_op r = []
  raw_events TelemetryProvider.memory r = repository_list floats r
  raw_events TelemetryProvider.repository r = repository_list floats r

  pub record RecentRequest : Type 0 where
    pub request_id : String
    pub model_name : String
    pub e2e_latency_ms : Float
    pub ttft_ms : Float
    pub tpot_ms : Float
    pub itl_ms : Float
    pub completion_tokens : ℕ
    pub speculative_decoding : Bool
    pub timestamp : String
    pub metadata : Metadata

  unfoldable pub request_of : TelemetryEvent floats → RecentRequest
  request_of event = record {
    request_id = event.request_id;
    model_name = event.model_name;
    e2e_latency_ms = round2 event.e2e_latency_ms;
    ttft_ms = round2 event.ttft_ms;
    tpot_ms = round2 event.tpot_ms;
    itl_ms = round2 event.itl_ms;
    completion_tokens = event.completion_tokens;
    speculative_decoding = event.speculative_decoding;
    timestamp = isoformat event.timestamp;
    metadata = event.metadata;
  }

  pub record Summary : Type 0 where
    pub total_requests : ℕ
    pub total_errors : ℕ
    pub average_e2e_latency_ms : Float
    pub average_ttft_ms : Float
    pub average_tpot_ms : Float
    pub average_itl_ms : Float
    pub p95_latency_ms : Float
    pub p99_latency_ms : Float
    pub requests_with_speculative_decoding : ℕ

  unfoldable pub summary_of : MetricsSnapshot floats → Summary
  summary_of s = record {
    total_requests = s.total_requests;
    total_errors = s.total_errors;
    average_e2e_latency_ms = round2 s.average_e2e_latency_ms;
    average_ttft_ms = round2 s.average_ttft_ms;
    average_tpot_ms = round2 s.average_tpot_ms;
    average_itl_ms = round2 s.average_itl_ms;
    p95_latency_ms = round2 s.p95_latency_ms;
    p99_latency_ms = round2 s.p99_latency_ms;
    requests_with_speculative_decoding = s.requests_with_speculative_decoding;
  }

  pub record InferenceMetrics : Type 0 where
    pub summary : Summary
    pub recent_requests : List RecentRequest

  metrics_of :
      Result (MetricsSnapshot floats) → List (TelemetryEvent floats) → Result InferenceMetrics
  unfolding summary_of request_of
  metrics_of (err e) events = err e
  metrics_of (ok s) events =
      ok (record { summary = summary_of s; recent_requests = map request_of events })

  unfoldable pub get_inference_metrics :
      TelemetryProvider → ℤ → TelemetryRepository floats → Result InferenceMetrics
  unfolding provider_snapshot raw_events metrics_of recent
  get_inference_metrics provider limit r =
      metrics_of (provider_snapshot floats provider r) (recent limit (raw_events provider r))

  pub record Health : Type 0 where
    pub status : String
    pub serving : Metadata
    pub metrics : MetricsSnapshot floats

  -- `HealthService.health`, given what the health of the model server is.
  health_of : Metadata → Result (MetricsSnapshot floats) → Result Health
  health_of serving (err e) = err e
  health_of serving (ok s) = ok (record { status = "ok"; serving = serving; metrics = s })

  unfoldable pub get_health :
      Metadata → TelemetryProvider → TelemetryRepository floats → Result Health
  unfolding provider_snapshot health_of
  get_health serving provider r = health_of serving (provider_snapshot floats provider r)
