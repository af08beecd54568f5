-- ===== src/Gateway/Metrics/Tests.antt =====
-- The metrics of two events (llm_platform/gateway/routes.py).
use foundation_ai_platform.Prelude.{◌≡◌, refl, String, [], ◌∷◌}
use foundation_ai_platform.Prelude.Int.{pos}
use foundation_ai_platform.Exec.{ok}
use foundation_ai_platform.Schemas.Records.{Timestamp}
use foundation_ai_platform.Telemetry.Providers.{TelemetryProvider, in_memory}
use foundation_ai_platform.Telemetry.Samples.{whole, whole-IsOrdered, event, store}
use foundation_ai_platform.Gateway.Metrics.{
  recent, raw_events, InferenceMetrics, get_inference_metrics,
}
use foundation_ai_platform.Gateway.Metrics.Recent.{IsAnswer, inference_metrics-IsAnswer}

abbrev show : Timestamp → String
show t = "1970-01-01T00:00:00+00:00"

-- A limit of zero lists all.
unlimited : recent (pos 0) (event "r1" 30 ∷ event "r2" 20 ∷ []) ≡ event "r1" 30 ∷ event "r2" 20 ∷ []
unfolding recent
unlimited = refl

inference_metrics-IsAnswer_example :
    (m : InferenceMetrics whole (λ x. x) show) × (get_inference_metrics whole
        (λ x. x)
        show
        TelemetryProvider.memory
        (pos 1)
        (in_memory store)
      ≡ ok m)
    × IsAnswer whole whole-IsOrdered
        (λ x. x)
        show
        1
        (raw_events whole (λ x. x) show TelemetryProvider.memory (in_memory store))
        m
inference_metrics-IsAnswer_example =
    inference_metrics-IsAnswer whole whole-IsOrdered (λ x. x) show TelemetryProvider.memory 0
      (in_memory store)
