-- ===== src/Telemetry/Tests.antt =====
-- Telemetry on two events, with whole milliseconds for floats.
use foundation_ai_platform.Prelude.{◌≡◌, refl, select, map}
use foundation_ai_platform.Prelude.Dict.{values}
use foundation_ai_platform.Prelude.Sorting.{sort}
use foundation_ai_platform.Exec.{ok}
use foundation_ai_platform.Telemetry.{MetricsSnapshot, list, snapshot, average}
use foundation_ai_platform.Telemetry.Percentiles.{Covers, snapshot_percentiles}
use foundation_ai_platform.Telemetry.Samples.{whole, whole-IsOrdered, store}

abbrev summary : MetricsSnapshot whole
summary = record {
  total_requests = 2;
  total_errors = 0;
  average_latency_ms = 25;
  average_e2e_latency_ms = 25;
  average_ttft_ms = 1;
  average_tpot_ms = 1;
  average_itl_ms = 1;
  p95_latency_ms = 30;
  p99_latency_ms = 30;
  requests_with_speculative_decoding = 2;
}

summarised : snapshot whole store ≡ ok summary
unfolding snapshot values select average sort
summarised = refl

snapshot_percentiles_example :
    (s : MetricsSnapshot whole) × (snapshot whole store ≡ ok s)
    × Covers whole whole-IsOrdered 95 s.p95_latency_ms (map (λ e. e.latency_ms) (list whole store))
    × Covers whole whole-IsOrdered 99 s.p99_latency_ms (map (λ e. e.latency_ms) (list whole store))
snapshot_percentiles_example = snapshot_percentiles whole whole-IsOrdered store
