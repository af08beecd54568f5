-- ===== src/Telemetry.antt =====
-- Telemetry: llm_platform/schemas/telemetry.py, llm_platform/telemetry/providers.py and the telemetry
-- repositories of llm_platform/database/repositories.py. Floating-point numbers are a parameter. The
-- index of a percentile is the whole part of a product with 0.95 or 0.99, which is exact for any
-- number of events that fits in memory.
pub mod Percentiles
pub mod Rows
pub mod Providers
pub mod Samples
mod Tests
use foundation_ai_platform.Prelude.{
  ℕ, ◌+◌, ◌-◌, ◌*◌, ◌/◌, String, Bool, Option, none, some, List, [], ◌∷◌, if◌then◌else◌, ltb,
  truthy?, length, get_elem?, select, map,
}
use foundation_ai_platform.Prelude.Dict.{Dict, insert, values}
use foundation_ai_platform.Prelude.Sorting.{sort}
use foundation_ai_platform.Exec.{Result, ok, err, other}
use foundation_ai_platform.Value.{Metadata}
use foundation_ai_platform.Schemas.Records.{Timestamp}

pub record Floats : Type 1 where
  pub Float : Type 0
  pub zero_ms : Float
  pub add : Float → Float → Float
  -- a quotient by a count
  pub over : Float → ℕ → Float
  pub at_most : Float → Float → Bool
  -- SQL's AVG, which is null over no rows
  pub avg : List Float → Option Float

module _ (floats : Floats) where
  open floats use {Float, zero_ms, add, over, at_most}

  pub record TelemetryEvent : Type 0 where
    pub request_id : String
    pub deployment_id : String
    pub model_name : String
    pub latency_ms : Float
    pub e2e_latency_ms : Float
    pub ttft_ms : Float
    pub tpot_ms : Float
    pub itl_ms : Float
    pub prompt_tokens : ℕ
    pub completion_tokens : ℕ
    pub cache_hit : Bool
    pub speculative_decoding : Bool
    pub error : Option String
    pub timestamp : Timestamp
    pub metadata : Metadata

  pub record MetricsSnapshot : Type 0 where
    pub total_requests : ℕ
    pub total_errors : ℕ
    pub average_latency_ms : Float
    pub average_e2e_latency_ms : Float
    pub average_ttft_ms : Float
    pub average_tpot_ms : Float
    pub average_itl_ms : Float
    pub p95_latency_ms : Float
    pub p99_latency_ms : Float
    pub requests_with_speculative_decoding : ℕ

  abbrev pub empty_snapshot : MetricsSnapshot
  empty_snapshot = record {
    total_requests = 0;
    total_errors = 0;
    average_latency_ms = zero_ms;
    average_e2e_latency_ms = zero_ms;
    average_ttft_ms = zero_ms;
    average_tpot_ms = zero_ms;
    average_itl_ms = zero_ms;
    p95_latency_ms = zero_ms;
    p99_latency_ms = zero_ms;
    requests_with_speculative_decoding = 0;
  }

  -- The in-memory repository.
  unfoldable pub save : TelemetryEvent → Dict TelemetryEvent → Dict TelemetryEvent
  save event events = insert event.request_id event events

  unfoldable pub list : Dict TelemetryEvent → List TelemetryEvent
  list events = values events

  sum_from : Float → List Float → Float
  sum_from total [] = total
  sum_from total (x ∷ xs) = sum_from (add total x) xs

  -- `sum(...) / total_requests if total_requests else 0.0`
  unfoldable pub average : List Float → Float
  unfolding sum_from
  average [] = zero_ms
  average (x ∷ xs) = over (sum_from zero_ms (x ∷ xs)) (length (x ∷ xs))

  abbrev pub count_if : {A : Type 0} → (A → Bool) → List A → ℕ
  count_if test xs = length (select test xs)

  item : Option Float → Result Float
  item none = err (other "IndexError: list index out of range")
  item (some x) = ok x

  unfoldable pub p95 : List Float → Result Float
  unfolding item
  p95 [] = ok zero_ms
  p95 (x ∷ xs) = item (get_elem? (x ∷ xs) (length (x ∷ xs) * 95 / 100))

  abbrev min : ℕ → ℕ → ℕ
  min a b = if ltb b a then b else a

  unfoldable pub p99 : List Float → Result Float
  unfolding item
  p99 [] = ok zero_ms
  p99 (x ∷ xs) = item (get_elem? (x ∷ xs) (min (length (x ∷ xs) * 99 / 100) (length (x ∷ xs) - 1)))

  -- The aggregates over the events; `failed` is what counts as an error.
  unfoldable pub aggregates :
      (TelemetryEvent → Bool) → List TelemetryEvent → Float → Float → MetricsSnapshot
  aggregates failed events at_95 at_99 = record {
    total_requests = length events;
    total_errors = count_if failed events;
    average_latency_ms = average (map (λ e. e.latency_ms) events);
    average_e2e_latency_ms = average (map (λ e. e.e2e_latency_ms) events);
    average_ttft_ms = average (map (λ e. e.ttft_ms) events);
    average_tpot_ms = average (map (λ e. e.tpot_ms) events);
    average_itl_ms = average (map (λ e. e.itl_ms) events);
    p95_latency_ms = at_95;
    p99_latency_ms = at_99;
    requests_with_speculative_decoding = count_if (λ e. e.speculative_decoding) events;
  }

  unfoldable pub latencies : List TelemetryEvent → List Float
  latencies events = sort at_most (map (λ e. e.latency_ms) events)

  with_percentiles : List TelemetryEvent → Result Float → Result Float → Result MetricsSnapshot
  unfolding aggregates
  with_percentiles events (ok a) (ok b) = ok (aggregates (λ e. truthy? e.error) events a b)
  with_percentiles events (ok a) (err e) = err e
  with_percentiles events (err e) b = err e

  unfoldable pub snapshot : Dict TelemetryEvent → Result MetricsSnapshot
  unfolding list latencies p95 p99 with_percentiles
  snapshot store =
      let events = list store in
      with_percentiles events (p95 (latencies events)) (p99 (latencies events))
