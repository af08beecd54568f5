-- ===== src/Telemetry/Rows.antt =====
-- The telemetry repository of the database (llm_platform/database/repositories.py) over the rows that
-- the session selects.
use foundation_ai_platform.Prelude.{
  ℕ, ◌≡◌, refl, String, Bool, true, false, Option, none, some, List, map, select, length, leb,
}
use foundation_ai_platform.Prelude.Sorting.{sort}
use foundation_ai_platform.Value.{Metadata}
use foundation_ai_platform.Schemas.Records.{Timestamp}
use foundation_ai_platform.Telemetry.{Floats, TelemetryEvent, MetricsSnapshot}

abbrev present : Option String → Bool
present none = false
present (some e) = true

module _ (floats : Floats) where
  open floats use {Float, zero_ms, avg}

  pub record TelemetryRow : Type 0 where
    pub request_id : String
    pub deployment_id : String
    pub model_name : String
    pub latency_ms : Float
    pub e2e_latency_ms : Float
    pub ttft_ms : Float
    pub tpot_ms : Float
    pub itl_ms : Float
    pub prompt_tokens : ℕ
    pub completion_tokens : ℕ
    pub cache_hit : Bool
    pub speculative_decoding : Bool
    pub error : Option String
    pub timestamp : Timestamp
    pub metadata_json : Metadata

  unfoldable pub row_of_event : TelemetryEvent floats → TelemetryRow
  row_of_event e = record {
    request_id = e.request_id;
    deployment_id = e.deployment_id;
    model_name = e.model_name;
    latency_ms = e.latency_ms;
    e2e_latency_ms = e.e2e_latency_ms;
    ttft_ms = e.ttft_ms;
    tpot_ms = e.tpot_ms;
    itl_ms = e.itl_ms;
    prompt_tokens = e.prompt_tokens;
    completion_tokens = e.completion_tokens;
    cache_hit = e.cache_hit;
    speculative_decoding = e.speculative_decoding;
    error = e.error;
    timestamp = e.timestamp;
    metadata_json = e.metadata;
  }

  unfoldable pub event_from_row : TelemetryRow → TelemetryEvent floats
  event_from_row row = record {
    request_id = row.request_id;
    deployment_id = row.deployment_id;
    model_name = row.model_name;
    latency_ms = row.latency_ms;
    e2e_latency_ms = row.e2e_latency_ms;
    ttft_ms = row.ttft_ms;
    tpot_ms = row.tpot_ms;
    itl_ms = row.itl_ms;
    prompt_tokens = row.prompt_tokens;
    completion_tokens = row.completion_tokens;
    cache_hit = row.cache_hit;
    speculative_decoding = row.speculative_decoding;
    error = row.error;
    timestamp = row.timestamp;
    metadata = row.metadata_json;
  }

  -- `error IS NOT NULL`
  abbrev pub has_error : TelemetryRow → Bool
  has_error row = present row.error

  -- `or 0.0`
  or_zero : Option Float → Float
  or_zero none = zero_ms
  or_zero (some x) = x

  -- What the aggregate queries return over the rows. The percentiles are left at 0.0.
  unfoldable pub sql_snapshot : List TelemetryRow → MetricsSnapshot floats
  unfolding or_zero
  sql_snapshot rows = record {
    total_requests = length rows;
    total_errors = length (select has_error rows);
    average_latency_ms = or_zero (avg (map (λ r. r.latency_ms) rows));
    average_e2e_latency_ms = or_zero (avg (map (λ r. r.e2e_latency_ms) rows));
    average_ttft_ms = or_zero (avg (map (λ r. r.ttft_ms) rows));
    average_tpot_ms = or_zero (avg (map (λ r. r.tpot_ms) rows));
    average_itl_ms = or_zero (avg (map (λ r. r.itl_ms) rows));
    p95_latency_ms = zero_ms;
    p99_latency_ms = zero_ms;
    requests_with_speculative_decoding = length (select (λ r. r.speculative_decoding) rows);
  }

  -- `select(...).order_by(TelemetryTable.timestamp.asc())`
  unfoldable pub sql_list : List TelemetryRow → List (TelemetryEvent floats)
  unfolding event_from_row
  sql_list rows = map event_from_row (sort (λ r s. leb r.timestamp s.timestamp) rows)

  -- An event survives its row.
  row_round_trip : (e : TelemetryEvent floats) → event_from_row (row_of_event e) ≡ e
  unfolding event_from_row row_of_event
  row_round_trip e = refl
