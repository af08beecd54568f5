-- ===== src/Telemetry/Providers.antt =====
-- The telemetry providers (llm_platform/telemetry/providers.py) over either repository of
-- llm_platform/database/repositories.py.
use foundation_ai_platform.Prelude.{List}
use foundation_ai_platform.Prelude.Dict.{Dict}
use foundation_ai_platform.Exec.{Result, ok}
use foundation_ai_platform.Telemetry.{
  Floats, TelemetryEvent, MetricsSnapshot, list, snapshot, empty_snapshot,
}
use foundation_ai_platform.Telemetry.Rows.{TelemetryRow, sql_snapshot, sql_list}

pub data TelemetryProvider : Type 0 where
  no_op memory repository : TelemetryProvider

-- `emit`, over the `save` of the repository.
unfoldable pub emit :
    {Event Repository : Type 0}
    → (Event → Repository → Repository)
    → TelemetryProvider
    → Event
    → Repository
    → Repository
emit save TelemetryProvider.no_op event r = r
emit save TelemetryProvider.memory event r = save event r
emit save TelemetryProvider.repository event r = save event r

module _ (floats : Floats) where
  -- The events of the one in memory, and the rows of the one in the database.
  pub data TelemetryRepository : Type 0 where
    in_memory : Dict (TelemetryEvent floats) → TelemetryRepository
    sqlalchemy : List (TelemetryRow floats) → TelemetryRepository

  unfoldable pub repository_list : TelemetryRepository → List (TelemetryEvent floats)
  repository_list (in_memory store) = list floats store
  repository_list (sqlalchemy rows) = sql_list floats rows

  unfoldable pub repository_snapshot : TelemetryRepository → Result (MetricsSnapshot floats)
  repository_snapshot (in_memory store) = snapshot floats store
  repository_snapshot (sqlalchemy rows) = ok (sql_snapshot floats rows)

  unfoldable pub provider_snapshot :
      TelemetryProvider → TelemetryRepository → Result (MetricsSnapshot floats)
  unfolding repository_snapshot
  provider_snapshot TelemetryProvider.no_op r = ok (empty_snapshot floats)
  provider_snapshot TelemetryProvider.memory r = repository_snapshot r
  provider_snapshot TelemetryProvider.repository r = repository_snapshot r
