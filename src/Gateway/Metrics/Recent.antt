-- ===== src/Gateway/Metrics/Recent.antt =====
-- Which events the metrics of inference list (llm_platform/gateway/routes.py).
use foundation_ai_platform.Prelude.{
  ℕ, zero, suc, ◌+◌, ◌-◌, ◌≤◌, ◌≡◌, drop, refl, sym, ◌∙◌, ap, String, List, [], ◌∷◌, ◌++◌, map,
  length, arith, leb, if◌then◌else◌,
}
use foundation_ai_platform.Prelude.Sorting.{sort, length-sort}
use foundation_ai_platform.Prelude.Int.{pos}
use foundation_ai_platform.Exec.{Result, ok}
use foundation_ai_platform.Schemas.Records.{Timestamp}
use foundation_ai_platform.Telemetry.{MetricsSnapshot, Floats, TelemetryEvent, list, empty_snapshot}
use foundation_ai_platform.Telemetry.Rows.{TelemetryRow, sql_snapshot, sql_list, event_from_row}
use foundation_ai_platform.Telemetry.Providers.{
  TelemetryProvider, TelemetryRepository, in_memory, sqlalchemy, repository_list,
  repository_snapshot, provider_snapshot,
}
use foundation_ai_platform.Telemetry.Percentiles.{IsOrdered, snapshot_percentiles, snapshot_counts}
use foundation_ai_platform.Gateway.Metrics.{
  recent, raw_events, RecentRequest, request_of, InferenceMetrics, get_inference_metrics,
  metrics_of, summary_of,
}

module _ {A B : Type 0} where
  drop-map : (f : A → B) (n : ℕ) (xs : List A) → drop n (map f xs) ≡ map f (drop n xs)
  unfolding drop
  drop-map f n [] = refl
  drop-map f zero (x ∷ xs) = refl
  drop-map f (suc n) (x ∷ xs) = drop-map f n xs

  length-map : (f : A → B) (xs : List A) → length (map f xs) ≡ length xs
  length-map f [] = refl
  length-map f (x ∷ xs) = ap suc (length-map f xs)

module _ {A : Type 0} where
  -- The end of a list, after what stands before it.
  pub record IsLast (n : ℕ) (xs ys : List A) : Type 0 where
    pub before : List A
    pub whole : xs ≡ before ++ ys
    pub as_many : length ys ≡ (if leb n (length xs) then n else length xs)

  length-drop : (n : ℕ) (xs : List A) → n ≤ length xs → length (drop n xs) + n ≡ length xs
  unfolding drop
  length-drop zero [] h = refl
  length-drop zero (x ∷ xs) h = omega arith
  length-drop (suc n) [] h = omega arith
  length-drop (suc n) (x ∷ xs) h = omega (arith, length-drop n xs (omega arith))

  skipped : (n : ℕ) (xs : List A) → (before : List A) × (xs ≡ before ++ drop n xs)
  unfolding drop
  skipped n [] = ([], refl)
  skipped zero (x ∷ xs) = ([], refl)
  skipped (suc n) (x ∷ xs) = let (before, e) = skipped n xs in (x ∷ before, ap (λ ys. x ∷ ys) e)

  recent-IsLast : (n : ℕ) (xs : List A) → IsLast (suc n) xs (recent (pos (suc n)) xs)
  unfolding recent
  recent-IsLast n xs =
      let k = length-drop (length xs - suc n) xs (omega arith) in
      record {
        before = (skipped (length xs - suc n) xs).0;
        whole = (skipped (length xs - suc n) xs).1;
        as_many = ground (arith, k);
      }

  recent-map :
      {B : Type 0} (f : A → B) (n : ℕ) (xs : List A)
      → recent (pos (suc n)) (map f xs) ≡ map f (recent (pos (suc n)) xs)
  unfolding recent
  recent-map f n xs = rw length-map (drop-map f (length xs - suc n) xs)

module _ (floats : Floats) (ordered : IsOrdered floats) (round2 : floats.Float → floats.Float)
    (isoformat : Timestamp → String) where
  abbrev shown : TelemetryEvent floats → RecentRequest floats round2 isoformat
  shown = request_of floats round2 isoformat

  -- Of a limit above zero, the last requests, and a summary over all.
  pub record IsAnswer (n : ℕ) (events : List (TelemetryEvent floats))
      (m : InferenceMetrics floats round2 isoformat) : Type 0 where
    pub counted : m.summary.total_requests ≡ length events
    pub listed : IsLast n (map shown events) m.recent_requests

  answered :
      (n : ℕ) (events : List (TelemetryEvent floats)) (r : Result (MetricsSnapshot floats))
      (s : MetricsSnapshot floats)
      → r ≡ ok s
      → s.total_requests ≡ length events
      → (m : InferenceMetrics floats round2 isoformat) × (metrics_of floats round2 isoformat r
            (recent (pos (suc n)) events)
          ≡ ok m)
        × IsAnswer (suc n) events m
  unfolding metrics_of summary_of
  answered n events r s e c = rw e (
    record {
      summary = summary_of floats round2 isoformat s;
      recent_requests = map shown (recent (pos (suc n)) events);
    },
    refl,
    record {
      counted = c;
      listed = rw (← recent-map shown n events) (recent-IsLast n (map shown events));
    },
  )

  sql_counts :
      (rows : List (TelemetryRow floats))
      → (sql_snapshot floats rows).total_requests ≡ length (sql_list floats rows)
  unfolding sql_snapshot sql_list
  sql_counts rows =
      sym (length-sort _ rows) ∙ sym (length-map (event_from_row floats) (sort _ rows))

  repository_answers :
      (n : ℕ) (r : TelemetryRepository floats)
      → (m : InferenceMetrics floats round2 isoformat) × (metrics_of floats round2 isoformat
            (repository_snapshot floats r)
            (recent (pos (suc n)) (repository_list floats r))
          ≡ ok m)
        × IsAnswer (suc n) (repository_list floats r) m
  unfolding repository_snapshot repository_list
  repository_answers n (in_memory store) =
      let (s, e, _, _) = snapshot_percentiles floats ordered store in
      answered n (list floats store) _ s e (snapshot_counts floats ordered store s e)
  repository_answers n (sqlalchemy rows) =
      answered n (sql_list floats rows) _ (sql_snapshot floats rows) refl (sql_counts rows)

  -- The metrics of inference are always answered, over the repository in memory and over the one in
  -- the database. They count all events of the provider, and list the last ones, in order, as many
  -- as a limit above zero allows.
  pub inference_metrics-IsAnswer :
      (provider : TelemetryProvider) (n : ℕ) (r : TelemetryRepository floats)
      → (m : InferenceMetrics floats round2 isoformat) × (get_inference_metrics floats round2
            isoformat provider
            (pos (suc n))
            r
          ≡ ok m)
        × IsAnswer (suc n) (raw_events floats round2 isoformat provider r) m
  unfolding get_inference_metrics provider_snapshot raw_events
  inference_metrics-IsAnswer TelemetryProvider.no_op n r =
      answered n [] _ (empty_snapshot floats) refl refl
  inference_metrics-IsAnswer TelemetryProvider.memory n r = repository_answers n r
  inference_metrics-IsAnswer TelemetryProvider.repository n r = repository_answers n r
