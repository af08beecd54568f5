-- ===== src/Routing/Decision/Preferences.antt =====
-- How `route` (llm_platform/routing/router.py) honours a preferred model, and how it spreads load.
use foundation_ai_platform.Prelude.{
  ℕ, String, ◌≡◌, refl, subst, inl, inr, true, false, List, [], Option, none, some, arith, leb,
  eq_iff, Elem, Bool-cases,
}
use foundation_ai_platform.Prelude.Dict.{Dict}
use foundation_ai_platform.Exec.{Result, ok}
use foundation_ai_platform.Schemas.Records.{
  ModelRecord, DeploymentRecord, LifecycleRecord, RouteDecision,
}
use foundation_ai_platform.Routing.Groups.{
  RouteRequest, lifecycle_by_deployment, group_deployments, is_capable,
}
use foundation_ai_platform.Routing.Categories.{
  Candidate, Trackers, preferred, Scan, serve, lists, no_deployments, names_model, load,
  scan_models,
}
use foundation_ai_platform.Routing.Categories.Laws.{ScanStems, scan_models-Stems}
use foundation_ai_platform.Routing.Categories.Kinds.{kind_preferred}
use foundation_ai_platform.Routing.Categories.Coverage.{
  Listed, ServedOr, kind_in, pair, scan_covers,
}
use foundation_ai_platform.Routing.Decision.{
  Random, serve_from, power_of_two_choices, decide, route,
}
use foundation_ai_platform.Routing.Decision.Availability.{route_from_scan, capable-Elem, group-Elem}

-- The preferred model serves, at once.
abbrev pub ServedAsPreferred : RouteRequest → Result RouteDecision → Type 0
ServedAsPreferred request r =
    (d : RouteDecision) × (r ≡ ok d)
    × (request.preferred_model_id ≡ some d.model_id)
    × (d.requires_cold_start ≡ false)
    × (d.requires_new_instance ≡ false)
    × (d.evict_deployment_id ≡ none)

names_model→eq : (o : Option String) (id : String) → names_model o id ≡ true → o ≡ some id
names_model→eq none id h = cc
names_model→eq (some k) id h = ground (arith, eq_iff id k)

module _ (random : Random) (trackers : Trackers) (request : RouteRequest) where
  module _ (models : List ModelRecord) (deployments : List DeploymentRecord)
      (lifecycle_records : List LifecycleRecord) where
    abbrev lifecycles : Dict LifecycleRecord
    lifecycles = lifecycle_by_deployment lifecycle_records []

    abbrev groups : Dict (List DeploymentRecord)
    groups = group_deployments deployments []

    decide-Preferred :
        (ms : List ModelRecord) (c : Candidate) (scan : Scan)
        → ServedOr (Listed preferred c) scan
        → ScanStems trackers request lifecycles groups ms scan
        → ServedAsPreferred request (decide random trackers request scan)
    unfolding decide serve_from
    decide-Preferred ms c (serve p) h s =
        let (_, _, same) = kind_preferred trackers request _ p.model p.deployment s.of_kind in
        (_, refl, names_model→eq request.preferred_model_id p.model.id same, refl, refl, refl)
    decide-Preferred ms c (lists x) h s = absurd h

    -- Where a deployment counts as preferred, its model serves.
    pub route_serves_preferred :
        (m : ModelRecord) (d : DeploymentRecord)
        → Elem m models
        → is_capable request.capability m ≡ true
        → Elem d deployments
        → d.model_id ≡ m.id
        → kind_in trackers request lifecycles m d ≡ preferred
        → ServedAsPreferred request
            (route random trackers request models deployments lifecycle_records)
    unfolding route
    route_serves_preferred m d e c here own is_pref =
        route_from_scan random trackers request models deployments lifecycle_records
          (ServedAsPreferred request) m _
          (capable-Elem random trackers request models deployments lifecycle_records m e c)
          λ ms there.
            decide-Preferred ms (pair trackers request lifecycles m d) _
              (subst
                (λ k.
                  ServedOr (Listed k (pair trackers request lifecycles m d))
                    (scan_models trackers request lifecycles groups ms no_deployments))
                is_pref
                (scan_covers trackers request lifecycles groups m d ms no_deployments there (
                  group-Elem random trackers request models deployments lifecycle_records m d here
                    own)))
              (scan_models-Stems trackers request lifecycles groups ms ms no_deployments (λ m' x. x)
                (record { idle_stem = tt; busy_stem = tt; boot_stem = tt; disk_stem = tt }))

  abbrev load_of : Candidate → ℕ
  load_of c = load trackers.concurrency c.deployment.deployment_id

  -- Whatever holds of both that were drawn holds of the chosen one.
  pub power_of_two_among :
      (P : Candidate → Type 0) (p : Candidate × Candidate)
      → P p.0
      → P p.1
      → P (power_of_two_choices random trackers request p)
  unfolding power_of_two_choices
  power_of_two_among P (c, d) s t = elim (Bool-cases (leb (load_of c) (load_of d))) [
    | inl y ↦ rw y s
    | inr n ↦ rw n t
  ]
