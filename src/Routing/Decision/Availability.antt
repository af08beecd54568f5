-- ===== src/Routing/Decision/Availability.antt =====
-- When `route` (llm_platform/routing/router.py) answers, and when it needs no cold start.
use foundation_ai_platform.Prelude.{
  ◌≡◌, ◌≢◌, refl, subst, ◌⊎◌, inl, inr, true, false, List, [], ◌∷◌, ◌++◌, none, eq_iff, Elem,
  select, Elem-append_left, Elem-append_right, select-Elem,
}
use foundation_ai_platform.Prelude.Dict.{Dict, get_or}
use foundation_ai_platform.Prelude.Sorting.{Elem-sort}
use foundation_ai_platform.Exec.{Result, ok}
use foundation_ai_platform.Schemas.Records.{
  ModelRecord, DeploymentRecord, LifecycleRecord, RouteDecision,
}
use foundation_ai_platform.Routing.Groups.{
  RouteRequest, lifecycle_by_deployment, group_deployments, is_capable, capable_models, is_broader,
  by_breadth,
}
use foundation_ai_platform.Routing.Groups.Laws.{belongs, group_deployments-select}
use foundation_ai_platform.Routing.Categories.{
  Candidate, OnDisk, Categories, Trackers, Kind, skipped, preferred, idle, busy, boot, disk, Scan,
  serve, lists, no_deployments, scan_models,
}
use foundation_ai_platform.Routing.Categories.Coverage.{
  Listed, ServedOr, ServedOr-map, kind_in, pair, on_disk, scan_covers, scan_covers_bare,
}
use foundation_ai_platform.Routing.Decision.{
  Random, ScaleOut, serve_from, queue, scale_or_queue, scale_out_list, decide_idle, decide,
  scan_all, route_capable, route,
}
use foundation_ai_platform.Routing.Decision.Starts.{scale_out_list-nonempty}

-- The request is answered.
abbrev pub Answered : Result RouteDecision → Type 0
Answered r = (d : RouteDecision) × (r ≡ ok d)

-- The request is answered: nothing is started and nothing is evicted.
abbrev pub ServedWarm : Result RouteDecision → Type 0
ServedWarm r =
    (d : RouteDecision) × (r ≡ ok d)
    × (d.requires_cold_start ≡ false)
    × (d.requires_new_instance ≡ false)
    × (d.evict_deployment_id ≡ none)

module _ (random : Random) (trackers : Trackers) (request : RouteRequest) where
  queue-Answered :
      (c : Candidate) (cs : List Candidate)
      → Elem c cs
      → Answered (queue random trackers request cs)
  unfolding queue
  queue-Answered c [] m = absurd m
  queue-Answered c (c' ∷ []) m = (_, refl)
  queue-Answered c (c' ∷ c'' ∷ cs) m = (_, refl)

  scale_or_queue-Answered :
      (s : Categories) (cs : List ScaleOut)
      → ((c : ScaleOut) × Elem c cs) ⊎ ((c : Candidate) × Elem c (s.ready_busy ++ s.booting))
      → Answered (scale_or_queue random trackers request s cs)
  unfolding scale_or_queue
  scale_or_queue-Answered s [] (inl (c, m)) = absurd m
  scale_or_queue-Answered s [] (inr (c, m)) = queue-Answered c _ m
  scale_or_queue-Answered s (c ∷ cs) h = (_, refl)

  -- A model on disk makes a candidate.
  candidate_of :
      (o : OnDisk) (ds : List OnDisk)
      → Elem o ds
      → (c : ScaleOut) × Elem c (scale_out_list random trackers request ds)
  candidate_of o [] m = absurd m
  candidate_of o (d ∷ ds) m = scale_out_list-nonempty random trackers request d ds

  -- Some list of phase 2 is not empty.
  abbrev Offers : Categories → Type 0
  Offers s =
      ((c : Candidate) × Elem c s.ready_idle)
      ⊎ (((o : OnDisk) × Elem o s.sitting_on_disk)
          ⊎ ((c : Candidate) × Elem c (s.ready_busy ++ s.booting)))

  decide_idle-Answered :
      (s : Categories) (cs : List Candidate)
      → s.ready_idle ≡ cs
      → Offers s
      → Answered (decide_idle random trackers request s cs)
  unfolding decide_idle
  decide_idle-Answered s [] e (inl (c, m)) = absurd (rw e at m)
  decide_idle-Answered s [] e (inr (inl (o, m))) =
      scale_or_queue-Answered s _ (inl (candidate_of o s.sitting_on_disk m))
  decide_idle-Answered s [] e (inr (inr h)) = scale_or_queue-Answered s _ (inr h)
  decide_idle-Answered s (c ∷ cs) e h = (_, refl)

  decide-Answered :
      (scan : Scan) → ServedOr Offers scan → Answered (decide random trackers request scan)
  unfolding decide
  decide-Answered (serve c) h = (_, refl)
  decide-Answered (lists s) h = decide_idle-Answered s s.ready_idle refl h

  Listed-Offers :
      (k : Kind) (c : Candidate) (s : Categories) → k ≢ skipped → Listed k c s → Offers s
  Listed-Offers skipped c s n m = absurd (n refl)
  Listed-Offers preferred c s n m = absurd m
  Listed-Offers idle c s n m = inl (c, m)
  Listed-Offers busy c s n m = inr (inr (c, Elem-append_left c _ s.booting m))
  Listed-Offers boot c s n m = inr (inr (c, Elem-append_right c s.ready_busy _ m))
  Listed-Offers disk c s n m = inr (inl (on_disk c, m))

  decide_idle-ServedWarm :
      (s : Categories) (cs : List Candidate) (c : Candidate)
      → Elem c cs
      → ServedWarm (decide_idle random trackers request s cs)
  unfolding decide_idle serve_from
  decide_idle-ServedWarm s [] c m = absurd m
  decide_idle-ServedWarm s (c' ∷ cs) c m = (_, refl, refl, refl, refl)

  decide-ServedWarm :
      (c : Candidate) (scan : Scan)
      → ServedOr (λ s. Elem c s.ready_idle) scan
      → ServedWarm (decide random trackers request scan)
  unfolding decide serve_from
  decide-ServedWarm c (serve p) h = (_, refl, refl, refl, refl)
  decide-ServedWarm c (lists s) h = decide_idle-ServedWarm s s.ready_idle c h

  module _ (models : List ModelRecord) (deployments : List DeploymentRecord)
      (lifecycle_records : List LifecycleRecord) where
    abbrev lifecycles : Dict LifecycleRecord
    lifecycles = lifecycle_by_deployment lifecycle_records []

    abbrev groups : Dict (List DeploymentRecord)
    groups = group_deployments deployments []

    -- What the decision on every scan that covers the model satisfies, `route` satisfies.
    pub route_from_scan :
        (R : Result RouteDecision → Type 0) (m : ModelRecord) (capable : List ModelRecord)
        → Elem m capable
        → ((ms : List ModelRecord)
            → Elem m ms
            → R (
                decide random trackers request
                  (scan_models trackers request lifecycles groups ms no_deployments)))
        → R (route_capable random trackers request capable deployments lifecycle_records)
    unfolding route_capable scan_all by_breadth
    route_from_scan R m [] e f = absurd e
    route_from_scan R m (x ∷ xs) e f = f _ (Elem-sort is_broader m (x ∷ xs) e)

    pub capable-Elem :
        (m : ModelRecord)
        → Elem m models
        → is_capable request.capability m ≡ true
        → Elem m (capable_models request.capability models)
    unfolding capable_models
    capable-Elem m e c = select-Elem (is_capable request.capability) m models c e

    pub group-Elem :
        (m : ModelRecord) (d : DeploymentRecord)
        → Elem d deployments
        → d.model_id ≡ m.id
        → Elem d (get_or m.id [] groups)
    group-Elem m d e own =
        rw (group_deployments-select m.id deployments)
          (select-Elem (belongs m.id) d deployments ((eq_iff _ _).1 own) e)

    -- A request is answered whenever some model of its capability has a deployment that phase 2
    -- does not skip, or has no deployment yet.
    pub route-Answered :
        (m : ModelRecord)
        → Elem m models
        → is_capable request.capability m ≡ true
        → ((d : DeploymentRecord) × Elem d deployments
            × (d.model_id ≡ m.id)
            × (kind_in trackers request lifecycles m d ≢ skipped))
          ⊎ (select (belongs m.id) deployments ≡ [])
        → Answered (route random trackers request models deployments lifecycle_records)
    unfolding route
    route-Answered m e c (inl (d, here, own, kept)) =
        route_from_scan Answered m _ (capable-Elem m e c) λ ms there. decide-Answered _ (
          ServedOr-map
            (Listed (kind_in trackers request lifecycles m d)
              (pair trackers request lifecycles m d))
            Offers _
            (λ s.
              Listed-Offers (kind_in trackers request lifecycles m d)
                (pair trackers request lifecycles m d) s kept)
            (scan_covers trackers request lifecycles groups m d ms no_deployments there
              (group-Elem m d here own)))
    route-Answered m e c (inr alone) = route_from_scan Answered m _ (capable-Elem m e c) λ ms there.
        decide-Answered _ (
          ServedOr-map _ Offers _
            (λ s here. inr (inl (record { model = m; deployment = none }, here)))
            (scan_covers_bare trackers request lifecycles groups m ms no_deployments there
              (rw (group_deployments-select m.id deployments) alone)))

    -- Where a deployment is idle, nothing is started.
    pub route_serves_warm :
        (m : ModelRecord) (d : DeploymentRecord)
        → Elem m models
        → is_capable request.capability m ≡ true
        → Elem d deployments
        → d.model_id ≡ m.id
        → kind_in trackers request lifecycles m d ≡ idle
        → ServedWarm (route random trackers request models deployments lifecycle_records)
    unfolding route
    route_serves_warm m d e c here own is_idle =
        route_from_scan ServedWarm m _ (capable-Elem m e c) λ ms there.
          decide-ServedWarm (pair trackers request lifecycles m d) _ (
            subst
              (λ k.
                ServedOr (Listed k (pair trackers request lifecycles m d))
                  (scan_models trackers request lifecycles groups ms no_deployments))
              is_idle
              (scan_covers trackers request lifecycles groups m d ms no_deployments there
                (group-Elem m d here own)))
