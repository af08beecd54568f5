-- ===== src/Routing/Decision/Soundness.antt =====
-- Every decision of `route` (llm_platform/routing/router.py) names a model that offers the
-- capability and, if it has any, a deployment of that model that can serve or be started.
use foundation_ai_platform.Prelude.{
  ℕ, String, ◌≡◌, refl, subst, length, ◌⊎◌, inl, inr, false, List, [], ◌∷◌, Option, none, some, All,
  All-elem, All-append, All-map,
}
use foundation_ai_platform.Prelude.Dict.{Dict, lookup}
use foundation_ai_platform.Exec.{ok, ok-injective}
use foundation_ai_platform.Schemas.Enums.{DeploymentStatus}
use foundation_ai_platform.Schemas.Records.{
  ModelRecord, DeploymentRecord, LifecycleRecord, RouteDecision, Reason,
}
use foundation_ai_platform.Routing.Groups.{
  RouteRequest, lifecycle_by_deployment, group_deployments, capable_models, by_breadth,
}
use foundation_ai_platform.Routing.Groups.Laws.{group_deployments-select}
use foundation_ai_platform.Routing.Categories.{
  Candidate, OnDisk, Categories, Trackers, Kind, preferred, idle, busy, boot, disk, Scan, serve,
  lists, no_deployments, is_failed_record,
}
use foundation_ai_platform.Routing.Categories.Laws.{AllStem, ScanStems, scan_models-Stems}
use foundation_ai_platform.Routing.Categories.Kinds.{
  kind_idle, kind_busy, kind_preferred, kind_boot, kind_disk,
}
use foundation_ai_platform.Routing.Decision.Preferences.{power_of_two_among}
use foundation_ai_platform.Routing.Decision.Sources
use foundation_ai_platform.Routing.Decision.Sources.{IsSound, ranked_capable, Sound-of}
use foundation_ai_platform.Routing.Decision.Starts.{scale_out_list-All}
use foundation_ai_platform.Routing.Decision.{
  Random, IsRandom, ScaleOut, scale_out, deployment_id_of, endpoint_of, serve_from, start, queue_on,
  queue, scale_or_queue, scale_out_list, decide_idle, decide, scan_all, route_capable, route,
}

module _ (random : Random) (trackers : Trackers) (request : RouteRequest)
    (models : List ModelRecord) (deployments : List DeploymentRecord)
    (lifecycle_records : List LifecycleRecord) where
  abbrev From : Kind → Candidate → Type 0
  From = Sources.From trackers request models deployments lifecycle_records

  abbrev FromDisk : OnDisk → Option DeploymentRecord → Type 0
  FromDisk = Sources.FromDisk trackers request models deployments lifecycle_records

  abbrev lifecycles : Dict LifecycleRecord
  lifecycles = lifecycle_by_deployment lifecycle_records []

  abbrev groups : Dict (List DeploymentRecord)
  groups = group_deployments deployments []

  abbrev ranked : List ModelRecord
  ranked = by_breadth (capable_models request.capability models)

  abbrev Sound : RouteDecision → Type 0
  Sound = IsSound request.capability models deployments lifecycles

  serve-Sound :
      (k : Kind) (c : Candidate) (reason : Reason)
      → From k c
      → (c.deployment.status ≡ DeploymentStatus.ready)
        × (is_failed_record (lookup c.deployment.deployment_id lifecycles) ≡ false)
      → Sound (serve_from random trackers request c reason false)
  unfolding serve_from
  serve-Sound k c reason s (ready, alive) =
      Sound-of trackers request models deployments lifecycle_records k c _ s refl refl refl alive
        (inl (ready, refl))

  -- Phase 3c chooses among the deployments that are busy or booting.
  abbrev Queued : Candidate → Type 0
  Queued c = From busy c ⊎ From boot c

  queue_on-Sound : (c : Candidate) → Queued c → Sound (queue_on random trackers request c)
  unfolding queue_on
  queue_on-Sound c (inl s) =
      let (ready, alive) = kind_busy trackers request _ c.model c.deployment s.of_kind in
      Sound-of trackers request models deployments lifecycle_records busy c _ s refl refl refl alive
        (inl (ready, rw ready))
  queue_on-Sound c (inr s) =
      let (waiting, alive, _) = kind_boot trackers request _ c.model c.deployment s.of_kind in
      Sound-of trackers request models deployments lifecycle_records boot c _ s refl refl refl alive
        (inr (waiting, waiting))

  queue-Sound :
      (cs : List Candidate) (d : RouteDecision)
      → IsRandom random
      → All Queued cs
      → queue random trackers request cs ≡ ok d
      → Sound d
  unfolding queue
  queue-Sound [] d law h e = cc
  queue-Sound (c ∷ []) d law h e = subst Sound (ok-injective e) (queue_on-Sound c h.0)
  queue-Sound (c ∷ c' ∷ cs) d law h e =
      let drawn = law.sample_elem c c' cs in
      subst Sound (ok-injective e) (
        queue_on-Sound _ (
          power_of_two_among random trackers request Queued (random.sample c c' cs)
            (All-elem Queued _ (c ∷ c' ∷ cs) h drawn.0)
            (All-elem Queued _ (c ∷ c' ∷ cs) h drawn.1)))

  -- Phase 3b starts a model from disk.
  abbrev FromScale : ScaleOut → Type 0
  FromScale c = FromDisk (record { model = c.model; deployment = c.deployment }) c.deployment

  start_on :
      (n : ℕ) (m : ModelRecord) (evict : Option String) (o : Option DeploymentRecord)
      → FromDisk (record { model = m; deployment = o }) o
      → Sound
          (start random trackers request n (record { model = m; deployment = o; evict = evict }))
  unfolding start deployment_id_of endpoint_of
  start_on n m evict none (there, alone) =
      let (listed, capable) =
        ranked_capable trackers request models deployments lifecycle_records m there in
      record {
        model = m;
        listed = listed;
        capable = capable;
        named = refl;
        target = inr (rw (group_deployments-select m.id deployments) at alone, refl, refl);
      }
  start_on n m evict (some dep) s =
      let (waiting, alive, _) = kind_disk trackers request _ m dep s.of_kind in
      Sound-of trackers request models deployments lifecycle_records disk
        (record { model = m; deployment = dep }) _ s refl refl refl alive (inr (waiting, refl))

  start-Sound :
      (busy_count : ℕ) (c : ScaleOut)
      → FromScale c
      → Sound (start random trackers request busy_count c)
  start-Sound n c s = start_on n c.model c.evict c.deployment s

  scale_out_list-From :
      (ds : List OnDisk)
      → All (λ d. FromDisk d d.deployment) ds
      → All FromScale (scale_out_list random trackers request ds)
  unfolding scale_out
  scale_out_list-From ds h =
      scale_out_list-All FromScale random trackers request ds (λ d m. All-elem _ d ds h m)
        (λ d k m _. All-elem _ d ds h m)

  scale_or_queue-Sound :
      (s : Categories) (cs : List ScaleOut) (d : RouteDecision)
      → IsRandom random
      → AllStem trackers request lifecycles groups ranked s
      → All FromScale cs
      → scale_or_queue random trackers request s cs ≡ ok d
      → Sound d
  unfolding scale_or_queue
  scale_or_queue-Sound s [] d law a h e =
      queue-Sound _ d law
        (All-append Queued s.ready_busy s.booting (All-map _ _ _ (λ c x. inl x) a.busy_stem)
          (All-map _ _ _ (λ c x. inr x) a.boot_stem))
        e
  scale_or_queue-Sound s (c ∷ cs) d law a h e =
      subst Sound (ok-injective e) (start-Sound (length s.ready_busy) c h.0)

  decide_idle-Sound :
      (s : Categories) (cs : List Candidate) (d : RouteDecision)
      → IsRandom random
      → AllStem trackers request lifecycles groups ranked s
      → All (From idle) cs
      → decide_idle random trackers request s cs ≡ ok d
      → Sound d
  unfolding decide_idle
  decide_idle-Sound s [] d law a h e =
      scale_or_queue-Sound s _ d law a (scale_out_list-From s.sitting_on_disk a.disk_stem) e
  decide_idle-Sound s (c ∷ cs) d law a h e =
      let selected = random.choice c cs in
      let stem : From idle selected = All-elem (From idle) _ (c ∷ cs) h (law.choice_elem c cs) in
      subst Sound (ok-injective e) (
        serve-Sound idle selected _ stem
          (kind_idle trackers request _ selected.model selected.deployment stem.of_kind))

  decide-Sound :
      (scan : Scan) (d : RouteDecision)
      → IsRandom random
      → ScanStems trackers request lifecycles groups ranked scan
      → decide random trackers request scan ≡ ok d
      → Sound d
  unfolding decide
  decide-Sound (serve c) d law h e =
      let (ready, alive, _) = kind_preferred trackers request _ c.model c.deployment h.of_kind in
      subst Sound (ok-injective e) (serve-Sound preferred c _ h (ready, alive))
  decide-Sound (lists s) d law h e = decide_idle-Sound s s.ready_idle d law h h.idle_stem e

  route_capable-Sound :
      (capable : List ModelRecord) (d : RouteDecision)
      → IsRandom random
      → capable_models request.capability models ≡ capable
      → route_capable random trackers request capable deployments lifecycle_records ≡ ok d
      → Sound d
  unfolding route_capable scan_all
  route_capable-Sound [] d law p e = cc
  route_capable-Sound (m ∷ ms) d law p e =
      decide-Sound _ d law
        (scan_models-Stems trackers request lifecycles groups ranked (by_breadth (m ∷ ms))
          no_deployments (λ m' there. rw p there)
          (record { idle_stem = tt; busy_stem = tt; boot_stem = tt; disk_stem = tt }))
        e

  -- Whatever `random` draws, a decision names a registered or deployed model of the request's
  -- capability. It names a deployment of that model from the list, whose lifecycle has not FAILED,
  -- and asks for a cold start exactly if that deployment is unloaded or pending and not ready; or
  -- the model has no deployment, and the decision names none and asks for a cold start.
  pub route-IsSound :
      (d : RouteDecision)
      → IsRandom random
      → route random trackers request models deployments lifecycle_records ≡ ok d
      → Sound d
  unfolding route
  route-IsSound d law e = route_capable-Sound _ d law refl e
