-- ===== src/Routing/Decision/Evictions.antt =====
-- When `route` (llm_platform/routing/router.py) asks for an eviction, and what it frees.
use mathlib.Core.Option.{some-injective}
use foundation_ai_platform.Prelude.{
  ℕ, String, ◌≡◌, refl, subst, Bool, true, false, List, [], ◌∷◌, Option, none, some, Elem, All,
  All-elem, length,
}
use foundation_ai_platform.Prelude.Dict.{Dict}
use foundation_ai_platform.Exec.{Result, ok, ok-injective}
use foundation_ai_platform.Schemas.Records.{
  ModelRecord, DeploymentRecord, LifecycleRecord, RouteDecision, Reason,
}
use foundation_ai_platform.Registry.{Registry}
use foundation_ai_platform.Gpu.{GpuTracker, can_fit, release, find_evictable}
use foundation_ai_platform.Gpu.Eviction.{
  IsLongestIdle, find_evictable_sound, find_evictable-can_fit, find_evictable_no_registry,
}
use foundation_ai_platform.Routing.Groups.{
  RouteRequest, lifecycle_by_deployment, group_deployments, capable_models, by_breadth,
}
use foundation_ai_platform.Routing.Categories.{
  Candidate, OnDisk, Categories, Trackers, Scan, serve, lists, no_deployments,
}
use foundation_ai_platform.Routing.Categories.Laws.{
  StemsOnDisk, AllStem, ScanStems, scan_models-Stems,
}
use foundation_ai_platform.Routing.Decision.{
  Random, ScaleOut, scale_out, serve_from, start, queue_on, queue, scale_or_queue, scale_out_list,
  decide_idle, decide, scan_all, route_capable, route,
}
use foundation_ai_platform.Routing.Decision.Starts.{NeedsEviction, scale_out_list-All}
use foundation_ai_platform.Routing.Decision.Sources.{ranked_capable}

-- The eviction that a decision asks for: the model to start does not fit, the evicted deployment is
-- the one that has been idle for longest, and without it the model fits.
pub record MakesRoom (gpu : Option GpuTracker) (registry : Option Registry)
    (models : List ModelRecord) (d : RouteDecision) (k : String) : Type 0 where
  pub tracker : GpuTracker
  pub tracked : gpu ≡ some tracker
  pub store : Registry
  pub stored : registry ≡ some store
  pub model : ModelRecord
  pub listed : Elem model models
  pub named : d.model_id ≡ model.id
  pub full : can_fit tracker model.memory_requirement_gb ≡ false
  pub freed : can_fit (release k tracker) model.memory_requirement_gb ≡ true
  pub longest : IsLongestIdle store tracker k

chosen_sound :
    (t : GpuTracker) (registry : Option Registry) (m : ModelRecord) (k : String)
    → find_evictable t registry m.memory_requirement_gb ≡ some k
    → (r : Registry) × (registry ≡ some r) × IsLongestIdle r t k
chosen_sound t none m k e = cc (find_evictable_no_registry t m.memory_requirement_gb)
chosen_sound t (some r) m k e = (r, refl, find_evictable_sound t r _ k e)

module _ (random : Random) (trackers : Trackers) (request : RouteRequest)
    (models : List ModelRecord) (deployments : List DeploymentRecord)
    (lifecycle_records : List LifecycleRecord) where
  abbrev lifecycles : Dict LifecycleRecord
  lifecycles = lifecycle_by_deployment lifecycle_records []

  abbrev groups : Dict (List DeploymentRecord)
  groups = group_deployments deployments []

  abbrev ranked : List ModelRecord
  ranked = by_breadth (capable_models request.capability models)

  abbrev Room : RouteDecision → String → Type 0
  Room = MakesRoom trackers.gpu request.registry models

  -- Every eviction that a candidate carries is one that the tracker asked for.
  abbrev Justified : ScaleOut → Type 0
  Justified c =
      (k : String)
      → c.evict ≡ some k
      → Elem c.model ranked
        × ((t : GpuTracker) × (trackers.gpu ≡ some t)
            × (can_fit t c.model.memory_requirement_gb ≡ false)
            × (find_evictable t request.registry c.model.memory_requirement_gb ≡ some k))

  disk_ranked :
      (m : ModelRecord) (d : OnDisk) (o : Option DeploymentRecord)
      → d.model ≡ m
      → StemsOnDisk trackers request lifecycles groups ranked d o
      → Elem m ranked
  disk_ranked m d none e s = rw (← e) s.0
  disk_ranked m d (some dep) e s = rw (← e) s.from_models

  candidates-Justified :
      (ds : List OnDisk)
      → All (λ d. StemsOnDisk trackers request lifecycles groups ranked d d.deployment) ds
      → All Justified (scale_out_list random trackers request ds)
  unfolding scale_out
  candidates-Justified ds h =
      scale_out_list-All Justified random trackers request ds (λ d m k e. cc)
        λ d k m need k' e. (
          disk_ranked d.model d d.deployment refl (All-elem _ d ds h m),
          subst (NeedsEviction trackers.gpu request.registry d) (some-injective _ _ e) need,
        )

  start-Room :
      (n : ℕ) (c : ScaleOut) (k : String)
      → Justified c
      → (start random trackers request n c).evict_deployment_id ≡ some k
      → Room (start random trackers request n c) k
  unfolding start
  start-Room n c k j e =
      let (there, need) = j k e in
      let (t, p, full, chosen) = need in
      let (listed, _) =
        ranked_capable trackers request models deployments lifecycle_records c.model there in
      let (r, q, longest) = chosen_sound t request.registry c.model k chosen in
      record {
        tracker = t;
        tracked = p;
        store = r;
        stored = q;
        model = c.model;
        listed = listed;
        named = refl;
        full = full;
        freed = find_evictable-can_fit t request.registry _ k chosen;
        longest = longest;
      }

  queue-evict :
      (cs : List Candidate) (d : RouteDecision)
      → queue random trackers request cs ≡ ok d
      → d.evict_deployment_id ≡ none
  unfolding queue queue_on serve_from
  queue-evict [] d e = cc
  queue-evict (c ∷ []) d e =
      subst (λ (x : RouteDecision). x.evict_deployment_id ≡ none) (ok-injective e) refl
  queue-evict (c ∷ c' ∷ cs) d e =
      subst (λ (x : RouteDecision). x.evict_deployment_id ≡ none) (ok-injective e) refl

  -- A decision that carries an eviction came from a candidate of phase 3b.
  abbrev Roomy : Result RouteDecision → Type 0
  Roomy r = (d : RouteDecision) (k : String) → r ≡ ok d → d.evict_deployment_id ≡ some k → Room d k

  serve_from-Roomy :
      (c : Candidate) (reason : Reason) (cold : Bool)
      → Roomy (ok (serve_from random trackers request c reason cold))
  unfolding serve_from
  serve_from-Roomy c reason cold d k p e =
      cc (subst (λ (x : RouteDecision). x.evict_deployment_id ≡ none) (ok-injective p) refl)

  scale_or_queue-Roomy :
      (s : Categories) (cs : List ScaleOut)
      → All Justified cs
      → Roomy (scale_or_queue random trackers request s cs)
  unfolding scale_or_queue
  scale_or_queue-Roomy s [] h d k p e = cc (queue-evict _ d p)
  scale_or_queue-Roomy s (c ∷ cs) h d k p e =
      subst (λ x. x.evict_deployment_id ≡ some k → Room x k) (ok-injective p)
        (start-Room (length s.ready_busy) c k h.0) e

  decide_idle-Roomy :
      (s : Categories) (cs : List Candidate)
      → AllStem trackers request lifecycles groups ranked s
      → Roomy (decide_idle random trackers request s cs)
  unfolding decide_idle
  decide_idle-Roomy s [] a =
      scale_or_queue-Roomy s _ (candidates-Justified s.sitting_on_disk a.disk_stem)
  decide_idle-Roomy s (c ∷ cs) a = serve_from-Roomy (random.choice c cs) _ false

  decide-Roomy :
      (scan : Scan)
      → ScanStems trackers request lifecycles groups ranked scan
      → Roomy (decide random trackers request scan)
  unfolding decide
  decide-Roomy (serve c) h = serve_from-Roomy c _ false
  decide-Roomy (lists s) h = decide_idle-Roomy s s.ready_idle h

  route_capable-Roomy :
      (capable : List ModelRecord)
      → capable_models request.capability models ≡ capable
      → Roomy (route_capable random trackers request capable deployments lifecycle_records)
  unfolding route_capable scan_all
  route_capable-Roomy [] p = λ d k q e. cc
  route_capable-Roomy (m ∷ ms) p = decide-Roomy _ (
      scan_models-Stems trackers request lifecycles groups ranked (by_breadth (m ∷ ms))
        no_deployments (λ m' there. rw p there)
        (record { idle_stem = tt; busy_stem = tt; boot_stem = tt; disk_stem = tt }))

  -- A decision asks for an eviction only where the model to start does not fit. The deployment to
  -- evict is allocated, ready, not permanent, WARM or COLD and idle for longest, and once it is
  -- released the model fits.
  pub route-MakesRoom :
      (d : RouteDecision) (k : String)
      → route random trackers request models deployments lifecycle_records ≡ ok d
      → d.evict_deployment_id ≡ some k
      → Room d k
  unfolding route
  route-MakesRoom d k = route_capable-Roomy _ refl d k
