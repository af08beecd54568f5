-- ===== src/Routing/Categories/Coverage.antt =====
-- Phase 2 of `route` (llm_platform/routing/router.py) loses no deployment: each that is visited
-- ends in the list of its kind, unless a preferred one is served at once.
use foundation_ai_platform.Prelude.{
  ◌≡◌, refl, subst, inl, inr, List, [], ◌∷◌, none, some, Elem, Elem-append_left, Elem-append_right,
}
use foundation_ai_platform.Prelude.Dict.{Dict, lookup, get_or}
use foundation_ai_platform.Schemas.Records.{ModelRecord, DeploymentRecord, LifecycleRecord}
use foundation_ai_platform.Routing.Groups.{RouteRequest}
use foundation_ai_platform.Routing.Categories.{
  Candidate, OnDisk, Categories, Trackers, Kind, skipped, preferred, idle, busy, boot, disk, Scan,
  serve, lists, unless_served, put, visit, kind_of, scan_deployments, scan_model, scan_models,
}

abbrev pub on_disk : Candidate → OnDisk
on_disk c = record { model = c.model; deployment = some c.deployment }

-- The pair is in the list of kind `k`. A preferred pair is in none, since it is served.
abbrev pub Listed : Kind → Candidate → Categories → Type 0
Listed skipped c s = Unit
Listed preferred c s = ⊥
Listed idle c s = Elem c s.ready_idle
Listed busy c s = Elem c s.ready_busy
Listed boot c s = Elem c s.booting
Listed disk c s = Elem (on_disk c) s.sitting_on_disk

-- The scan served a preferred pair at once, or satisfies `P`.
abbrev pub ServedOr : (Categories → Type 0) → Scan → Type 0
ServedOr P (serve c) = Unit
ServedOr P (lists s) = P s

-- Later visits take nothing out of a list.
abbrev pub Grows : Categories → Categories → Type 0
Grows s s' =
    ((c : Candidate) → Elem c s.ready_idle → Elem c s'.ready_idle)
    × ((c : Candidate) → Elem c s.ready_busy → Elem c s'.ready_busy)
    × ((c : Candidate) → Elem c s.booting → Elem c s'.booting)
    × ((c : OnDisk) → Elem c s.sitting_on_disk → Elem c s'.sitting_on_disk)

Grows-refl : (s : Categories) → Grows s s
Grows-refl s = (λ c m. m, λ c m. m, λ c m. m, λ c m. m)

Grows-trans : (s t u : Categories) → Grows s t → Grows t u → Grows s u
Grows-trans s t u g h =
    (λ c m. h.0 c (g.0 c m), λ c m. h.1 c (g.1 c m), λ c m. h.2 c (g.2 c m), λ c m. h.3 c (g.3 c m))

Listed-Grows :
    (k : Kind) (c : Candidate) (s t : Categories) → Grows s t → Listed k c s → Listed k c t
Listed-Grows skipped c s t g m = tt
Listed-Grows preferred c s t g m = m
Listed-Grows idle c s t g m = g.0 c m
Listed-Grows busy c s t g m = g.1 c m
Listed-Grows boot c s t g m = g.2 c m
Listed-Grows disk c s t g m = g.3 (on_disk c) m

visit_covers :
    (k : Kind) (c : Candidate) (s : Categories)
    → ServedOr (λ t. Grows s t × Listed k c t) (visit k c s)
unfolding visit put
visit_covers skipped c s = (Grows-refl s, tt)
visit_covers preferred c s = tt
visit_covers idle c s = (
  (λ d m. Elem-append_left d _ _ m, λ d m. m, λ d m. m, λ d m. m),
  Elem-append_right c s.ready_idle _ (inl refl),
)
visit_covers busy c s = (
  (λ d m. m, λ d m. Elem-append_left d _ _ m, λ d m. m, λ d m. m),
  Elem-append_right c s.ready_busy _ (inl refl),
)
visit_covers boot c s = (
  (λ d m. m, λ d m. m, λ d m. Elem-append_left d _ _ m, λ d m. m),
  Elem-append_right c s.booting _ (inl refl),
)
visit_covers disk c s = (
  (λ d m. m, λ d m. m, λ d m. m, λ d m. Elem-append_left d _ _ m),
  Elem-append_right (on_disk c) s.sitting_on_disk _ (inl refl),
)

unless_served_lem :
    (P Q : Categories → Type 0) (scan : Scan) (rest : Categories → Scan)
    → ServedOr P scan
    → ((s : Categories) → P s → ServedOr Q (rest s))
    → ServedOr Q (unless_served scan rest)
unless_served_lem P Q (serve c) rest h f = tt
unless_served_lem P Q (lists s) rest h f = f s h

pub ServedOr-map :
    (P Q : Categories → Type 0) (scan : Scan)
    → ((s : Categories) → P s → Q s)
    → ServedOr P scan
    → ServedOr Q scan
ServedOr-map P Q (serve c) f h = tt
ServedOr-map P Q (lists s) f h = f s h

module _ (trackers : Trackers) (request : RouteRequest) (lifecycles : Dict LifecycleRecord) where
  abbrev pub kind_in : ModelRecord → DeploymentRecord → Kind
  kind_in m d = kind_of trackers request (lookup d.deployment_id lifecycles) m d

  abbrev pub pair : ModelRecord → DeploymentRecord → Candidate
  pair m d = record { model = m; deployment = d }

  deployments_grow :
      (m : ModelRecord) (deps : List DeploymentRecord) (s : Categories)
      → ServedOr (Grows s) (scan_deployments trackers request lifecycles m deps s)
  unfolding scan_deployments
  deployments_grow m [] s = Grows-refl s
  deployments_grow m (d ∷ deps) s =
      unless_served_lem _ (Grows s) _ _ (visit_covers (kind_in m d) (pair m d) s) λ t h.
        ServedOr-map (Grows t) (Grows s) (scan_deployments trackers request lifecycles m deps t)
          (λ u g. Grows-trans s t u h.0 g) (deployments_grow m deps t)

  deployments_cover :
      (m : ModelRecord) (d : DeploymentRecord) (deps : List DeploymentRecord) (s : Categories)
      → Elem d deps
      → ServedOr
          (Listed (kind_in m d) (pair m d))
          (scan_deployments trackers request lifecycles m deps s)
  unfolding scan_deployments
  deployments_cover m d [] s e = absurd e
  deployments_cover m d (d' ∷ deps) s (inl e) = rw e (
      unless_served_lem _ (Listed (kind_in m d') (pair m d')) _ _
        (visit_covers (kind_in m d') (pair m d') s)
        λ t h.
          ServedOr-map (Grows t) (Listed (kind_in m d') (pair m d'))
            (scan_deployments trackers request lifecycles m deps t)
            (λ u g. Listed-Grows (kind_in m d') (pair m d') t u g h.1) (deployments_grow m deps t))
  deployments_cover m d (d' ∷ deps) s (inr e) =
      unless_served_lem _ (Listed (kind_in m d) (pair m d)) _ _
        (visit_covers (kind_in m d') (pair m d') s) (λ t h. deployments_cover m d deps t e)

  model-Grows :
      (m : ModelRecord) (deps : List DeploymentRecord) (s : Categories)
      → ServedOr (Grows s) (scan_model trackers request lifecycles m deps s)
  unfolding scan_model
  model-Grows m [] s = (λ c e. e, λ c e. e, λ c e. e, λ c e. Elem-append_left c _ _ e)
  model-Grows m (d ∷ deps) s = deployments_grow m (d ∷ deps) s

  module _ (groups : Dict (List DeploymentRecord)) where
    models_grow :
        (ms : List ModelRecord) (s : Categories)
        → ServedOr (Grows s) (scan_models trackers request lifecycles groups ms s)
    unfolding scan_models
    models_grow [] s = Grows-refl s
    models_grow (m ∷ ms) s =
        unless_served_lem (Grows s) (Grows s) _ _ (model-Grows m (get_or m.id [] groups) s) λ t h.
          ServedOr-map (Grows t) (Grows s) (scan_models trackers request lifecycles groups ms t)
            (λ u g. Grows-trans s t u h g) (models_grow ms t)

    -- What the scan of one model establishes and growing keeps, the whole scan establishes.
    models_keep :
        (P : Categories → Type 0) (m : ModelRecord)
        → ((s t : Categories) → Grows s t → P s → P t)
        → ((s : Categories)
            → ServedOr P (scan_model trackers request lifecycles m (get_or m.id [] groups) s))
        → (ms : List ModelRecord) (s : Categories) → Elem m ms
        → ServedOr P (scan_models trackers request lifecycles groups ms s)
    unfolding scan_models
    models_keep P m grow one [] s e = absurd e
    models_keep P m grow one (m' ∷ ms) s (inl e) =
        unless_served_lem P P _ _
          (subst
            (λ x. ServedOr P (scan_model trackers request lifecycles x (get_or x.id [] groups) s)) e
            (one s))
          λ t h.
            ServedOr-map (Grows t) P (scan_models trackers request lifecycles groups ms t)
              (λ u g. grow t u g h) (models_grow ms t)
    models_keep P m grow one (m' ∷ ms) s (inr e) =
        unless_served_lem (Grows s) P _ _ (model-Grows m' (get_or m'.id [] groups) s)
          (λ t h. models_keep P m grow one ms t e)

    model_covers :
        (m : ModelRecord) (d : DeploymentRecord) (deps : List DeploymentRecord) (s : Categories)
        → Elem d deps
        → ServedOr
            (Listed (kind_in m d) (pair m d))
            (scan_model trackers request lifecycles m deps s)
    unfolding scan_model
    model_covers m d [] s e = absurd e
    model_covers m d (d' ∷ deps) s e = deployments_cover m d (d' ∷ deps) s e

    -- A deployment of a scanned model ends in the list of its kind.
    pub scan_covers :
        (m : ModelRecord) (d : DeploymentRecord) (ms : List ModelRecord) (s : Categories)
        → Elem m ms
        → Elem d (get_or m.id [] groups)
        → ServedOr
            (Listed (kind_in m d) (pair m d))
            (scan_models trackers request lifecycles groups ms s)
    scan_covers m d ms s e g =
        models_keep (Listed (kind_in m d) (pair m d)) m (Listed-Grows (kind_in m d) (pair m d))
          (λ t. model_covers m d (get_or m.id [] groups) t g) ms s e

    -- A scanned model with no deployment can be started from disk.
    pub scan_covers_bare :
        (m : ModelRecord) (ms : List ModelRecord) (s : Categories)
        → Elem m ms
        → get_or m.id [] groups ≡ []
        → ServedOr
            (λ t. Elem (record { model = m; deployment = none }) t.sitting_on_disk)
            (scan_models trackers request lifecycles groups ms s)
    unfolding scan_model
    scan_covers_bare m ms s e g =
        models_keep _ m (λ t u h k. h.3 _ k)
          (λ t. rw g (Elem-append_right _ t.sitting_on_disk _ (inl refl))) ms s e
