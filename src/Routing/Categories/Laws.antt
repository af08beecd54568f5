-- ===== src/Routing/Categories/Laws.antt =====
-- Every deployment that phase 2 of `route` (llm_platform/routing/router.py) lists stems from the
-- loop's input, and stands in the list of its kind.
use foundation_ai_platform.Prelude.{
  ◌≡◌, refl, List, [], ◌∷◌, Option, none, some, Elem, All, All-append, inl, inr,
}
use foundation_ai_platform.Prelude.Dict.{Dict, lookup, get_or}
use foundation_ai_platform.Schemas.Records.{ModelRecord, DeploymentRecord, LifecycleRecord}
use foundation_ai_platform.Routing.Groups.{RouteRequest}
use foundation_ai_platform.Routing.Categories.{
  Candidate, OnDisk, Categories, Trackers, Kind, skipped, preferred, idle, busy, boot, disk, Scan,
  serve, lists, unless_served, visit, kind_of, scan_deployments, scan_model, scan_models,
}

module _ (trackers : Trackers) (request : RouteRequest) (lifecycles : Dict LifecycleRecord)
    (groups : Dict (List DeploymentRecord)) (models : List ModelRecord) where
  -- The pair was visited, and the loop body took it for a deployment of kind `k`.
  pub record Stems (k : Kind) (c : Candidate) : Type 0 where
    pub from_models : Elem c.model models
    pub from_group : Elem c.deployment (get_or c.model.id [] groups)
    pub of_kind :
        kind_of trackers request (lookup c.deployment.deployment_id lifecycles) c.model c.deployment
        ≡ k

  abbrev pub StemsOnDisk : OnDisk → Option DeploymentRecord → Type 0
  StemsOnDisk d none = Elem d.model models × (get_or d.model.id [] groups ≡ [])
  StemsOnDisk d (some dep) = Stems disk (record { model = d.model; deployment = dep })

  pub record AllStem (s : Categories) : Type 0 where
    pub idle_stem : All (Stems idle) s.ready_idle
    pub busy_stem : All (Stems busy) s.ready_busy
    pub boot_stem : All (Stems boot) s.booting
    pub disk_stem : All (λ d. StemsOnDisk d d.deployment) s.sitting_on_disk

  abbrev pub ScanStems : Scan → Type 0
  ScanStems (serve c) = Stems preferred c
  ScanStems (lists s) = AllStem s

  unless_served-Stems :
      (scan : Scan) (rest : Categories → Scan)
      → ScanStems scan
      → ((s : Categories) → AllStem s → ScanStems (rest s))
      → ScanStems (unless_served scan rest)
  unless_served-Stems (serve c) rest h f = h
  unless_served-Stems (lists s) rest h f = f s h

  visit-Stems :
      (k : Kind) (c : Candidate) (s : Categories) → Stems k c → AllStem s → ScanStems (visit k c s)
  unfolding visit
  visit-Stems skipped c s h a = a
  visit-Stems preferred c s h a = h
  visit-Stems idle c s h a = record {
    idle_stem = All-append _ s.ready_idle _ a.idle_stem (h, tt);
    busy_stem = a.busy_stem;
    boot_stem = a.boot_stem;
    disk_stem = a.disk_stem;
  }
  visit-Stems busy c s h a = record {
    idle_stem = a.idle_stem;
    busy_stem = All-append _ s.ready_busy _ a.busy_stem (h, tt);
    boot_stem = a.boot_stem;
    disk_stem = a.disk_stem;
  }
  visit-Stems boot c s h a = record {
    idle_stem = a.idle_stem;
    busy_stem = a.busy_stem;
    boot_stem = All-append _ s.booting _ a.boot_stem (h, tt);
    disk_stem = a.disk_stem;
  }
  visit-Stems disk c s h a = record {
    idle_stem = a.idle_stem;
    busy_stem = a.busy_stem;
    boot_stem = a.boot_stem;
    disk_stem = All-append _ s.sitting_on_disk _ a.disk_stem (h, tt);
  }

  scan_deployments-Stems :
      (model : ModelRecord) (deps : List DeploymentRecord) (s : Categories)
      → Elem model models
      → ((d : DeploymentRecord) → Elem d deps → Elem d (get_or model.id [] groups))
      → AllStem s
      → ScanStems (scan_deployments trackers request lifecycles model deps s)
  unfolding scan_deployments
  scan_deployments-Stems model [] s m g a = a
  scan_deployments-Stems model (dep ∷ deps) s m g a =
      unless_served-Stems _ _
        (visit-Stems _ _ s
          (record { from_models = m; from_group = g dep (inl refl); of_kind = refl }) a)
        (λ s' a'. scan_deployments-Stems model deps s' m (λ d e. g d (inr e)) a')

  scan_model-Stems :
      (model : ModelRecord) (deps : List DeploymentRecord) (s : Categories)
      → Elem model models
      → get_or model.id [] groups ≡ deps
      → AllStem s
      → ScanStems (scan_model trackers request lifecycles model deps s)
  unfolding scan_model
  scan_model-Stems model [] s m g a = record {
    idle_stem = a.idle_stem;
    busy_stem = a.busy_stem;
    boot_stem = a.boot_stem;
    disk_stem = All-append _ s.sitting_on_disk _ a.disk_stem ((m, g), tt);
  }
  scan_model-Stems model (dep ∷ deps) s m g a =
      scan_deployments-Stems model (dep ∷ deps) s m (λ d e. rw g e) a

  pub scan_models-Stems :
      (ms : List ModelRecord) (s : Categories)
      → ((m : ModelRecord) → Elem m ms → Elem m models)
      → AllStem s
      → ScanStems (scan_models trackers request lifecycles groups ms s)
  unfolding scan_models
  scan_models-Stems [] s f a = a
  scan_models-Stems (m ∷ ms) s f a =
      unless_served-Stems _ _ (scan_model-Stems m (get_or m.id [] groups) s (f m (inl refl)) refl a)
        (λ s' a'. scan_models-Stems ms s' (λ m' e. f m' (inr e)) a')
