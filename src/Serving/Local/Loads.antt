-- ===== src/Serving/Local/Loads.antt =====
-- What llm_platform/serving/huggingface_model_server.py holds after a deployment and an unloading.
mod Tests
use foundation_ai_platform.Prelude.{
  ℕ, String, ◌≡◌, ◌≢◌, refl, subst, sym, ap, ◌∙◌, Bool, true, false, Option, none, some, List, ◌==◌,
  ◌<>◌, if◌then◌else◌, contains, eq_refl, arith,
}
use foundation_ai_platform.Prelude.Dict.{
  Dict, lookup, insert, erase, NodupKeys, lookup-insert, lookup-erase, lookup-erase_other,
}
use foundation_ai_platform.Exec.{Error, Exec, Result, ok, err, not_found, continue, ok-injective}
use foundation_ai_platform.Value.{Value, text}
use foundation_ai_platform.Schemas.Enums.{ready}
use foundation_ai_platform.Schemas.Records.{ModelRecord, DeploymentRecord, DeploymentCreateRequest}
use foundation_ai_platform.Schemas.Gateway.{ChatCompletionRequest}
use foundation_ai_platform.Platform.{Host}
use foundation_ai_platform.Settings.Schema.{ServingConfig}
use foundation_ai_platform.Serving.{as_list, resolve_placement, ready_deployment}
use foundation_ai_platform.Serving.Placement.{resolve_placement_among}
use foundation_ai_platform.Serving.Local.{
  Runtime, LoadedDeployment, Process, lazy_runtime_imports, resolve_source_model_id,
  resolve_torch_dtype, placement_of, load, keep, deploy, unload, generate, complete_if,
}

-- What holds of the result, if the code does not raise.
abbrev Gives : {S A : Type 0} → (A → Type 0) → Result A × S → Type 0
Gives {A = A} Q r = (a : A) → r.0 ≡ ok a → Q a

continue-Gives :
    {S A B : Type 0} (Q : B → Type 0) (r : Result A × S) (f : A → Exec S B)
    → ((a : A) → r.0 ≡ ok a → Gives Q (f a r.1))
    → Gives Q (continue r.0 f r.1)
continue-Gives Q (ok a, s) f h b x = h a refl b x
continue-Gives Q (err e, s) f h b x = cc

module _ {World Tokenizer Model Inputs : Type 0} (runtime : Runtime World Tokenizer Model Inputs)
    (host : Host World) (config : ServingConfig) where
  -- The tokenizer and the model of a source, as the runtime gave them in this order, and the model
  -- moved to a placement.
  pub record LoadedFrom (source placement : String) (w : World)
      (l : LoadedDeployment Tokenizer Model) : Type 0 where
    pub dtype : String
    pub read : World
    pub built : World
    pub of_dtype : resolve_torch_dtype runtime host config placement ≡ ok dtype
    pub of_tokenizer :
        runtime.load_tokenizer config source (runtime.mkdir config.model_cache_dir w).1
        ≡ (ok l.tokenizer, read)
    pub of_model : runtime.load_model config source dtype read ≡ (ok l.model, built)
    pub placed : (runtime.place l.model placement built).0 ≡ ok tt

  -- A deployment that is held in memory, where and from what its record says.
  pub record IsLoaded (model : ModelRecord) (request : DeploymentCreateRequest) (w : World)
      (d : DeploymentRecord) (p : Process World Tokenizer Model) : Type 0 where
    pub loaded : LoadedDeployment Tokenizer Model
    pub held : lookup d.deployment_id p.loaded_deployments ≡ some loaded
    pub is_ready : d.status ≡ ready
    pub available : contains loaded.placement (as_list (runtime.discover w)) ≡ true
    pub source :
        resolve_source_model_id runtime host config model request ≡ ok loaded.source_model_id
    pub loading : LoadedFrom loaded.source_model_id loaded.placement w loaded
    pub noted_placement : lookup "placement" d.metadata ≡ some (text loaded.placement)
    pub noted_source : lookup "source_model_id" d.metadata ≡ some (text loaded.source_model_id)

  abbrev IsLoadOf : String → String → World → LoadedDeployment Tokenizer Model → Type 0
  IsLoadOf source placement w l =
      (l.placement ≡ placement) × (l.source_model_id ≡ source) × LoadedFrom source placement w l

  -- What `load` gives is at the placement and from the source.
  loads :
      (model : ModelRecord) (source placement : String) (p : Process World Tokenizer Model)
      → Gives
          (IsLoadOf source placement p.world)
          (load runtime host config model source placement p)
  unfolding load
  loads model source placement p =
      let Q = IsLoadOf source placement p.world in
      let made = runtime.mkdir config.model_cache_dir p.world in
      let read = runtime.load_tokenizer config source made.1 in
      continue-Gives Q (made.0, record p { world = made.1 }) _
        λ _ _.
          continue-Gives Q
            (resolve_torch_dtype runtime host config placement, record p { world = made.1 }) _
            λ dtype of_dtype.
              let built = runtime.load_model config source dtype read.1 in
              continue-Gives Q (read.0, record p { world = read.1 }) _
                λ tokenizer of_tokenizer.
                  continue-Gives Q (built.0, record p { world = built.1 }) _
                    λ loaded_model of_model.
                      let placed = runtime.place loaded_model placement built.1 in
                      continue-Gives Q (placed.0, record p { world = placed.1 }) _
                        λ _ is_placed. λ l x. subst Q (ok-injective x) (
                          refl,
                          refl,
                          record {
                            dtype = dtype;
                            read = read.1;
                            built = built.1;
                            of_dtype = of_dtype;
                            of_tokenizer = ap (λ r. (r, read.1)) of_tokenizer;
                            of_model = ap (λ r. (r, built.1)) of_model;
                            placed = is_placed;
                          },
                        )

  abbrev IsKept :
      LoadedDeployment Tokenizer Model → DeploymentRecord → Process World Tokenizer Model → Type 0
  IsKept l d p =
      (lookup d.deployment_id p.loaded_deployments ≡ some l)
      × (d.status ≡ ready)
      × (lookup "placement" d.metadata ≡ some (text l.placement))
      × (lookup "source_model_id" d.metadata ≡ some (text l.source_model_id))

  keeps :
      (model : ModelRecord) (request : DeploymentCreateRequest)
      (l : LoadedDeployment Tokenizer Model) (p p' : Process World Tokenizer Model)
      (d : DeploymentRecord)
      → keep runtime host config model request l p ≡ (ok d, p')
      → IsKept l d p'
  unfolding keep ready_deployment
  keeps model request l p p' d h =
      subst (λ (r : Result DeploymentRecord × Process World Tokenizer Model). Kept r) h
        (simp (lookup-insert, eq_refl), refl, simp lookup-insert, simp lookup-insert)
    where
      Kept : Result DeploymentRecord × Process World Tokenizer Model → Type 0
      Kept (ok d, p) = IsKept l d p
      Kept (err e, p) = Unit

  deploy-stages :
      (model : ModelRecord) (request : DeploymentCreateRequest)
      (p p' : Process World Tokenizer Model) (d : DeploymentRecord)
      → deploy runtime host config model request p ≡ (ok d, p')
      → (source placement : String) (l : LoadedDeployment Tokenizer Model)
        (q : Process World Tokenizer Model)
      → resolve_source_model_id runtime host config model request ≡ ok source
      → placement_of runtime host config request p.world ≡ ok placement
      → load runtime host config model source placement p ≡ (ok l, q)
      → keep runtime host config model request l q ≡ (ok d, p')
  unfolding deploy lazy_runtime_imports
  deploy-stages model request p p' d h source placement l q s c e = ground arith

  ok-of : {A : Type 0} (r : Result A) → ((e : Error) → r ≢ err e) → (a : A) × (r ≡ ok a)
  ok-of (ok a) h = (a, refl)
  ok-of (err e) h = absurd (h e refl)

  -- A deployment that is made is ready and held in memory, with the tokenizer and the model that the
  -- runtime loaded from the source that its request or its model names. The model was moved to a
  -- placement that is available, and the record says the source and the placement.
  pub deploy-IsLoaded :
      (model : ModelRecord) (request : DeploymentCreateRequest)
      (p p' : Process World Tokenizer Model) (d : DeploymentRecord)
      → deploy runtime host config model request p ≡ (ok d, p')
      → IsLoaded model request p.world d p'
  unfolding deploy lazy_runtime_imports placement_of
  deploy-IsLoaded model request p p' d h =
      let (source, s) =
        ok-of (resolve_source_model_id runtime host config model request) (λ e k. ground arith) in
      let (placement, c) =
        ok-of (placement_of runtime host config request p.world) (λ e k. ground arith) in
      let r = load runtime host config model source placement p in
      let (l, e) = ok-of r.0 (λ e k. ground arith) in
      let (at, from, loading) = loads model source placement p l e in
      let (held, is_up, noted_at, noted_from) = keeps model request l r.1 p' d (
        deploy-stages model request p p' d h source placement l r.1 s c
          (ap (λ (x : Result (LoadedDeployment Tokenizer Model)). (x, r.1)) e)) in
      record {
        loaded = l;
        held = held;
        is_ready = is_up;
        available = rw at (resolve_placement_among _ _ (runtime.discover p.world) placement c);
        source = rw from s;
        loading = rw (from, at) loading;
        noted_placement = noted_at;
        noted_source = noted_from;
      }

  -- Once a deployment is unloaded, a request for it is refused, and every other one stays as it is.
  pub unload_forgets :
      (d : DeploymentRecord) (request : ChatCompletionRequest) (other : String)
      (p : Process World Tokenizer Model)
      → NodupKeys p.loaded_deployments
      → (d.deployment_id == other) ≡ false
      → runtime.imports (unload runtime host config d.deployment_id p).1.world ≡ true
      → let q = (unload runtime host config d.deployment_id p).1 in
        ((generate runtime host config d request q).0
          ≡ err (not_found ("Deployment not loaded: " <> d.deployment_id)))
        × (lookup other q.loaded_deployments ≡ lookup other p.loaded_deployments)
  unfolding unload generate lazy_runtime_imports complete_if
  unload_forgets d request other p u o i = (
    ground (
      arith,
      lookup-erase d.deployment_id d.deployment_id p.loaded_deployments,
      eq_refl d.deployment_id,
    ),
    ground (arith, lookup-erase_other d.deployment_id other p.loaded_deployments),
  )
