-- ===== src/Bootstrap/Deployments.antt =====
-- The deployments that the start of llm_platform/bootstrap.py makes for the cached models.
use foundation_ai_platform.Prelude.{
  ◌≡◌, refl, subst, ◌⊎◌, inl, inr, String, Bool, true, false, ◌==◌, Option, some, List, [], ◌∷◌,
  if◌then◌else◌, Bool-cases, eq_iff, eq_refl,
}
use foundation_ai_platform.Prelude.Int.{ℤ}
use foundation_ai_platform.Prelude.Dict.{lookup, lookup-insert}
use foundation_ai_platform.Schemas.Enums.{DeploymentStatus}
use foundation_ai_platform.Schemas.Records.{ModelRecord, DeploymentRecord}
use foundation_ai_platform.Registry.{Registry, list_models, update_model, update_deployment}
use foundation_ai_platform.Platform.{Host}
use foundation_ai_platform.Bootstrap.{
  is_synced, pending_deployment, register_found, sync_each, sync,
}
use foundation_ai_platform.Cache.{ModelDir}
use foundation_ai_platform.Bootstrap.Sync.{IsFresh, models_found}

-- A deployment of the model is registered, and waits to be started.
abbrev pub HasPending : Registry → String → Type 0
HasPending r id =
    (k : String) × (d : DeploymentRecord) × (lookup k r.deployments ≡ some d)
    × (d.model_id ≡ id)
    × (d.status ≡ DeploymentStatus.pending)

module _ (int_text : String → Option ℤ) {World : Type 0} (host : Host World)
    (fresh : IsFresh host) where
  -- Every id of a registered deployment has been drawn.
  abbrev pub IsHeldDrawn : Registry × World → Type 0
  IsHeldDrawn s =
      (k : String) (d : DeploymentRecord) → lookup k s.0.deployments ≡ some d → fresh.Drawn s.1 k

  deployments_found :
      (d : ModelDir) (r : Registry) (w : World) (k : String)
      → lookup k (register_found int_text host d (r, w)).0.deployments ≡ (
          if (host.uuid4 (host.uuid4 w).1).0 == k
          then some (
              pending_deployment int_text host
                (host.uuid4 (host.uuid4 w).1).0
                (host.uuid4 w).0
                (host.uuid4 w).1)
          else lookup k r.deployments)
  unfolding register_found update_model update_deployment pending_deployment
  deployments_found d r w k = lookup-insert (host.uuid4 (host.uuid4 w).1).0 k _ r.deployments

  found-IsHeldDrawn :
      (d : ModelDir) (s : Registry × World)
      → IsHeldDrawn s
      → IsHeldDrawn (register_found int_text host d s)
  found-IsHeldDrawn d (r, w) drawn k e h =
      let w' = (host.uuid4 w).1 in
      unfold register_found in
      elim (Bool-cases ((host.uuid4 w').0 == k)) [
        | inl own ↦ subst (fresh.Drawn (host.uuid4 w').1) ((eq_iff _ k).0 own) (fresh.draws w')
        | inr apart ↦
            fresh.keeps w' k
              (fresh.keeps w k (drawn k e (rw (deployments_found d r w k, apart) at h)))
      ]

  found-HasPending :
      (d : ModelDir) (s : Registry × World) (id : String)
      → IsHeldDrawn s
      → HasPending s.0 id
      → HasPending (register_found int_text host d s).0 id
  found-HasPending d (r, w) id drawn (k, e, h, own_model, waits) = (
    k,
    e,
    elim (Bool-cases ((host.uuid4 (host.uuid4 w).1).0 == k)) [
      | inl own ↦
          absurd
            (fresh.is_new (host.uuid4 w).1 k (fresh.keeps w k (drawn k e h)) ((eq_iff _ k).0 own))
      | inr apart ↦ rw (deployments_found d r w k, apart) h
    ],
    own_model,
    waits,
  )

  found_pending :
      (d : ModelDir) (r : Registry) (w : World)
      → HasPending (register_found int_text host d (r, w)).0 (host.uuid4 w).0
  unfolding pending_deployment
  found_pending d r w = (
    (host.uuid4 (host.uuid4 w).1).0,
    pending_deployment int_text host (host.uuid4 (host.uuid4 w).1).0 (host.uuid4 w).0
        (host.uuid4 w).1,
    rw
        (
          deployments_found d r w (host.uuid4 (host.uuid4 w).1).0,
          eq_refl (host.uuid4 (host.uuid4 w).1).0,
        )
        refl,
    refl,
    refl,
  )

  abbrev step : Bool → ModelDir → Registry × World → Registry × World
  step b d s = if b then register_found int_text host d s else s

  step-IsHeldDrawn :
      (b : Bool) (d : ModelDir) (s : Registry × World) → IsHeldDrawn s → IsHeldDrawn (step b d s)
  step-IsHeldDrawn true d s drawn = found-IsHeldDrawn d s drawn
  step-IsHeldDrawn false d s drawn = drawn

  step-HasPending :
      (b : Bool) (d : ModelDir) (s : Registry × World) (id : String)
      → IsHeldDrawn s
      → HasPending s.0 id
      → HasPending (step b d s).0 id
  step-HasPending true d s id drawn h = found-HasPending d s id drawn h
  step-HasPending false d s id drawn h = h

  each-HasPending :
      (existing : List ModelRecord) (ds : List ModelDir) (s : Registry × World) (id : String)
      → IsHeldDrawn s
      → HasPending s.0 id
      → HasPending (sync_each int_text host existing ds s).0 id
  unfolding sync_each
  each-HasPending existing [] s id drawn h = h
  each-HasPending existing (d ∷ ds) s id drawn h =
      let b = is_synced int_text existing d in
      each-HasPending existing ds (step b d s) id (step-IsHeldDrawn b d s drawn)
        (step-HasPending b d s id drawn h)

  -- A model that one step has added has its deployment.
  step_deploys :
      (b : Bool) (d : ModelDir) (s : Registry × World) (id : String) (m : ModelRecord)
      → lookup id (step b d s).0.models ≡ some m
      → (lookup id s.0.models ≡ some m) ⊎ HasPending (step b d s).0 id
  step_deploys false d s id m h = inl h
  step_deploys true d (r, w) id m h = elim (Bool-cases ((host.uuid4 w).0 == id)) [
    | inr apart ↦ inl (rw (models_found int_text host d r w id, apart) at h)
    | inl own ↦ inr (
        subst (HasPending (register_found int_text host d (r, w)).0) ((eq_iff _ id).0 own)
          (found_pending d r w))
  ]

  each_deploys :
      (existing : List ModelRecord) (ds : List ModelDir) (s : Registry × World) (id : String)
      (m : ModelRecord)
      → IsHeldDrawn s
      → lookup id (sync_each int_text host existing ds s).0.models ≡ some m
      → (lookup id s.0.models ≡ some m) ⊎ HasPending (sync_each int_text host existing ds s).0 id
  unfolding sync_each
  each_deploys existing [] s id m drawn h = inl h
  each_deploys existing (d ∷ ds) s id m drawn h =
      let b = is_synced int_text existing d in
      let held = step-IsHeldDrawn b d s drawn in
      elim (each_deploys existing ds (step b d s) id m held h) [
        | inr there ↦ inr there
        | inl k ↦ elim (step_deploys b d s id m k) [
          | inl before ↦ inl before
          | inr made ↦ inr (each-HasPending existing ds (step b d s) id held made)
        ]
      ]

  -- A model that is registered after a start was so before, or has a deployment that waits to be
  -- started, if every id of a deployment has been drawn.
  pub sync_deploys :
      (ds : List ModelDir) (r : Registry) (w : World) (id : String) (m : ModelRecord)
      → IsHeldDrawn (r, w)
      → lookup id (sync int_text host ds (r, w)).0.models ≡ some m
      → (lookup id r.models ≡ some m) ⊎ HasPending (sync int_text host ds (r, w)).0 id
  unfolding sync
  sync_deploys ds r w id m drawn h = each_deploys (list_models r) ds (r, w) id m drawn h
