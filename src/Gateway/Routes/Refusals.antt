-- ===== src/Gateway/Routes/Refusals.antt =====
-- What a management request of llm_platform/gateway/routes.py leaves behind.
use foundation_ai_platform.Prelude.{String, ◌≡◌, ◌≢◌, inl, inr, refl, sym, ◌∙◌, List}
use foundation_ai_platform.Exec.{Error, Exec, Result, ok, err, continue}
use foundation_ai_platform.Schemas.Records.{
  DeploymentRecord, ModelRegistrationRequest, DeploymentCreateRequest,
}
use foundation_ai_platform.Registry
use foundation_ai_platform.Registry.{Registry}
use foundation_ai_platform.Platform.{Host, Platform}
use foundation_ai_platform.Serving.{ModelServer}
use foundation_ai_platform.Management
use foundation_ai_platform.Management.Laws.{deploy_model_atomic}
use foundation_ai_platform.Gateway.{Failure, failure, respond}
use foundation_ai_platform.Gateway.Routes.{
  handle, ModelUnloadRequest, register_model, deploy_model, unload_model,
}

raised :
    {A B : Type 0} (f : A → B) (r : Result A) (x : Failure)
    → respond f r ≡ failure x
    → (e : Error) × (r ≡ err e)
unfolding respond
raised f (ok a) x h = cc
raised f (err e) x h = (e, refl)

-- A call that writes to the registry only where it does not raise.
abbrev pub IsCareful : {World A : Type 0} → Exec (Platform World) A → Platform World → Type 0
IsCareful call p = (e : Error) → (call p).0 ≡ err e → (call p).1.registry ≡ p.registry

module _ {World : Type 0} where
  handle-IsCareful :
      {A B : Type 0} (f : A → B) (call : Exec (Platform World) A) (p : Platform World) (x : Failure)
      → IsCareful call p
      → (handle f call p).0 ≡ failure x
      → (handle f call p).1.registry ≡ p.registry
  unfolding handle
  handle-IsCareful f call p x careful h = let (e, k) = raised f (call p).0 x h in careful e k

  -- A first call that left the registry alone, and a second that is careful.
  continue-IsCareful :
      {A B : Type 0} (r : Result A) (next : A → Exec (Platform World) B) (p q : Platform World)
      → q.registry ≡ p.registry
      → ((a : A) (e : Error) → (next a q).0 ≡ err e → (next a q).1.registry ≡ p.registry)
      → (e : Error) → (continue r next q).0 ≡ err e
      → (continue r next q).1.registry ≡ p.registry
  continue-IsCareful (ok a) next p q k careful e h = careful a e h
  continue-IsCareful (err x) next p q k careful e h = k

-- A request that changes the registry.
pub data Change : Type 0 where
  registering : ModelRegistrationRequest → Change
  deploying : DeploymentCreateRequest → Change
  unloading : ModelUnloadRequest → Change

module _ {World : Type 0} (host : Host World) (server : ModelServer World)
    (engines : List String) where
  deploy-IsCareful :
      (request : DeploymentCreateRequest) (p : Platform World)
      → IsCareful (Management.deploy_model host server engines request) p
  deploy-IsCareful request p e h = elim (deploy_model_atomic host server engines request p) [
    | inl refused ↦ refused.untouched
    | inr done ↦ absurd (apart (sym done.returned ∙ h))
  ]
    where
      apart : {d : DeploymentRecord} {e : Error} → ok d ≢ err e
      apart h = cc

  store-IsCareful :
      (request : ModelRegistrationRequest) (p : Platform World)
      → IsCareful (Management.store_model host server engines request) p
  unfolding Management.store_model
  store-IsCareful request p e h = cc

  register-IsCareful :
      (request : ModelRegistrationRequest) (p : Platform World)
      → IsCareful (Management.register host server engines request) p
  unfolding Management.register
  register-IsCareful request p =
      continue-IsCareful _ (λ _. Management.store_model host server engines request) p p refl
        (λ u. store-IsCareful request p)

  unload-IsCareful :
      (id : String) (p : Platform World)
      → IsCareful (Management.unload_model host server engines id) p
  unfolding Management.unload_model
  unload-IsCareful id p =
      continue-IsCareful (Registry.get_deployment p.registry id) _ p p refl (λ d.
        continue-IsCareful (server.unload id p.world).0 _ p
          (record p { world = (server.unload id p.world).1 }) refl (λ u e h. cc))

  -- What the platform answers, if that is an error, and what it is afterwards.
  abbrev pub IsRefusedWith : Failure → Change → Platform World → Type 0
  IsRefusedWith x (registering r) p = (register_model host server engines r p).0 ≡ failure x
  IsRefusedWith x (deploying r) p = (deploy_model host server engines r p).0 ≡ failure x
  IsRefusedWith x (unloading r) p = (unload_model host server engines r p).0 ≡ failure x

  abbrev pub after : Change → Platform World → Platform World
  after (registering r) p = (register_model host server engines r p).1
  after (deploying r) p = (deploy_model host server engines r p).1
  after (unloading r) p = (unload_model host server engines r p).1

  -- A registration, a deployment or an unloading that is answered with an error leaves the registry
  -- as it was.
  pub refused_keeps :
      (change : Change) (p : Platform World) (x : Failure)
      → IsRefusedWith x change p
      → (after change p).registry ≡ p.registry
  unfolding register_model deploy_model unload_model
  refused_keeps (registering r) p x =
      handle-IsCareful (λ m. record { model = m }) (Management.register host server engines r) p x
        (register-IsCareful r p)
  refused_keeps (deploying r) p x =
      handle-IsCareful (λ d. record { deployment = d })
        (Management.deploy_model host server engines r) p x (deploy-IsCareful r p)
  refused_keeps (unloading r) p x =
      handle-IsCareful (λ d. record { deployment = d })
        (Management.unload_model host server engines r.deployment_id) p x
        (unload-IsCareful r.deployment_id p)
