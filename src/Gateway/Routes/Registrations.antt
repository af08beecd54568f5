-- ===== src/Gateway/Routes/Registrations.antt =====
-- What a registration through llm_platform/gateway/routes.py is read back as.
use foundation_ai_platform.Prelude.{String, ◌≡◌, refl, eq_refl, List, some, Elem}
use foundation_ai_platform.Prelude.Dict.{lookup, lookup-insert}
use foundation_ai_platform.Exec.{Result, ok, err, continue}
use foundation_ai_platform.Schemas.Records.{ModelRecord, ModelRegistrationRequest}
use foundation_ai_platform.Registry
use foundation_ai_platform.Registry.{found}
use foundation_ai_platform.Registry.Listing.{lookup-Elem}
use foundation_ai_platform.Platform.{Host, Platform}
use foundation_ai_platform.Serving.{ModelServer}
use foundation_ai_platform.Management
use foundation_ai_platform.Gateway.{Response, success, respond}
use foundation_ai_platform.Gateway.Routes.{
  handle, ModelResponse, register_model, get_model, list_models,
}

module _ {World : Type 0} (host : Host World) (server : ModelServer World)
    (engines : List String) where
  -- The answer to a registration is what is stored.
  abbrev IsStored : Response ModelResponse × Platform World → ModelResponse → Type 0
  IsStored s m = s.0 ≡ success m → lookup m.model.id s.1.registry.models ≡ some m.model

  stored :
      (request : ModelRegistrationRequest) (p : Platform World) (m : ModelResponse)
      → IsStored
          (handle
            (λ m. record { model = m })
            (Management.store_model host server engines request)
            p)
          m
  unfolding handle respond Management.store_model Registry.register_model Registry.update_model
  stored request p m h = rw (← same h) (simp (lookup-insert, eq_refl))
    where
      same : {a b : ModelResponse} → success a ≡ success b → a ≡ b
      same h = cc

  checked :
      (v : Result (Unit {0})) (request : ModelRegistrationRequest) (p : Platform World)
      (m : ModelResponse)
      → IsStored
          (handle
            (λ m. record { model = m })
            (continue v (λ _. Management.store_model host server engines request))
            p)
          m
  unfolding handle respond
  checked (ok u) request p m h = stored request p m h
  checked (err e) request p m h = cc

  register-IsStored :
      (request : ModelRegistrationRequest) (p : Platform World) (m : ModelResponse)
      → IsStored (register_model host server engines request p) m
  unfolding register_model Management.register
  register-IsStored request p m = checked _ request p m

  -- A model that a registration is answered with is answered under its id, and is listed.
  pub registered_reads :
      (request : ModelRegistrationRequest) (p : Platform World) (m : ModelResponse)
      → (register_model host server engines request p).0 ≡ success m
      → let q = (register_model host server engines request p).1 in
        ((get_model m.model.id q).0 ≡ success m) × Elem m.model (list_models q).models
  unfolding get_model list_models handle respond Registry.get_model Registry.list_models
  registered_reads request p m h =
      let e = register-IsStored request p m h in
      (rw e refl, lookup-Elem (λ (m : ModelRecord). m.id) _ m.model.id m.model e)
