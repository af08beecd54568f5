-- ===== src/Registry/Laws.antt =====
-- What a client of RegistryService (llm_platform/registry/service.py) may rely on.
mod Tests
use foundation_ai_platform.Prelude.{
  String, ◌≡◌, refl, List, [], ◌∷◌, Option, none, some, arith, ◌==◌, eq_iff, eq_refl, Elem, inl,
  inr, if◌then◌else◌,
}
use foundation_ai_platform.Prelude.Dict.{
  Dict, lookup, insert, values, NodupKeys, lookup-insert, insert-NodupKeys,
}
use foundation_ai_platform.Exec.{Result, ok}
use foundation_ai_platform.Schemas.Records.{
  Timestamp, ModelRecord, DeploymentRecord, LifecycleRecord, ModelRegistrationRequest,
}
use foundation_ai_platform.Registry.{
  Registry, found, get_model, update_model, model_of_request, register_model, get_deployment,
  update_deployment, get_lifecycle, upsert_lifecycle, list_models, list_deployments,
}

module _ (r : Registry) where
  -- A deployment that is saved is read back under its id; every other id reads what it read before.
  pub get_deployment-update_deployment :
      (d : DeploymentRecord) (id : String)
      → get_deployment (update_deployment d r) id
        ≡ (if d.deployment_id == id then ok d else get_deployment r id)
  unfolding get_deployment update_deployment
  get_deployment-update_deployment d id = simp lookup-insert (ground arith)

  pub get_model-update_model :
      (m : ModelRecord) (id : String)
      → get_model (update_model m r) id ≡ (if m.id == id then ok m else get_model r id)
  unfolding get_model update_model
  get_model-update_model m id = simp lookup-insert (ground arith)

  pub get_lifecycle-upsert_lifecycle :
      (l : LifecycleRecord) (id : String)
      → get_lifecycle (upsert_lifecycle l r) id
        ≡ (if l.deployment_id == id then some l else get_lifecycle r id)
  unfolding get_lifecycle upsert_lifecycle
  get_lifecycle-upsert_lifecycle l id = lookup-insert l.deployment_id id l r.lifecycles

  -- The three repositories are independent.
  pub get_deployment-upsert_lifecycle :
      (l : LifecycleRecord) (id : String)
      → get_deployment (upsert_lifecycle l r) id ≡ get_deployment r id
  unfolding get_deployment upsert_lifecycle
  get_deployment-upsert_lifecycle l id = refl

  pub get_deployment-update_model :
      (m : ModelRecord) (id : String) → get_deployment (update_model m r) id ≡ get_deployment r id
  unfolding get_deployment update_model
  get_deployment-update_model m id = refl

  pub get_lifecycle-update_deployment :
      (d : DeploymentRecord) (id : String)
      → get_lifecycle (update_deployment d r) id ≡ get_lifecycle r id
  unfolding get_lifecycle update_deployment
  get_lifecycle-update_deployment d id = refl

  pub get_lifecycle-update_model :
      (m : ModelRecord) (id : String) → get_lifecycle (update_model m r) id ≡ get_lifecycle r id
  unfolding get_lifecycle update_model
  get_lifecycle-update_model m id = refl

  pub get_model-update_deployment :
      (d : DeploymentRecord) (id : String) → get_model (update_deployment d r) id ≡ get_model r id
  unfolding get_model update_deployment
  get_model-update_deployment d id = refl

  pub get_model-upsert_lifecycle :
      (l : LifecycleRecord) (id : String) → get_model (upsert_lifecycle l r) id ≡ get_model r id
  unfolding get_model upsert_lifecycle
  get_model-upsert_lifecycle l id = refl

pub ruleset registry_laws = (
  get_deployment-update_deployment, get_model-update_model, get_lifecycle-upsert_lifecycle,
  get_deployment-upsert_lifecycle, get_deployment-update_model, get_lifecycle-update_deployment,
  get_lifecycle-update_model, get_model-update_deployment, get_model-upsert_lifecycle, eq_refl,
)

-- Every record stands under its own id, once: what reading by id and listing rest on.
abbrev pub Keyed : {V : Type 0} → (V → String) → Dict V → Type 0
Keyed key [] = Unit
Keyed key ((k, v) ∷ d) = (key v ≡ k) × Keyed key d

pub record IsConsistent (r : Registry) : Type 0 where
  pub models_unique : NodupKeys r.models
  pub deployments_unique : NodupKeys r.deployments
  pub lifecycles_unique : NodupKeys r.lifecycles
  pub models_keyed : Keyed (λ (m : ModelRecord). m.id) r.models
  pub deployments_keyed : Keyed (λ (d : DeploymentRecord). d.deployment_id) r.deployments
  pub lifecycles_keyed : Keyed (λ (l : LifecycleRecord). l.deployment_id) r.lifecycles

pub insert-Keyed :
    {V : Type 0} (key : V → String) (v : V) (d : Dict V)
    → Keyed key d
    → Keyed key (insert (key v) v d)
unfolding insert
insert-Keyed key v [] h = (refl, tt)
insert-Keyed key v ((k, w) ∷ d) h = ground (arith, eq_iff k (key v), insert-Keyed key v d h.1)

pub update_model-IsConsistent :
    (r : Registry) (m : ModelRecord) → IsConsistent r → IsConsistent (update_model m r)
unfolding update_model
update_model-IsConsistent r m h = record {
  models_unique = insert-NodupKeys m.id m r.models h.models_unique;
  deployments_unique = h.deployments_unique;
  lifecycles_unique = h.lifecycles_unique;
  models_keyed = insert-Keyed (λ (m : ModelRecord). m.id) m r.models h.models_keyed;
  deployments_keyed = h.deployments_keyed;
  lifecycles_keyed = h.lifecycles_keyed;
}

pub update_deployment-IsConsistent :
    (r : Registry) (d : DeploymentRecord) → IsConsistent r → IsConsistent (update_deployment d r)
unfolding update_deployment
update_deployment-IsConsistent r d h = record {
  models_unique = h.models_unique;
  deployments_unique = insert-NodupKeys d.deployment_id d r.deployments h.deployments_unique;
  lifecycles_unique = h.lifecycles_unique;
  models_keyed = h.models_keyed;
  deployments_keyed =
      insert-Keyed (λ (d : DeploymentRecord). d.deployment_id) d r.deployments h.deployments_keyed;
  lifecycles_keyed = h.lifecycles_keyed;
}

pub upsert_lifecycle-IsConsistent :
    (r : Registry) (l : LifecycleRecord) → IsConsistent r → IsConsistent (upsert_lifecycle l r)
unfolding upsert_lifecycle
upsert_lifecycle-IsConsistent r l h = record {
  models_unique = h.models_unique;
  deployments_unique = h.deployments_unique;
  lifecycles_unique = insert-NodupKeys l.deployment_id l r.lifecycles h.lifecycles_unique;
  models_keyed = h.models_keyed;
  deployments_keyed = h.deployments_keyed;
  lifecycles_keyed =
      insert-Keyed (λ (l : LifecycleRecord). l.deployment_id) l r.lifecycles h.lifecycles_keyed;
}

-- Every write keeps each record under its own id, once.
pub writes-IsConsistent :
    (r : Registry) (m : ModelRecord) (d : DeploymentRecord) (l : LifecycleRecord)
    → IsConsistent r
    → IsConsistent (update_model m r)
      × IsConsistent (update_deployment d r)
      × IsConsistent (upsert_lifecycle l r)
writes-IsConsistent r m d l h = (
  update_model-IsConsistent r m h,
  update_deployment-IsConsistent r d h,
  upsert_lifecycle-IsConsistent r l h,
)

pub values-lookup :
    {V : Type 0} (key : V → String) (d : Dict V)
    → NodupKeys d
    → Keyed key d
    → (v : V) → Elem v (values d)
    → lookup (key v) d ≡ some v
unfolding values lookup
values-lookup key [] u h v m = absurd m
values-lookup key ((k, w) ∷ d) u h v (inl e) = ground (arith, eq_iff k (key v))
values-lookup key ((k, w) ∷ d) u h v (inr m) =
    ground (arith, eq_iff k (key v), values-lookup key d u.1 h.1 v m)

-- What a listing of the deployments holds is what reading its id returns.
pub get_deployment-list :
    (r : Registry) (d : DeploymentRecord)
    → IsConsistent r
    → Elem d (list_deployments r)
    → get_deployment r d.deployment_id ≡ ok d
unfolding list_deployments get_deployment
get_deployment-list r d h m = rw (
    values-lookup (λ (d : DeploymentRecord). d.deployment_id) r.deployments h.deployments_unique
      h.deployments_keyed d m)
