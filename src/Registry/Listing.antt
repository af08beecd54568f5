-- ===== src/Registry/Listing.antt =====
-- Reading by id and listing (llm_platform/registry/service.py) in a consistent registry.
use foundation_ai_platform.Prelude.{
  String, ◌≡◌, sym, ◌∙◌, ◌≢◌, inl, inr, false, Bool-cases, Option, none, some, List, [], ◌∷◌, arith,
  ◌==◌, eq_iff, Elem, All, ap,
}
use mathlib.Core.Option.{some-injective}
use foundation_ai_platform.Prelude.Dict.{Dict, lookup, values, NodupKeys}
use foundation_ai_platform.Exec.{ok, ok-injective}
use foundation_ai_platform.Schemas.Records.{DeploymentRecord, LifecycleRecord}
use foundation_ai_platform.Registry.{
  Registry, found, get_deployment, list_deployments, get_lifecycle,
}
use foundation_ai_platform.Registry.Laws.{IsConsistent, Keyed, get_deployment-list}

module _ {V : Type 0} (key : V → String) where
  pub lookup-Keyed :
      (d : Dict V) (k : String) (v : V) → Keyed key d → lookup k d ≡ some v → key v ≡ k
  unfolding lookup
  lookup-Keyed [] k v h e = cc
  lookup-Keyed ((j, w) ∷ d) k v h e = elim (Bool-cases (j == k)) [
    | inl t ↦
        let same = some-injective _ _ (rw t at e) in ap key (sym same) ∙ h.0 ∙ (eq_iff j k).0 t
    | inr f ↦ lookup-Keyed d k v h.1 (rw f at e)
  ]

  pub lookup-Elem : (d : Dict V) (k : String) (v : V) → lookup k d ≡ some v → Elem v (values d)
  unfolding lookup values
  lookup-Elem [] k v e = cc
  lookup-Elem ((j, w) ∷ d) k v e = elim (Bool-cases (j == k)) [
    | inl t ↦ inl (sym (some-injective _ _ (rw t at e)))
    | inr f ↦ inr (lookup-Elem d k v (rw f at e))
  ]

  some≢none : {v : V} → some v ≢ none
  some≢none e = cc

  -- Every value of the dict is under another key than `k`.
  values-Other :
      (d : Dict V) (k : String)
      → Keyed key d
      → lookup k d ≡ none
      → All (λ v. (k == key v) ≡ false) (values d)
  unfolding lookup values
  values-Other [] k h e = tt
  values-Other ((j, w) ∷ d) k h e = elim (Bool-cases (j == k)) [
    | inl t ↦ absurd (some≢none (rw t at e))
    | inr f ↦ (ground (arith, eq_iff j k, eq_iff k (key w)), values-Other d k h.1 (rw f at e))
  ]

found-some :
    {A : Type 0} (message : String) (o : Option A) (a : A) → found message o ≡ ok a → o ≡ some a
found-some message none a e = cc
found-some message (some b) a e = ap some (ok-injective e)

-- The records of a listing stand under different ids.
abbrev pub Distinct : List DeploymentRecord → Type 0
Distinct [] = Unit
Distinct (d ∷ ds) =
    All (λ (e : DeploymentRecord). (d.deployment_id == e.deployment_id) ≡ false) ds × Distinct ds

values-Distinct :
    (d : Dict DeploymentRecord)
    → NodupKeys d
    → Keyed (λ (e : DeploymentRecord). e.deployment_id) d
    → Distinct (values d)
unfolding values
values-Distinct [] u h = tt
values-Distinct ((k, e) ∷ d) u h = (
  values-Other (λ (e : DeploymentRecord). e.deployment_id) d e.deployment_id h.1 (rw h.0 u.0),
  values-Distinct d u.1 h.1,
)

module _ (r : Registry) (h : IsConsistent r) where
  pub list_deployments-Distinct : Distinct (list_deployments r)
  unfolding list_deployments
  list_deployments-Distinct = values-Distinct r.deployments h.deployments_unique h.deployments_keyed

  pub list_deployments-Elem :
      (id : String) (d : DeploymentRecord)
      → get_deployment r id ≡ ok d
      → Elem d (list_deployments r)
  unfolding list_deployments get_deployment
  list_deployments-Elem id d e =
      lookup-Elem (λ (e : DeploymentRecord). e.deployment_id) r.deployments id d
        (found-some _ _ _ e)

  pub get_lifecycle-id :
      (id : String) (l : LifecycleRecord) → get_lifecycle r id ≡ some l → l.deployment_id ≡ id
  unfolding get_lifecycle
  get_lifecycle-id id l e =
      lookup-Keyed (λ (l : LifecycleRecord). l.deployment_id) r.lifecycles id l h.lifecycles_keyed e

  pub get_deployment-own :
      (id : String) (d : DeploymentRecord)
      → get_deployment r id ≡ ok d
      → get_deployment r d.deployment_id ≡ ok d
  get_deployment-own id d e = get_deployment-list r d h (list_deployments-Elem id d e)
