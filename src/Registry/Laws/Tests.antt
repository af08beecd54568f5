-- ===== src/Registry/Laws/Tests.antt =====
-- The registry on small inputs (llm_platform/registry/service.py).
use foundation_ai_platform.Prelude.{◌≡◌, refl, [], ◌∷◌}
use foundation_ai_platform.Prelude.Dict.{lookup, values}
use foundation_ai_platform.Exec.{err, not_found}
use foundation_ai_platform.Schemas.Enums.{unloaded}
use foundation_ai_platform.Samples.{deployment, tiny_up, store}
use foundation_ai_platform.Registry.{get_deployment, list_deployments}
use foundation_ai_platform.Registry.Laws.{IsConsistent}

missing : get_deployment store "d9" ≡ err (not_found "Deployment not found: d9")
unfolding get_deployment lookup
missing = refl

store-IsConsistent : IsConsistent store
unfolding lookup
store-IsConsistent = record {
  models_unique = (refl, (refl, tt));
  deployments_unique = (refl, (refl, tt));
  lifecycles_unique = (refl, tt);
  models_keyed = (refl, (refl, tt));
  deployments_keyed = (refl, (refl, tt));
  lifecycles_keyed = (refl, tt);
}

tiny_listed : list_deployments store ≡ tiny_up ∷ deployment "d2" "phi" unloaded ∷ []
unfolding list_deployments values
tiny_listed = refl
