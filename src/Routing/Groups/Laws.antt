-- ===== src/Routing/Groups/Laws.antt =====
-- What the maps of `route` (llm_platform/routing/router.py) hold.
use mathlib.Core.List.{append-nil, append_assoc}
use foundation_ai_platform.Prelude.{
  String, ◌≡◌, sym, ◌∙◌, ap, Bool, List, [], ◌∷◌, ◌++◌, ◌==◌, eq_iff, select, inl, inr, Bool-cases,
}
use foundation_ai_platform.Prelude.Dict.{Dict, lookup, get_or, insert, get_or-insert}
use foundation_ai_platform.Schemas.Records.{DeploymentRecord}
use foundation_ai_platform.Routing.Groups.{group_deployments}

abbrev pub belongs : String → DeploymentRecord → Bool
belongs id d = d.model_id == id

group_append :
    (id : String) (deps : List DeploymentRecord) (groups : Dict (List DeploymentRecord))
    → get_or id [] (group_deployments deps groups) ≡ get_or id [] groups ++ select (belongs id) deps
unfolding group_deployments select
group_append id [] groups = sym (append-nil _)
group_append id (dep ∷ deps) groups =
    group_append id deps (insert dep.model_id (get_or dep.model_id [] groups ++ dep ∷ []) groups)
    ∙ rw (get_or-insert dep.model_id id) (elim (Bool-cases (dep.model_id == id)) [
      | inl own ↦ rw own (
          append_assoc (get_or dep.model_id [] groups) (dep ∷ []) (select (belongs id) deps)
          ∙ ap (λ g. get_or g [] groups ++ dep ∷ select (belongs id) deps) ((eq_iff _ _).0 own))
      | inr apart ↦ rw apart
    ])

-- The deployments listed under a model are its own, in the order of the list.
pub group_deployments-select :
    (id : String) (deps : List DeploymentRecord)
    → get_or id [] (group_deployments deps []) ≡ select (belongs id) deps
unfolding lookup
group_deployments-select id deps = group_append id deps []
