-- ===== src/Registry/Tables/Agreement.antt =====
-- The database and the in-memory repositories (llm_platform/database/repositories.py) give the same
-- answers to a get by id.
use foundation_ai_platform.Prelude.{String, ◌≡◌}
use foundation_ai_platform.Exec.{ok}
use foundation_ai_platform.Registry.{Registry, get_model, get_deployment, get_lifecycle}
use foundation_ai_platform.Registry.Rows.{ModelRow, DeploymentRow, LifecycleRow}
use foundation_ai_platform.Registry.Tables.{
  Table, model_key, deployment_key, lifecycle_key, sql_get_model, sql_get_deployment,
  sql_get_lifecycle,
}

module _ (models : Table ModelRow model_key) (deployments : Table DeploymentRow deployment_key)
    (lifecycles : Table LifecycleRow lifecycle_key) where
  -- The three tables answer each get as the registry does. Their listings are in another order.
  pub record Agree (m : models.Database) (d : deployments.Database) (l : lifecycles.Database)
      (r : Registry) : Type 0 where
    pub of_models : (id : String) → sql_get_model models m id ≡ get_model r id
    pub of_deployments : (id : String) → sql_get_deployment deployments d id ≡ get_deployment r id
    pub of_lifecycles : (id : String) → sql_get_lifecycle lifecycles l id ≡ ok (get_lifecycle r id)
