-- ===== src/Registry/Tables/Tests.antt =====
-- The database repositories (llm_platform/database/repositories.py) over tables that keep their rows
-- in a dict.
use foundation_ai_platform.Prelude.{String, ◌≡◌, ◌↔◌, refl, sym, [], ◌∷◌, leb, Elem}
use foundation_ai_platform.Prelude.Sorting.{sort, IsSorted}
use foundation_ai_platform.Prelude.Dict.{
  Dict, lookup, insert, values, NodupKeys, lookup-insert, insert-NodupKeys,
}
use foundation_ai_platform.Exec.{ok, ok-injective}
use foundation_ai_platform.Schemas.Records.{ModelRecord, DeploymentRecord}
use foundation_ai_platform.Samples.{tiny, tiny_up, tiny_idle}
use foundation_ai_platform.Registry.Laws.{Keyed, insert-Keyed, values-lookup}
use foundation_ai_platform.Registry.Listing.{lookup-Keyed, lookup-Elem}
use foundation_ai_platform.Registry.Tables.{
  Table, model_key, deployment_key, lifecycle_key, sql_save_model, sql_save_deployment,
  sql_list_models, sql_list_deployments, sql_get_model, sql_get_deployment, collect,
}
use foundation_ai_platform.Registry.Tables.Ordering.{listings}
use foundation_ai_platform.Registry.Rows.{
  ModelRow, DeploymentRow, LifecycleRow, model_from_row, row_of_model, deployment_from_row,
  row_of_deployment, row_of_lifecycle,
}

module _ {Row : Type 0} (key : Row → String) where
  abbrev Kept : Type 0
  Kept = (d : Dict Row) × NodupKeys d × Keyed key d

  abbrev put : Row → Kept → Kept
  put row k = (
    insert (key row) row k.0,
    insert-NodupKeys (key row) row k.0 k.1,
    insert-Keyed key row k.0 k.2,
  )

  abbrev kept_rows : Table Row key
  kept_rows = record {
    Database = Kept;
    get = λ db id. lookup id db.0;
    commit = λ row db. ok (put row db);
    rows = λ db. values db.0;
    get-commit = λ row db db' id e. rw (sym (ok-injective e)) (lookup-insert (key row) id row db.0);
    get_key = λ db id row e. lookup-Keyed key db.0 id row db.2 e;
    rows_iff = λ db row. (values-lookup key db.0 db.1 db.2 row, lookup-Elem key db.0 (key row) row);
  }

  abbrev nothing : Kept
  nothing = ([], tt, tt)

abbrev models : Table ModelRow model_key
models = kept_rows model_key

abbrev deployments : Table DeploymentRow deployment_key
deployments = kept_rows deployment_key

abbrev lifecycles : Table LifecycleRow lifecycle_key
lifecycles = kept_rows lifecycle_key

abbrev one_model : models.Database
one_model = put model_key (row_of_model tiny) (nothing model_key)

abbrev one_deployment : deployments.Database
one_deployment = put deployment_key (row_of_deployment tiny_up) (nothing deployment_key)

abbrev one_lifecycle : lifecycles.Database
one_lifecycle = put lifecycle_key (row_of_lifecycle tiny_idle) (nothing lifecycle_key)

one_listed :
    (sql_list_models models one_model ≡ ok (tiny ∷ []))
    × (sql_list_deployments deployments one_deployment ≡ ok (tiny_up ∷ []))
unfolding sql_list_models sql_list_deployments sql_save_model sql_save_deployment insert values sort
    collect model_from_row row_of_model deployment_from_row row_of_deployment
one_listed = (refl, refl)

listings_example :
    IsSorted (λ (a b : ModelRecord). leb a.created_at b.created_at) (tiny ∷ [])
    × ((a : ModelRecord) → Elem a (tiny ∷ []) ↔ (sql_get_model models one_model a.id ≡ ok a))
    × IsSorted (λ (a b : DeploymentRecord). leb a.created_at b.created_at) (tiny_up ∷ [])
    × ((a : DeploymentRecord)
        → Elem a (tiny_up ∷ [])
          ↔ (sql_get_deployment deployments one_deployment a.deployment_id ≡ ok a))
listings_example =
    listings models deployments one_model one_deployment (tiny ∷ []) (tiny_up ∷ []) one_listed.0
      one_listed.1
