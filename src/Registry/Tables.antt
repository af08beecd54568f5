-- ===== src/Registry/Tables.antt =====
-- The SQLAlchemy repositories of llm_platform/database/repositories.py over the tables of a session,
-- which are parameters: `session.get`, `session.add` with `session.commit`, and `select`.
pub mod Agreement
pub mod Ordering
mod Tests
use foundation_ai_platform.Prelude.{
  String, Bool, ◌≡◌, ◌↔◌, Option, none, some, List, [], ◌∷◌, ◌==◌, if◌then◌else◌, ◌<>◌, leb, Elem,
}
use foundation_ai_platform.Prelude.Sorting.{sort}
use foundation_ai_platform.Exec.{Result, ok, err, not_found}
use foundation_ai_platform.Schemas.Records.{ModelRecord, DeploymentRecord, LifecycleRecord}
use foundation_ai_platform.Registry.Rows.{
  ModelRow, DeploymentRow, LifecycleRow, row_of_model, row_of_deployment, row_of_lifecycle,
  model_from_row, deployment_from_row, lifecycle_from_row,
}

-- A table with a primary key. `session.add` with `session.commit` can raise, as for a foreign key of a
-- row that is not there. A row that was committed is read back, and `select` gives the rows that are
-- read under their keys, in some order.
pub record Table (Row : Type 0) (key : Row → String) : Type 1 where
  pub Database : Type 0
  pub get : Database → String → Option Row
  pub commit : Row → Database → Result Database
  pub rows : Database → List Row
  pub get-commit :
      (row : Row) (db db' : Database) (id : String)
      → commit row db ≡ ok db'
      → get db' id ≡ (if key row == id then some row else get db id)
  pub get_key : (db : Database) (id : String) (row : Row) → get db id ≡ some row → key row ≡ id
  pub rows_iff : (db : Database) (row : Row) → Elem row (rows db) ↔ (get db (key row) ≡ some row)

abbrev pub model_key : ModelRow → String
model_key row = row.id

abbrev pub deployment_key : DeploymentRow → String
deployment_key row = row.deployment_id

abbrev pub lifecycle_key : LifecycleRow → String
lifecycle_key row = row.deployment_id

-- `row is None` is a NotFoundError.
abbrev pub read_row : {Row A : Type 0} → (Row → Result A) → String → Option Row → Result A
read_row from_row message none = err (not_found message)
read_row from_row message (some row) = from_row row

abbrev pub read_optional : {Row A : Type 0} → (Row → Result A) → Option Row → Result (Option A)
read_optional from_row none = ok none
read_optional from_row (some row) = elim (from_row row) [ ok a ↦ ok (some a) | err e ↦ err e ]

abbrev cons_ok : {A : Type 0} → Result A → Result (List A) → Result (List A)
cons_ok (ok a) (ok rest) = ok (a ∷ rest)
cons_ok (ok a) (err e) = err e
cons_ok (err e) rest = err e

-- `[from_row(row) for row in rows]`
unfoldable pub collect : {Row A : Type 0} → (Row → Result A) → List Row → Result (List A)
collect from_row [] = ok []
collect from_row (row ∷ rows) = cons_ok (from_row row) (collect from_row rows)

module _ (table : Table ModelRow model_key) where
  unfoldable pub sql_save_model : ModelRecord → table.Database → Result table.Database
  sql_save_model m db = table.commit (row_of_model m) db

  unfoldable pub sql_get_model : table.Database → String → Result ModelRecord
  sql_get_model db id = read_row model_from_row ("Model not found: " <> id) (table.get db id)

  unfoldable pub sql_list_models : table.Database → Result (List ModelRecord)
  sql_list_models db =
      collect model_from_row (sort (λ a b. leb a.created_at b.created_at) (table.rows db))

module _ (table : Table DeploymentRow deployment_key) where
  unfoldable pub sql_save_deployment : DeploymentRecord → table.Database → Result table.Database
  sql_save_deployment d db = table.commit (row_of_deployment d) db

  unfoldable pub sql_get_deployment : table.Database → String → Result DeploymentRecord
  sql_get_deployment db id =
      read_row deployment_from_row ("Deployment not found: " <> id) (table.get db id)

  unfoldable pub sql_list_deployments : table.Database → Result (List DeploymentRecord)
  sql_list_deployments db =
      collect deployment_from_row (sort (λ a b. leb a.created_at b.created_at) (table.rows db))

module _ (table : Table LifecycleRow lifecycle_key) where
  unfoldable pub sql_save_lifecycle : LifecycleRecord → table.Database → Result table.Database
  sql_save_lifecycle l db = table.commit (row_of_lifecycle l) db

  unfoldable pub sql_get_lifecycle : table.Database → String → Result (Option LifecycleRecord)
  sql_get_lifecycle db id = read_optional lifecycle_from_row (table.get db id)

  unfoldable pub sql_list_lifecycles : table.Database → Result (List LifecycleRecord)
  sql_list_lifecycles db =
      collect lifecycle_from_row
        (sort (λ a b. leb a.last_transition b.last_transition) (table.rows db))
