-- ===== src/Registry/Tables/Ordering.antt =====
-- What the listings of llm_platform/database/repositories.py hold, and in which order.
use foundation_ai_platform.Prelude.{
  ℕ, String, ◌<>◌, Bool, ◌≡◌, ◌≢◌, ◌↔◌, Option-cases, refl, sym, ◌∙◌, ap, subst, List, [], ◌∷◌, leb,
  Elem, All-elem, All-of_Elem, arith, inl, inr,
}
use foundation_ai_platform.Prelude.Sorting.{sort, IsSorted, sort-IsSorted, sort-Elem, Elem-sort}
use foundation_ai_platform.Exec.{Result, ok, err, not_found, ok-injective}
use foundation_ai_platform.Schemas.Records.{ModelRecord, DeploymentRecord}
use foundation_ai_platform.Registry.Rows.{
  ModelRow, DeploymentRow, model_from_row, deployment_from_row,
}
use foundation_ai_platform.Registry.Tables.{
  Table, model_key, deployment_key, read_row, collect, cons_ok, sql_get_model, sql_list_models,
  sql_get_deployment, sql_list_deployments,
}

-- `a` is what the first row was read as, `found` the rest.
cons_ok-inv :
    {A : Type 0} (r : Result A) (s : Result (List A)) {ys : List A}
    → cons_ok r s ≡ ok ys
    → (a : A) × (found : List A) × (r ≡ ok a) × (s ≡ ok found) × (ys ≡ a ∷ found)
cons_ok-inv (ok a) (ok rest) e = (a, rest, refl, refl, sym (ok-injective e))
cons_ok-inv (ok a) (err b) e = cc
cons_ok-inv (err b) s e = cc

not_ok : {A : Type 0} (message : String) (a : A) → Result.err (not_found message) ≢ ok a
not_ok message a e = cc

module _ {Row A : Type 0} (from_row : Row → Result A) where
  collect-Elem :
      (rows : List Row) (found : List A) (a : A)
      → collect from_row rows ≡ ok found
      → Elem a found
      → (row : Row) × Elem row rows × (from_row row ≡ ok a)
  unfolding collect
  collect-Elem [] found a e m = absurd (subst (Elem a) (sym (ok-injective e)) m)
  collect-Elem (row ∷ rows) found a e m =
      let (b, bs, eb, ebs, eas) = cons_ok-inv (from_row row) (collect from_row rows) e in
      elim (subst (Elem a) eas m) [
        | inl here ↦ (row, inl refl, eb ∙ ap ok (sym here))
        | inr later ↦ let (r, mr, er) = collect-Elem rows bs a ebs later in (r, inr mr, er)
      ]

  Elem-collect :
      (rows : List Row) (found : List A) (row : Row) (a : A)
      → collect from_row rows ≡ ok found
      → Elem row rows
      → from_row row ≡ ok a
      → Elem a found
  unfolding collect
  Elem-collect [] found row a e m k = absurd m
  Elem-collect (r ∷ rows) found row a e m k =
      let (b, bs, eb, ebs, eas) = cons_ok-inv (from_row r) (collect from_row rows) e in
      subst (Elem a) (sym eas) (elim m [
        | inl here ↦ inl (ok-injective (sym k ∙ ap from_row here ∙ eb))
        | inr later ↦ inr (Elem-collect rows bs row a ebs later k)
      ])

  module _ (at : Row → ℕ) (at' : A → ℕ)
      (same : (row : Row) (a : A) → from_row row ≡ ok a → at' a ≡ at row) where
    collect-IsSorted :
        (rows : List Row) (found : List A)
        → collect from_row rows ≡ ok found
        → IsSorted (λ r s. leb (at r) (at s)) rows
        → IsSorted (λ a b. leb (at' a) (at' b)) found
    unfolding collect
    collect-IsSorted [] found e s =
        subst (IsSorted (λ a b. leb (at' a) (at' b))) (ok-injective e) tt
    collect-IsSorted (row ∷ rows) found e s =
        let (b, bs, eb, ebs, eas) = cons_ok-inv (from_row row) (collect from_row rows) e in
        subst (IsSorted (λ a b. leb (at' a) (at' b))) (sym eas) (
          All-of_Elem _ bs (λ c mc.
              let (r, mr, er) = collect-Elem rows bs c ebs mc in
              rw (same row b eb, same r c er) (All-elem _ r rows s.0 mr)),
          collect-IsSorted rows bs ebs s.1,
        )

module _ {Row A : Type 0} {key : Row → String} (table : Table Row key) (from_row : Row → Result A)
    (message : A → String) (at : Row → ℕ) (at' : A → ℕ) (key' : A → String)
    (same : (row : Row) (a : A) → from_row row ≡ ok a → (at' a ≡ at row) × (key' a ≡ key row)) where
  abbrev before : Row → Row → Bool
  before r s = leb (at r) (at s)

  abbrev before' : A → A → Bool
  before' a b = leb (at' a) (at' b)

  listing :
      (db : table.Database) (found : List A)
      → collect from_row (sort before (table.rows db)) ≡ ok found
      → IsSorted before' found
        × ((a : A) → Elem a found ↔ (read_row from_row (message a) (table.get db (key' a)) ≡ ok a))
  listing db found e = (
    collect-IsSorted from_row at at' (λ row a k. (same row a k).0) _ found e
        (sort-IsSorted before (λ x y h. ground arith) (λ x y z h k. ground arith) (table.rows db)),
    λ a. (
      λ m.
          let (row, mr, er) = collect-Elem from_row _ found a e m in
          let got = (table.rows_iff db row).0 (sort-Elem before row _ mr) in
          rw ((same row a er).1, got) er,
      λ r. elim (Option-cases (table.get db (key' a))) [
        | inl missing ↦ absurd (not_ok (message a) a (rw missing at r))
        | inr (row, got) ↦
            let read : from_row row ≡ ok a = rw got at r in
            Elem-collect from_row _ found row a e
              (Elem-sort before row _
                ((table.rows_iff db row).1 (rw (table.get_key db (key' a) row got) got)))
              read
      ],
    ),
  )

model_same :
    (row : ModelRow) (m : ModelRecord)
    → model_from_row row ≡ ok m
    → (m.created_at ≡ row.created_at) × (m.id ≡ row.id)
unfolding model_from_row
model_same row m e = ground arith

deployment_same :
    (row : DeploymentRow) (d : DeploymentRecord)
    → deployment_from_row row ≡ ok d
    → (d.created_at ≡ row.created_at) × (d.deployment_id ≡ row.deployment_id)
unfolding deployment_from_row
deployment_same row d e = ground arith

-- A listing of the database is in the order of creation, and holds exactly the records that are read
-- back under their ids.
pub listings :
    (models : Table ModelRow model_key) (deployments : Table DeploymentRow deployment_key)
    (m : models.Database) (d : deployments.Database) (ms : List ModelRecord)
    (ds : List DeploymentRecord)
    → sql_list_models models m ≡ ok ms
    → sql_list_deployments deployments d ≡ ok ds
    → IsSorted (λ a b. leb a.created_at b.created_at) ms
      × ((a : ModelRecord) → Elem a ms ↔ (sql_get_model models m a.id ≡ ok a))
      × IsSorted (λ a b. leb a.created_at b.created_at) ds
      × ((a : DeploymentRecord)
          → Elem a ds ↔ (sql_get_deployment deployments d a.deployment_id ≡ ok a))
unfolding sql_list_models sql_get_model sql_list_deployments sql_get_deployment
listings models deployments m d ms ds em ed =
    let (sm, fm) =
      listing models model_from_row (λ a. "Model not found: " <> a.id) (λ row. row.created_at)
        (λ a. a.created_at) (λ a. a.id) model_same m ms em in
    let (sd, fd) =
      listing deployments deployment_from_row (λ a. "Deployment not found: " <> a.deployment_id)
        (λ row. row.created_at) (λ a. a.created_at) (λ a. a.deployment_id) deployment_same d ds
        ed in
    (sm, fm, sd, fd)
