-- ===== src/Bootstrap/Sync.antt =====
-- Which cached models llm_platform/bootstrap.py registers.
use foundation_ai_platform.Prelude.{
  ◌≡◌, refl, subst, inl, inr, ◌≢◌, String, Bool, true, false, not, ◌==◌, Option, some, List, [],
  ◌∷◌, if◌then◌else◌, Bool-cases, Elem, eq_iff, eq_refl,
}
use package.text.Mathlib.Text.{starts_with}
use foundation_ai_platform.Prelude.Int.{ℤ, pos, leb_ℤ}
use foundation_ai_platform.Prelude.Dict.{lookup, lookup-insert}
use foundation_ai_platform.Schemas.Records.{ModelRecord}
use foundation_ai_platform.Registry.{Registry, list_models, update_model, update_deployment}
use foundation_ai_platform.Registry.Laws.{IsConsistent, values-lookup}
use foundation_ai_platform.Platform.{Host}
use foundation_ai_platform.Bootstrap.{
  repo_of, is_listed, is_synced, synced_model, register_found, sync_each, sync,
}
use foundation_ai_platform.Cache.{ModelDir, read_model_vram_from_cache}

-- `uuid4` draws no id twice.
pub record IsFresh {World : Type 0} (host : Host World) : Type 1 where
  pub Drawn : World → String → Type 0
  pub draws : (w : World) → Drawn (host.uuid4 w).1 (host.uuid4 w).0
  pub keeps : (w : World) (id : String) → Drawn w id → Drawn (host.uuid4 w).1 id
  pub is_new : (w : World) (id : String) → Drawn w id → (host.uuid4 w).0 ≢ id

-- A registered model has the name.
abbrev pub HasName : Registry → String → Type 0
HasName r name = (id : String) × (m : ModelRecord) × (lookup id r.models ≡ some m) × (m.name ≡ name)

listed_name :
    (name : String) (ms : List ModelRecord)
    → is_listed name ms ≡ true
    → (m : ModelRecord) × Elem m ms × (m.name ≡ name)
unfolding is_listed
listed_name name [] h = cc
listed_name name (m ∷ ms) h = elim (Bool-cases (m.name == name)) [
  | inl e ↦ (m, inl refl, (eq_iff m.name name).0 e)
  | inr e ↦ let (m', i, e') = listed_name name ms (rw e at h) in (m', inr i, e')
]

HasName-of_listed :
    (r : Registry) (name : String)
    → IsConsistent r
    → is_listed name (list_models r) ≡ true
    → HasName r name
unfolding list_models
HasName-of_listed r name c h =
    let (m, i, e) = listed_name name (list_models r) h in
    (
      m.id,
      m,
      values-lookup (λ (m : ModelRecord). m.id) r.models c.models_unique c.models_keyed m i,
      e,
    )

module _ (int_text : String → Option ℤ) where
  -- A directory of the cache that may be registered.
  pub record IsSmall (d : ModelDir) : Type 0 where
    pub directory : d.is_dir ≡ true
    pub prefixed : starts_with d.name "models--" ≡ true
    pub fits : leb_ℤ (read_model_vram_from_cache int_text d) (pos 10) ≡ true

module _ (int_text : String → Option ℤ) {World : Type 0} (host : Host World) where
  pub models_found :
      (d : ModelDir) (r : Registry) (w : World) (id : String)
      → lookup id (register_found int_text host d (r, w)).0.models ≡ (
          if (host.uuid4 w).0 == id
          then some (synced_model int_text host (host.uuid4 w).0 d (host.uuid4 w).1)
          else lookup id r.models)
  unfolding register_found update_model update_deployment
  models_found d r w id = lookup-insert (host.uuid4 w).0 id _ r.models

module _ (int_text : String → Option ℤ) {World : Type 0} (host : Host World)
    (fresh : IsFresh host) where
  -- Every id of a registered model has been drawn.
  abbrev pub IsDrawn : Registry × World → Type 0
  IsDrawn s = (id : String) (m : ModelRecord) → lookup id s.0.models ≡ some m → fresh.Drawn s.1 id

  found-IsDrawn :
      (d : ModelDir) (s : Registry × World) → IsDrawn s → IsDrawn (register_found int_text host d s)
  found-IsDrawn d (r, w) drawn id m h =
      unfold register_found in
      fresh.keeps (host.uuid4 w).1 id (elim (Bool-cases ((host.uuid4 w).0 == id)) [
        | inl own ↦ subst (fresh.Drawn (host.uuid4 w).1) ((eq_iff _ id).0 own) (fresh.draws w)
        | inr apart ↦
            fresh.keeps w id (drawn id m (rw (models_found int_text host d r w id, apart) at h))
      ])

  found-HasName :
      (d : ModelDir) (s : Registry × World) (name : String)
      → IsDrawn s
      → HasName s.0 name
      → HasName (register_found int_text host d s).0 name
  found-HasName d (r, w) name drawn (id, m, h, e) = (
    id,
    m,
    elim (Bool-cases ((host.uuid4 w).0 == id)) [
      | inl own ↦ absurd (fresh.is_new w id (drawn id m h) ((eq_iff _ id).0 own))
      | inr apart ↦ rw (models_found int_text host d r w id, apart) h
    ],
    e,
  )

  found_named :
      (d : ModelDir) (s : Registry × World)
      → HasName (register_found int_text host d s).0 (repo_of d.name)
  unfolding synced_model
  found_named d (r, w) = (
    (host.uuid4 w).0,
    synced_model int_text host (host.uuid4 w).0 d (host.uuid4 w).1,
    rw (models_found int_text host d r w (host.uuid4 w).0, eq_refl (host.uuid4 w).0),
    refl,
  )

  abbrev step : Bool → ModelDir → Registry × World → Registry × World
  step b d s = if b then register_found int_text host d s else s

  step-IsDrawn : (b : Bool) (d : ModelDir) (s : Registry × World) → IsDrawn s → IsDrawn (step b d s)
  step-IsDrawn true d s drawn = found-IsDrawn d s drawn
  step-IsDrawn false d s drawn = drawn

  step-HasName :
      (b : Bool) (d : ModelDir) (s : Registry × World) (name : String)
      → IsDrawn s
      → HasName s.0 name
      → HasName (step b d s).0 name
  step-HasName true d s name drawn h = found-HasName d s name drawn h
  step-HasName false d s name drawn h = h

  each-HasName :
      (existing : List ModelRecord) (ds : List ModelDir) (s : Registry × World) (name : String)
      → IsDrawn s
      → HasName s.0 name
      → HasName (sync_each int_text host existing ds s).0 name
  unfolding sync_each
  each-HasName existing [] s name drawn h = h
  each-HasName existing (d ∷ ds) s name drawn h =
      let b = is_synced int_text existing d in
      each-HasName existing ds (step b d s) name (step-IsDrawn b d s drawn)
        (step-HasName b d s name drawn h)

  synced-unless_listed :
      (existing : List ModelRecord) (d : ModelDir)
      → IsSmall int_text d
      → is_synced int_text existing d ≡ not (is_listed (repo_of d.name) existing)
  unfolding is_synced
  synced-unless_listed existing d small = rw (small.directory, small.prefixed, small.fits)

  each_registers :
      (existing : List ModelRecord) (ds : List ModelDir) (s : Registry × World) (d : ModelDir)
      → IsDrawn s
      → ((name : String) → is_listed name existing ≡ true → HasName s.0 name)
      → Elem d ds
      → IsSmall int_text d
      → HasName (sync_each int_text host existing ds s).0 (repo_of d.name)
  unfolding sync_each
  each_registers existing [] s d drawn listed i small = absurd i
  each_registers existing (c ∷ ds) s d drawn listed (inr i) small =
      let b = is_synced int_text existing c in
      each_registers existing ds (step b c s) d (step-IsDrawn b c s drawn)
        (λ name h. step-HasName b c s name drawn (listed name h)) i small
  each_registers existing (c ∷ ds) s d drawn listed (inl e) small =
      let b = is_synced int_text existing c in
      each-HasName existing ds (step b c s) (repo_of d.name) (step-IsDrawn b c s drawn)
        (elim (Bool-cases (is_listed (repo_of d.name) existing)) [
          | inl old ↦ step-HasName b c s (repo_of d.name) drawn (listed (repo_of d.name) old)
          | inr new ↦
              let sure : is_synced int_text existing c ≡ true =
                rw (← e, synced-unless_listed existing d small, new) in
              rw (sure, e) (found_named c s)
        ])

  -- After a start each small model of the cache is registered under its name.
  pub sync_registers :
      (ds : List ModelDir) (r : Registry) (w : World) (d : ModelDir)
      → IsConsistent r
      → IsDrawn (r, w)
      → Elem d ds
      → IsSmall int_text d
      → HasName (sync int_text host ds (r, w)).0 (repo_of d.name)
  unfolding sync
  sync_registers ds r w d c drawn i small =
      each_registers (list_models r) ds (r, w) d drawn (λ name h. HasName-of_listed r name c h) i
        small
