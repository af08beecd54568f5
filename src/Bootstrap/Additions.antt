-- ===== src/Bootstrap/Additions.antt =====
-- What the start of llm_platform/bootstrap.py adds to the registry.
use foundation_ai_platform.Prelude.{
  ◌≡◌, refl, sym, ap, ◌⊎◌, inl, inr, String, Bool, true, false, ◌&&◌, Option, some, List, [], ◌∷◌,
  ◌==◌, arith, Bool-cases, Elem,
}
use mathlib.Core.Option.{some-injective}
use package.text.Mathlib.Text.{starts_with}
use foundation_ai_platform.Prelude.Int.{ℤ, pos, leb_ℤ}
use foundation_ai_platform.Prelude.Dict.{lookup}
use foundation_ai_platform.Schemas.Enums.{ModelStatus}
use foundation_ai_platform.Schemas.Records.{ModelRecord}
use foundation_ai_platform.Registry.{Registry, list_models}
use foundation_ai_platform.Platform.{Host}
use foundation_ai_platform.Bootstrap.{
  repo_of, capabilities_of, is_listed, is_synced, synced_model, register_found, sync_each, sync,
}
use foundation_ai_platform.Cache.{ModelDir, read_model_vram_from_cache}
use foundation_ai_platform.Bootstrap.Sync.{IsSmall, models_found}

module _ (int_text : String → Option ℤ) {World : Type 0} (host : Host World) where
  -- A model that the loop made of a directory that no listed model is named after.
  pub record IsAdded (existing : List ModelRecord) (ds : List ModelDir) (m : ModelRecord)
      : Type 0 where
    pub directory : ModelDir
    pub is_there : Elem directory ds
    pub small : IsSmall int_text directory
    pub unlisted : is_listed (repo_of directory.name) existing ≡ false
    pub named : m.name ≡ repo_of directory.name
    pub sized : m.memory_requirement_gb ≡ read_model_vram_from_cache int_text directory
    pub capable : m.capabilities ≡ capabilities_of (repo_of directory.name)
    pub is_registered : m.status ≡ ModelStatus.registered

  and_true : (a b : Bool) → (a && b) ≡ true → (a ≡ true) × (b ≡ true)
  and_true true b h = (refl, h)
  and_true false b h = cc

  IsSmall-of_synced :
      (existing : List ModelRecord) (d : ModelDir)
      → is_synced int_text existing d ≡ true
      → IsSmall int_text d × (is_listed (repo_of d.name) existing ≡ false)
  unfolding is_synced
  IsSmall-of_synced existing d h =
      let (a, bc) = and_true d.is_dir _ h in
      let (b, cd) = and_true (starts_with d.name "models--") _ bc in
      let (c, e) = and_true (leb_ℤ (read_model_vram_from_cache int_text d) (pos 10)) _ cd in
      (record { directory = a; prefixed = b; fits = c }, ground (arith, e))

  later :
      (existing : List ModelRecord) (d : ModelDir) (ds : List ModelDir) (m : ModelRecord)
      → IsAdded existing ds m
      → IsAdded existing (d ∷ ds) m
  later existing d ds m a = record {
    directory = a.directory;
    is_there = inr a.is_there;
    small = a.small;
    unlisted = a.unlisted;
    named = a.named;
    sized = a.sized;
    capable = a.capable;
    is_registered = a.is_registered;
  }

  added_now :
      (existing : List ModelRecord) (d : ModelDir) (ds : List ModelDir) (s : Registry × World)
      (id : String) (m : ModelRecord)
      → is_synced int_text existing d ≡ true
      → lookup id (register_found int_text host d s).0.models ≡ some m
      → (lookup id s.0.models ≡ some m) ⊎ IsAdded existing (d ∷ ds) m
  unfolding synced_model
  added_now existing d ds (r, w) id m t h = elim (Bool-cases ((host.uuid4 w).0 == id)) [
    | inr apart ↦ inl (rw (models_found int_text host d r w id, apart) at h)
    | inl own ↦
        let e = some-injective _ _ (rw (models_found int_text host d r w id, own) at h) in
        let (small, unlisted) = IsSmall-of_synced existing d t in
        inr (record {
          directory = d;
          is_there = inl refl;
          small = small;
          unlisted = unlisted;
          named = ap (λ (x : ModelRecord). x.name) (sym e);
          sized = ap (λ (x : ModelRecord). x.memory_requirement_gb) (sym e);
          capable = ap (λ (x : ModelRecord). x.capabilities) (sym e);
          is_registered = ap (λ (x : ModelRecord). x.status) (sym e);
        })
  ]

  each_adds :
      (existing : List ModelRecord) (ds : List ModelDir) (s : Registry × World) (id : String)
      (m : ModelRecord)
      → lookup id (sync_each int_text host existing ds s).0.models ≡ some m
      → (lookup id s.0.models ≡ some m) ⊎ IsAdded existing ds m
  unfolding sync_each
  each_adds existing [] s id m h = inl h
  each_adds existing (d ∷ ds) s id m h = elim (each_adds existing ds _ id m h) [
    | inr a ↦ inr (later existing d ds m a)
    | inl k ↦ elim (Bool-cases (is_synced int_text existing d)) [
      | inl t ↦ added_now existing d ds s id m t (rw t at k)
      | inr f ↦ inl (rw f at k)
    ]
  ]

  -- A model that is registered after a start was so before, or was made of a small directory of the
  -- cache that no model of the registry is named after, with its name, size and capabilities.
  pub sync_adds :
      (ds : List ModelDir) (r : Registry) (w : World) (id : String) (m : ModelRecord)
      → lookup id (sync int_text host ds (r, w)).0.models ≡ some m
      → (lookup id r.models ≡ some m) ⊎ IsAdded (list_models r) ds m
  unfolding sync
  sync_adds ds r w id m h = each_adds (list_models r) ds (r, w) id m h
