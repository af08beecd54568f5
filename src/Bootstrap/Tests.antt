-- ===== src/Bootstrap/Tests.antt =====
-- The start of llm_platform/bootstrap.py with one cached model.
use foundation_ai_platform.Prelude.{
  ℕ, zero, suc, ◌<◌, ◌≡◌, ◌≢◌, refl, sym, ap, ◌∙◌, ◌⊎◌, inl, String, true, none, some, [], ◌∷◌,
  Option, arith,
}
use Prim.Native.String.{count}
use text.Mathlib.TextLemmas.{length-cons}
use foundation_ai_platform.Prelude.Int.{ℤ, pos, ◌+ℤ◌}
use foundation_ai_platform.Prelude.Dict.{lookup, insert, values}
use foundation_ai_platform.Schemas.Records.{ModelRecord}
use foundation_ai_platform.Samples.{bare}
use foundation_ai_platform.Platform.{Host}
use foundation_ai_platform.Registry.{empty, list_models, update_deployment, update_model}
use foundation_ai_platform.Registry.Laws.{IsConsistent}
use foundation_ai_platform.Bootstrap.Deployments.{IsHeldDrawn, HasPending, sync_deploys}
use foundation_ai_platform.Bootstrap.{repo_of, sync, synced_model}
use foundation_ai_platform.Cache.{
  Snapshot, ModelDir, read_model_vram_from_cache, active_snapshot, total_bytes,
  estimate_vram_gb_from_name,
}
use foundation_ai_platform.Cache.Estimates.{Fits, read_model_vram-Fits}
use foundation_ai_platform.Bootstrap.Sync.{IsFresh, HasName, IsDrawn, IsSmall, sync_registers}
use foundation_ai_platform.Bootstrap.Deployments.{IsHeldDrawn}
use foundation_ai_platform.Bootstrap.Additions.{IsAdded, sync_adds}

abbrev no_text : String → Option ℤ
no_text s = none

-- Ids of a growing length.
abbrev tally : ℕ → String
tally zero = ""
tally (suc n) = String.◌∷◌ "i" (tally n)

count-tally : (n : ℕ) → count (tally n) ≡ n
count-tally zero = refl
count-tally (suc n) = length-cons _ (tally n) ∙ ap suc (count-tally n)

abbrev counting : Host ℕ
counting = record bare { uuid4 = λ w. (tally w, suc w) }

counting-IsFresh : IsFresh counting
counting-IsFresh = record {
  Drawn = λ w id. (k : ℕ) × (k < w) × (id ≡ tally k);
  draws = λ w. (w, omega arith, refl);
  keeps = λ w id (k, h, e). (k, omega arith, e);
  is_new = λ w id (k, h, e) same.
      apart w k h (sym (count-tally w) ∙ ap count (same ∙ e) ∙ count-tally k);
}
  where
    apart : (w k : ℕ) → k < w → w ≢ k
    apart w k h = omega arith

abbrev weights : Snapshot
weights = record {
  exact_index = none;
  other_indexes = [];
  safetensors = 1000000000 ∷ [];
  bins = [];
}

abbrev cached : ModelDir
cached = record {
  name = "models--org--tiny";
  is_dir = true;
  refs_main = some "abc";
  snapshots = some (record { name = "abc"; is_dir = true; mtime = 5; content = weights } ∷ []);
}

cached-IsSmall : IsSmall no_text cached
unfolding read_model_vram_from_cache ◌+ℤ◌
cached-IsSmall = record { directory = refl; prefixed = refl; fits = refl }

empty-IsConsistent : IsConsistent empty
empty-IsConsistent = record {
  models_unique = tt;
  deployments_unique = tt;
  lifecycles_unique = tt;
  models_keyed = tt;
  deployments_keyed = tt;
  lifecycles_keyed = tt;
}

none-IsDrawn : IsDrawn no_text counting counting-IsFresh (empty, 0)
unfolding lookup
none-IsDrawn id m h = cc

sync_registers_example :
    HasName (sync no_text counting (cached ∷ []) (empty, 0)).0 (repo_of "models--org--tiny")
sync_registers_example =
    sync_registers no_text counting counting-IsFresh (cached ∷ []) empty 0 cached empty-IsConsistent
      none-IsDrawn (inl refl) cached-IsSmall

abbrev tiny_model : ModelRecord
tiny_model = synced_model no_text counting "" cached 1

tiny_added : lookup "" (sync no_text counting (cached ∷ []) (empty, 0)).0.models ≡ some tiny_model
unfolding sync lookup insert values list_models ◌+ℤ◌ update_deployment update_model
tiny_added = refl

sync_adds_example :
    (lookup "" empty.models ≡ some tiny_model)
    ⊎ IsAdded no_text counting (list_models empty) (cached ∷ []) tiny_model
sync_adds_example = sync_adds no_text counting (cached ∷ []) empty 0 "" tiny_model tiny_added

none-IsHeldDrawn : IsHeldDrawn no_text counting counting-IsFresh (empty, 0)
unfolding lookup
none-IsHeldDrawn k d h = cc

read_model_vram-Fits_example :
    (v : ℕ) × (read_model_vram_from_cache no_text cached ≡ pos v) × Fits 1000000000 v
unfolding active_snapshot total_bytes
read_model_vram-Fits_example =
    read_model_vram-Fits no_text cached weights 1000000000 refl refl (omega arith)

-- The entry for "1.8b" is never reached: its last two characters are those of "8b", which is above it.
shadowed : estimate_vram_gb_from_name "Qwen-1.8B" ≡ 16
unfolding estimate_vram_gb_from_name
shadowed = refl

sync_deploys_example :
    (lookup "" empty.models ≡ some tiny_model)
    ⊎ HasPending (sync no_text counting (cached ∷ []) (empty, 0)).0 ""
sync_deploys_example =
    sync_deploys no_text counting counting-IsFresh (cached ∷ []) empty 0 "" tiny_model
      none-IsHeldDrawn tiny_added
