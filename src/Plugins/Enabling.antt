-- ===== src/Plugins/Enabling.antt =====
-- Which plugins a start enables (llm_platform/plugins/manager.py and llm_platform/bootstrap.py).
mod Tests
use foundation_ai_platform.Prelude.{
  String, Bool, true, false, ◌≡◌, refl, sym, ◌∙◌, ap, Option, none, some, Option-cases, List, [],
  ◌∷◌, ◌++◌, ◌==◌, if◌then◌else◌, All, All-map, select, eq_iff, arith, Bool-cases, inl, inr,
}
use mathlib.Core.List.{append-nil, append_assoc}
use foundation_ai_platform.Prelude.Dict.{Dict, lookup, insert, keys, lookup-insert}
use foundation_ai_platform.Exec.{Result, ok, err}
use foundation_ai_platform.Plugins.{
  PluginManifest, Manager, available_plugins, register, register_unless, enable, enable_all,
  then_with, build_plugins,
}

abbrev is_some : {A : Type 0} → Option A → Bool
is_some none = false
is_some (some a) = true

-- The enabled ids that bootstrap.py knows.
abbrev pub is_known : String → Bool
is_known id = is_some (lookup id available_plugins)

abbrev pub Distinct : List String → Type 0
Distinct [] = Unit
Distinct (x ∷ xs) = All (λ y. (x == y) ≡ false) xs × Distinct xs

available_id :
    (id : String) (p : PluginManifest) → lookup id available_plugins ≡ some p → p.plugin_id ≡ id
unfolding lookup
available_id id p h =
    ground (arith, eq_iff "qwen" id, eq_iff "llama" id, eq_iff "mistral" id, eq_iff "deepseek" id)

keys-insert :
    {V : Type 0} (k : String) (v : V) (d : Dict V)
    → lookup k d ≡ none
    → keys (insert k v d) ≡ keys d ++ k ∷ []
unfolding keys insert lookup
keys-insert k v [] h = refl
keys-insert k v ((j, w) ∷ d) h = ground (arith, keys-insert k v d)

register_new :
    (p : PluginManifest) (id : String) (ps : Manager)
    → p.plugin_id ≡ id
    → lookup id ps ≡ none
    → register p ps ≡ ok (insert id p ps)
unfolding register register_unless
register_new p id ps e h = rw (e, h)

still_unused :
    (id : String) (p : PluginManifest) (ps : Manager) (js : List String)
    → All (λ j. (id == j) ≡ false) js
    → All (λ j. lookup j ps ≡ none) js
    → All (λ j. lookup j (insert id p ps) ≡ none) js
still_unused id p ps [] a f = tt
still_unused id p ps (j ∷ js) a f =
    (rw (lookup-insert id j p ps, a.0) f.0, still_unused id p ps js a.1 f.1)

enable_all_builds :
    (ids : List String) (ps : Manager)
    → All (λ id. lookup id ps ≡ none) (select is_known ids)
    → Distinct (select is_known ids)
    → (qs : Manager) × (enable_all ids ps ≡ ok qs) × (keys qs ≡ keys ps ++ select is_known ids)
unfolding enable_all enable then_with select
enable_all_builds [] ps unused distinct = (ps, refl, sym (append-nil (keys ps)))
enable_all_builds (id ∷ ids) ps unused distinct =
    elim (Option-cases (lookup id available_plugins)) [
      | inl missing ↦
          rw missing (enable_all_builds ids ps (rw missing at unused) (rw missing at distinct))
      | inr (p, known) ↦
          let free : All (λ j. lookup j ps ≡ none) (id ∷ select is_known ids) =
            rw known at unused in
          let apart : Distinct (id ∷ select is_known ids) = rw known at distinct in
          let (qs, built, held) =
            enable_all_builds ids (insert id p ps) (still_unused id p ps _ apart.0 free.1)
              apart.1 in
          (
            qs,
            rw (known, register_new p id ps (available_id id p known) free.0) built,
            rw known (
                held
                ∙ rw (keys-insert id p ps free.0)
                    (append_assoc (keys ps) (id ∷ []) (select is_known ids))),
          )
    ]

-- A start with known plugins that are enabled once each succeeds, and enables those, in order.
pub build_plugins_builds :
    (enabled : List String)
    → Distinct (select is_known enabled)
    → (plugins : Manager) × (build_plugins enabled ≡ ok plugins)
      × (keys plugins ≡ select is_known enabled)
unfolding build_plugins keys
build_plugins_builds enabled distinct =
    enable_all_builds enabled [] (unused (select is_known enabled)) distinct
  where
    unused : (ids : List String) → All (λ id. lookup {V = PluginManifest} id [] ≡ none) ids
    unused [] = tt
    unused (id ∷ ids) = (unfold lookup in refl, unused ids)
