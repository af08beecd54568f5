-- ===== src/Plugins.antt =====
-- llm_platform/plugins: the manager and the bundled plugins, whose classes only hold a manifest.
pub mod Enabling
use foundation_ai_platform.Prelude.{String, Option, none, some, List, [], ◌∷◌, ◌<>◌}
use foundation_ai_platform.Prelude.Dict.{Dict, lookup, insert, values}
use foundation_ai_platform.Exec.{Result, ok, err, conflict, not_found}

pub record PluginManifest : Type 0 where
  pub plugin_id : String
  pub family : String
  pub supported_engines : List String
  pub capabilities : List String

-- A plugin is its manifest, which `register` returns as well.
abbrev pub Manager : Type 0
Manager = Dict PluginManifest

register_unless : Option PluginManifest → PluginManifest → Manager → Result Manager
register_unless (some old) plugin plugins =
    err (conflict ("Duplicate plugin id: " <> plugin.plugin_id))
register_unless none plugin plugins = ok (insert plugin.plugin_id plugin plugins)

unfoldable pub register : PluginManifest → Manager → Result Manager
unfolding register_unless
register plugin plugins = register_unless (lookup plugin.plugin_id plugins) plugin plugins

unfoldable pub get : String → Manager → Result PluginManifest
get plugin_id plugins = elim (lookup plugin_id plugins) [
  | none ↦ err (not_found ("Plugin not found: " <> plugin_id))
  | some plugin ↦ ok plugin
]

unfoldable pub manifests : Manager → List PluginManifest
manifests plugins = values plugins

abbrev plugin : String → List String → PluginManifest
plugin name capabilities = record {
  plugin_id = name;
  family = name;
  supported_engines = "vllm" ∷ "huggingface-transformers" ∷ [];
  capabilities = capabilities;
}

-- The plugins that bootstrap.py knows, by their ids.
abbrev pub available_plugins : Dict PluginManifest
available_plugins =
    ("qwen", plugin "qwen" ("chat" ∷ "reasoning" ∷ "tool_calling" ∷ []))
    ∷ ("llama", plugin "llama" ("chat" ∷ "reasoning" ∷ []))
    ∷ ("mistral", plugin "mistral" ("chat" ∷ "embedding" ∷ "classification" ∷ []))
    ∷ ("deepseek", plugin "deepseek" ("chat" ∷ "reasoning" ∷ "evaluation" ∷ []))
    ∷ []

enable : Option PluginManifest → Manager → Result Manager
unfolding register
enable none plugins = ok plugins
enable (some plugin) plugins = register plugin plugins

then_with : Result Manager → (Manager → Result Manager) → Result Manager
then_with (ok plugins) next = next plugins
then_with (err e) next = err e

pub enable_all : List String → Manager → Result Manager
unfolding enable then_with
enable_all [] plugins = ok plugins
enable_all (id ∷ ids) plugins =
    then_with (enable (lookup id available_plugins) plugins) (enable_all ids)

-- `_build_plugins`, of the ids that the configuration enables.
unfoldable pub build_plugins : List String → Result Manager
unfolding enable_all
build_plugins enabled = enable_all enabled []
