-- ===== src/Plugins/Enabling/Tests.antt =====
-- Plugins that a configuration enables (llm_platform/bootstrap.py).
use foundation_ai_platform.Prelude.{◌≡◌, refl, [], ◌∷◌, List, String, select}
use foundation_ai_platform.Prelude.Dict.{lookup, insert}
use foundation_ai_platform.Exec.{err, conflict}
use foundation_ai_platform.Plugins.{build_plugins}
use foundation_ai_platform.Plugins.Enabling.{is_known, Distinct}

abbrev two : List String
two = "llama" ∷ "gemini" ∷ "qwen" ∷ []

two-Distinct : Distinct (select is_known two)
unfolding select lookup
two-Distinct = ((refl, tt), (tt, tt))

-- A known plugin that is enabled twice ends the start.
enabled_twice : build_plugins ("qwen" ∷ "qwen" ∷ []) ≡ err (conflict "Duplicate plugin id: qwen")
unfolding build_plugins lookup insert
enabled_twice = refl
