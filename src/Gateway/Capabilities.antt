-- ===== src/Gateway/Capabilities.antt =====
-- What `list_capabilities` (llm_platform/gateway/routes.py) lists.
use foundation_ai_platform.Prelude.{
  String, ◌≡◌, sym, ◌∙◌, ap, Bool-cases, inl, inr, List, [], ◌∷◌, ◌++◌, if◌then◌else◌, ◌==◌, eq_iff,
  arith,
}
use mathlib.Core.List.{append_assoc, append-nil}
use foundation_ai_platform.Prelude.Dict.{Dict, get_or, get_or-insert}
use foundation_ai_platform.Schemas.Records.{ModelRecord}
use foundation_ai_platform.Gateway.{
  CapabilityEntry, entry_of, ensure, append_entry, add_capabilities, capability_map,
}

-- The entries of a model under a capability: one each time that the model names it.
abbrev entries_in : String → ModelRecord → List String → List CapabilityEntry
entries_in c model [] = []
entries_in c model (cap ∷ caps) =
    let rest = entries_in c model caps in if cap == c then entry_of model ∷ rest else rest

abbrev pub entries_for : String → List ModelRecord → List CapabilityEntry
entries_for c [] = []
entries_for c (model ∷ models) = entries_in c model model.capabilities ++ entries_for c models

get_or-ensure :
    (c cap : String) (map : Dict (List CapabilityEntry))
    → get_or c [] (ensure cap map) ≡ get_or c [] map
unfolding ensure
get_or-ensure c cap map = ground (arith, get_or-insert cap c [] [] map, eq_iff cap c)

get_or-append_entry :
    (c cap : String) (e : CapabilityEntry) (map : Dict (List CapabilityEntry))
    → get_or c [] (append_entry cap e (ensure cap map))
      ≡ (if cap == c then get_or c [] map ++ e ∷ [] else get_or c [] map)
unfolding append_entry
get_or-append_entry c cap e map = ground (
  arith,
  get_or-insert cap c (get_or cap [] (ensure cap map) ++ e ∷ []) [] (ensure cap map),
  get_or-ensure cap cap map,
  get_or-ensure c cap map,
  eq_iff cap c,
)

after_entry :
    (c cap : String) (model : ModelRecord) (caps : List String) (map : Dict (List CapabilityEntry))
    {before : List CapabilityEntry}
    → before ≡ (if cap == c then get_or c [] map ++ entry_of model ∷ [] else get_or c [] map)
    → before ++ entries_in c model caps ≡ get_or c [] map ++ entries_in c model (cap ∷ caps)
after_entry c cap model caps map e = elim (Bool-cases (cap == c)) [
  | inl t ↦ rw t (
      ap (λ xs. xs ++ entries_in c model caps) (rw t at e)
      ∙ append_assoc (get_or c [] map) (entry_of model ∷ []) (entries_in c model caps))
  | inr f ↦ rw f (ap (λ xs. xs ++ entries_in c model caps) (rw f at e))
]

added :
    (c : String) (model : ModelRecord) (caps : List String) (map : Dict (List CapabilityEntry))
    → get_or c [] (add_capabilities model caps map) ≡ get_or c [] map ++ entries_in c model caps
unfolding add_capabilities
added c model [] map = sym (append-nil _)
added c model (cap ∷ caps) map =
    added c model caps (append_entry cap (entry_of model) (ensure cap map))
    ∙ after_entry c cap model caps map (get_or-append_entry c cap (entry_of model) map)

-- Under a capability stand the models that declare it, in the order of the registry, and no other.
pub capability_map_entries :
    (c : String) (models : List ModelRecord) (map : Dict (List CapabilityEntry))
    → get_or c [] (capability_map models map) ≡ get_or c [] map ++ entries_for c models
unfolding capability_map
capability_map_entries c [] map = sym (append-nil _)
capability_map_entries c (model ∷ models) map =
    capability_map_entries c models (add_capabilities model model.capabilities map)
    ∙ ap (λ xs. xs ++ entries_for c models) (added c model model.capabilities map)
    ∙ append_assoc (get_or c [] map) (entries_in c model model.capabilities) (entries_for c models)
