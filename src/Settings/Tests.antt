-- ===== src/Settings/Tests.antt =====
-- A small document under an environment (llm_platform/utils/config_loader.py).
use foundation_ai_platform.Prelude.{String, ◌≡◌, refl, some, [], ◌∷◌}
use foundation_ai_platform.Exec.{Result, ok, err, other}
use foundation_ai_platform.Value.{Value, int, text, table, Fields, end, field}
use foundation_ai_platform.Prelude.Int.{pos}
use foundation_ai_platform.Settings.{get, put, child_of, merge_dicts, set_path, read_environment}
use foundation_ai_platform.Settings.Merging.{at_path, IsUnique, or_base, merge_paths}

abbrev base : Fields
base = field "gateway" (table (field "host" (text "h") (field "port" (int (pos 1)) end))) end

abbrev over : Fields
over = field "gateway" (table (field "port" (int (pos 2)) end)) end

over-IsUnique : IsUnique over
unfolding get
over-IsUnique = (refl, (refl, tt, tt), tt)

merge_paths_example :
    at_path ("gateway" ∷ "port" ∷ []) (merge_dicts base over)
    ≡ or_base (some (int (pos 2))) (at_path ("gateway" ∷ "port" ∷ []) base)
unfolding get
merge_paths_example =
    merge_paths ("gateway" ∷ "port" ∷ []) base over (some (int (pos 2))) over-IsUnique (refl, refl)

abbrev port_set : Fields
port_set = field "gateway" (table (field "host" (text "h") (field "port" (int (pos 3)) end))) end

port_is_set : set_path ("gateway" ∷ "port" ∷ []) (int (pos 3)) base ≡ ok port_set
unfolding set_path child_of get put
port_is_set = refl

abbrev as_text : String → Result Value
as_text s = ok (text s)

-- A variable for a key and one for a key below it end the start in this order.
clash :
    read_environment as_text "LLM" (("LLM__A", "1") ∷ ("LLM__A__B", "2") ∷ [])
    ≡ err (other "object has no attribute 'setdefault'")
unfolding read_environment child_of get put
clash = refl

-- In the other order the second replaces what the first made.
replaced :
    read_environment as_text "LLM" (("LLM__A__B", "2") ∷ ("LLM__A", "1") ∷ [])
    ≡ ok (field "a" (text "1") end)
unfolding read_environment child_of get put
replaced = refl
