-- ===== src/Settings.antt =====
-- llm_platform/utils/config_loader.py: a YAML document overridden by environment variables. The YAML
-- parser and the validation by the schema are parameters.
pub mod Merging
pub mod Schema
pub mod Environment
mod Tests
use foundation_ai_platform.Prelude.{
  ℕ, zero, suc, ◌-◌, String, Bool, true, false, Option, none, some, List, [], ◌∷◌, ◌==◌, ◌<>◌,
  if◌then◌else◌,
}
use Prim.Native.String.{count, slice, len}
use package.text.Mathlib.Text.{starts_with}
use foundation_ai_platform.Prelude.Texts.{lower}
use foundation_ai_platform.Exec.{Error, Result, ok, err, other}
use foundation_ai_platform.Value.{
  Value, null, bool, int, hundredths, text, items, table, Fields, end, field, truth,
}

-- `d.get(k)` and `d[k] = v`
unfoldable pub get : String → Fields → Option Value
get k end = none
get k (field j v fs) = if j == k then some v else get k fs

unfoldable pub put : String → Value → Fields → Fields
put k v end = field k v end
put k v (field j w fs) = if j == k then field j v fs else field j w (put k v fs)

-- `_merge_dicts`, whose first argument is the result so far, and what it stores under a key.
unfoldable mutual
  pub merge_dicts : Fields → Fields → Fields
  merge_dicts result end = result
  merge_dicts result (field k v fs) = merge_dicts (put k (merged (get k result) v) result) fs

  pub merged : Option Value → Value → Value
  merged (some (table fs)) (table gs) = table (merge_dicts fs gs)
  merged old v = v

-- The pieces of a text between occurrences of a separator; `piece` is read so far, backwards.
split_from : String → ℕ → String → String → List String
split_from separator skipped piece String.[] = piece ∷ []
split_from separator (suc n) piece (String.◌∷◌ c s) = split_from separator n piece s
split_from separator zero piece (String.◌∷◌ c s) =
    let next = split_from separator (count separator - 1) "" s in
    let more = split_from separator zero (piece <> String.◌∷◌ c String.[]) s in
    if starts_with (String.◌∷◌ c s) separator then piece ∷ next else more

-- `s.split("__")`
unfoldable pub split : String → List String
unfolding split_from
split s = split_from "__" 0 "" s

-- `current.setdefault(part, {})`, of which `current` is a dict only if nothing else stands there.
unfoldable pub child_of : Option Value → Result Fields
child_of none = ok end
child_of (some (table fs)) = ok fs
child_of (some v) = err (other "object has no attribute 'setdefault'")

store_child : String → Fields → Result Fields → Result Fields
store_child part fs (ok child) = ok (put part (table child) fs)
store_child part fs (err e) = err e

descend : Result Fields → (Fields → Result Fields) → Result Fields
descend (ok fs) next = next fs
descend (err e) next = err e

-- Writes the value under the path of parts.
unfoldable pub set_path : List String → Value → Fields → Result Fields
unfolding descend store_child
set_path [] v fs = ok fs
set_path (part ∷ []) v fs = ok (put part v fs)
set_path (part ∷ next ∷ parts) v fs =
    store_child part fs (descend (child_of (get part fs)) (set_path (next ∷ parts) v))

module _ (safe_load : String → Result Value) where
  -- The value is parsed after the way to it was made.
  set_loaded : List String → Result Value → Fields → Result Fields
  unfolding set_path
  set_loaded parts (ok v) nested = set_path parts v nested
  set_loaded parts (err e) nested = elim (set_path parts null nested) [
    | ok fs ↦ err e
    | err x ↦ err x
  ]

  set_variable : String → String → String → Fields → Result Fields
  unfolding split set_loaded set_path
  set_variable prefix key raw nested =
      if starts_with key prefix
      then set_loaded (split (lower (slice key (len prefix) (len key)))) (safe_load raw) nested
      else ok nested

  read_from : String → List (String × String) → Fields → Result Fields
  unfolding set_variable
  read_from prefix [] nested = ok nested
  read_from prefix ((key, raw) ∷ environ) nested =
      descend (set_variable prefix key raw nested) (read_from prefix environ)

  unfoldable pub read_environment : String → List (String × String) → Result Fields
  unfolding read_from
  read_environment env_prefix environ = read_from (env_prefix <> "__") environ end

  -- A document that is missing or empty is an empty dict; one that is no dict has no `get`.
  dict_of : Value → Result Fields
  dict_of (table fs) = ok fs
  dict_of v = if truth v then err (other "not a mapping") else ok end

  read_yaml : Option String → Result Fields
  unfolding dict_of
  read_yaml none = ok end
  read_yaml (some contents) = elim (safe_load contents) [ ok v ↦ dict_of v | err e ↦ err e ]

  unfoldable pub load :
      {A : Type 0}
      → (Fields → Result A)
      → String
      → Option String
      → List (String × String)
      → Result A
  unfolding read_yaml read_environment merge_dicts
  load model_validate env_prefix contents environ = elim (read_yaml contents) [
    | err e ↦ err e
    | ok base ↦ elim (read_environment env_prefix environ) [
      | err e ↦ err e
      | ok nested ↦ model_validate (merge_dicts base nested)
    ]
  ]
