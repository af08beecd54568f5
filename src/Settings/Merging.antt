-- ===== src/Settings/Merging.antt =====
-- What `_merge_dicts` of llm_platform/utils/config_loader.py gives under a key and under a path.
use foundation_ai_platform.Prelude.{
  String, ◌≡◌, refl, ◌∙◌, ap, Bool, true, false, Option, none, some, List, [], ◌∷◌, ◌==◌,
  if◌then◌else◌, arith, eq_iff, Bool-cases, inl, inr,
}
use mathlib.Core.Option.{some-injective}
use foundation_ai_platform.Value.{Value, table, Fields, end, field}
use foundation_ai_platform.Settings.{get, put, merge_dicts, merged}

pub get-put :
    (k j : String) (v : Value) (fs : Fields)
    → get j (put k v fs) ≡ (if k == j then some v else get j fs)
unfolding get put
get-put k j v end = refl
get-put k j v (field i w fs) = ground (arith, eq_iff k j, eq_iff i k, eq_iff i j, get-put k j v fs)

-- A dict holds each key once, and so do the dicts in it.
abbrev mutual
  pub IsUnique : Fields → Type 0
  IsUnique end = Unit
  IsUnique (field k v fs) = (get k fs ≡ none) × HoldsUnique v × IsUnique fs

  pub HoldsUnique : Value → Type 0
  HoldsUnique (table fs) = IsUnique fs
  HoldsUnique v = Unit

-- What is stored, given what the override has under the key.
abbrev pub overridden : Option Value → Option Value → Option Value
overridden old none = old
overridden old (some v) = some (merged old v)

get-merge :
    (k : String) (base over : Fields)
    → IsUnique over
    → get k (merge_dicts base over) ≡ overridden (get k base) (get k over)
unfolding get merge_dicts
get-merge k base end u = refl
get-merge k base (field j v fs) u = ground (
  arith,
  eq_iff j k,
  get-put j k (merged (get j base) v) base,
  get-merge k (put j (merged (get j base) v) base) fs u.2,
  u.0,
)

abbrev pub inside : List String → Option Value → Option Value
inside [] o = o
inside (k ∷ ks) (some (table fs)) = inside ks (get k fs)
inside (k ∷ ks) o = none

-- The value under a path of keys.
abbrev pub at_path : List String → Fields → Option Value
at_path ks fs = inside ks (some (table fs))

abbrev pub is_table : Value → Bool
is_table (table fs) = true
is_table v = false

-- The override says nothing under the path, nor under a shorter one.
abbrev pub Silent : List String → Option Value → Type 0
Silent ks none = Unit
Silent (k ∷ ks) (some (table fs)) = Silent ks (get k fs)
Silent ks (some v) = ⊥

abbrev Held : Option Value → Type 0
Held none = Unit
Held (some v) = HoldsUnique v

get-Held : (k : String) (fs : Fields) → IsUnique fs → Held (get k fs)
unfolding get
get-Held k end u = tt
get-Held k (field j v fs) u = elim (Bool-cases (j == k)) [
  | inl e ↦ rw e u.1
  | inr e ↦ rw e (get-Held k fs u.2)
]

merged_leaf : (old : Option Value) (v : Value) → is_table v ≡ false → merged old v ≡ v
unfolding merge_dicts
merged_leaf old (table fs) h = cc
merged_leaf none v h = refl
merged_leaf (some (table gs)) v h = refl
merged_leaf (some w) v h = refl

wins :
    (ks : List String) (b o : Option Value) (v : Value)
    → Held o
    → inside ks o ≡ some v
    → is_table v ≡ false
    → inside ks (overridden b o) ≡ some v
unfolding merge_dicts
wins [] b (some w) v u h leaf =
    let e = some-injective _ _ h in ap some (merged_leaf b w (rw e leaf) ∙ e)
wins [] b none v u h leaf = cc
wins (k ∷ ks) (some (table gs)) (some (table fs)) v u h leaf =
    rw (get-merge k gs fs u) (wins ks (get k gs) (get k fs) v (get-Held k fs u) h leaf)
wins (k ∷ ks) none (some (table fs)) v u h leaf = h
wins (k ∷ ks) (some w) (some (table fs)) v u h leaf = h
wins (k ∷ ks) b none v u h leaf = cc
wins (k ∷ ks) b (some w) v u h leaf = cc

Silent-none : (ks : List String) (o : Option Value) → Silent ks o → inside ks o ≡ none
Silent-none [] none s = refl
Silent-none (k ∷ ks) none s = refl
Silent-none (k ∷ ks) (some (table fs)) s = Silent-none ks (get k fs) s
Silent-none [] (some v) s = absurd s
Silent-none (k ∷ ks) (some v) s = absurd s

keeps :
    (ks : List String) (b o : Option Value)
    → Held o
    → Silent ks o
    → inside ks (overridden b o) ≡ inside ks b
unfolding merge_dicts
keeps ks b none u s = refl
keeps [] b (some v) u s = absurd s
keeps (k ∷ ks) (some (table gs)) (some (table fs)) u s =
    rw (get-merge k gs fs u) (keeps ks (get k gs) (get k fs) (get-Held k fs u) s)
keeps (k ∷ ks) none (some (table fs)) u s = Silent-none ks (get k fs) s
keeps (k ∷ ks) (some w) (some (table fs)) u s = Silent-none ks (get k fs) s
keeps (k ∷ ks) b (some v) u s = absurd s

-- What the override says under a path: a value other than a dict, or nothing.
abbrev pub Says : List String → Fields → Option Value → Type 0
Says ks over none = Silent ks (some (table over))
Says ks over (some v) = (at_path ks over ≡ some v) × (is_table v ≡ false)

abbrev pub or_base : Option Value → Option Value → Option Value
or_base none old = old
or_base (some v) old = some v

-- A value of the override, other than a dict, stands in the result under its path; where the
-- override says nothing, the result is the base. No key stands twice in a dict of the override.
pub merge_paths :
    (ks : List String) (base over : Fields) (says : Option Value)
    → IsUnique over
    → Says ks over says
    → at_path ks (merge_dicts base over) ≡ or_base says (at_path ks base)
unfolding merge_dicts
merge_paths ks base over (some v) u (h, leaf) =
    wins ks (some (table base)) (some (table over)) v u h leaf
merge_paths ks base over none u s = keeps ks (some (table base)) (some (table over)) u s
