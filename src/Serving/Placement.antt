-- ===== src/Serving/Placement.antt =====
-- `resolve_placement` (llm_platform/serving/placement.py).
mod Tests
use foundation_ai_platform.Prelude.{
  String, ◌≡◌, ◌≢◌, eq_refl, ◌⊎◌, inl, inr, refl, sym, ap, Bool, true, false, Bool-cases, ◌||◌,
  Option, none, some, List, [], ◌∷◌, ◌++◌, if◌then◌else◌, truthy, contains, Elem, arith, ◌==◌,
  or_else, Elem-append_right,
}
use mathlib.Core.Option.{some-injective}
use foundation_ai_platform.Prelude.Texts.{lower}
use foundation_ai_platform.Exec.{ok, ok-injective}
use foundation_ai_platform.Serving.{
  PlacementAvailability, as_list, nonempty, candidates, first_available, chosen, resolve_placement,
}

nonempty-Elem : (s : String) (ss : List String) → truthy s ≡ true → Elem s ss → Elem s (nonempty ss)
unfolding nonempty
nonempty-Elem s [] t m = absurd m
nonempty-Elem s (x ∷ xs) t (inl e) = rw (sym e, t) (inl refl)
nonempty-Elem s (x ∷ xs) t (inr m) = elim (Bool-cases (truthy x)) [
  | inl u ↦ rw u (inr (nonempty-Elem s xs t m))
  | inr u ↦ rw u (nonempty-Elem s xs t m)
]

apart : {b : Bool} → b ≡ true → b ≢ false
apart h k = cc

cpu_among :
    (cuda mps : Bool)
    → contains "cpu"
        ((if cuda then "cuda" ∷ [] else []) ++ (if mps then "mps" ∷ [] else []) ++ "cpu" ∷ [])
      ≡ true
unfolding contains
cpu_among true true = refl
cpu_among true false = refl
cpu_among false true = refl
cpu_among false false = refl

cpu_listed : (a : PlacementAvailability) → a.cpu ≡ true → contains "cpu" (as_list a) ≡ true
unfolding as_list
cpu_listed a h = rw h (cpu_among a.cuda a.mps)

-- The search finds something once one candidate is available, and what it finds is available.
first_available_found :
    (available cs : List String) (c : String)
    → Elem c cs
    → contains (lower c) available ≡ true
    → (s : String) × (first_available available cs ≡ some s) × (contains s available ≡ true)
unfolding first_available
first_available_found available [] c m h = absurd m
first_available_found available (x ∷ xs) c m h = elim (Bool-cases (contains (lower x) available)) [
  | inl t ↦ (lower x, rw t, t)
  | inr f ↦ elim m [
    | inl e ↦ absurd (apart (rw e at h) f)
    | inr k ↦ rw f (first_available_found available xs c k h)
  ]
]

-- Where the processor is available a placement is found, whatever is asked for, and what is found
-- is available.
pub resolve_placement_finds :
    (preferred : Option String) (fallbacks : List String) (a : PlacementAvailability)
    → a.cpu ≡ true
    → (s : String) × (resolve_placement preferred fallbacks a ≡ ok s)
      × (contains s (as_list a) ≡ true)
unfolding resolve_placement candidates chosen
resolve_placement_finds preferred fallbacks a h =
    let (s, found, there) =
      first_available_found (as_list a) (candidates preferred fallbacks) "cpu"
        (nonempty-Elem "cpu" (or_else preferred "" ∷ fallbacks ++ "cpu" ∷ []) refl
          (inr (Elem-append_right "cpu" fallbacks ("cpu" ∷ []) (inl refl))))
        (cpu_listed a h) in
    (s, rw found, there)

first_available_among :
    (available cs : List String) (s : String)
    → first_available available cs ≡ some s
    → contains s available ≡ true
unfolding first_available
first_available_among available [] s h = cc
first_available_among available (x ∷ xs) s h = elim (Bool-cases (contains (lower x) available)) [
  | inl t ↦ rw (← some-injective _ _ (rw t at h)) t
  | inr f ↦ first_available_among available xs s (rw f at h)
]

-- A placement that is found is available.
pub resolve_placement_among :
    (preferred : Option String) (fallbacks : List String) (a : PlacementAvailability) (s : String)
    → resolve_placement preferred fallbacks a ≡ ok s
    → contains s (as_list a) ≡ true
unfolding resolve_placement chosen
resolve_placement_among preferred fallbacks a s h =
    first_available_among (as_list a) (candidates preferred fallbacks) s (chosen_some _ h)
  where
    chosen_some : (o : Option String) → chosen o ≡ ok s → o ≡ some s
    chosen_some none h = cc
    chosen_some (some t) h = ap some (ok-injective h)
