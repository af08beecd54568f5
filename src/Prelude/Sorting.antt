-- ===== src/Prelude/Sorting.antt =====
-- Python's stable sort by a key. `before x y` says that `x` may stay in front of a later `y`.
use mathlib.Core.Path.{◌≡◌, refl, ap, ◌∙◌}
use mathlib.Core.Logic.{◌⊎◌, inl, inr}
use mathlib.Core.Bool.{Bool, true, false}
use mathlib.Core.List.{List, [], ◌∷◌}
use Prim.Native.Nat.{suc}
use native.Mathlib.Omega.{arith}
use foundation_ai_platform.Prelude.Tests.{if◌then◌else◌, Bool-cases}
use foundation_ai_platform.Prelude.Lists.{Elem, All, All-map, length}

module _ {A : Type 0} (before : A → A → Bool) where
  unfoldable pub place : A → List A → List A
  place x [] = x ∷ []
  place x (y ∷ ys) = if before x y then x ∷ y ∷ ys else y ∷ place x ys

  unfoldable pub sort : List A → List A
  unfolding place
  sort [] = []
  sort (x ∷ xs) = place x (sort xs)

  -- The head comes before everything behind it, and so on.
  abbrev pub IsSorted : List A → Type 0
  IsSorted [] = Unit
  IsSorted (x ∷ xs) = All (λ y. before x y ≡ true) xs × IsSorted xs

  place-Elem : (a x : A) (ys : List A) → Elem a (place x ys) → (a ≡ x) ⊎ Elem a ys
  unfolding place
  place-Elem a x [] m = m
  place-Elem a x (y ∷ ys) m = ground (arith, place-Elem a x ys)

  Elem-place : (a x : A) (ys : List A) → (a ≡ x) ⊎ Elem a ys → Elem a (place x ys)
  unfolding place
  Elem-place a x [] m = m
  Elem-place a x (y ∷ ys) m = ground (arith, Elem-place a x ys)

  All-place : (P : A → Type 0) (x : A) (ys : List A) → P x → All P ys → All P (place x ys)
  unfolding place
  All-place P x [] p h = (p, tt)
  All-place P x (y ∷ ys) p h = elim (Bool-cases (before x y)) [
    | inl t ↦ rw t (p, h)
    | inr f ↦ rw f (h.0, All-place P x ys p h.1)
  ]

  -- Sorting neither adds nor loses an element.
  pub sort-Elem : (a : A) (xs : List A) → Elem a (sort xs) → Elem a xs
  unfolding sort
  sort-Elem a [] m = m
  sort-Elem a (x ∷ xs) m = elim (place-Elem a x (sort xs) m) [
    | inl e ↦ inl e
    | inr k ↦ inr (sort-Elem a xs k)
  ]

  pub Elem-sort : (a : A) (xs : List A) → Elem a xs → Elem a (sort xs)
  unfolding sort
  Elem-sort a (x ∷ xs) (inl e) = Elem-place a x (sort xs) (inl e)
  Elem-sort a (x ∷ xs) (inr m) = Elem-place a x (sort xs) (inr (Elem-sort a xs m))
  Elem-sort a [] m = absurd m

  length-place : (x : A) (ys : List A) → length (place x ys) ≡ suc (length ys)
  unfolding place
  length-place x [] = refl
  length-place x (y ∷ ys) = ground (arith, length-place x ys)

  pub length-sort : (xs : List A) → length (sort xs) ≡ length xs
  unfolding sort
  length-sort [] = refl
  length-sort (x ∷ xs) = length-place x (sort xs) ∙ ap suc (length-sort xs)

  module _ (total : (x y : A) → before x y ≡ false → before y x ≡ true)
      (trans : (x y z : A) → before x y ≡ true → before y z ≡ true → before x z ≡ true) where
    place-IsSorted : (x : A) (ys : List A) → IsSorted ys → IsSorted (place x ys)
    unfolding place
    place-IsSorted x [] s = (tt, tt)
    place-IsSorted x (y ∷ ys) s = elim (Bool-cases (before x y)) [
      | inl t ↦ rw t ((t, All-map _ _ ys (λ z k. trans x y z t k) s.0), s)
      | inr f ↦ rw f (All-place _ x ys (total x y f) s.0, place-IsSorted x ys s.1)
    ]

    pub sort-IsSorted : (xs : List A) → IsSorted (sort xs)
    unfolding sort
    sort-IsSorted [] = tt
    sort-IsSorted (x ∷ xs) = place-IsSorted x (sort xs) (sort-IsSorted xs)
