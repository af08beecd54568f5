-- ===== src/Telemetry/Percentiles.antt =====
-- The percentiles of the snapshot (llm_platform/database/repositories.py).
use foundation_ai_platform.Prelude.{
  truthy?, ℕ, zero, suc, ◌+◌, ◌-◌, ◌*◌, ◌/◌, ◌≤◌, ◌<◌, ◌≡◌, refl, sym, ap, subst, ◌∙◌, Bool, true,
  false, some, List, [], ◌∷◌, length, get_elem?, select, map, arith, Bool-cases, inl, inr, All,
}
use foundation_ai_platform.Prelude.Dict.{Dict}
use foundation_ai_platform.Prelude.Sorting.{sort, place, IsSorted, sort-IsSorted}
use foundation_ai_platform.Exec.{Result, ok, err, ok-injective}
use foundation_ai_platform.Telemetry.{
  Floats, TelemetryEvent, MetricsSnapshot, p95, p99, latencies, list, snapshot, item, min,
  with_percentiles, aggregates,
}

some-injective : {A : Type 0} {a b : A} → some a ≡ some b → a ≡ b
some-injective e = cc

get-All :
    {A : Type 0} (P : A → Type 0) (xs : List A) (k : ℕ) (v : A)
    → All P xs
    → get_elem? xs k ≡ some v
    → P v
get-All P [] k v h e = cc
get-All P (x ∷ xs) zero v h e = subst P (some-injective e) h.0
get-All P (x ∷ xs) (suc k) v h e = get-All P xs k v h.1 e

select-All :
    {A : Type 0} (test : A → Bool) (xs : List A)
    → All (λ x. test x ≡ true) xs
    → length (select test xs) ≡ length xs
unfolding select
select-All test [] h = refl
select-All test (x ∷ xs) h = ground (arith, select-All test xs h.1)

get-below : {A : Type 0} (xs : List A) (k : ℕ) → k < length xs → (v : A) × (get_elem? xs k ≡ some v)
get-below [] k h = absurd (omega arith)
get-below (x ∷ xs) zero h = (x, refl)
get-below (x ∷ xs) (suc k) h = get-below xs k (omega arith)

module _ {A : Type 0} (before : A → A → Bool) where
  count-place :
      (test : A → Bool) (x : A) (ys : List A)
      → length (select test (place before x ys)) ≡ length (select test (x ∷ ys))
  unfolding place select
  count-place test x [] = refl
  count-place test x (y ∷ ys) = ground (arith, count-place test x ys)

  count-sort :
      (test : A → Bool) (xs : List A)
      → length (select test (sort before xs)) ≡ length (select test xs)
  unfolding sort select
  count-sort test [] = refl
  count-sort test (x ∷ xs) =
      count-place test x (sort before xs) ∙ ground (arith, count-sort test xs)

  length-place : (x : A) (ys : List A) → length (place before x ys) ≡ suc (length ys)
  unfolding place
  length-place x [] = refl
  length-place x (y ∷ ys) = ground (arith, length-place x ys)

  length-sort : (xs : List A) → length (sort before xs) ≡ length xs
  unfolding sort
  length-sort [] = refl
  length-sort (x ∷ xs) = length-place x (sort before xs) ∙ omega (arith, length-sort xs)

  module _ (total : (x y : A) → before x y ≡ false → before y x ≡ true) where
    before_refl : (x : A) → before x x ≡ true
    before_refl x = elim (Bool-cases (before x x)) [ inl e ↦ e | inr e ↦ total x x e ]

    -- Up to an element of a sorted list, all come before it.
    count_upto :
        (xs : List A) (k : ℕ) (v : A)
        → IsSorted before xs
        → get_elem? xs k ≡ some v
        → suc k ≤ length (select (λ x. before x v) xs)
    unfolding select
    count_upto [] k v s e = cc
    count_upto (x ∷ xs) zero v s e = ground (arith, before_refl x)
    count_upto (x ∷ xs) (suc k) v s e =
        ground (arith, get-All (λ y. before x y ≡ true) xs k v s.0 e, count_upto xs k v s.1 e)

    count_from :
        (xs : List A) (k : ℕ) (v : A)
        → IsSorted before xs
        → get_elem? xs k ≡ some v
        → length xs ≤ k + length (select (λ x. before v x) xs)
    unfolding select
    count_from [] k v s e = cc
    count_from (x ∷ xs) zero v s e =
        subst (λ w. length (x ∷ xs) ≤ 0 + length (select (before w) (x ∷ xs))) (some-injective e)
          (omega (arith, select-All (before x) (x ∷ xs) (before_refl x, s.0)))
    count_from (x ∷ xs) (suc k) v s e = ground (arith, count_from xs k v s.1 e)

-- Python's order of floats that are numbers.
pub record IsOrdered (floats : Floats) : Type 0 where
  pub total : (x y : floats.Float) → floats.at_most x y ≡ false → floats.at_most y x ≡ true
  pub transitive :
      (x y z : floats.Float)
      → floats.at_most x y ≡ true
      → floats.at_most y z ≡ true
      → floats.at_most x z ≡ true

module _ (floats : Floats) (ordered : IsOrdered floats) where
  open floats use {Float, at_most}

  -- How many of the values are at most `v`, and how many are at least `v`.
  abbrev pub below : Float → List Float → ℕ
  below v xs = length (select (λ x. at_most x v) xs)

  abbrev pub above : Float → List Float → ℕ
  above v xs = length (select (λ x. at_most v x) xs)

  -- `v` covers `part` hundredths of the values, and the rest is at least `v`.
  abbrev pub Covers : ℕ → Float → List Float → Type 0
  Covers part v xs =
      (part * length xs ≤ 100 * below v xs)
      × (100 * length xs ≤ part * length xs + 100 * above v xs)

  Covers-at :
      (part : ℕ) (xs : List Float) (k : ℕ) (v : Float)
      → IsSorted at_most xs
      → get_elem? xs k ≡ some v
      → part * length xs ≤ 100 * (k + 1)
      → 100 * k ≤ part * length xs
      → Covers part v xs
  Covers-at part xs k v s e lo hi = (
    omega (arith, lo, count_upto at_most ordered.total xs k v s e),
    omega (arith, hi, count_from at_most ordered.total xs k v s e),
  )

  p95-Covers :
      (xs : List Float)
      → IsSorted at_most xs
      → (v : Float) × (p95 floats xs ≡ ok v) × Covers 95 v xs
  unfolding p95 item
  p95-Covers [] s = (floats.zero_ms, refl, (omega arith, omega arith))
  p95-Covers (x ∷ xs) s =
      let k = length (x ∷ xs) * 95 / 100 in
      let (v, e) = get-below (x ∷ xs) k (omega arith) in
      (v, rw e, Covers-at 95 (x ∷ xs) k v s e (omega arith) (omega arith))

  p99-Covers :
      (xs : List Float)
      → IsSorted at_most xs
      → (v : Float) × (p99 floats xs ≡ ok v) × Covers 99 v xs
  unfolding p99 item
  p99-Covers [] s = (floats.zero_ms, refl, (omega arith, omega arith))
  p99-Covers (x ∷ xs) s =
      let k = min floats (length (x ∷ xs) * 99 / 100) (length (x ∷ xs) - 1) in
      let (v, e) = get-below (x ∷ xs) k (ground arith) in
      (v, rw e, Covers-at 99 (x ∷ xs) k v s e (ground arith) (ground arith))

  Covers-sort :
      (part : ℕ) (v : Float) (xs : List Float) → Covers part v (sort at_most xs) → Covers part v xs
  Covers-sort part v xs c =
      rw
        (
          length-sort at_most xs,
          count-sort at_most (λ x. at_most x v) xs,
          count-sort at_most (λ x. at_most v x) xs,
        )
        at c

  counts :
      (events : List (TelemetryEvent floats)) (a b : Result Float) (s : MetricsSnapshot floats)
      → with_percentiles floats events a b ≡ ok s
      → s.total_requests ≡ length events
  unfolding with_percentiles aggregates
  counts events (ok a) (ok b) s e =
      ap (λ (t : MetricsSnapshot floats). t.total_requests) (sym (ok-injective e))
  counts events (ok a) (err x) s e = cc
  counts events (err x) b s e = cc

  pub snapshot_counts :
      (store : Dict (TelemetryEvent floats)) (s : MetricsSnapshot floats)
      → snapshot floats store ≡ ok s
      → s.total_requests ≡ length (list floats store)
  unfolding snapshot
  snapshot_counts store s e = counts (list floats store) _ _ s e

  -- A snapshot is always made: its percentiles are read within the bounds of the list, and the
  -- stated share of the latencies is at most each of them and the rest at least.
  pub snapshot_percentiles :
      (store : Dict (TelemetryEvent floats))
      → let xs = map (λ e. e.latency_ms) (list floats store) in
        (s : MetricsSnapshot floats) × (snapshot floats store ≡ ok s)
        × Covers 95 s.p95_latency_ms xs
        × Covers 99 s.p99_latency_ms xs
  unfolding snapshot latencies with_percentiles aggregates
  snapshot_percentiles store =
      let xs = map (λ e. e.latency_ms) (list floats store) in
      let sorted = sort-IsSorted at_most ordered.total ordered.transitive xs in
      let (v, e, c) = p95-Covers (sort at_most xs) sorted in
      let (v', e', c') = p99-Covers (sort at_most xs) sorted in
      (
        aggregates floats (λ e. truthy? e.error) (list floats store) v v',
        rw (e, e'),
        Covers-sort 95 v xs c,
        Covers-sort 99 v' xs c',
      )
