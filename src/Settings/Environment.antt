-- ===== src/Settings/Environment.antt =====
-- What an environment variable sets (llm_platform/utils/config_loader.py).
use foundation_ai_platform.Prelude.{
  String, ◌≡◌, refl, sym, subst, ◌∙◌, ap, false, Option, none, some, List, [], ◌∷◌, ◌==◌,
  if◌then◌else◌, arith, eq_iff, eq_refl, Bool-cases, inl, inr,
}
use foundation_ai_platform.Exec.{Result, ok, err, ok-injective}
use foundation_ai_platform.Value.{Value, table, Fields}
use foundation_ai_platform.Settings.{get, put, child_of, store_child, descend, set_path}
use foundation_ai_platform.Settings.Merging.{get-put, inside, at_path}

-- Two paths that part at some key.
abbrev pub Apart : List String → List String → Type 0
Apart (q ∷ qs) (p ∷ ps) = if q == p then Apart qs ps else Unit
Apart [] ps = ⊥
Apart qs [] = ⊥

store-inv :
    (part : String) (fs : Fields) (r : Result Fields) (fs' : Fields)
    → store_child part fs r ≡ ok fs'
    → (c : Fields) × (r ≡ ok c) × (fs' ≡ put part (table c) fs)
unfolding store_child
store-inv part fs (ok c) fs' h = (c, refl, sym (ok-injective h))
store-inv part fs (err e) fs' h = cc

descend-inv :
    (r : Result Fields) (next : Fields → Result Fields) (c' : Fields)
    → descend r next ≡ ok c'
    → (c : Fields) × (r ≡ ok c) × (next c ≡ ok c')
unfolding descend
descend-inv (ok c) next c' h = (c, refl, h)
descend-inv (err e) next c' h = cc

inside-none : (qs : List String) → inside qs none ≡ none
inside-none [] = refl
inside-none (q ∷ qs) = refl

-- Under a path that goes on, a child that is made has what was there before.
child-inside :
    (o : Option Value) (c : Fields) (qs ps : List String)
    → child_of o ≡ ok c
    → Apart qs ps
    → inside qs (some (table c)) ≡ inside qs o
unfolding child_of get
child-inside o c [] ps h a = absurd a
child-inside (some (table fs)) c (q ∷ qs) ps h a = rw (ok-injective h)
child-inside none c (q ∷ qs) ps h a = rw (← ok-injective h) (inside-none qs)
child-inside (some v) c (q ∷ qs) ps h a = cc

read_put :
    (p q : String) (w : Value) (fs : Fields) → (q == p) ≡ false → get q (put p w fs) ≡ get q fs
read_put p q w fs h = ground (arith, get-put p q w fs, eq_iff p q, eq_iff q p)

put_own :
    (p : String) (ps : List String) (w : Value) (fs : Fields)
    → at_path (p ∷ ps) (put p w fs) ≡ inside ps (some w)
put_own p ps w fs = ap (inside ps) (get-put p p w fs ∙ rw (eq_refl p))

put_other :
    (p q : String) (qs : List String) (w : Value) (fs : Fields)
    → (q == p) ≡ false
    → at_path (q ∷ qs) (put p w fs) ≡ at_path (q ∷ qs) fs
put_other p q qs w fs h = ap (inside qs) (read_put p q w fs h)

-- The write below one key keeps what parts from it, if the write into its child does.
below :
    (p : String) (ps : List String) (c c' fs : Fields)
    → child_of (get p fs) ≡ ok c
    → ((qs : List String) → Apart qs ps → at_path qs c' ≡ at_path qs c)
    → (qs : List String) → Apart qs (p ∷ ps)
    → at_path qs (put p (table c') fs) ≡ at_path qs fs
below p ps c c' fs hc others [] a = absurd a
below p ps c c' fs hc others (q ∷ qs) a = elim (Bool-cases (q == p)) [
  | inr apart ↦ put_other p q qs (table c') fs apart
  | inl same ↦
      let a' : Apart qs ps = rw same at a in
      rw ((eq_iff q p).0 same)
        (put_own p qs (table c') fs ∙ others qs a' ∙ child-inside (get p fs) c qs ps hc a')
]

last_other :
    (p : String) (v : Value) (fs : Fields) (qs : List String)
    → Apart qs (p ∷ [])
    → at_path qs (put p v fs) ≡ at_path qs fs
last_other p v fs [] a = absurd a
last_other p v fs (q ∷ qs) a = elim (Bool-cases (q == p)) [
  | inr apart ↦ put_other p q qs v fs apart
  | inl same ↦ absurd (no_end qs (rw same at a))
]
  where
    no_end : (qs : List String) → Apart qs [] → ⊥
    no_end [] a = a
    no_end (q ∷ qs) a = a

written :
    (part : String) (parts : List String) (v : Value) (fs fs' : Fields)
    → set_path (part ∷ parts) v fs ≡ ok fs'
    → (at_path (part ∷ parts) fs' ≡ some v)
      × ((qs : List String) → Apart qs (part ∷ parts) → at_path qs fs' ≡ at_path qs fs)
unfolding set_path
written part [] v fs fs' h =
    subst
      (λ (g : Fields).
        (at_path (part ∷ []) g ≡ some v)
        × ((qs : List String) → Apart qs (part ∷ []) → at_path qs g ≡ at_path qs fs))
      (ok-injective h) (put_own part [] v fs, last_other part v fs)
written part (next ∷ parts) v fs fs' h =
    let (c', hc', e) = store-inv part fs _ fs' h in
    let (c, hc, hs) = descend-inv (child_of (get part fs)) _ c' hc' in
    let (own, others) = written next parts v c c' hs in
    subst
      (λ (g : Fields).
        (at_path (part ∷ next ∷ parts) g ≡ some v)
        × ((qs : List String) → Apart qs (part ∷ next ∷ parts) → at_path qs g ≡ at_path qs fs))
      (sym e)
      (put_own part (next ∷ parts) (table c') fs ∙ own, below part (next ∷ parts) c c' fs hc others)

-- A write that succeeds is read back under its path, and every path that parts from it reads what it
-- read before.
pub set_path_reads :
    (part : String) (parts qs : List String) (v : Value) (fs fs' : Fields)
    → Apart qs (part ∷ parts)
    → set_path (part ∷ parts) v fs ≡ ok fs'
    → (at_path (part ∷ parts) fs' ≡ some v) × (at_path qs fs' ≡ at_path qs fs)
set_path_reads part parts qs v fs fs' apart h =
    let (own, others) = written part parts v fs fs' h in (own, others qs apart)
