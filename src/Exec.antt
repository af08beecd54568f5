-- ===== src/Exec.antt =====
-- Exceptions (llm_platform/utils/errors.py), and code that changes state and may raise. What was
-- written before a raise stays written, so the state comes back beside the exception too.
use foundation_ai_platform.Prelude.{String, ◌≡◌, refl, List, [], ◌∷◌}

-- The subclasses of PlatformError, each with its message, and every other exception.
pub data Error : Type 0 where
  not_found conflict validation routing : String → Error
  platform : String → Error
  other : String → Error

pub data Result {ℓ} (A : Type ℓ) : Type ℓ where
  ok : A → Result A
  err : Error → Result A

pub ok-injective {ℓ} : {A : Type ℓ} {a b : A} → ok a ≡ ok b → a ≡ b
ok-injective e = cc

abbrev pub Exec : Type 0 → Type 0 → Type 0
Exec S A = S → Result A × S

module _ {S A : Type 0} where
  abbrev pub pure : A → Exec S A
  pure a s = (ok a, s)

  abbrev pub raise : Error → Exec S A
  raise e s = (err e, s)

  abbrev pub lift : Result A → Exec S A
  lift r s = (r, s)

  abbrev pub gets : (S → A) → Exec S A
  gets f s = (ok (f s), s)

abbrev pub modify : {S : Type 0} → (S → S) → Exec S (Unit {0})
modify f s = (ok tt, f s)

module _ {S A B : Type 0} where
  abbrev pub continue : Result A → (A → Exec S B) → Exec S B
  continue (ok a) f s = f a s
  continue (err e) f s = (err e, s)

  infixl 10 ◌>>=◌ ◌>>◌
  abbrev pub ◌>>=◌ : Exec S A → (A → Exec S B) → Exec S B
  ◌>>=◌ m f s = let (r, s') = m s in continue r f s'

  abbrev pub ◌>>◌ : Exec S A → Exec S B → Exec S B
  m >> n = m >>= λ _. n

  pub continue-inv :
      (r : Result A) (f : A → Exec S B) (s : S) (b : B) (s' : S)
      → continue r f s ≡ (ok b, s')
      → (a : A) × (r ≡ ok a) × (f a s ≡ (ok b, s'))
  continue-inv (ok a) f s b s' h = (a, refl, h)
  continue-inv (err e) f s b s' h = cc

-- `try: body` / `except Exception as e: handler`
abbrev pub try_except : {S A : Type 0} → Exec S A → (Error → Exec S A) → Exec S A
try_except body handler s =
    let (r, s') = body s in elim r [ ok a ↦ (ok a, s') | err e ↦ handler e s' ]

-- `for x in xs: body(x)`
unfoldable pub for_each : {S A : Type 0} → (A → Exec S (Unit {0})) → List A → Exec S (Unit {0})
for_each body [] = pure tt
for_each body (x ∷ xs) = do body x; for_each body xs
