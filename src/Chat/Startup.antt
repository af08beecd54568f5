-- ===== src/Chat/Startup.antt =====
-- `prewarm_capabilities` (llm_platform/services/chat.py) runs when the application starts.
use foundation_ai_platform.Prelude.{
  String, Bool, ◌≡◌, refl, Option, none, some, List, [], ◌∷◌, ◌++◌,
}
use foundation_ai_platform.Prelude.Dict.{lookup}
use foundation_ai_platform.Exec.{Error, Exec, Result, ok, err, pure, continue, try_except, ◌>>=◌}
use foundation_ai_platform.Schemas.Records.{ModelRecord, DeploymentRecord}
use foundation_ai_platform.Registry.{list_models}
use foundation_ai_platform.Platform.{Host, Platform}
use foundation_ai_platform.Boot.Ports.{err≢ok}
use foundation_ai_platform.Chat.Onboarding.{onboard_model}
use foundation_ai_platform.Chat.Prewarming.{
  default_repos, eligible_models, onboarded, model_to_warm, announce, bring_up, give_up, warm_up,
  warm, warm_each, prewarm_capabilities,
}

module _ {World : Type 0} where
  -- Code that does not raise.
  abbrev Returns : {A : Type 0} → Result A × Platform World → Type 0
  Returns {A} r = (a : A) × (r.0 ≡ ok a)

  caught-Returns :
      {A : Type 0} (r : Result A × Platform World) (f : Error → Exec (Platform World) A)
      (p : Platform World)
      → ((e : Error) (s : Platform World) → Returns (f e s))
      → Returns (try_except (λ _. r) f p)
  caught-Returns (ok a, s) f p h = (a, refl)
  caught-Returns (err e, s) f p h = h e s

  pub try-Returns :
      {A : Type 0} (m : Exec (Platform World) A) (f : Error → Exec (Platform World) A)
      (p : Platform World)
      → ((e : Error) (s : Platform World) → Returns (f e s))
      → Returns (try_except m f p)
  try-Returns m f p h = caught-Returns (m p) f p h

  continue-Returns :
      {A B : Type 0} (r : Result A × Platform World) (f : A → Exec (Platform World) B)
      → Returns r
      → ((a : A) (s : Platform World) → Returns (f a s))
      → Returns (continue r.0 f r.1)
  continue-Returns (ok a, s) f g h = h a s
  continue-Returns (err e, s) f (a, x) h = absurd (err≢ok x)

module _ {World : Type 0} (host : Host World) where
  onboarded-Returns :
      (models : List ModelRecord) (o : Option String) (p : Platform World)
      → Returns (onboarded host models o p)
  unfolding onboarded
  onboarded-Returns models none p = (_, refl)
  onboarded-Returns models (some repo) p =
      try-Returns (onboard_model host repo none >>= λ m. pure (some m, models ++ m ∷ []))
        (λ e. pure (none, models)) p λ e s. ((none, models), refl)

  model-Returns :
      (c : String) (models ms : List ModelRecord) (p : Platform World)
      → Returns (model_to_warm host c models ms p)
  unfolding model_to_warm
  model-Returns c models [] p = onboarded-Returns models (lookup c default_repos) p
  model-Returns c models (m ∷ ms) p = (_, refl)

  warm_up-Returns :
      (model : ModelRecord) (d : DeploymentRecord) (p : Platform World)
      → Returns (warm_up host model d p)
  unfolding warm_up
  warm_up-Returns model d p =
      try-Returns (bring_up host model d) (give_up host d) (announce host model d p)
        λ e s. (tt, refl)

  warm-Returns : (o : Option ModelRecord) (p : Platform World) → Returns (warm host o p)
  unfolding warm
  warm-Returns none p = (tt, refl)
  warm-Returns (some model) p = warm_up-Returns model _ _

  warm_each-Returns :
      (cs : List String) (models : List ModelRecord) (p : Platform World)
      → Returns (warm_each host cs models p)
  unfolding warm_each
  warm_each-Returns [] models p = (tt, refl)
  warm_each-Returns (c ∷ cs) models p =
      continue-Returns (model_to_warm host c models (eligible_models c models) p) _
        (model-Returns c models (eligible_models c models) p)
        λ found s.
          continue-Returns (warm host found.0 s) _ (warm-Returns found.0 s)
            λ u t. warm_each-Returns cs found.1 t

  -- Pre-warming does not raise, whatever Docker, the network and the model server do: the
  -- application starts without the models that could not be started.
  pub prewarm_returns :
      (has_sessions : Bool) (capabilities : List String) (p : Platform World)
      → (prewarm_capabilities host has_sessions capabilities p).0 ≡ ok tt
  unfolding prewarm_capabilities
  prewarm_returns has_sessions capabilities p =
      let (u, x) = warm_each-Returns capabilities (list_models p.registry) _ in x
