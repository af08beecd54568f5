-- ===== src/MacServing/Config/Safety.antt =====
-- Which configurations mac-serving/src/mac_serving/config.py accepts.
use foundation_ai_platform.Prelude.{
  ℕ, ◌≤◌, ◌≡◌, refl, subst, ◌⊎◌, ◌↔◌, String, true, contains, truthy?, arith, ltb,
}
use foundation_ai_platform.Prelude.Dict.{lookup}
use foundation_ai_platform.Exec.{Result, ok, err, ok-injective}
use foundation_ai_platform.Value.{text}
use foundation_ai_platform.MacServing.{Machine}
use foundation_ai_platform.MacServing.Config.{
  ◌>>=◌, ServerConfig, EngineConfig, AppConfig, loopback, lazy_modes, num, less, member, refuse_if,
  exposed, validate, load_config, env_set, section, server_config, engine_config, footprint_config,
  model_path,
}

-- The fields that `load_config` compares have the types that the dataclasses declare.
pub record IsTyped (s : ServerConfig) (e : EngineConfig) : Type 0 where
  pub host : String
  pub key : String
  pub parallel : ℕ
  pub context_size : ℕ
  pub batch_size : ℕ
  pub micro_batch_size : ℕ
  pub lazy_mode : String
  pub host_eq : s.host ≡ text host
  pub key_eq : s.api_key_env ≡ text key
  pub parallel_eq : e.parallel ≡ num parallel
  pub context_size_eq : e.context_size ≡ num context_size
  pub batch_size_eq : e.batch_size ≡ num batch_size
  pub micro_batch_size_eq : e.micro_batch_size ≡ num micro_batch_size
  pub lazy_mode_eq : e.lazy_mode ≡ text lazy_mode

-- A server that others can reach has a key, each slot has a token of context, and so on.
pub record IsSafe (machine : Machine) {s : ServerConfig} {e : EngineConfig} (t : IsTyped s e)
    : Type 0 where
  pub private_or_keyed : (contains t.host loopback ≡ true) ⊎ (truthy? (machine.getenv t.key) ≡ true)
  pub has_slots : 1 ≤ t.parallel
  pub slots_fit : t.parallel ≤ t.context_size
  pub batches_fit : t.micro_batch_size ≤ t.batch_size
  pub lazy_known : contains t.lazy_mode lazy_modes ≡ true

less-num : (a b : ℕ) → less (num a) (num b) ≡ ok (ltb a b)
unfolding less
less-num a b = ground arith

module _ (machine : Machine) {s : ServerConfig} {e : EngineConfig} (t : IsTyped s e) where
  compared :
      (less e.parallel (num 1) ≡ ok (ltb t.parallel 1))
      × (less e.context_size e.parallel ≡ ok (ltb t.context_size t.parallel))
      × (less e.batch_size e.micro_batch_size ≡ ok (ltb t.batch_size t.micro_batch_size))
  compared = ground (
    arith,
    less-num t.parallel 1,
    less-num t.context_size t.parallel,
    less-num t.batch_size t.micro_batch_size,
  )

  -- A typed configuration passes the checks exactly if it is safe.
  pub validate_iff : (validate machine s e ≡ ok tt) ↔ IsSafe machine t
  unfolding validate exposed env_set member refuse_if
  validate_iff = (
    λ v. record {
      private_or_keyed = ground (arith, compared);
      has_slots = ground (arith, compared);
      slots_fit = ground (arith, compared);
      batches_fit = ground (arith, compared);
      lazy_known = ground (arith, compared);
    },
    λ safe. ground (arith, compared),
  )

abbrev Ensures : {A : Type 0} → (A → Type 0) → Result A → Type 0
Ensures P (ok a) = P a
Ensures P (err e) = Unit

ensured :
    {A B : Type 0} (P : B → Type 0) (m : Result A) (f : A → Result B)
    → ((a : A) → m ≡ ok a → Ensures P (f a))
    → Ensures P (m >>= f)
ensured P (ok a) f h = h a refl
ensured P (err e) f h = tt

of_Ensures : {A : Type 0} (P : A → Type 0) (r : Result A) {a : A} → Ensures P r → r ≡ ok a → P a
of_Ensures P (ok b) h e = subst P (ok-injective e) h
of_Ensures P (err b) h e = cc

module _ (machine : Machine) where
  abbrev IsValidated : AppConfig → Type 0
  IsValidated c = validate machine c.server c.engine ≡ ok tt

  load_config-Ensures : (path : String) → Ensures IsValidated (load_config machine path)
  unfolding load_config
  load_config-Ensures path =
      let V = IsValidated in
      let source = machine.resolve (machine.expanduser path) in
      ensured V (machine.load_toml source) _ λ doc _. ensured V (section doc "server") _ λ st _.
        ensured V (server_config st) _ λ server _. ensured V (section doc "engine") _ λ et _.
          ensured V (engine_config et) _ λ engine _. ensured V (section doc "footprint") _ λ ft _.
            ensured V (footprint_config ft) _ λ footprint _.
              ensured V (section doc "model") _ λ mv _.
                ensured V (model_path machine source (lookup "path" mv)) _
                  λ mp _. ensured V (validate machine server engine) _ λ u v. v

  -- A configuration that `load_config` returns, with fields of the declared types, is safe.
  pub load_config-IsSafe :
      (path : String) (c : AppConfig) (t : IsTyped c.server c.engine)
      → load_config machine path ≡ ok c
      → IsSafe machine t
  load_config-IsSafe path c t h =
      (validate_iff machine t).0 (of_Ensures IsValidated _ (load_config-Ensures path) h)
