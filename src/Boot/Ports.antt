-- ===== src/Boot/Ports.antt =====
-- The ports that `deploy_vllm_container` (llm_platform/services/chat.py) reserves and gives back.
use foundation_ai_platform.Prelude.{
  ℕ, zero, suc, ◌+◌, ◌-◌, ◌≤◌, ◌<◌, ◌≡◌, ◌≢◌, refl, sym, inl, inr, ap, ◌∙◌, Bool, true, false,
  Bool-cases, List, [], ◌∷◌, if◌then◌else◌, nat_eq, arith,
}
use foundation_ai_platform.Exec.{Error, Result, ok, err, ok-injective, continue}
use foundation_ai_platform.Platform.{Host, Platform}
use foundation_ai_platform.Boot.{reserved, discard, free_port}

pub reserved-discard :
    (k j : ℕ) (ps : List ℕ)
    → reserved k (discard j ps) ≡ (if nat_eq k j then false else reserved k ps)
unfolding reserved discard
reserved-discard k j [] = ground arith
reserved-discard k j (q ∷ qs) = ground (arith, reserved-discard k j qs)

reserved_head : (k : ℕ) (ps : List ℕ) → reserved k (k ∷ ps) ≡ true
unfolding reserved
reserved_head k ps = ground arith

pub err≢ok : {A : Type 0} {a : A} {e : Error} → err e ≢ ok a
err≢ok x = cc

differs : {b : Bool} → b ≡ true → b ≢ false
differs h k = cc

ok_differs : {r : Result Bool} → r ≡ ok true → r ≢ ok false
ok_differs h k = cc

out_of_range : (port : ℕ) → 65536 ≤ port + 0 → port < 65536 → ⊥
out_of_range port a b = omega arith

-- A port that is not the one just tried is among those behind it.
later_port :
    (n port : ℕ) → 65536 ≤ port + suc n → port < 65536 → (65535 - n) ≢ port → 65536 ≤ port + n
later_port n port a b ne = omega arith

-- What a search for a port has found, and left behind.
pub record IsTaken {World : Type 0} (n port : ℕ) (p q : Platform World) : Type 0 where
  pub from : 65536 ≤ port + n
  pub below : port < 65536
  pub free : reserved port p.reserved_ports ≡ false
  pub noted : q.reserved_ports ≡ port ∷ p.reserved_ports
  pub kept : q.registry ≡ p.registry

module _ {World : Type 0} (host : Host World) where
  IsTaken-suc :
      (n port : ℕ) (p q : Platform World) (w : World)
      → IsTaken n port (record p { world = w }) q
      → IsTaken (suc n) port p q
  IsTaken-suc n port p q w t = record {
    from = let below = t.from in omega arith;
    below = t.below;
    free = t.free;
    noted = t.noted;
    kept = t.kept;
  }

  -- The rest of a round, once `bind` has answered.
  abbrev pub bound_then : ℕ → Platform World → Result Bool × World → Result ℕ × Platform World
  bound_then n p r =
      continue r.0
        (λ b q.
          (if b
              then (λ s.
                  (ok (65535 - n), record s { reserved_ports = (65535 - n) ∷ s.reserved_ports }))
              else free_port host n)
            q)
        (record p { world = r.1 })

  bound-IsTaken :
      (n port : ℕ) (p q : Platform World) (r : Result Bool × World)
      → suc n ≤ 65536
      → reserved (65535 - n) p.reserved_ports ≡ false
      → ((s : Platform World) → free_port host n s ≡ (ok port, q) → IsTaken n port s q)
      → bound_then n p r ≡ (ok port, q)
      → IsTaken (suc n) port p q
  bound-IsTaken n port p q (err e, w) h f later x = absurd (err≢ok (ap (λ y. y.0) x))
  bound-IsTaken n port p q (ok false, w) h f later x =
      IsTaken-suc n port p q w (later (record p { world = w }) x)
  bound-IsTaken n port p q (ok true, w) h f later x =
      let found : 65535 - n ≡ port = ok-injective (ap (λ y. y.0) x) in
      let left : record p { reserved_ports = (65535 - n) ∷ p.reserved_ports; world = w } ≡ q =
        ap (λ y. y.1) x in
      record {
        from = omega arith;
        below = omega arith;
        free = rw (sym found) f;
        noted =
            ap (λ (y : Platform World). y.reserved_ports) (sym left)
            ∙ ap (λ y. y ∷ p.reserved_ports) found;
        kept = ap (λ (y : Platform World). y.registry) (sym left);
      }

  -- A search of the last `n` ports that succeeds takes one of them which was not reserved, reserves
  -- it, and leaves the registry.
  pub free_port-IsTaken :
      (n port : ℕ) (p q : Platform World)
      → n ≤ 65536
      → free_port host n p ≡ (ok port, q)
      → IsTaken n port p q
  unfolding free_port
  free_port-IsTaken zero port p q h x = absurd (err≢ok (ap (λ y. y.0) x))
  free_port-IsTaken (suc n) port p q h x =
      elim (Bool-cases (reserved (65535 - n) p.reserved_ports)) [
        | inl t ↦
            IsTaken-suc n port p q p.world (free_port-IsTaken n port p q (omega arith) (rw t at x))
        | inr f ↦
            bound-IsTaken n port p q (host.bind_port (65535 - n) p.world) h f
              (λ s. free_port-IsTaken n port s q (omega arith)) (rw f at x)
      ]

  -- Two searches take different ports, as long as the first one's is not given back between.
  pub free_port-distinct :
      (n m a b : ℕ) (p q r : Platform World)
      → n ≤ 65536
      → m ≤ 65536
      → free_port host n p ≡ (ok a, q)
      → free_port host m q ≡ (ok b, r)
      → a ≢ b
  free_port-distinct n m a b p q r h k x y same =
      let first = free_port-IsTaken n a p q h x in
      let second = free_port-IsTaken m b q r k y in
      cc (second.free, first.noted, reserved_head a p.reserved_ports, same)

  -- The port `port` can be bound, and no `bind` of a port raises.
  pub record IsBindable (port : ℕ) : Type 0 where
    pub succeeds : (w : World) → (host.bind_port port w).0 ≡ ok true
    pub answers : (j : ℕ) (w : World) → (b : Bool) × ((host.bind_port j w).0 ≡ ok b)

  abbrev Finds : Result ℕ × Platform World → Type 0
  Finds r = (port : ℕ) × (r.0 ≡ ok port)

  bound-Finds :
      (n port : ℕ) (p : Platform World) (r : Result Bool × World)
      → ((b : Bool) × (r.0 ≡ ok b))
      → (r.0 ≡ ok false
          → (s : Platform World) → s.reserved_ports ≡ p.reserved_ports
          → Finds (free_port host n s))
      → Finds (bound_then n p r)
  bound-Finds n port p (err e, w) (b, x) later = absurd (err≢ok x)
  bound-Finds n port p (ok true, w) b later = (65535 - n, refl)
  bound-Finds n port p (ok false, w) b later = later refl (record p { world = w }) refl

  -- The search finds a port whenever one of those that it tries is neither reserved nor in use.
  pub free_port_finds :
      (n port : ℕ) (p : Platform World)
      → 65536 ≤ port + n
      → port < 65536
      → n ≤ 65536
      → reserved port p.reserved_ports ≡ false
      → IsBindable port
      → (found : ℕ) × ((free_port host n p).0 ≡ ok found)
  unfolding free_port
  free_port_finds zero port p a b c f h = absurd (out_of_range port a b)
  free_port_finds (suc n) port p a b c f h =
      elim (Bool-cases (reserved (65535 - n) p.reserved_ports)) [
        | inl t ↦ rw t (
            free_port_finds n port p (later_port n port a b (λ e. differs (rw e at t) f)) b
              (omega arith) f h)
        | inr g ↦ rw g (
            bound-Finds n port p (host.bind_port (65535 - n) p.world) (h.answers _ _) λ no s same.
              free_port_finds n port s
                (later_port n port a b (λ e. ok_differs (h.succeeds p.world) (rw e at no))) b
                (omega arith) (rw same f) h)
      ]
