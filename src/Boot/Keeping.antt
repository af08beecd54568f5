-- ===== src/Boot/Keeping.antt =====
-- `deploy_vllm_container` (llm_platform/services/chat.py) and the well-formedness of the state.
use foundation_ai_platform.Prelude.{
  ℕ, zero, suc, ◌-◌, Bool-cases, inl, inr, Option, none, some, not, ◌&&◌, nat_eq,
}
use foundation_ai_platform.Exec.{Exec}
use foundation_ai_platform.Schemas.Records.{ModelRecord, DeploymentRecord}
use foundation_ai_platform.Platform.{Host, Platform, outside}
use foundation_ai_platform.Boot.{reserved, free_port}
use foundation_ai_platform.Boot.Containers.{adopt_port, give_back, discarding, booted}
use foundation_ai_platform.WellFormed.{
  IsKeeping, bind-IsKeeping, try-IsKeeping, if-IsKeeping, outside-IsKeeping,
}

module _ {World : Type 0} (host : Host World) where
  pub free_port-IsKeeping : (n : ℕ) → IsKeeping (free_port host n)
  unfolding free_port
  free_port-IsKeeping zero p w = w
  free_port-IsKeeping (suc n) p w = elim (Bool-cases (reserved (65535 - n) p.reserved_ports)) [
    | inl t ↦ rw t (free_port-IsKeeping n p w)
    | inr f ↦ rw f (
        bind-IsKeeping (outside (host.bind_port (65535 - n))) _
          (outside-IsKeeping (host.bind_port (65535 - n)))
          (λ b.
            if-IsKeeping b _ _ (λ p w. record { consistent = w.consistent; ledger = w.ledger })
              (free_port-IsKeeping n))
          p w)
  ]

  pub adopt_port-IsKeeping : (port : ℕ) (o : Option ℕ) → IsKeeping (adopt_port host port o)
  unfolding adopt_port
  adopt_port-IsKeeping port none p w = w
  adopt_port-IsKeeping port (some a) p w =
      if-IsKeeping (not (nat_eq a 0) && not (nat_eq a port)) _ _
        (λ p w. record { consistent = w.consistent; ledger = w.ledger }) (λ p w. w) p w

  pub discarding-IsKeeping :
      {A : Type 0} (port : ℕ) (m : Exec (Platform World) A)
      → IsKeeping m
      → IsKeeping (discarding host port m)
  unfolding discarding give_back
  discarding-IsKeeping port m h =
      try-IsKeeping m (give_back host port) h
        (λ e p w. record { consistent = w.consistent; ledger = w.ledger })

  pub booted-IsKeeping :
      (model : ModelRecord) (port : ℕ) (o : Option DeploymentRecord)
      → IsKeeping (booted host model port o)
  unfolding booted
  booted-IsKeeping model port none p w = record { consistent = w.consistent; ledger = w.ledger }
  booted-IsKeeping model port (some d) p w = w
