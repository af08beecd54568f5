-- ===== src/WellFormed.antt =====
-- Code that leaves the state of the application well-formed (`ChatService` of
-- llm_platform/services/chat.py), composed as the code composes it.
use foundation_ai_platform.Prelude.{String, Bool, true, false, if◌then◌else◌}
use foundation_ai_platform.Exec.{Error, Exec, Result, ok, err, continue, lift, try_except, ◌>>=◌}
use foundation_ai_platform.Schemas.Records.{DeploymentRecord, LifecycleRecord}
use foundation_ai_platform.Registry.{Registry, update_deployment, upsert_lifecycle, get_deployment}
use foundation_ai_platform.Registry.Laws.{
  update_deployment-IsConsistent, upsert_lifecycle-IsConsistent,
}
use foundation_ai_platform.Platform.{
  Host, Platform, IsWellFormed, HasLedger-release, outside, reads, writes, release_memory,
  remove_named, unload_deployment,
}
use foundation_ai_platform.Prelude.Dict.{lookup}

module _ {World : Type 0} where
  -- Code that leaves a well-formed state well-formed, also where it raises.
  abbrev pub IsKeeping : {A : Type 0} → Exec (Platform World) A → Type 0
  IsKeeping m = (p : Platform World) → IsWellFormed p → IsWellFormed (m p).1

  module _ {A B : Type 0} where
    continue-Keeping :
        (r : Result A × Platform World) (f : A → Exec (Platform World) B)
        → ((a : A) → IsKeeping (f a))
        → IsWellFormed r.1
        → IsWellFormed (continue r.0 f r.1).1
    continue-Keeping (ok a, q) f k w = k a q w
    continue-Keeping (err e, q) f k w = w

    pub bind-IsKeeping :
        (m : Exec (Platform World) A) (f : A → Exec (Platform World) B)
        → IsKeeping m
        → ((a : A) → IsKeeping (f a))
        → IsKeeping (m >>= f)
    bind-IsKeeping m f h k p w = continue-Keeping (m p) f k (h p w)

  module _ {A : Type 0} where
    caught-Keeping :
        (r : Result A × Platform World) (f : Error → Exec (Platform World) A) (p : Platform World)
        → ((e : Error) → IsKeeping (f e))
        → IsWellFormed r.1
        → IsWellFormed (try_except (λ _. r) f p).1
    caught-Keeping (ok a, q) f p k w = w
    caught-Keeping (err e, q) f p k w = k e q w

    pub try-IsKeeping :
        (m : Exec (Platform World) A) (f : Error → Exec (Platform World) A)
        → IsKeeping m
        → ((e : Error) → IsKeeping (f e))
        → IsKeeping (try_except m f)
    try-IsKeeping m f h k p w = caught-Keeping (m p) f p k (h p w)

    pub if-IsKeeping :
        (b : Bool) (m n : Exec (Platform World) A)
        → IsKeeping m
        → IsKeeping n
        → IsKeeping (if b then m else n)
    if-IsKeeping true m n h k = h
    if-IsKeeping false m n h k = k

    pub lift-IsKeeping : (r : Result A) → IsKeeping (lift r)
    lift-IsKeeping r p w = w

    pub reads-IsKeeping : (f : Registry → Result A) → IsKeeping (reads f)
    reads-IsKeeping f p w = w

    pub outside-IsKeeping : (call : Exec World A) → IsKeeping (outside call)
    outside-IsKeeping call p w = record { consistent = w.consistent; ledger = w.ledger }

  pub update-IsKeeping : (d : DeploymentRecord) → IsKeeping (writes (update_deployment d))
  update-IsKeeping d p w = record {
    consistent = update_deployment-IsConsistent p.registry d w.consistent;
    ledger = w.ledger;
  }

  pub upsert-IsKeeping : (l : LifecycleRecord) → IsKeeping (writes (upsert_lifecycle l))
  upsert-IsKeeping l p w = record {
    consistent = upsert_lifecycle-IsConsistent p.registry l w.consistent;
    ledger = w.ledger;
  }

  pub release-IsKeeping : (id : String) → IsKeeping (release_memory id)
  release-IsKeeping id p w = record {
    consistent = w.consistent;
    ledger = HasLedger-release id p.gpu_tracker w.ledger;
  }

  pub unload-IsKeeping : (host : Host World) (id : String) → IsKeeping (unload_deployment host id)
  unfolding unload_deployment
  unload-IsKeeping host id =
      bind-IsKeeping (reads (λ r. get_deployment r id)) _
        (reads-IsKeeping (λ r. get_deployment r id))
        λ d.
          bind-IsKeeping (outside (remove_named host (lookup "container_name" d.metadata))) _
            (outside-IsKeeping (remove_named host (lookup "container_name" d.metadata)))
            λ u. update-IsKeeping _
