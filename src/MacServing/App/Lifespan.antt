-- ===== src/MacServing/App/Lifespan.antt =====
-- The process behind mac-serving/src/mac_serving/app.py once the application has ended.
use foundation_ai_platform.Prelude.{ℕ, ◌≡◌, ◌≢◌, ◌∙◌, some, none, true, false, List}
use foundation_ai_platform.Prelude.Int.{ℤ}
use foundation_ai_platform.Exec.{Error, Result, ok, err, Exec}
use foundation_ai_platform.Value.{Value, truth}
use foundation_ai_platform.MacServing.{Machine}
use foundation_ai_platform.MacServing.Config.{AppConfig, amount}
use foundation_ai_platform.MacServing.Backend.{Os, Backend, raised, running, build_command, start}
use foundation_ai_platform.MacServing.Backend.Process.{IsOs, Ended, Held, stop_ends, start-Held}
use foundation_ai_platform.MacServing.App.{Client, shut, served, lifespan}

module _ {World : Type 0} (os : Os World) (laws : IsOs os) (client : Client World)
    (machine : Machine) (config : AppConfig)
    (answers : (w : World) (e : Error)
      → (os.get_health config.server.backend_host config.server.backend_port w).0 ≢ raised e)
    (closes : (w : World) → (client.aclose w).0 ≡ ok tt) where
  served-Ended :
      (body : Exec (Backend World) (Unit {0}))
      → ((b : Backend World) → (body b).1.process ≡ b.process)
      → (p : ℕ) (r : Result (Unit {0}) × Backend World) → Held os laws config.server answers p r
      → Ended os p (served client os body r).1.world
  unfolding served shut
  served-Ended body keeps p (err e, b) h = h
  served-Ended body keeps p (ok u, b) h =
      rw (closes (body b).1.world) ((stop_ends os laws _).0 p (keeps b ∙ h))

  -- The process that the start of a managed application creates has ended in the end, however the
  -- application ends, and also where it does not become healthy in time. The timeout is a number,
  -- neither the query of the health nor the closing of the client raises, and what the application
  -- does in between keeps its process.
  pub lifespan_ends :
      (t : ℤ) (body : Exec (Backend World) (Unit {0})) (b : Backend World) (command : List Value)
      (h p : ℕ) (opened created : World)
      → amount config.server.startup_timeout_seconds ≡ some t
      → truth config.engine.manage_process ≡ true
      → running os b ≡ false
      → build_command machine config none ≡ ok command
      → os.open_log
          (machine.join (machine.parent (machine.parent config.source)) "run/llama-server.log")
          b.world
        ≡ (ok h, opened)
      → os.create_subprocess command h opened ≡ (ok p, created)
      → ((b : Backend World) → (body b).1.process ≡ b.process)
      → Ended os p (lifespan client os machine config body b).1.world
  unfolding lifespan
  lifespan_ends t body b command h p opened created numeric managed idle built logs spawned keeps =
      served-Ended body keeps p (start os machine config b) (
        start-Held os laws machine config answers t b command h p opened created numeric managed
          idle built logs spawned)
