-- ===== src/MacServing/Backend.antt =====
-- mac-serving/src/mac_serving/backend.py: the command line of llama-server, and the process that
-- runs it. A process, a log file and an argument are known by numbers and values; what the operating
-- system and the server answer is a parameter over an unknown World.
pub mod Process
use foundation_ai_platform.Prelude.{
  ℕ, zero, suc, ◌+◌, ◌*◌, ◌/◌, String, Bool, true, false, not, ◌||◌, ◌==◌, Option, none, some, List,
  [], ◌∷◌, ◌++◌, if◌then◌else◌, ltb, nat_eq, ◌<>◌,
}
use foundation_ai_platform.Prelude.Int.{ℤ, pos, negsuc}
use foundation_ai_platform.Exec.{
  Error, Result, ok, err, other, Exec, pure, raise, lift, ◌>>=◌, ◌>>◌,
}
use foundation_ai_platform.Value.{Value, text, truth}
use foundation_ai_platform.MacServing.{Machine}
use foundation_ai_platform.MacServing.Config.{
  AppConfig, EngineConfig, ServerConfig, amount, type_error,
}

-- `[flag] if condition else []`
abbrev when : Bool → List String → List Value
when true [] = []
when true (s ∷ ss) = text s ∷ when true ss
when false ss = []

module _ (machine : Machine) (config : AppConfig) where
  first_file : List String → Option String
  first_file [] = none
  first_file (p ∷ ps) =
      let rest = first_file ps in if machine.is_file p then some (machine.resolve p) else rest

  installed_or_built : Option String → Option String
  unfolding first_file
  installed_or_built (some path) = some (machine.resolve path)
  installed_or_built none =
      let root = machine.parent (machine.parent config.source) in
      first_file (
        machine.join root "vendor/llama.cpp/build/bin/llama-server"
        ∷ machine.join root "bin/llama-server"
        ∷ [])

  configured_file : String → Option String
  configured_file name =
      let path = machine.expanduser name in
      let path' =
        if machine.is_absolute path
        then path
        else machine.resolve (machine.join (machine.parent config.source) path) in
      if machine.is_file path' then some path' else none

  binary_of : Value → Result (Option String)
  unfolding installed_or_built configured_file
  binary_of (text name) =
      if name == "auto"
      then ok (installed_or_built (machine.which "llama-server"))
      else ok (configured_file name)
  binary_of _ = type_error

  unfoldable pub resolve_binary : Result (Option String)
  unfolding binary_of
  resolve_binary = binary_of config.engine.binary

  shown : Value → Value
  shown v = text (machine.str v)

  unfoldable pub arguments : String → EngineConfig → ServerConfig → List Value
  unfolding shown
  arguments executable engine server =
      text executable
      ∷ text "--model"
      ∷ text config.model.path
      ∷ text "--alias"
      ∷ text config.model.alias
      ∷ text "--host"
      ∷ server.backend_host
      ∷ text "--port"
      ∷ shown server.backend_port
      ∷ text "--ctx-size"
      ∷ shown engine.context_size
      ∷ text "--parallel"
      ∷ shown engine.parallel
      ∷ text "--n-gpu-layers"
      ∷ shown engine.gpu_layers
      ∷ text "--threads"
      ∷ shown engine.threads
      ∷ text "--batch-size"
      ∷ shown engine.batch_size
      ∷ text "--ubatch-size"
      ∷ shown engine.micro_batch_size
      ∷ text "--cache-type-k"
      ∷ engine.cache_type_k
      ∷ text "--cache-type-v"
      ∷ engine.cache_type_v
      ∷ text "--lazy-mode"
      ∷ engine.lazy_mode
      ∷ (when (truth engine.flash_attention) ("--flash-attn" ∷ "on" ∷ [])
          ++ when (truth engine.continuous_batching) ("--cont-batching" ∷ [])
          ++ when (not (truth engine.cache_prompt)) ("--no-cache-prompt" ∷ [])
          ++ when (truth engine.jinja) ("--jinja" ∷ [])
          ++ when (truth engine.mlock) ("--load-mode" ∷ "mmap+mlock" ∷ []))

  command_of : Option String → Result (List Value)
  unfolding arguments
  command_of none =
      err (other "llama-server was not found; run scripts/bootstrap.sh or set engine.binary")
  command_of (some executable) =
      if machine.is_file config.model.path
      then ok (arguments executable config.engine config.server)
      else err (other ("GGUF model not found: " <> config.model.path))

  command_of_resolved : Result (Option String) → Result (List Value)
  command_of_resolved (ok binary) = command_of binary
  command_of_resolved (err e) = err e

  -- `binary or resolve_binary(config)`
  unfoldable pub build_command : Option String → Result (List Value)
  unfolding command_of command_of_resolved
  build_command (some binary) = command_of (some binary)
  build_command none = command_of_resolved resolve_binary

-- What `client.get` of `/health` gives: a status, an `httpx.HTTPError` or another exception.
pub data HealthAnswer : Type 0 where
  status : ℕ → HealthAnswer
  http_error : HealthAnswer
  raised : Error → HealthAnswer

-- What the backend calls. Times are in milliseconds.
pub record Os (World : Type 0) : Type 0 where
  -- creates the directory and opens the log file
  pub open_log : String → Exec World ℕ
  pub close_log : ℕ → World → World
  pub create_subprocess : List Value → ℕ → Exec World ℕ
  pub returncode : ℕ → World → Option ℤ
  pub time : World → ℕ
  pub get_health : Value → Value → World → HealthAnswer × World
  -- a quarter of a second
  pub sleep : World → World
  pub terminate : ℕ → World → World
  pub kill : ℕ → World → World
  -- whether the process ended within 15 seconds
  pub wait_for : ℕ → World → Bool × World
  pub wait : ℕ → World → World

pub record Backend (World : Type 0) : Type 0 where
  pub process : Option ℕ
  pub log_handle : Option ℕ
  pub world : World

pub data Poll : Type 0 where
  up : Poll
  exited : ℤ → Poll
  late : Poll
  failed : Error → Poll
  out_of_fuel : Poll

-- How the loop ends with an answer, if it does.
abbrev settled : HealthAnswer → Option Poll
settled (status code) = if nat_eq code 200 then some up else none
settled http_error = none
settled (raised e) = some (failed e)

module _ {World : Type 0} (os : Os World) where
  unfoldable pub running : Backend World → Bool
  running b = elim b.process [
    | none ↦ false
    | some p ↦ elim (os.returncode p b.world) [ none ↦ true | some c ↦ false ]
  ]

  -- One round of the loop each; `rounds` is fuel.
  pub poll : ServerConfig → ℕ → ℕ → ℕ → World → Poll × World
  poll server p deadline zero w = (out_of_fuel, w)
  poll server p deadline (suc rounds) w =
      if ltb (os.time w) deadline
      then elim (os.returncode p w) [
        | some c ↦ (exited c, w)
        | none ↦
            let (answer, w') = os.get_health server.backend_host server.backend_port w in
            elim (settled answer) [
              | some r ↦ (r, w')
              | none ↦ poll server p deadline rounds (os.sleep w')
            ]
      ]
      else (late, w)

  finish : ℕ → Bool → World → World
  finish p true w = w
  finish p false w = os.wait p (os.kill p w)

  end_running : ℕ → Option ℤ → World → World
  unfolding finish
  end_running p none w = let (ended, w') = os.wait_for p (os.terminate p w) in finish p ended w'
  end_running p (some c) w = w

  end_process : Option ℕ → World → World
  unfolding end_running
  end_process none w = w
  end_process (some p) w = end_running p (os.returncode p w) w

  close_handle : Option ℕ → World → World
  close_handle none w = w
  close_handle (some h) w = os.close_log h w

  unfoldable pub stop : Backend World → Backend World
  unfolding end_process close_handle
  stop b = record {
    process = none;
    log_handle = none;
    world = close_handle b.log_handle (end_process b.process b.world);
  }

  settle : Poll × World → Backend World → Result (Unit {0}) × Backend World
  unfolding stop
  settle (up, w) b = (ok tt, record b { world = w })
  settle (exited c, w) b =
      (err (other "llama-server exited during startup"), record b { world = w })
  settle (failed e, w) b = (err e, record b { world = w })
  settle (late, w) b = (
    err (other "llama-server did not become healthy before the startup timeout"),
    stop (record b { world = w }),
  )
  settle (out_of_fuel, w) b = (err (other "out of fuel"), record b { world = w })

  -- The deadline behind a timeout in hundredths of a second, and enough rounds for it.
  deadline_of : ℤ → World → ℕ
  deadline_of (pos n) w = os.time w + n * 10
  deadline_of (negsuc n) w = 0

  rounds_for : ℤ → ℕ
  rounds_for (pos n) = suc (n * 10)
  rounds_for (negsuc n) = 1

  wait_with : ServerConfig → ℕ → Option ℤ → Exec (Backend World) (Unit {0})
  unfolding settle poll deadline_of rounds_for
  wait_with server p none b = (type_error, b)
  wait_with server p (some timeout) b =
      settle (poll server p (deadline_of timeout b.world) (rounds_for timeout) b.world) b

  unfoldable pub wait_until_ready : ServerConfig → ℕ → Exec (Backend World) (Unit {0})
  unfolding wait_with
  wait_until_ready server p = wait_with server p (amount server.startup_timeout_seconds)

  launched : ServerConfig → Result ℕ × World → Exec (Backend World) (Unit {0})
  unfolding wait_until_ready
  launched server (err e, w) b = (err e, record b { world = w })
  launched server (ok p, w) b = wait_until_ready server p (record b { process = some p; world = w })

  spawn_with : AppConfig → List Value → Result ℕ × World → Exec (Backend World) (Unit {0})
  unfolding launched
  spawn_with config command (err e, w) b = (err e, record b { world = w })
  spawn_with config command (ok h, w) b =
      launched config.server (os.create_subprocess command h w)
        (record b { log_handle = some h; world = w })

  run_command : Machine → AppConfig → Result (List Value) → Exec (Backend World) (Unit {0})
  unfolding spawn_with
  run_command machine config (err e) b = (err e, b)
  run_command machine config (ok command) b =
      let root = machine.parent (machine.parent config.source) in
      spawn_with config command (os.open_log (machine.join root "run/llama-server.log") b.world) b

  unfoldable pub start : Machine → AppConfig → Exec (Backend World) (Unit {0})
  unfolding running run_command
  start machine config b =
      if not (truth config.engine.manage_process) || running b
      then (ok tt, b)
      else run_command machine config (build_command machine config none) b
