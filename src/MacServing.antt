-- ===== src/MacServing.antt =====
-- mac-serving: a server on one machine that runs a native llama.cpp process and passes requests on
-- to it. What the operating system answers is a parameter.
pub mod Config
pub mod Backend
pub mod App
pub mod Samples
mod Tests
use foundation_ai_platform.Prelude.{String, Bool, Option}
use foundation_ai_platform.Exec.{Result}
use foundation_ai_platform.Value.{Value, Metadata}

-- Paths, files, the environment, the TOML parser and `str` of any value, at one moment.
pub record Machine : Type 0 where
  pub expanduser : String → String
  pub resolve : String → String
  pub is_absolute : String → Bool
  pub parent : String → String
  -- `path / name`
  pub join : String → String → String
  pub is_file : String → Bool
  pub which : String → Option String
  pub getenv : String → Option String
  pub load_toml : String → Result Metadata
  pub str : Value → String
  -- the second directory above this package
  pub package_root : String
