-- ===== src/Boot.antt =====
-- `deploy_vllm_container` of llm_platform/services/chat.py: the port, the container, the wait for
-- its health and the record.
mod Tests
pub mod Containers
pub mod Counts
pub mod Keeping
pub mod Ports
pub mod Outcomes
pub mod Releases
use foundation_ai_platform.Prelude.{
  ℕ, zero, suc, ◌-◌, String, Bool, true, false, not, ◌&&◌, ◌||◌, Option, none, some, List, [], ◌∷◌,
  if◌then◌else◌, nat_eq, leb, ◌<>◌,
}
use foundation_ai_platform.Prelude.Int.{ℤ, pos, ◌+ℤ◌, leb_ℤ, ltb_ℤ}
use foundation_ai_platform.Prelude.Dict.{lookup, insert}
use foundation_ai_platform.Prelude.Texts.{lower, replace, has}
use foundation_ai_platform.Exec.{
  Exec, Result, ok, err, other, pure, raise, lift, gets, modify, try_except, ◌>>=◌, ◌>>◌,
}
use foundation_ai_platform.Value.{
  Value, null, bool, int, hundredths, text, items, table, truth, Metadata,
}
use foundation_ai_platform.Schemas.Enums.{is_ready}
use foundation_ai_platform.Schemas.Enums
use foundation_ai_platform.Schemas.Records.{ModelRecord, DeploymentRecord}
use foundation_ai_platform.Gpu.{GpuTracker}
use foundation_ai_platform.Registry.{get_deployment, update_deployment}
use foundation_ai_platform.Platform.{
  Host, Container, ContainerSpec, Utilization, most, share, Platform, outside, reads, writes,
}

-- `port in self._reserved_ports`
unfoldable pub reserved : ℕ → List ℕ → Bool
reserved port [] = false
reserved port (q ∷ qs) = nat_eq port q || reserved port qs

unfoldable pub discard : ℕ → List ℕ → List ℕ
discard port [] = []
discard port (q ∷ qs) = let rest = discard port qs in if nat_eq port q then rest else q ∷ rest

abbrev pub on_ports : {World : Type 0} → (List ℕ → List ℕ) → Exec (Platform World) (Unit {0})
on_ports f = modify (λ p. record p { reserved_ports = f p.reserved_ports })

module _ {World : Type 0} (host : Host World) where
  -- The `while True` loop over the ports below 65536, where `bind` raises an OverflowError.
  unfoldable pub free_port : ℕ → Exec (Platform World) ℕ
  unfolding reserved
  free_port zero p = raise (other "bind(): port must be 0-65535.") p
  free_port (suc left) p =
      let port = 65535 - left in
      if reserved port p.reserved_ports
      then free_port left p
      else (do
        bound ← outside (host.bind_port port)
        λ q. (if bound then (do on_ports (λ ps. port ∷ ps); pure port) else free_port left) q)
          p

-- The search starts at port 8002.
abbrev pub ports_from_8002 : ℕ
ports_from_8002 = 57534

unfoldable pub container_name_of : String → String
container_name_of name = "vllm-" <> lower (replace ":" "-" (replace "." "-" (replace "/" "-" name)))

abbrev times : ℕ → ℤ → ℤ
times zero z = pos 0
times (suc k) z = z +ℤ times k z

-- `max(2.5, memory * 1.5)`, in tenths.
unfoldable pub safe_memory : ℤ → ℤ
safe_memory gb = if leb_ℤ (pos 25) (times 15 gb) then times 15 gb else pos 25

-- `min(0.95, ratio)`; a total of zero raises a ZeroDivisionError.
unfoldable pub utilization : ℤ → ℤ → Result Utilization
unfolding safe_memory
utilization total gb =
    if leb_ℤ total (pos 0) && leb_ℤ (pos 0) total
    then err (other "float division by zero")
    else if leb_ℤ (pos 0) total && leb_ℤ (times 19 total) (times 2 (safe_memory gb))
    then ok most
    else ok (share (safe_memory gb) total)

abbrev pub total_hardware_vram : Option GpuTracker → ℤ
total_hardware_vram none = pos 24
total_hardware_vram (some t) = t.total_vram_gb

-- `min(4096, max_ctx)`
capped : Value → Result Value
capped (bool b) = ok (bool b)
capped (int n) = if ltb_ℤ n (pos 4096) then ok (int n) else ok (int (pos 4096))
capped (hundredths n) = if leb 409600 n then ok (int (pos 4096)) else ok (hundredths n)
capped _ = err (other "'<' not supported")

default_len : String → Value
default_len name = if has (lower name) "tinyllama" then int (pos 2048) else int (pos 4096)

unfoldable pub max_model_len : String → Option Value → Result Value
unfolding capped default_len
max_model_len name none = ok (default_len name)
max_model_len name (some v) = if truth v then capped v else ok (default_len name)
