-- ===== src/MacServing/Tests.antt =====
-- mac-serving on small inputs.
use foundation_ai_platform.Prelude.{
  suc, ◌≡◌, ◌≢◌, refl, true, none, some, List, [], ◌∷◌, contains, arith, ◌<>◌,
}
use foundation_ai_platform.Prelude.Int.{pos}
use foundation_ai_platform.Prelude.Dict.{lookup}
use foundation_ai_platform.Exec.{Exec, ok}
use foundation_ai_platform.Value.{Value}
use foundation_ai_platform.MacServing.Samples.{
  desk, mac, mac-IsOs, Pc, off, echo, ask, local, defaults, typed,
}
use foundation_ai_platform.MacServing.Config.{load_config}
use foundation_ai_platform.MacServing.Config.Safety.{IsSafe, load_config-IsSafe}
use foundation_ai_platform.MacServing.Backend.{
  Backend, running, poll, out_of_fuel, build_command, resolve_binary, arguments,
}
use foundation_ai_platform.MacServing.Backend.Process.{Ended, poll_ends}
use foundation_ai_platform.MacServing.App.{
  first_header, upstream_request, proxied, proxy_v1, http_exception, lifespan,
}
use foundation_ai_platform.MacServing.App.Counting.{Call, begins, ends}
use foundation_ai_platform.MacServing.App.Proxy.{proxy_authorizes}
use foundation_ai_platform.MacServing.App.Lifespan.{lifespan_ends}

loads : load_config desk "/etc/mac.toml" ≡ ok defaults
unfolding load_config lookup contains
loads = refl

load_config-IsSafe_example : IsSafe desk typed
load_config-IsSafe_example = load_config-IsSafe desk "/etc/mac.toml" defaults typed loads

abbrev on : Backend Pc
on = record {
  process = some 1;
  log_handle = some 3;
  world = record { clock = 9; next = 2; ended = [] };
}

poll_ends_example : (poll mac local 1 300 (suc 300) off.world).0 ≢ out_of_fuel
poll_ends_example = poll_ends mac mac-IsOs local 1 300 300 off.world (omega arith)

abbrev idles : Exec (Backend Pc) (Unit {0})
idles b = (ok tt, b)

abbrev command_line : List Value
command_line = arguments desk defaults "/bin/llama-server" defaults.engine defaults.server

has_command : build_command desk defaults none ≡ ok command_line
unfolding build_command resolve_binary
has_command = refl

lifespan_ends_example : Ended mac 1 (lifespan echo mac desk defaults idles off).1.world
unfolding running
lifespan_ends_example =
    lifespan_ends mac mac-IsOs echo desk defaults (λ w e. λ x. cc) (λ w. refl) (pos 30000) idles off
      command_line 3 1 off.world (record off.world { next = 2 }) refl refl refl has_command refl
      refl (λ b. refl)

abbrev calls : List Call
calls = begins ∷ begins ∷ ends 0 5 true ∷ []

proxy_authorizes_example :
    let bearer = first_header "authorization" ask.headers in
    (bearer ≢ some ("Bearer " <> "k")
      → proxy_v1 echo (some "k") ask off.world
        ≡ (ok (http_exception 401 "invalid API key"), off.world))
    × (bearer ≡ some ("Bearer " <> "k")
        → proxy_v1 echo (some "k") ask off.world ≡ (
          proxied (echo.send (upstream_request ask) off.world).0,
          (echo.send (upstream_request ask) off.world).1,
        ))
proxy_authorizes_example = proxy_authorizes echo "k" ask off.world refl
