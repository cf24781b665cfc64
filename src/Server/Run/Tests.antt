-- ===== src/Server/Run/Tests.antt =====
-- internal/ui/server.go, Run: a server that is shut down.
use mathlib.Core.Path.{subst}
use mathlib.Core.Option.{some-injective}
use agentflash.Common.{true, false, some, [], ◌∷◌, ◌≡◌, refl, arith, Bytes, codes}
use agentflash.Common.Int.{pos}
use agentflash.GoPath.{base}
use agentflash.Hub.{new_hub}
use agentflash.Flags.{spawn_args}
use agentflash.Flags.Start.{UiConfig}
use agentflash.Flags.Spawn.{IsListName}
use agentflash.Flags.Tests.{self, self-IsListName}
use agentflash.Server.Run.{
  System, sudo_start, sudo_kill, sudo_wait, shut_down, start_tap, pipe_tap, resolve_self, spawn_tap,
  run_spawned, after_spawn, with_hub, run_server,
}
use agentflash.Server.Run.Lifecycle.{Ends, unstarted, process_after, run_server-Ends}

abbrev system : System
system = record {
  executable = some self;
  getpid = 42;
  pipe_ok = true;
  start_ok = true;
  web_ok = true;
  serve_ok = true;
  kill_ok = false;
}

abbrev config : UiConfig
config = record {
  dir = codes "/w";
  addr = codes "127.0.0.1:7777";
  ring_size = pos 2;
  raw_dump_file = [];
  debug = true;
  auto_pause = true;
}

listed : (s : Bytes) → some self ≡ some s → IsListName (base s)
listed s e = subst (λ x. IsListName (base x)) (some-injective _ _ e) self-IsListName

run_server-Ends_example :
    Ends system config
      (codes "/w")
      77
      76
      shut_down
      (process_after unstarted (run_server system config).1)
unfolding run_server new_hub with_hub spawn_tap resolve_self pipe_tap start_tap after_spawn
    run_spawned
run_server-Ends_example =
    run_server-Ends system config (codes "/w") 77 76 (λ e. cc) listed (omega arith)

calls :
    (run_server system config).1
    ≡ sudo_start (spawn_args self (codes "/w") 42 [] true) true ∷ sudo_kill false ∷ sudo_wait ∷ []
unfolding run_server new_hub with_hub spawn_tap resolve_self pipe_tap start_tap after_spawn
calls = refl
