-- ===== src/Server/Run.antt =====
-- internal/ui/spawn.go, SpawnTap, and internal/ui/server.go: `Run` but for its goroutines. The answers
-- of the system are a record; `serve_ok` tells that ListenAndServe returned because of a shutdown.
pub mod Lifecycle
mod Tests
use agentflash.Common.{ℕ, Bool, true, false, Option, none, some, List, [], ◌∷◌, ◌++◌, Bytes}
use agentflash.Common.Int.{ℤ}
use agentflash.Hub.{Hub, new_hub}
use agentflash.Flags.{spawn_args}
use agentflash.Flags.Start.{UiConfig}

-- `executable` is `none` where os.Executable fails.
pub record System : Type 0 where
  pub executable : Option Bytes
  pub getpid : ℕ
  pub pipe_ok : Bool
  pub start_ok : Bool
  pub web_ok : Bool
  pub serve_ok : Bool
  pub kill_ok : Bool

-- A call on the process of the sudo that runs the tap with these arguments: its start and whether it
-- succeeded, the Kill and whether the system accepted it, and the Wait that follows. What sudo does
-- to the tap is not modelled.
pub data TapCall : Type 0 where
  sudo_start : List Bytes → Bool → TapCall
  sudo_kill : Bool → TapCall
  sudo_wait : TapCall

pub data Spawned : Type 0 where
  self_failed no_pipe no_start spawned : Spawned

module _ (m : System) (dir raw_dump_file : Bytes) (debug : Bool) where
  pub start_tap : List Bytes → Bool → Spawned × List TapCall
  start_tap args false = (no_start, sudo_start args false ∷ [])
  start_tap args true = (spawned, sudo_start args true ∷ [])

  pub pipe_tap : List Bytes → Bool → Spawned × List TapCall
  pipe_tap args false = (no_pipe, [])
  pipe_tap args true = start_tap args m.start_ok

  pub resolve_self : Option Bytes → Spawned × List TapCall
  resolve_self none = (self_failed, [])
  resolve_self (some self) = pipe_tap (spawn_args self dir m.getpid raw_dump_file debug) m.pipe_ok

  -- `SpawnTap`
  pub spawn_tap : Spawned × List TapCall
  spawn_tap = resolve_self m.executable

-- The function `stop` that `SpawnTap` returns: it ignores whether the Kill was accepted.
abbrev pub stop_tap : Bool → List TapCall
stop_tap kill_ok = sudo_kill kill_ok ∷ sudo_wait ∷ []

-- How `Run` ends.
pub data ServerReturn : Type 0 where
  hub_panicked : ServerReturn
  spawn_failed : Spawned → ServerReturn
  web_failed serve_failed shut_down : ServerReturn

-- `Run` from the spawned tap on, whose end is deferred.
pub run_spawned : Bool → Bool → ServerReturn
run_spawned false serve_ok = web_failed
run_spawned true false = serve_failed
run_spawned true true = shut_down

module _ (m : System) where
  pub after_spawn : Spawned × List TapCall → ServerReturn × List TapCall
  after_spawn (spawned, calls) = (run_spawned m.web_ok m.serve_ok, calls ++ stop_tap m.kill_ok)
  after_spawn (failed, calls) = (spawn_failed failed, calls)

  -- `Run` from the new hub on.
  pub with_hub : UiConfig → Option Hub → ServerReturn × List TapCall
  with_hub cfg none = (hub_panicked, [])
  with_hub cfg (some h) = after_spawn (spawn_tap m cfg.dir cfg.raw_dump_file cfg.debug)

  pub run_server : UiConfig → ServerReturn × List TapCall
  run_server cfg = with_hub cfg (new_hub cfg.ring_size)
