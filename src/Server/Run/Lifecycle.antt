-- ===== src/Server/Run/Lifecycle.antt =====
-- internal/ui/server.go, Run, and internal/ui/spawn.go: the calls on the sudo that runs the tap.
use agentflash.Common.{
  ℕ, ◌^◌, ◌<◌, ◌≢◌, Bool, true, false, Option, none, some, List, [], ◌∷◌, ◌≡◌, refl, Bytes, drop,
}
use agentflash.Common.Int.{ℤ, pos, negsuc}
use agentflash.GoPath.{base}
use agentflash.Hub.{new_hub}
use agentflash.Tap.{Config, make_filter, has_pid, has_name}
use agentflash.Flags.{dispatch, tap, spawn_args}
use agentflash.Flags.Start.{UiConfig, run_tap, start}
use agentflash.Flags.Spawn.{IsListName, run_tap-spawn_args}
use agentflash.Server.Run.{
  System, TapCall, sudo_start, sudo_kill, sudo_wait, Spawned, self_failed, no_pipe, no_start,
  spawned, start_tap, pipe_tap, resolve_self, spawn_tap, ServerReturn, hub_panicked, spawn_failed,
  web_failed, serve_failed, shut_down, run_spawned, after_spawn, with_hub, run_server,
}

-- How far the program is with the process of sudo; `misused` is a call that does not fit. `asked`
-- tells that it has been asked to end, and whether the system accepted that.
pub data SudoProcess : Type 0 where
  unstarted : SudoProcess
  at_work : List Bytes → SudoProcess
  asked waited : List Bytes → Bool → SudoProcess
  misused : SudoProcess

abbrev pub after_tap_call : SudoProcess → TapCall → SudoProcess
after_tap_call unstarted (sudo_start args false) = unstarted
after_tap_call unstarted (sudo_start args true) = at_work args
after_tap_call (at_work args) (sudo_kill ok) = asked args ok
after_tap_call (asked args ok) sudo_wait = waited args ok
after_tap_call _ _ = misused

abbrev pub process_after : SudoProcess → List TapCall → SudoProcess
process_after p [] = p
process_after p (c ∷ cs) = process_after (after_tap_call p c) cs

-- The tap that is started with `args` watches what the UI watches, dumps where it says, and leaves
-- out the events of the UI. It runs as the process `getpid` under `getppid`, and resolves the
-- directory to `resolved`.
pub record Serves (m : System) (cfg : UiConfig) (resolved : Bytes) (getpid getppid : ℕ)
    (args : List Bytes) : Type 0 where
  pub self : Bytes
  pub found : m.executable ≡ some self
  pub tap_args : List Bytes
  pub tap_cfg : Config
  pub dispatched : dispatch (drop 2 args) ≡ tap tap_args
  pub started : run_tap tap_args ≡ start tap_cfg
  pub same_dir : tap_cfg.watch_dir ≡ cfg.dir
  pub same_dump : tap_cfg.raw_dump_file ≡ cfg.raw_dump_file
  pub same_debug : tap_cfg.debug ≡ cfg.debug
  pub other_pid : has_pid (pos m.getpid) (make_filter tap_cfg resolved getpid getppid).pids ≡ true
  pub other_name : has_name (base self) (make_filter tap_cfg resolved getpid getppid).names ≡ true

module _ (m : System) (cfg : UiConfig) (resolved : Bytes) (getpid getppid : ℕ) where
  -- sudo has been started, then asked once to end, which the system may have refused, and then
  -- waited for.
  abbrev pub WaitedFor : SudoProcess → Type 0
  WaitedFor p =
      (args : List Bytes) × (p ≡ waited args m.kill_ok) × Serves m cfg resolved getpid getppid args

  abbrev pub FailedSpawn : Spawned → Type 0
  FailedSpawn self_failed = m.executable ≡ none
  FailedSpawn no_pipe = m.pipe_ok ≡ false
  FailedSpawn no_start = m.start_ok ≡ false
  FailedSpawn spawned = ⊥

  abbrev pub Ends : ServerReturn → SudoProcess → Type 0
  Ends hub_panicked p = ((n : ℕ) × cfg.ring_size ≡ negsuc n) × (p ≡ unstarted)
  Ends (spawn_failed s) p = FailedSpawn s × (p ≡ unstarted)
  Ends web_failed p = (m.web_ok ≡ false) × WaitedFor p
  Ends serve_failed p = (m.web_ok ≡ true) × (m.serve_ok ≡ false) × WaitedFor p
  Ends shut_down p = (m.web_ok ≡ true) × (m.serve_ok ≡ true) × WaitedFor p

  abbrev EndsWell : ServerReturn × List TapCall → Type 0
  EndsWell (r, calls) = Ends r (process_after unstarted calls)

  module _ (ne : cfg.dir ≢ [])
      (listed : (self : Bytes) → m.executable ≡ some self → IsListName (base self))
      (small : m.getpid < 2 ^ 63) where
    serves :
        (self : Bytes)
        → m.executable ≡ some self
        → Serves m cfg resolved getpid getppid
            (spawn_args self cfg.dir m.getpid cfg.raw_dump_file cfg.debug)
    serves self e =
        let (args, tap_cfg, dispatched, started, dir, raw, debug, pid, name) =
          run_tap-spawn_args self cfg.dir m.getpid cfg.raw_dump_file cfg.debug resolved getpid
            getppid ne (listed self e) small in
        record {
          self = self;
          found = e;
          tap_args = args;
          tap_cfg = tap_cfg;
          dispatched = dispatched;
          started = started;
          same_dir = dir;
          same_dump = raw;
          same_debug = debug;
          other_pid = pid;
          other_name = name;
        }

    run_spawned-Ends :
        (web_ok serve_ok : Bool) (args : List Bytes)
        → m.web_ok ≡ web_ok
        → m.serve_ok ≡ serve_ok
        → Serves m cfg resolved getpid getppid args
        → Ends (run_spawned web_ok serve_ok) (waited args m.kill_ok)
    unfolding run_spawned
    run_spawned-Ends false serve_ok args w s t = (w, (args, refl, t))
    run_spawned-Ends true false args w s t = (w, s, (args, refl, t))
    run_spawned-Ends true true args w s t = (w, s, (args, refl, t))

    start_tap-Ends :
        (start_ok : Bool) (args : List Bytes)
        → m.start_ok ≡ start_ok
        → Serves m cfg resolved getpid getppid args
        → EndsWell (after_spawn m (start_tap m cfg.dir cfg.raw_dump_file cfg.debug args start_ok))
    unfolding start_tap after_spawn
    start_tap-Ends false args s t = (s, refl)
    start_tap-Ends true args s t = run_spawned-Ends m.web_ok m.serve_ok args refl refl t

    pipe_tap-Ends :
        (pipe_ok : Bool) (args : List Bytes)
        → m.pipe_ok ≡ pipe_ok
        → Serves m cfg resolved getpid getppid args
        → EndsWell (after_spawn m (pipe_tap m cfg.dir cfg.raw_dump_file cfg.debug args pipe_ok))
    unfolding pipe_tap after_spawn
    pipe_tap-Ends false args p t = (p, refl)
    pipe_tap-Ends true args p t = start_tap-Ends m.start_ok args refl t

    resolve_self-Ends :
        (executable : Option Bytes)
        → m.executable ≡ executable
        → EndsWell (after_spawn m (resolve_self m cfg.dir cfg.raw_dump_file cfg.debug executable))
    unfolding resolve_self after_spawn
    resolve_self-Ends none e = (e, refl)
    resolve_self-Ends (some self) e = pipe_tap-Ends m.pipe_ok _ refl (serves self e)

    new_hub-Ends : (n : ℤ) → cfg.ring_size ≡ n → EndsWell (with_hub m cfg (new_hub n))
    unfolding with_hub spawn_tap new_hub
    new_hub-Ends (negsuc n) e = ((n, e), refl)
    new_hub-Ends (pos n) e = resolve_self-Ends m.executable refl

    -- Let the directory not be empty, the process ID be a 63-bit number, and the base name of the
    -- program be one that the list of --exclude-name passes on. Then, however the system answers,
    -- `Run` starts sudo for the tap at most once, and before every return behind that start it has
    -- called Kill on sudo once, accepted or refused, and then waited for sudo, whether the web files
    -- are missing, the listener fails or the server is shut down. Where it returns before, sudo has
    -- not been started: the ring size is negative, or the program's path, the pipe or the start
    -- failed. The tap that sudo is started for takes its arguments for a
    -- configuration with the directory, raw dump and debug flag of the UI, and its sets have the
    -- UI's process ID and name.
    pub run_server-Ends : Ends (run_server m cfg).0 (process_after unstarted (run_server m cfg).1)
    unfolding run_server
    run_server-Ends = new_hub-Ends cfg.ring_size refl
