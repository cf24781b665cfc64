-- ===== src/Tap/Setup.antt =====
-- internal/tap/tap_linux.go: `Run` as a whole, around its loop. Of the log, the warning of a network
-- file system and the samples of the loop are kept.
pub mod Lifecycle
mod Tests
use agentflash.Common.{
  ℕ, Bool, true, false, not, ◌&&◌, ◌||◌, eq_bytes, Option, none, some, List, [], ◌∷◌, ◌++◌, Bytes,
  codes, ◌==◌, if◌then◌else◌,
}
use agentflash.Common.Int.{ℤ}
use agentflash.GoPath.{abs}
use agentflash.Fanotify.Device.{
  Errno, Kernel, Syscall, Marked, marked, filesystem_error, mount_error, new_fanotify_device, mark,
  close_device,
}
use agentflash.Tap.{
  Config, World, Outcome, ongoing, stopped, ReadResult, make_filter, run_loop, initial,
}

-- `networkFSName`; `statfs` gives the type of the path's file system, `none` its error.
pub network_fs_name : (Bytes → Option ℕ) → Bytes → Bytes
network_fs_name statfs path = elim (statfs path) [
  | none ↦ []
  | some type ↦
      if type == 0x6969
      then codes "NFS"
      else if type == 0xff534d42 || type == 0xfe534d42
      then codes "CIFS/SMB"
      else if type == 0x65735546
      then codes "FUSE"
      else if type == 0xbeefdead
      then codes "VMHGFS"
      else []
]

-- The process that `Run` is called in: `getwd` is `none` where it fails, and `create_ok` is false
-- where the file of the raw dump cannot be created.
pub record Process : Type 0 where
  pub getwd : Option Bytes
  pub statfs : Bytes → Option ℕ
  pub getpid : ℕ
  pub getppid : ℕ
  pub create_ok : Bool

-- `FAN_OPEN|FAN_ACCESS|FAN_MODIFY|FAN_CLOSE_WRITE`
abbrev pub run_mask : ℕ
run_mask = 0x2b

-- Where `Run` has got to: returned from its setup with an error, or to its loop, which an `ongoing`
-- outcome has not left yet.
pub data Progress : Type 0 where
  resolve_error : Progress
  init_error : Progress
  mark_error : Errno → Progress
  fallback_error : Errno → Errno → Progress
  looped : Outcome → Progress

-- The file of the raw dump.
pub data Dump : Type 0 where
  no_dump open_dump closed_dump : Dump

-- `warned` is the network file system that `Run` warns of, `[]` for none.
pub record Ran : Type 0 where
  pub progress : Progress
  pub warned : Bytes
  pub dump : Dump
  pub log : List Syscall

-- `os.Create` for the raw dump, if the configuration asks for one.
abbrev pub new_dump : Bytes → Bool → Option Bytes
new_dump file create_ok = if not (eq_bytes file []) && create_ok then some [] else none

abbrev pub still_open : Option Bytes → Dump
still_open none = no_dump
still_open (some out) = open_dump

abbrev pub dump_shut : Option Bytes → Dump
dump_shut none = no_dump
dump_shut (some out) = closed_dump

-- The deferred closes, which run once the loop has returned. `raw` is the raw dump as it was opened.
pub close_after : ℤ → Bytes → Option Bytes → Outcome → List Syscall → Ran
close_after fd warned raw (ongoing t) log = record {
  progress = looped (ongoing t);
  warned = warned;
  dump = still_open raw;
  log = log;
}
close_after fd warned raw (stopped t) log = record {
  progress = looped (stopped t);
  warned = warned;
  dump = dump_shut raw;
  log = close_device fd log;
}

module _ (k : Kernel) (p : Process) (w : World) (cfg : Config) (rs : List ReadResult) where
  -- `Run` from the mark on; the device is closed on every return.
  pub run_marked : ℤ → Bytes → Bytes → Marked × List Syscall → Ran
  run_marked fd dir warned (marked, log) =
      let raw = new_dump cfg.raw_dump_file p.create_ok in
      close_after fd warned raw
        (run_loop w (make_filter cfg dir p.getpid p.getppid) rs (initial raw)) log
  run_marked fd dir warned (filesystem_error e, log) = record {
    progress = mark_error e;
    warned = warned;
    dump = no_dump;
    log = close_device fd log;
  }
  run_marked fd dir warned (mount_error e e2, log) = record {
    progress = fallback_error e e2;
    warned = warned;
    dump = no_dump;
    log = close_device fd log;
  }

  -- `Run` from the opening of the device on.
  pub run_opened : Bytes → Bytes → Option ℤ × List Syscall → Ran
  run_opened dir warned (none, log) = record {
    progress = init_error;
    warned = warned;
    dump = no_dump;
    log = log;
  }
  run_opened dir warned (some fd, log) = run_marked fd dir warned (mark k fd dir run_mask log)

  -- `Run` from the resolved watch dir on.
  pub run_resolved : Option Bytes → Ran
  run_resolved none = record { progress = resolve_error; warned = []; dump = no_dump; log = [] }
  run_resolved (some dir) = run_opened dir (network_fs_name p.statfs dir) (new_fanotify_device k [])

  unfoldable pub run : Ran
  run = run_resolved (abs p.getwd cfg.watch_dir)
