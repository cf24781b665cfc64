-- ===== src/Tap/Setup/Tests.antt =====
-- A run on a kernel that has no mark on file systems.
use agentflash.Common.{◌≡◌, refl, true, none, some, List, [], ◌∷◌, codes, ◌==◌, if◌then◌else◌}
use agentflash.Common.Int.{pos}
use agentflash.Fanotify.Device.{Kernel, einval, mark_mount}
use agentflash.Tap.{Config, ReadResult, bytes, interrupted, read_error}
use agentflash.Tap.Tests.{world, stream}
use agentflash.Tap.Setup.{Process, network_fs_name, run}
use agentflash.Tap.Setup.Lifecycle.{Ends, device_of, run-Ends}

abbrev kernel : Kernel
kernel = record {
  init = some (pos 3);
  mark = λ fd flags mask path. if flags == mark_mount then none else some einval;
}

abbrev process : Process
process = record {
  getwd = some (codes "/home");
  statfs = λ path. some 0x6969;
  getpid = 10;
  getppid = 9;
  create_ok = true;
}

abbrev config : Config
config = record {
  watch_dir = codes "/w";
  exclude_pid = [];
  exclude_name = [];
  raw_dump_file = codes "/tmp/raw";
  debug = true;
}

abbrev reads : List ReadResult
reads = bytes stream ∷ interrupted ∷ read_error ∷ []

network : network_fs_name process.statfs (codes "/w") ≡ codes "NFS"
unfolding network_fs_name
network = refl

run-Ends_example :
    Ends kernel process world config reads
      (run kernel process world config reads).progress
      (device_of (run kernel process world config reads).log)
      (run kernel process world config reads).dump
run-Ends_example = run-Ends kernel process world config reads
