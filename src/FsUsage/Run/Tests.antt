-- ===== src/FsUsage/Run/Tests.antt =====
-- internal/tap/tap_darwin.go, Run: a run with a raw dump and the debug flag.
use agentflash.Common.{ℕ, true, some, [], ◌∷◌, ◌++◌, Bytes, codes}
use agentflash.Event.Wire.{newline}
use agentflash.Tap.{Config}
use agentflash.FsUsage.LineRe.{line_re, open_mode_re}
use agentflash.FsUsage.Clock.{Clock, parse_clock_on_day}
use agentflash.FsUsage.Run.{System, run_darwin}
use agentflash.FsUsage.Run.Lifecycle.{Returns, run_darwin-Returns}

abbrev date : ℕ → Clock → ℕ
date today t = today

abbrev output : Bytes
output =
    codes "00:00:01.25  rename   /w/a b  0.000123 W cp.42"
    ++ newline ∷ codes "Timestamp"
    ++ newline ∷ []

abbrev system : System
system = record {
  getwd = some (codes "/");
  getpid = 77;
  getppid = 76;
  pipe_ok = true;
  launch = some 78;
  create_ok = true;
  output = output;
  ended_well = true;
  now = λ n. 5;
  write_ok = λ n. true;
  wait_ok = true;
}

abbrev config : Config
config = record {
  watch_dir = codes "/w";
  exclude_pid = [];
  exclude_name = [];
  raw_dump_file = codes "/tmp/raw";
  debug = true;
}

run_darwin-Returns_example :
    Returns system line_re open_mode_re
      (parse_clock_on_day date)
      config
      (run_darwin system line_re open_mode_re (parse_clock_on_day date) config).result
      (run_darwin system line_re open_mode_re (parse_clock_on_day date) config)
run_darwin-Returns_example =
    run_darwin-Returns system line_re open_mode_re (parse_clock_on_day date) config
