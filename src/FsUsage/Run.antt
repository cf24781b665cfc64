-- ===== src/FsUsage/Run.antt =====
-- internal/tap/tap_darwin.go: `Run` as a whole, around its loop. The start of fs_usage and what comes
-- of it are answers of the system; the ticker of the statistics is in Tap/Stats.
pub mod Lifecycle
mod Tests
use agentflash.Common.{
  ℕ, zero, suc, Bool, true, false, not, Option, none, some, List, [], ◌∷◌, ◌++◌, Bytes, ltb, length,
  eq_bytes, if◌then◌else◌,
}
use agentflash.Event.Wire.{max_token, lines_of, drop_cr}
use agentflash.GoPath.{slash, base, abs}
use agentflash.TreeWatch.{mac_data_volume}
use agentflash.Tap.{Config, Filter}
use agentflash.FsUsage.{LineMatch, make_filter_darwin}
use agentflash.FsUsage.Loop.{Debug, LineTap, Input, start, run_lines}

-- The tap's process and the answers it gets: `getwd` is `none` where it fails and `launch` is the
-- process ID of fs_usage or `none`. fs_usage prints `output`, which ends in the end of the file or
-- in a read error; its n-th line is read at `now n`, and an event of it can be written or not.
pub record System : Type 0 where
  pub getwd : Option Bytes
  pub getpid : ℕ
  pub getppid : ℕ
  pub pipe_ok : Bool
  pub launch : Option ℕ
  pub create_ok : Bool
  pub output : Bytes
  pub ended_well : Bool
  pub now : ℕ → ℕ
  pub write_ok : ℕ → Bool
  pub wait_ok : Bool

-- A call that `Run` makes on fs_usage or on the file of the raw dump, with what came of it.
pub data Call : Type 0 where
  cmd_start : Option ℕ → Call
  cmd_kill : Call
  cmd_wait : Bool → Call
  dump_create : Bool → Call
  dump_close : Call

-- How `Run` returns.
pub data Return : Type 0 where
  resolve_failed pipe_failed start_failed write_failed scan_failed exit_failed returned : Return

-- The calls in order, and the loop's state at its end.
pub record MacRun : Type 0 where
  pub result : Return
  pub calls : List Call
  pub tap : LineTap

-- The tokens that the scanner gives, and whether it has no error at the end: a line that does not
-- fit its buffer is one.
pub scan : Bool → List Bytes → List Bytes × Bool
scan ended_well [] = ([], ended_well)
scan ended_well (l ∷ ls) =
    let rest = scan ended_well ls in
    if ltb (length l) max_token then (drop_cr l ∷ rest.0, rest.1) else ([], false)

-- The triggers of an interesting line.
pub make_debug : Config → Bytes → Debug
make_debug cfg dir = record {
  on = cfg.debug;
  path_trigger = slash ∷ base dir;
  data_path_trigger = mac_data_volume ++ slash ∷ base dir;
}

-- The deferred close of the raw dump.
abbrev pub close_dump : Option Bytes → List Call
close_dump none = []
close_dump (some out) = dump_close ∷ []

-- `Run` from the last line on: `sc.Err` first, and then the result of `cmd.Wait`.
pub after_scan : Bool → Bool → List Call → LineTap → MacRun
after_scan false wait_ok calls t = record {
  result = scan_failed;
  calls = calls ++ cmd_kill ∷ close_dump t.raw_dump;
  tap = t;
}
after_scan true false calls t = record {
  result = exit_failed;
  calls = calls ++ cmd_wait false ∷ close_dump t.raw_dump;
  tap = t;
}
after_scan true true calls t = record {
  result = returned;
  calls = calls ++ cmd_wait true ∷ close_dump t.raw_dump;
  tap = t;
}

module _ (m : System) where
  -- The lines as the loop gets them, from the n-th on.
  pub inputs_from : ℕ → List Bytes → List Input
  inputs_from n [] = []
  inputs_from n (l ∷ ls) =
      record { line = l; now = m.now n; write_ok = m.write_ok n } ∷ inputs_from (suc n) ls

  -- `Run` from the end of the loop on. The flag of the loop is false where `Run` returns from it.
  pub after_loop : Bool → List Call → LineTap × Bool → MacRun
  after_loop scan_ok calls (t, false) = record {
    result = write_failed;
    calls = calls ++ cmd_kill ∷ close_dump t.raw_dump;
    tap = t;
  }
  after_loop scan_ok calls (t, true) = after_scan scan_ok m.wait_ok calls t

  -- `os.Create` for the raw dump, if the configuration asks for one.
  pub open_dump : Bytes → Option Bytes × List Call
  open_dump file =
      if not (eq_bytes file [])
      then if m.create_ok then (some [], dump_create true ∷ []) else (none, dump_create false ∷ [])
      else (none, [])

  module _ (line_re : Bytes → Option LineMatch) (open_mode_re : Bytes → Option Bytes)
      (parse_clock : Bytes → ℕ → Option ℕ) (cfg : Config) where
    -- `Run` from the started fs_usage on.
    pub run_started : Bytes → ℕ → MacRun
    run_started dir pid =
        let dump = open_dump cfg.raw_dump_file in
        let scanned = scan m.ended_well (lines_of m.output) in
        let filter = make_filter_darwin cfg dir m.getpid m.getppid pid in
        after_loop scanned.1 (cmd_start (some pid) ∷ dump.1) (
          run_lines line_re open_mode_re parse_clock (make_debug cfg dir) filter
            (inputs_from zero scanned.0) (start dump.0))

    pub run_launched : Bytes → Option ℕ → MacRun
    run_launched dir none = record {
      result = start_failed;
      calls = cmd_start none ∷ [];
      tap = start none;
    }
    run_launched dir (some pid) = run_started dir pid

    pub run_piped : Bytes → Bool → MacRun
    run_piped dir false = record { result = pipe_failed; calls = []; tap = start none }
    run_piped dir true = run_launched dir m.launch

    -- `Run` from the resolved watch dir on.
    pub run_resolved_darwin : Option Bytes → MacRun
    run_resolved_darwin none = record { result = resolve_failed; calls = []; tap = start none }
    run_resolved_darwin (some dir) = run_piped dir m.pipe_ok

    pub run_darwin : MacRun
    run_darwin = run_resolved_darwin (abs m.getwd cfg.watch_dir)
