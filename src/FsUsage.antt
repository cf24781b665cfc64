-- ===== src/FsUsage.antt =====
-- internal/tap/parse.go, tap_darwin.go and exclude_darwin.go: the tap on macOS, which reads the
-- lines that fs_usage prints. `line_re` gives the submatches of lineRE and `open_mode_re` the one of
-- openModeRE (FsUsage/LineRe has both), and `parse_clock` is parseClockOnDay, made of package time;
-- `none` is no match or an error. FsUsage/Loop has the loop of `Run`.
pub mod Regex
pub mod LineRe
pub mod Clock
pub mod Loop
pub mod Logged
pub mod Admitted
pub mod Run
mod Tests
use agentflash.Common.{
  ℕ, ◌+◌, ◌%◌, ◌^◌, Bool, true, false, not, ◌&&◌, ◌||◌, Option, none, some, List, [], ◌∷◌, ◌++◌,
  reverse, Bytes, codes, ltb, ◌==◌, if◌then◌else◌, eq_bytes, has_prefix, contains,
}
use agentflash.Common.Int.{ℤ, pos}
use agentflash.Event.{Event}
use agentflash.GoPath.{slash}
use agentflash.Flags.{atoi, trim_space}
use agentflash.TreeWatch.{normalize_path_darwin}
use agentflash.Tap.{Config, Filter, prefix_of, path_in, clean_path, has_pid, has_name, add_uint64}

-- The submatches of lineRE that ParseLine uses.
pub record LineMatch : Type 0 where
  pub clock : Bytes
  pub call : Bytes
  pub args : Bytes
  pub proc : Bytes
  pub pid_str : Bytes

-- `args[idx:]` at the first slash; `[]` where there is none.
pub from_slash : Bytes → Bytes
from_slash [] = []
from_slash (c ∷ cs) = if c == slash then c ∷ cs else from_slash cs

drop_blanks : Bytes → Bytes
drop_blanks [] = []
drop_blanks (c ∷ cs) = if c == 32 || c == 9 then drop_blanks cs else c ∷ cs

-- `strings.TrimRight(s, " \t")`
pub trim_right : Bytes → Bytes
unfolding drop_blanks
trim_right s = reverse (drop_blanks (reverse s))

pub extract_path : Bytes → Bytes
extract_path args = trim_right (from_slash args)

-- Does one of the strings equal `s`?
pub is_one_of : Bytes → List Bytes → Bool
is_one_of s [] = false
is_one_of s (t ∷ ts) = eq_bytes s t || is_one_of s ts

-- `strings.ContainsAny(s, "WC")`
pub has_w_or_c : Bytes → Bool
has_w_or_c [] = false
has_w_or_c (c ∷ cs) = c == b'W' || c == b'C' || has_w_or_c cs

-- The calls that `mapSyscall` makes a write of, beside the opens.
abbrev pub write_calls : List Bytes
write_calls =
    codes "link"
    ∷ codes "linkat"
    ∷ codes "symlink"
    ∷ codes "symlinkat"
    ∷ codes "truncate"
    ∷ codes "chmod"
    ∷ codes "fchmodat"
    ∷ codes "utimes"
    ∷ codes "utimensat"
    ∷ codes "futimes"
    ∷ codes "futimens"
    ∷ codes "lutimes"
    ∷ codes "setattrlist"
    ∷ codes "setattrlistat"
    ∷ codes "fsetattrlist"
    ∷ codes "chflags"
    ∷ codes "fchflags"
    ∷ codes "lchflags"
    ∷ codes "chflagsat"
    ∷ codes "chown"
    ∷ codes "fchown"
    ∷ codes "lchown"
    ∷ codes "fchownat"
    ∷ []

abbrev pub open_calls : List Bytes
open_calls = codes "open" ∷ codes "openat" ∷ codes "open_nocancel" ∷ codes "openat_nocancel" ∷ []

abbrev pub exclude_processes_darwin : List Bytes
exclude_processes_darwin =
    codes "mds"
    ∷ codes "mds_stores"
    ∷ codes "mdworker"
    ∷ codes "mdworker_shared"
    ∷ codes "fseventsd"
    ∷ codes "BiomeAgent"
    ∷ codes "corespotlightd"
    ∷ []

pub is_noise_line : Bytes → Bool
is_noise_line line =
    let t = trim_space line in
    eq_bytes t [] || has_prefix t (codes "Timestamp") || contains t (codes "PROCESS.PID")

-- The sets that `Run` builds. `fs_usage_pid` is the process it reads from.
pub make_filter_darwin : Config → Bytes → ℕ → ℕ → ℕ → Filter
make_filter_darwin cfg dir getpid getppid fs_usage_pid = record {
  dir = dir;
  prefix = prefix_of dir;
  pids =
      (if ltb 1 getppid then pos getppid ∷ [] else [])
      ++ pos fs_usage_pid ∷ pos getpid ∷ cfg.exclude_pid;
  names = exclude_processes_darwin ++ cfg.exclude_name;
  debug = cfg.debug;
}

module _ (line_re : Bytes → Option LineMatch) (open_mode_re : Bytes → Option Bytes)
    (parse_clock : Bytes → ℕ → Option ℕ) where
  pub open_mode : Bytes → Bytes
  open_mode args = elim (open_mode_re args) [ none ↦ [] | some mode ↦ mode ]

  pub map_syscall : Bytes → Bytes → Option Bytes
  map_syscall call args =
      if is_one_of call open_calls
      then if has_w_or_c (open_mode args) then some (codes "write") else some (codes "read")
      else if is_one_of call (codes "rename" ∷ codes "renameat" ∷ codes "renameatx_np" ∷ [])
      then some (codes "rename")
      else if is_one_of call (codes "mkdir" ∷ codes "mkdirat" ∷ [])
      then some (codes "mkdir")
      else if is_one_of call write_calls
      then some (codes "write")
      else none

  -- ParseLine from the process ID on.
  abbrev parse_match : LineMatch → ℤ → ℕ → Option Event
  parse_match m pid today =
      let path = extract_path m.args in
      if eq_bytes path [] then none else elim (map_syscall m.call m.args) [
        | none ↦ none
        | some op ↦ elim (parse_clock m.clock today) [
          | none ↦ none
          | some ts ↦
              some (record {
                ts = ts;
                op = op;
                path = path;
                process = m.proc;
                pid = pid;
                claude = none;
              })
        ]
      ]

  pub parse_line : Bytes → ℕ → Option Event
  parse_line line today = elim (line_re line) [
    | none ↦ none
    | some m ↦ elim (atoi m.pid_str) [ none ↦ none | some pid ↦ parse_match m pid today ]
  ]
