-- ===== src/FsUsage/Tests.antt =====
-- internal/tap/parse_test.go, as far as it does not turn on the regular expressions, and a run.
use agentflash.Common.{ℕ, [], ◌≡◌, refl, Option, none, some, codes, Bytes, eq_bytes}
use agentflash.FsUsage.{
  LineMatch, from_slash, trim_right, drop_blanks, extract_path, is_one_of, has_w_or_c, open_mode,
  map_syscall,
}

-- Stands for lineRE: any line is an open for writing in the watched directory.
abbrev line_re : Bytes → Option LineMatch
line_re l = some (record {
  clock = codes "12:00:00.000001";
  call = codes "open";
  args = codes "F=4 (RW__) /w/Application Support/f  ";
  proc = codes "vim";
  pid_str = codes "77";
})

-- Stands for openModeRE.
abbrev open_mode_re : Bytes → Option Bytes
open_mode_re a = some (codes "RW__")

-- Stands for parseClockOnDay.
abbrev parse_clock : Bytes → ℕ → Option ℕ
parse_clock c today = some today

paths :
    (extract_path (codes "F=4 (RW__) /w/Application Support/f  ")
      ≡ codes "/w/Application Support/f")
    × (extract_path (codes "F=4") ≡ [])
unfolding extract_path from_slash trim_right drop_blanks
paths = (refl, refl)

operations :
    (map_syscall line_re open_mode_re parse_clock (codes "open") [] ≡ some (codes "write"))
    × (map_syscall line_re open_mode_re parse_clock (codes "renameat") [] ≡ some (codes "rename"))
    × (map_syscall line_re open_mode_re parse_clock (codes "chown") [] ≡ some (codes "write"))
    × (map_syscall line_re open_mode_re parse_clock (codes "unlink") [] ≡ none)
unfolding map_syscall is_one_of has_w_or_c open_mode eq_bytes
operations = (refl, refl, refl, refl)
