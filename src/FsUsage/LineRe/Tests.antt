-- ===== src/FsUsage/LineRe/Tests.antt =====
-- internal/tap/parse_test.go
use agentflash.Common.{
  ℕ, ◌+◌, ◌*◌, ◌∷◌, if◌then◌else◌, ◌≡◌, refl, Option, none, some, Bytes, codes, eq_bytes,
}
use agentflash.Common.Int.{pos}
use agentflash.Event.{Event}
use agentflash.Flags.{atoi, digits_value}
use agentflash.FsUsage.{
  parse_line, map_syscall, open_mode, is_one_of, has_w_or_c, extract_path, from_slash, trim_right,
  drop_blanks,
}
use agentflash.FsUsage.Regex.{
  find, greedy, lazy, match_one, match_plus, match_lazy_plus, match_optional,
}
use agentflash.FsUsage.LineRe.{line_re, open_mode_re, mode_after}
use agentflash.FsUsage.{LineMatch}
use agentflash.FsUsage.Clock.{Clock, parse_clock_on_day}
use agentflash.FsUsage.Clock.Exact.{two, in_day, nanoseconds}
use agentflash.FsUsage.LineRe.Parts.{PartsSpec, line_re-parts}
use agentflash.FsUsage.LineRe.TimeOfDay.{ClockText, line_re-time}

modes :
    (open_mode_re (codes "F=4 (RW__) /w") ≡ some (codes "RW__"))
    × (open_mode_re (codes "(x) (R") ≡ none)
unfolding open_mode_re mode_after
modes = (refl, refl)

lines :
    (line_re (codes "12:34:56.7 open F=4 (R) /w/a 1 0.1 W vim.x.7")
      ≡ some (record {
        clock = codes "12:34:56.7";
        call = codes "open";
        args = codes "F=4 (R) /w/a 1";
        proc = codes "vim.x";
        pid_str = codes "7";
      }))
    × (line_re (codes "12:34:56.7 open /w") ≡ none)
    × (line_re (codes "12:34:56.7 open F=4 (R) /w/a 0.1 W Google Chrome.7") ≡ none)
unfolding line_re find greedy lazy match_one match_plus match_lazy_plus match_optional
lines = (refl, refl, refl)

abbrev rename_line : Bytes
rename_line = codes "00:00:01.25  rename   /w/a b  0.000123 W cp.42 "

line_re-parts_example : PartsSpec rename_line (line_re rename_line)
line_re-parts_example = line_re-parts rename_line

abbrev rename_match : LineMatch
rename_match = record {
  clock = codes "00:00:01.25";
  call = codes "rename";
  args = codes "/w/a b";
  proc = codes "cp";
  pid_str = codes "42";
}

rename_matched : line_re rename_line ≡ some rename_match
unfolding line_re find greedy lazy match_one match_plus match_lazy_plus match_optional
rename_matched = refl

-- `time.Date` in a zone without changes of its offset: a day starts at `today`.
abbrev date_utc : ℕ → Clock → ℕ
date_utc today t =
    today * 86400000000000
    + (((t.hour * 60 + t.minute) * 60 + t.second) * 1000000000 + t.nanosecond)

line_re-time_example :
    (t : ClockText (codes "00:00:01.25")) × (parse_clock_on_day date_utc (codes "00:00:01.25") 0 ≡ (
      if in_day (two t.a t.b) (two t.c t.d) (two t.e t.f)
      then some (
          date_utc 0 (record {
            hour = two t.a t.b;
            minute = two t.c t.d;
            second = two t.e t.f;
            nanosecond = nanoseconds (t.g ∷ t.fs);
          }))
      else none))
line_re-time_example = line_re-time date_utc rename_line 0 rename_matched

-- Stands for parseClockOnDay.
abbrev parse_clock : Bytes → ℕ → Option ℕ
parse_clock c today = some today

abbrev parsed : Bytes → Option Event
parsed line = parse_line line_re open_mode_re parse_clock line 0

abbrev event : Bytes → Bytes → Bytes → ℕ → Event
event op path process pid = record {
  ts = 0;
  op = op;
  path = path;
  process = process;
  pid = pos pid;
  claude = none;
}

events :
    (parsed (
        codes
          "21:07:01.123456  open  F=12  (R_____)    /Users/stef/foo.txt    0.000123 W cat.12345")
      ≡ some (event (codes "read") (codes "/Users/stef/foo.txt") (codes "cat") 12345))
    × (parsed (
          codes
            "21:07:01.234567  open  F=13  (WC____)    /Users/stef/bar.txt    0.000098 W vim.12347")
        ≡ some (event (codes "write") (codes "/Users/stef/bar.txt") (codes "vim") 12347))
    × (parsed (codes "21:07:01.345678  write  F=13   B=0x4      0.000067    sh.12346") ≡ none)
    × (parsed (codes "21:07:01.678901  unlink   /Users/stef/junk.txt    0.000023    rm.88888")
        ≡ none)
unfolding parse_line map_syscall open_mode is_one_of has_w_or_c extract_path from_slash trim_right
    drop_blanks atoi digits_value eq_bytes line_re open_mode_re mode_after find greedy lazy
    match_one match_plus match_lazy_plus match_optional
events = (refl, refl, refl, refl)
