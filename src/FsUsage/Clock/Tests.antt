-- ===== src/FsUsage/Clock/Tests.antt =====
-- internal/tap/parse.go, parseClockOnDay: clocks of fs_usage.
use agentflash.Common.{ℕ, ◌+◌, ◌*◌, none, some, [], ◌∷◌, ◌≡◌, refl, codes, map}
use agentflash.Flags.{atoi, digits_value}
use agentflash.FsUsage.Clock.{
  Clock, parse_clock_on_day, parse_layout, get_below, get_byte, six_digits, any_digits,
  parse_nanoseconds, digits_of,
}

-- `time.Date` in a zone without changes of its offset: a day starts at `today`.
abbrev date_utc : ℕ → Clock → ℕ
date_utc today t =
    today * 86400000000000
    + (((t.hour * 60 + t.minute) * 60 + t.second) * 1000000000 + t.nanosecond)

-- Milliseconds, no fraction, a leap second, text behind the clock, and ten digits, of which the last
-- one is dropped.
other_clocks :
    map
      (λ text. parse_clock_on_day date_utc (codes text) 0)
      ("14:03:27.123" ∷ "14:03:27" ∷ "23:59:60.000000" ∷ "14:03:27.123456 " ∷ "00:00:00.0000000019"
        ∷ [])
    ≡ some 50607123000000 ∷ some 50607000000000 ∷ none ∷ none ∷ some 1 ∷ []
unfolding parse_clock_on_day parse_layout get_below get_byte six_digits any_digits parse_nanoseconds
    digits_of atoi digits_value
other_clocks = refl
