-- ===== src/FsUsage/LineRe.antt =====
-- internal/tap/parse.go: lineRE and openModeRE, with the submatches that ParseLine takes.
pub mod Exact
pub mod Shape
pub mod Parts
pub mod TimeOfDay
mod Tests
use agentflash.Common.{
  ℕ, zero, suc, Bool, true, false, not, ◌&&◌, ◌||◌, Option, none, some, List, [], ◌∷◌, ◌++◌, Bytes,
  leb, ◌==◌, take, drop, if◌then◌else◌,
}
use agentflash.Flags.{is_digit}
use agentflash.FsUsage.{LineMatch}
use agentflash.FsUsage.Regex.{Set, Item, one, optional, star, plus, lazy_plus, Pieces, find}
use agentflash.FsUsage.Regex.Exact.{text_of}

-- `\s`, `\S` and `.`
abbrev pub blank : Set
blank c = c == 9 || c == 10 || c == 12 || c == 13 || c == 32

abbrev pub no_blank : Set
no_blank c = not (blank c)

abbrev pub any_byte : Set
any_byte c = not (c == 10)

abbrev pub just : ℕ → Set
just b c = c == b

abbrev pub line_items : List Item
line_items =
    star blank
    ∷ one is_digit
    ∷ one is_digit
    ∷ one (just b':')
    ∷ one is_digit
    ∷ one is_digit
    ∷ one (just b':')
    ∷ one is_digit
    ∷ one is_digit
    ∷ one (just b'.')
    ∷ plus is_digit
    ∷ plus blank
    ∷ plus no_blank
    ∷ plus blank
    ∷ lazy_plus any_byte
    ∷ plus blank
    ∷ plus is_digit
    ∷ one (just b'.')
    ∷ plus is_digit
    ∷ star blank
    ∷ optional (just b'W')
    ∷ plus blank
    ∷ lazy_plus no_blank
    ∷ one (just b'.')
    ∷ plus is_digit
    ∷ star blank
    ∷ []

abbrev pub piece : ℕ → Pieces → Bytes
piece n [] = []
piece zero (p ∷ ps) = p
piece (suc n) (p ∷ ps) = piece n ps

-- The groups of the expression: the clock is ten of its items, the others are one each.
abbrev pub line_match : Pieces → LineMatch
line_match ps = record {
  clock = text_of (take 10 (drop 1 ps));
  call = piece 12 ps;
  args = piece 14 ps;
  proc = piece 22 ps;
  pid_str = piece 24 ps;
}

-- `lineRE.FindStringSubmatch`
pub line_re : Bytes → Option LineMatch
line_re line = elim (find line_items line) [ none ↦ none | some ps ↦ some (line_match ps) ]

abbrev pub is_mode : Set
is_mode c = (leb b'A' c && leb c b'Z') || c == b'_'

-- What follows an opening parenthesis: at least one letter, and a closing one.
pub mode_after : Bytes → Option Bytes
mode_after [] = none
mode_after (c ∷ []) = none
mode_after (c ∷ d ∷ cs) =
    let rest = mode_after (d ∷ cs) in
    if not (is_mode c)
    then none
    else if d == b')'
    then some (c ∷ [])
    else elim rest [ none ↦ none | some m ↦ some (c ∷ m) ]

-- `openModeRE.FindStringSubmatch`, the group of its leftmost match.
pub open_mode_re : Bytes → Option Bytes
open_mode_re [] = none
open_mode_re (c ∷ cs) =
    let rest = open_mode_re cs in
    if not (c == b'(') then rest else elim (mode_after cs) [ none ↦ rest | some m ↦ some m ]
