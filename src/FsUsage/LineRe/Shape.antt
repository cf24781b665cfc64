-- ===== src/FsUsage/LineRe/Shape.antt =====
-- internal/tap/parse.go: the parts of a line that lineRE is written for.
use agentflash.Common.{ℕ, ◌≤◌, [], ◌∷◌, ◌++◌, ◌≡◌, ◌≢◌, ◌⊎◌, Bytes}
use agentflash.GoPath.Clean.{All}
use agentflash.FsUsage.{LineMatch}

-- White space: a tab, a newline, a form feed, a carriage return or a space.
abbrev pub IsBlank : ℕ → Type 0
IsBlank c = (c ≡ 9) ⊎ (c ≡ 10) ⊎ (c ≡ 12) ⊎ (c ≡ 13) ⊎ (c ≡ 32)

abbrev pub IsDecimal : ℕ → Type 0
IsDecimal c = (48 ≤ c) × (c ≤ 57)

abbrev pub IsWord : ℕ → Type 0
IsWord c = ¬ IsBlank c

abbrev pub IsInline : ℕ → Type 0
IsInline c = c ≢ 10

-- At least one byte, all of them of a kind.
abbrev pub Run : (ℕ → Type 0) → Bytes → Type 0
Run P s = (s ≢ []) × All P s

-- HH:MM:SS.f with a fraction of any length.
pub record ClockParts (s : Bytes) : Type 0 where
  pub h1 : ℕ
  pub h2 : ℕ
  pub m1 : ℕ
  pub m2 : ℕ
  pub s1 : ℕ
  pub s2 : ℕ
  pub fraction : Bytes
  pub digits : All IsDecimal (h1 ∷ h2 ∷ m1 ∷ m2 ∷ s1 ∷ s2 ∷ [])
  pub fraction_digits : Run IsDecimal fraction
  pub text : s ≡ h1 ∷ h2 ∷ b':' ∷ m1 ∷ m2 ∷ b':' ∷ s1 ∷ s2 ∷ b'.' ∷ fraction

-- A line of fs_usage, from its clock to its process ID: blanks or nothing, the clock, the call without
-- a blank, arguments without a newline, the duration in seconds, a W or nothing, the process without a
-- blank, a dot and the process ID. Blanks stand between them; before the W and at the end they may be
-- missing.
pub record LineParts (line : Bytes) (m : LineMatch) : Type 0 where
  pub margin : Bytes
  pub margin_blank : All IsBlank margin
  pub clock : ClockParts m.clock
  pub gap1 : Bytes
  pub gap1_blank : Run IsBlank gap1
  pub call_word : Run IsWord m.call
  pub gap2 : Bytes
  pub gap2_blank : Run IsBlank gap2
  pub args_line : Run IsInline m.args
  pub gap3 : Bytes
  pub gap3_blank : Run IsBlank gap3
  pub seconds : Bytes
  pub seconds_digits : Run IsDecimal seconds
  pub fraction : Bytes
  pub fraction_digits : Run IsDecimal fraction
  pub gap4 : Bytes
  pub gap4_blank : All IsBlank gap4
  pub waited : Bytes
  pub waited_mark : (waited ≡ []) ⊎ (waited ≡ b'W' ∷ [])
  pub gap5 : Bytes
  pub gap5_blank : Run IsBlank gap5
  pub proc_word : Run IsWord m.proc
  pub pid_digits : Run IsDecimal m.pid_str
  pub gap6 : Bytes
  pub gap6_blank : All IsBlank gap6
  pub text :
      line
      ≡ margin
        ++ (m.clock
            ++ (gap1
                ++ (m.call
                    ++ (gap2
                        ++ (m.args
                            ++ (gap3
                                ++ (seconds
                                    ++ (b'.'
                                        ∷ (fraction
                                            ++ (gap4
                                                ++ (waited
                                                    ++ (gap5
                                                        ++ (m.proc
                                                            ++ (b'.'
                                                            ∷ (m.pid_str ++ gap6)))))))))))))))
