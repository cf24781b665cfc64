-- ===== src/FsUsage/Clock.antt =====
-- internal/tap/parse.go: parseClockOnDay, over the part of `time.Parse` that its two layouts use.
-- `date` is `time.Date` on the day and in the location of `today`; of a time, the model has its
-- count of nanoseconds.
pub mod Exact
mod Tests
use agentflash.Common.{
  ℕ, ◌+◌, ◌-◌, ◌*◌, ◌^◌, Bool, true, false, not, ◌&&◌, ◌||◌, Option, none, some, List, [], ◌∷◌,
  Bytes, ltb, ◌==◌, if◌then◌else◌, length, take, drop,
}
use agentflash.Common.Int.{ℤ, pos, negsuc}
use agentflash.Flags.{is_digit, atoi}

pub record Clock : Type 0 where
  pub hour : ℕ
  pub minute : ℕ
  pub second : ℕ
  pub nanosecond : ℕ

-- The number of two digits, or of one where only that is asked for, and the rest of the text.
pub get_num : Bool → Bytes → Option (ℕ × Bytes)
get_num fixed [] = none
get_num fixed (c ∷ []) = if is_digit c then (if fixed then none else some (c - b'0', [])) else none
get_num fixed (c ∷ d ∷ cs) =
    if not (is_digit c)
    then none
    else if is_digit d
    then some ((c - b'0') * 10 + (d - b'0'), cs)
    else if fixed
    then none
    else some (c - b'0', d ∷ cs)

-- A number below its bound.
pub get_below : ℕ → Bool → Bytes → Option (ℕ × Bytes)
unfolding get_num
get_below bound fixed s = elim (get_num fixed s) [
  | none ↦ none
  | some (n, rest) ↦ if ltb n bound then some (n, rest) else none
]

-- A byte that the layout has.
pub get_byte : ℕ → Bytes → Option Bytes
get_byte b [] = none
get_byte b (c ∷ cs) = if c == b then some cs else none

abbrev pub comma_or_period : ℕ → Bool
comma_or_period c = c == b'.' || c == b','

-- `parseNanoseconds` of the digits behind the point, of which nine count.
pub parse_nanoseconds : Bytes → Option ℕ
parse_nanoseconds digits =
    let counted = take 9 digits in
    elim (atoi counted) [
      | none ↦ none
      | some (negsuc n) ↦ none
      | some (pos n) ↦ some (n * 10 ^ (9 - length counted))
    ]

-- The leading digits of a text.
pub digits_of : Bytes → Bytes
digits_of [] = []
digits_of (c ∷ cs) = if is_digit c then c ∷ digits_of cs else []

-- The two forms of the fraction, `.000000` and `.999999`, with the rest of the text. The second may
-- be left out and have any number of digits.
pub six_digits : Bytes → Option (ℕ × Bytes)
six_digits [] = none
six_digits (c ∷ cs) =
    if ltb (length cs) 6
    then none
    else if not (comma_or_period c)
    then none
    else elim (parse_nanoseconds (take 6 cs)) [ none ↦ none | some n ↦ some (n, drop 6 cs) ]

pub any_digits : Bytes → Option (ℕ × Bytes)
any_digits [] = some (0, [])
any_digits (c ∷ []) = some (0, c ∷ [])
any_digits (c ∷ d ∷ cs) =
    if not (comma_or_period c) || not (is_digit d)
    then some (0, c ∷ d ∷ cs)
    else elim (parse_nanoseconds (digits_of (d ∷ cs))) [
      | none ↦ none
      | some n ↦ some (n, drop (length (digits_of (d ∷ cs))) (d ∷ cs))
    ]

-- The end of `time.Parse`: text behind the layout is an error.
abbrev pub at_end : ℕ → ℕ → ℕ → ℕ × Bytes → Option Clock
at_end h m s (n, []) = some (record { hour = h; minute = m; second = s; nanosecond = n })
at_end h m s (n, c ∷ cs) = none

infixl 5 ◌>>=◌
abbrev pub ◌>>=◌ : {A B : Type 0} → Option A → (A → Option B) → Option B
none >>= f = none
some a >>= f = f a

-- `time.Parse` by a layout that is `15:04:05` and a form of the fraction.
pub parse_layout : (Bytes → Option (ℕ × Bytes)) → Bytes → Option Clock
parse_layout fraction clock = do
  (h, s1) ← get_below 24 false clock
  s2 ← get_byte b':' s1
  (m, s3) ← get_below 60 true s2
  s4 ← get_byte b':' s3
  (s, s5) ← get_below 60 true s4
  f ← fraction s5
  at_end h m s f

module _ (date : ℕ → Clock → ℕ) where
  pub parse_clock_on_day : Bytes → ℕ → Option ℕ
  parse_clock_on_day clock today = elim (parse_layout six_digits clock) [
    | some t ↦ some (date today t)
    | none ↦ elim (parse_layout any_digits clock) [ some t ↦ some (date today t) | none ↦ none ]
  ]
