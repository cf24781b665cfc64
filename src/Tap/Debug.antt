-- ===== src/Tap/Debug.antt =====
-- internal/tap/tap_linux.go: the samples that the debug flag has the loop log, and the lines of the
-- raw dump.
use agentflash.Common.{
  ℕ, zero, suc, ◌+◌, ◌-◌, ◌/◌, ◌%◌, ◌≤◌, Bool, true, false, ◌&&◌, Option, none, some, List, [], ◌∷◌,
  ◌++◌, ◌≡◌, refl, sym, ◌∙◌, arith, Bytes, codes, ltb, ltb→lt, length, length-append, if◌then◌else◌,
}
use mathlib.Core.Bool.{true≢false}
use agentflash.Common.Int.{ℤ, pos, negsuc}
use agentflash.Flags.{itoa}

-- A line of the log: a path with its process ID, or all of an event but its time.
pub data AccessSample : Type 0 where
  filtered_access : Bytes → ℤ → AccessSample
  kept_access : (op path process : Bytes) → ℤ → AccessSample

pub record AccessSamples : Type 0 where
  pub parsed : ℕ
  pub filtered : ℕ
  pub logged : List AccessSample

abbrev pub no_samples : AccessSamples
no_samples = record { parsed = 0; filtered = 0; logged = [] }

abbrev pub max_access_samples : ℕ
max_access_samples = 200

unfoldable pub log_filtered : Bool → Bytes → ℤ → AccessSamples → AccessSamples
log_filtered debug path pid s =
    if debug && ltb s.filtered max_access_samples
    then record s { filtered = s.filtered + 1; logged = s.logged ++ filtered_access path pid ∷ [] }
    else s

unfoldable pub log_kept : Bool → AccessSample → AccessSamples → AccessSamples
log_kept debug sample s =
    if debug && ltb s.parsed max_access_samples
    then record s { parsed = s.parsed + 1; logged = s.logged ++ sample ∷ [] }
    else s

-- What is logged is what the two counts say; nothing without the debug flag.
pub record FewLogged (debug : Bool) (s : AccessSamples) : Type 0 where
  pub silent : debug ≡ false → s.logged ≡ []
  pub total : length s.logged ≡ s.parsed + s.filtered
  pub parsed_few : s.parsed ≤ max_access_samples
  pub filtered_few : s.filtered ≤ max_access_samples

pub no_samples-FewLogged : (debug : Bool) → FewLogged debug no_samples
no_samples-FewLogged debug = record {
  silent = λ off. refl;
  total = refl;
  parsed_few = omega arith;
  filtered_few = omega arith;
}

pub if_either :
    {A : Type 0} (P : A → Type 0) (c : Bool) {a b : A}
    → (c ≡ true → P a)
    → P b
    → P (if c then a else b)
if_either P true h k = h refl
if_either P false h k = k

pub and_left : (a b : Bool) → (a && b) ≡ true → a ≡ true
and_left true b e = refl
and_left false b e = cc

and_right : (a b : Bool) → (a && b) ≡ true → b ≡ true
and_right true b e = e
and_right false b e = cc

-- A sample is taken only with the debug flag on and its count below the bound.
pub below : (on : Bool) (n bound : ℕ) → (on && ltb n bound) ≡ true → n + 1 ≤ bound
below on n bound c = omega (arith, ltb→lt n bound (and_right on (ltb n bound) c))

pub loud : (on : Bool) (n bound : ℕ) {A : Type 0} → (on && ltb n bound) ≡ true → on ≡ false → A
loud on n bound c off = absurd (true≢false (sym (and_left on (ltb n bound) c) ∙ off))

module _ (debug : Bool) (s : AccessSamples) (few : FewLogged debug s) where
  pub log_filtered-FewLogged :
      (path : Bytes) (pid : ℤ) → FewLogged debug (log_filtered debug path pid s)
  unfolding log_filtered
  log_filtered-FewLogged path pid =
      if_either (FewLogged debug) _
        (λ go. record {
          silent = loud debug s.filtered max_access_samples go;
          total = omega (arith, length-append s.logged (filtered_access path pid ∷ []), few.total);
          parsed_few = few.parsed_few;
          filtered_few = below debug s.filtered max_access_samples go;
        })
        few

  pub log_kept-FewLogged : (sample : AccessSample) → FewLogged debug (log_kept debug sample s)
  unfolding log_kept
  log_kept-FewLogged sample =
      if_either (FewLogged debug) _
        (λ go. record {
          silent = loud debug s.parsed max_access_samples go;
          total = omega (arith, length-append s.logged (sample ∷ []), few.total);
          parsed_few = below debug s.parsed max_access_samples go;
          filtered_few = few.filtered_few;
        })
        few

-- The digit of `%x`.
abbrev hex_digit : ℕ → ℕ
hex_digit d = if ltb d 10 then b'0' + d else b'a' + (d - 10)

-- `%x` of a number, on fuel: each round takes four of its bits, so 16 rounds are enough for a
-- uint64.
unfoldable pub hex_loop : ℕ → ℕ → Bytes
hex_loop zero n = hex_digit (n % 16) ∷ []
hex_loop (suc fuel) n =
    let rest = hex_loop fuel (n / 16) in
    if ltb n 16 then hex_digit n ∷ [] else rest ++ hex_digit (n % 16) ∷ []

-- `%d`
abbrev decimal : ℤ → Bytes
decimal (pos n) = itoa n
decimal (negsuc n) = b'-' ∷ itoa (n + 1)

-- A line of the raw dump.
unfoldable pub raw_line : ℕ → ℤ → ℤ → Bytes
raw_line mask pid fd =
    codes "mask="
    ++ hex_loop 16 mask
    ++ codes " pid="
    ++ decimal pid
    ++ codes " fd="
    ++ decimal fd
    ++ b'\n' ∷ []

unfoldable pub dump_access : ℕ → ℤ → ℤ → Option Bytes → Option Bytes
dump_access mask pid fd none = none
dump_access mask pid fd (some out) = some (out ++ raw_line mask pid fd)
