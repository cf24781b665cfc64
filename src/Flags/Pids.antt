-- ===== src/Flags/Pids.antt =====
-- main.go and internal/ui/spawn.go: process IDs printed and parsed.
use mathlib.Core.Option.{some-injective}
use agentflash.Common.{
  ℕ, zero, suc, ◌+◌, ◌-◌, ◌*◌, ◌/◌, ◌%◌, ◌^◌, ◌≤◌, ◌<◌, true, false, some, [], ◌∷◌, ◌++◌, reverse,
  ◌≡◌, refl, ap, ◌∙◌, arith, inl, inr, Bytes, ltb, ◌==◌, eq_bytes, Bool-cases, reverse-reverse, ◌≢◌,
  ltb→lt, lt→ltb,
}
use agentflash.Common.Int.{pos}
use agentflash.GoPath.{split_at}
use agentflash.GoPath.Clean.{All, All-append, All-reverse}
use agentflash.Flags.{
  comma, space_size, space_size_back, trim_by, trim_space, is_digit, digits_value, signed, atoi,
  pids_of, parse_pids, itoa_loop, itoa,
}

abbrev pub IsDigit : ℕ → Type 0
IsDigit c = is_digit c ≡ true

digits_value-digit : (m d : ℕ) → d < 10 → digits_value m ((b'0' + d) ∷ []) ≡ some (m * 10 + d)
unfolding digits_value
digits_value-digit m d h = rw (digit d h) (ap some (omega arith))
  where
    digit : (d : ℕ) → d < 10 → is_digit (b'0' + d) ≡ true
    digit d h = ground arith

digits_value-append :
    (n : ℕ) (cs : Bytes) (d m : ℕ)
    → digits_value n cs ≡ some m
    → d < 10
    → digits_value n (cs ++ (b'0' + d) ∷ []) ≡ some (m * 10 + d)
unfolding digits_value
digits_value-append n [] d m e h =
    digits_value-digit n d h ∙ ap (λ x. some (x * 10 + d)) (some-injective _ _ e)
digits_value-append n (c ∷ cs) d m e h = elim (Bool-cases (is_digit c)) [
  | inl digit ↦
      rw digit (digits_value-append (n * 10 + (c - b'0')) cs d m (rw (digits_value, digit) at e) h)
  | inr other ↦ cc (rw (digits_value, other) at e)
]

itoa_loop-value : (fuel n : ℕ) → n ≤ fuel → digits_value 0 (itoa_loop fuel n) ≡ some n
unfolding itoa_loop
itoa_loop-value zero n h = digits_value-digit 0 (n % 10) (omega arith) ∙ ap some (omega arith)
itoa_loop-value (suc fuel) n h = elim (Bool-cases (ltb n 10)) [
  | inl small ↦ rw small (digits_value-digit 0 n (ltb→lt n 10 small) ∙ ap some (omega arith))
  | inr large ↦ rw large (
      digits_value-append 0 (itoa_loop fuel (n / 10)) (n % 10) (n / 10)
        (itoa_loop-value fuel (n / 10) (below (ge large))) (omega arith)
      ∙ ap some (omega arith))
]
  where
    ge : ltb n 10 ≡ false → 10 ≤ n
    ge e = ground arith

    below : 10 ≤ n → n / 10 ≤ fuel
    below g = omega arith

itoa_loop-IsDigit : (fuel n : ℕ) → All IsDigit (itoa_loop fuel n)
unfolding itoa_loop
itoa_loop-IsDigit zero n = (digit, tt)
  where
    digit : IsDigit (b'0' + n % 10)
    digit = ground arith
itoa_loop-IsDigit (suc fuel) n = elim (Bool-cases (ltb n 10)) [
  | inl small ↦ rw small (first small, tt)
  | inr large ↦ rw large (
      All-append IsDigit (itoa_loop fuel (n / 10)) ((b'0' + n % 10) ∷ [])
        (itoa_loop-IsDigit fuel (n / 10)) (last, tt))
]
  where
    first : ltb n 10 ≡ true → IsDigit (b'0' + n)
    first s = ground arith

    last : IsDigit (b'0' + n % 10)
    last = ground arith

-- Digits hold no comma and no space.
split_at-IsDigit : (s : Bytes) → All IsDigit s → split_at comma s ≡ s ∷ []
unfolding split_at
split_at-IsDigit [] h = refl
split_at-IsDigit (c ∷ cs) (d, h) = rw (no_comma d, split_at-IsDigit cs h)
  where
    no_comma : IsDigit c → (c == comma) ≡ false
    no_comma d = ground arith

space_size-digit : (c : ℕ) (cs : Bytes) → IsDigit c → space_size (c ∷ cs) ≡ 0
unfolding space_size
space_size-digit c [] d = ground arith
space_size-digit c (a ∷ []) d = ground arith
space_size-digit c (a ∷ b ∷ cs) d = ground arith

space_size_back-digit :
    (c : ℕ) (cs : Bytes) → IsDigit c → All IsDigit cs → space_size_back (c ∷ cs) ≡ 0
unfolding space_size_back
space_size_back-digit c [] d h = ground arith
space_size_back-digit c (a ∷ []) d (da, h) = ground arith
space_size_back-digit c (a ∷ b ∷ cs) d (da, (db, h)) = ground arith

trim_by-none : (size : Bytes → ℕ) (s : Bytes) → size s ≡ 0 → trim_by size 0 s ≡ s
unfolding trim_by
trim_by-none size [] h = refl
trim_by-none size (c ∷ cs) h = rw h refl

trim_front-IsDigit : (s : Bytes) → All IsDigit s → trim_by space_size 0 s ≡ s
unfolding trim_by
trim_front-IsDigit [] h = refl
trim_front-IsDigit (c ∷ cs) (d, h) = trim_by-none space_size (c ∷ cs) (space_size-digit c cs d)

trim_back-IsDigit : (s : Bytes) → All IsDigit s → trim_by space_size_back 0 s ≡ s
unfolding trim_by
trim_back-IsDigit [] h = refl
trim_back-IsDigit (c ∷ cs) (d, h) =
    trim_by-none space_size_back (c ∷ cs) (space_size_back-digit c cs d h)

trim_space-IsDigit : (s : Bytes) → All IsDigit s → trim_space s ≡ s
unfolding trim_space
trim_space-IsDigit s h =
    rw (trim_front-IsDigit s h, trim_back-IsDigit (reverse s) (All-reverse IsDigit s h))
      (reverse-reverse s)

-- `Atoi` reads what begins with a digit as a number of digits.
pub atoi-value :
    (c : ℕ) (cs : Bytes) (n : ℕ)
    → IsDigit c
    → digits_value 0 (c ∷ cs) ≡ some n
    → n < 2 ^ 63
    → atoi (c ∷ cs) ≡ some (pos n)
unfolding atoi
atoi-value c cs n d v r = rw (minus d, plus d) (signed-value v)
  where
    minus : IsDigit c → (c == b'-') ≡ false
    minus d = ground arith

    plus : IsDigit c → (c == b'+') ≡ false
    plus d = ground arith

    signed-value : digits_value 0 (c ∷ cs) ≡ some n → signed false (c ∷ cs) ≡ some (pos n)
    signed-value v = rw (signed, v, lt→ltb n (2 ^ 63) r)

parse_pids-digits :
    (s : Bytes) (n : ℕ)
    → All IsDigit s
    → s ≢ []
    → digits_value 0 s ≡ some n
    → n < 2 ^ 63
    → parse_pids s ≡ some (pos n ∷ [])
unfolding parse_pids pids_of eq_bytes
parse_pids-digits [] n h ne v r = absurd (ne refl)
parse_pids-digits (c ∷ cs) n (d, h) ne v r =
    rw (
      split_at-IsDigit (c ∷ cs) (d, h),
      trim_space-IsDigit (c ∷ cs) (d, h),
      atoi-value c cs n d v r,
    )

snoc_ne : (xs : Bytes) (y : ℕ) → xs ++ y ∷ [] ≢ []
snoc_ne [] y e = cc
snoc_ne (x ∷ xs) y e = cc

itoa_loop_ne : (fuel n : ℕ) → itoa_loop fuel n ≢ []
unfolding itoa_loop
itoa_loop_ne zero n e = cc
itoa_loop_ne (suc fuel) n e = elim (Bool-cases (ltb n 10)) [
  | inl small ↦ cc (rw (itoa_loop, small) at e)
  | inr large ↦ snoc_ne (itoa_loop fuel (n / 10)) (b'0' + n % 10) (rw (itoa_loop, large) at e)
]

-- The process ID that the UI passes in --exclude-pid is the one number that the tap reads from
-- it, whatever 63-bit number it is.
pub parse_pids-itoa : (pid : ℕ) → pid < 2 ^ 63 → parse_pids (itoa pid) ≡ some (pos pid ∷ [])
unfolding itoa
parse_pids-itoa pid r =
    parse_pids-digits (itoa_loop pid pid) pid (itoa_loop-IsDigit pid pid) (itoa_loop_ne pid pid)
      (itoa_loop-value pid pid (omega arith)) r
