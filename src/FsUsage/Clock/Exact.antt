-- ===== src/FsUsage/Clock/Exact.antt =====
-- internal/tap/parse.go, parseClockOnDay: the clocks that lineRE lets through.
use agentflash.Common.{
  ℕ, zero, suc, ◌+◌, ◌-◌, ◌*◌, ◌^◌, ◌≤◌, ◌<◌, Bool, true, false, ◌&&◌, Option, none, some, [], ◌∷◌,
  ◌≡◌, ◌≢◌, ◌⊎◌, inl, inr, refl, sym, ap, ◌∙◌, arith, Bytes, ltb, if◌then◌else◌, length,
  length-take, take, drop, Bool-cases,
}
use native.Mathlib.Nat.{pow-suc, pow-le-pow_right}
use agentflash.Common.Int.{pos}
use agentflash.GoPath.Clean.{All}
use agentflash.Flags.{atoi, digits_value}
use agentflash.Flags.Pids.{IsDigit, atoi-value}
use agentflash.FsUsage.Clock.{
  Clock, get_num, get_below, get_byte, parse_nanoseconds, digits_of, six_digits, any_digits, at_end,
  parse_layout, parse_clock_on_day, ◌>>=◌,
}

-- The number that digits stand for, going on from `n`.
abbrev pub value : ℕ → Bytes → ℕ
value n [] = n
value n (c ∷ cs) = value (n * 10 + (c - b'0')) cs

digits_value-value : (n : ℕ) (cs : Bytes) → All IsDigit cs → digits_value n cs ≡ some (value n cs)
unfolding digits_value
digits_value-value n [] h = refl
digits_value-value n (c ∷ cs) (d, h) = rw d (digits_value-value (n * 10 + (c - b'0')) cs h)

one_more : (n d p v : ℕ) → d < 10 → v + 1 ≤ (n * 10 + d + 1) * p → v + 1 ≤ (n + 1) * (p * 10)
one_more n d p v h b = grind arith

digit_small : (c : ℕ) → IsDigit c → c - b'0' < 10
digit_small c d = ground arith

value_bound : (n : ℕ) (cs : Bytes) → All IsDigit cs → value n cs + 1 ≤ (n + 1) * 10 ^ length cs
value_bound n [] h = omega arith
value_bound n (c ∷ cs) (d, h) = rw (pow-suc 10 (length cs)) (
    one_more n (c - b'0') (10 ^ length cs) (value n (c ∷ cs)) (digit_small c d)
      (value_bound (n * 10 + (c - b'0')) cs h))

value-fits : (cs : Bytes) → All IsDigit cs → length cs ≤ 9 → value 0 cs < 2 ^ 63
value-fits cs h l =
    let most : 10 ^ length cs ≤ 10 ^ 9 = pow-le-pow_right (omega arith) l in
    omega (arith, value_bound 0 cs h, most)

atoi-digits :
    (cs : Bytes) → cs ≢ [] → All IsDigit cs → length cs ≤ 9 → atoi cs ≡ some (pos (value 0 cs))
atoi-digits [] ne h l = absurd (ne refl)
atoi-digits (c ∷ cs) ne (d, h) l =
    atoi-value c cs (value 0 (c ∷ cs)) d (digits_value-value 0 (c ∷ cs) (d, h))
      (value-fits (c ∷ cs) (d, h) l)

-- The nanoseconds of a fraction.
abbrev pub nanoseconds : Bytes → ℕ
nanoseconds f = value 0 (take 9 f) * 10 ^ (9 - length (take 9 f))

All-take : (n : ℕ) (cs : Bytes) → All IsDigit cs → All IsDigit (take n cs)
All-take zero cs h = tt
All-take (suc n) [] h = tt
All-take (suc n) (c ∷ cs) (d, h) = (d, All-take n cs h)

parse_nanoseconds-digits :
    (c : ℕ) (cs : Bytes)
    → All IsDigit (c ∷ cs)
    → parse_nanoseconds (c ∷ cs) ≡ some (nanoseconds (c ∷ cs))
unfolding parse_nanoseconds
parse_nanoseconds-digits c cs (d, h) = rw (
  parse_nanoseconds,
  atoi-digits (c ∷ take 8 cs) (λ e. cc) (d, All-take 8 cs h) (omega (arith, length-take 8 cs)),
)

digits_of-digits : (cs : Bytes) → All IsDigit cs → digits_of cs ≡ cs
unfolding digits_of
digits_of-digits [] h = refl
digits_of-digits (c ∷ cs) (d, h) = rw (d, digits_of-digits cs h)

drop-length : (cs : Bytes) → drop (length cs) cs ≡ []
drop-length [] = refl
drop-length (c ∷ cs) = drop-length cs

any_digits-digits :
    (c : ℕ) (cs : Bytes)
    → All IsDigit (c ∷ cs)
    → any_digits (b'.' ∷ c ∷ cs) ≡ some (nanoseconds (c ∷ cs), [])
unfolding any_digits
any_digits-digits c cs (d, h) =
    rw (any_digits, d, digits_of-digits (c ∷ cs) (d, h), parse_nanoseconds-digits c cs (d, h))
      (ap (λ x. some (nanoseconds (c ∷ cs), drop (length x) (c ∷ cs)))
          (digits_of-digits (c ∷ cs) (d, h))
        ∙ ap (λ x. some (nanoseconds (c ∷ cs), x)) (drop-length (c ∷ cs)))

-- The first form takes six digits, and gives what the second does where there are no more.
six_digits-more :
    (cs : Bytes)
    → ltb (length cs) 6 ≡ false
    → All IsDigit cs
    → six_digits (b'.' ∷ cs) ≡ some (nanoseconds (take 6 cs), drop 6 cs)
unfolding six_digits
six_digits-more [] l h = cc
six_digits-more (c ∷ cs) l (d, h) =
    rw (six_digits, l, parse_nanoseconds-digits c (take 5 cs) (d, All-take 5 cs h))

six_digits-few : (cs : Bytes) → ltb (length cs) 6 ≡ true → six_digits (b'.' ∷ cs) ≡ none
unfolding six_digits
six_digits-few cs l = rw (six_digits, l)

-- Two digits below a bound.
get_below-digits :
    (bound a b : ℕ) (fixed : Bool) (rest : Bytes)
    → IsDigit a
    → IsDigit b
    → get_below bound fixed (a ∷ b ∷ rest)
      ≡ (let n = (a - b'0') * 10 + (b - b'0') in if ltb n bound then some (n, rest) else none)
unfolding get_below get_num
get_below-digits bound a b fixed rest d e = rw (get_below, get_num, d, e)

abbrev pub two : ℕ → ℕ → ℕ
two a b = (a - b'0') * 10 + (b - b'0')

abbrev pub in_day : ℕ → ℕ → ℕ → Bool
in_day h m s = ltb h 24 && ltb m 60 && ltb s 60

-- The parts of a clock, before its fraction.
module _ (a b c d e f : ℕ) (rest : Bytes) (ha : IsDigit a) (hb : IsDigit b) (hc : IsDigit c)
    (hd : IsDigit d) (he : IsDigit e) (hf : IsDigit f) where
  parse_layout-digits :
      (fraction : Bytes → Option (ℕ × Bytes))
      → parse_layout fraction (a ∷ b ∷ b':' ∷ c ∷ d ∷ b':' ∷ e ∷ f ∷ rest) ≡ (
          if in_day (two a b) (two c d) (two e f)
          then fraction rest >>= at_end (two a b) (two c d) (two e f)
          else none)
  unfolding parse_layout get_byte
  parse_layout-digits fraction = elim (Bool-cases (ltb (two a b) 24)) [
    | inr past ↦ rw (
      parse_layout,
      get_below-digits 24 a b false (b':' ∷ c ∷ d ∷ b':' ∷ e ∷ f ∷ rest) ha hb,
      past,
    )
    | inl h ↦ elim (Bool-cases (ltb (two c d) 60)) [
      | inr past ↦ rw (
        parse_layout,
        get_below-digits 24 a b false (b':' ∷ c ∷ d ∷ b':' ∷ e ∷ f ∷ rest) ha hb,
        h,
        get_below-digits 60 c d true (b':' ∷ e ∷ f ∷ rest) hc hd,
        past,
      )
      | inl m ↦ elim (Bool-cases (ltb (two e f) 60)) [
        | inr past ↦ rw (
          parse_layout,
          get_below-digits 24 a b false (b':' ∷ c ∷ d ∷ b':' ∷ e ∷ f ∷ rest) ha hb,
          h,
          get_below-digits 60 c d true (b':' ∷ e ∷ f ∷ rest) hc hd,
          m,
          get_below-digits 60 e f true rest he hf,
          past,
        )
        | inl s ↦ rw (
          parse_layout,
          get_below-digits 24 a b false (b':' ∷ c ∷ d ∷ b':' ∷ e ∷ f ∷ rest) ha hb,
          h,
          get_below-digits 60 c d true (b':' ∷ e ∷ f ∷ rest) hc hd,
          m,
          get_below-digits 60 e f true rest he hf,
          s,
        )
      ]
    ]
  ]

drop-take : (n : ℕ) (cs : Bytes) → drop n cs ≡ [] → take n cs ≡ cs
drop-take zero cs e = sym e
drop-take (suc n) [] e = refl
drop-take (suc n) (c ∷ cs) e = rw (drop-take n cs e)

List-cases : (cs : Bytes) → (cs ≡ []) ⊎ ((c : ℕ) × (rest : Bytes) × cs ≡ c ∷ rest)
List-cases [] = inl refl
List-cases (c ∷ cs) = inr (c, cs, refl)

-- Of a fraction in digits, the first form either fails or gives what the second gives.
six_or_any :
    (h m s c : ℕ) (cs : Bytes)
    → All IsDigit (c ∷ cs)
    → ((six_digits (b'.' ∷ c ∷ cs) >>= at_end h m s) ≡ none)
      ⊎ ((six_digits (b'.' ∷ c ∷ cs) >>= at_end h m s)
          ≡ (any_digits (b'.' ∷ c ∷ cs) >>= at_end h m s))
six_or_any h m s c cs ds = elim (Bool-cases (ltb (length (c ∷ cs)) 6)) [
  | inl few ↦ inl (rw (six_digits-few (c ∷ cs) few))
  | inr many ↦ elim (List-cases (drop 6 (c ∷ cs))) [
    | inl all_read ↦ inr (
        rw (
          six_digits-more (c ∷ cs) many ds,
          any_digits-digits c cs ds,
          all_read,
          drop-take 5 cs all_read,
        ))
    | inr (b, rest, left) ↦ inl (rw (six_digits-more (c ∷ cs) many ds, left))
  ]
]

module _ (date : ℕ → Clock → ℕ) where
  one_of_two :
      (fits : Bool) (clock : Bytes) (today : ℕ) (first : Option Clock) (t : Clock)
      → parse_layout six_digits clock ≡ (if fits then first else none)
      → parse_layout any_digits clock ≡ (if fits then some t else none)
      → (first ≡ none) ⊎ (first ≡ some t)
      → parse_clock_on_day date clock today ≡ (if fits then some (date today t) else none)
  unfolding parse_clock_on_day
  one_of_two false clock today first t six any same = rw (parse_clock_on_day, six, any)
  one_of_two true clock today first t six any (inl fails) = rw (parse_clock_on_day, six, fails, any)
  one_of_two true clock today first t six any (inr same) = rw (parse_clock_on_day, six, same)

  -- A clock of two digits for each of its parts and a fraction in digits stands for that time of the
  -- day, if it is one: nine digits of the fraction count.
  pub parse_clock_on_day-digits :
      (a b c d e f g : ℕ) (fs : Bytes) (today : ℕ)
      → All IsDigit (a ∷ b ∷ c ∷ d ∷ e ∷ f ∷ g ∷ fs)
      → parse_clock_on_day date (a ∷ b ∷ b':' ∷ c ∷ d ∷ b':' ∷ e ∷ f ∷ b'.' ∷ g ∷ fs) today ≡ (
          if in_day (two a b) (two c d) (two e f)
          then some (
              date today (record {
                hour = two a b;
                minute = two c d;
                second = two e f;
                nanosecond = nanoseconds (g ∷ fs);
              }))
          else none)
  parse_clock_on_day-digits a b c d e f g fs today (ha, (hb, (hc, (hd, (he, (hf, hg)))))) =
      one_of_two (in_day (two a b) (two c d) (two e f))
        (a ∷ b ∷ b':' ∷ c ∷ d ∷ b':' ∷ e ∷ f ∷ b'.' ∷ g ∷ fs) today
        (six_digits (b'.' ∷ g ∷ fs) >>= at_end (two a b) (two c d) (two e f))
        (record {
          hour = two a b;
          minute = two c d;
          second = two e f;
          nanosecond = nanoseconds (g ∷ fs);
        })
        (parse_layout-digits a b c d e f (b'.' ∷ g ∷ fs) ha hb hc hd he hf six_digits)
        (parse_layout-digits a b c d e f (b'.' ∷ g ∷ fs) ha hb hc hd he hf any_digits
          ∙ ap
              (λ x.
                if in_day (two a b) (two c d) (two e f)
                then x >>= at_end (two a b) (two c d) (two e f)
                else none)
              (any_digits-digits g fs hg))
        (elim (six_or_any (two a b) (two c d) (two e f) g fs hg) [
          | inl fails ↦ inl fails
          | inr same ↦ inr (
              same
              ∙ ap (λ x. x >>= at_end (two a b) (two c d) (two e f)) (any_digits-digits g fs hg))
        ])
