-- ===== src/FsUsage/LineRe/TimeOfDay.antt =====
-- internal/tap/parse.go, ParseLine: the clock of a line that lineRE matches.
use agentflash.Common.{
  ℕ, true, none, some, [], ◌∷◌, ◌≡◌, sym, ap, ◌∙◌, Bytes, if◌then◌else◌, take, drop, append-nil,
  ◌==◌, arith,
}
use mathlib.Core.Path.{subst}
use agentflash.GoPath.Clean.{All}
use agentflash.Flags.Pids.{IsDigit}
use agentflash.FsUsage.{LineMatch}
use agentflash.FsUsage.Regex.{Pieces}
use agentflash.FsUsage.Regex.Exact.{Fits, text_of}
use agentflash.FsUsage.Clock.{Clock, parse_clock_on_day}
use agentflash.FsUsage.Clock.Exact.{two, in_day, nanoseconds, parse_clock_on_day-digits}
use agentflash.FsUsage.LineRe.{line_items, line_re}
use agentflash.FsUsage.LineRe.Exact.{LineSpec, line_re_lem}

-- A clock in digits.
pub record ClockText (s : Bytes) : Type 0 where
  pub a : ℕ
  pub b : ℕ
  pub c : ℕ
  pub d : ℕ
  pub e : ℕ
  pub f : ℕ
  pub g : ℕ
  pub fs : Bytes
  pub digits : All IsDigit (a ∷ b ∷ c ∷ d ∷ e ∷ f ∷ g ∷ fs)
  pub text : s ≡ a ∷ b ∷ b':' ∷ c ∷ d ∷ b':' ∷ e ∷ f ∷ b'.' ∷ g ∷ fs

is_byte : (x b : ℕ) → (x == b) ≡ true → x ≡ b
is_byte x b e = ground arith

clock_pieces : (ps : Pieces) → Fits line_items ps → ClockText (text_of (take 10 (drop 1 ps)))
clock_pieces [] f = absurd f
clock_pieces (s ∷ []) (_, f) = absurd f
clock_pieces (s ∷ p1 ∷ []) (_, (_, f)) = absurd f
clock_pieces (s ∷ p1 ∷ p2 ∷ []) (_, (_, (_, f))) = absurd f
clock_pieces (s ∷ p1 ∷ p2 ∷ p3 ∷ []) (_, (_, (_, (_, f)))) = absurd f
clock_pieces (s ∷ p1 ∷ p2 ∷ p3 ∷ p4 ∷ []) (_, (_, (_, (_, (_, f))))) = absurd f
clock_pieces (s ∷ p1 ∷ p2 ∷ p3 ∷ p4 ∷ p5 ∷ []) (_, (_, (_, (_, (_, (_, f)))))) = absurd f
clock_pieces (s ∷ p1 ∷ p2 ∷ p3 ∷ p4 ∷ p5 ∷ p6 ∷ []) (_, (_, (_, (_, (_, (_, (_, f))))))) = absurd f
clock_pieces (s ∷ p1 ∷ p2 ∷ p3 ∷ p4 ∷ p5 ∷ p6 ∷ p7 ∷ []) (_, (_, (_, (_, (_, (_, (_, (_, f)))))))) =
    absurd f
clock_pieces (s ∷ p1 ∷ p2 ∷ p3 ∷ p4 ∷ p5 ∷ p6 ∷ p7 ∷ p8 ∷ [])
      (_, (_, (_, (_, (_, (_, (_, (_, (_, f))))))))) =
    absurd f
clock_pieces (s ∷ p1 ∷ p2 ∷ p3 ∷ p4 ∷ p5 ∷ p6 ∷ p7 ∷ p8 ∷ p9 ∷ [])
      (_, (_, (_, (_, (_, (_, (_, (_, (_, (_, f)))))))))) =
    absurd f
clock_pieces (s ∷ p1 ∷ p2 ∷ p3 ∷ p4 ∷ p5 ∷ p6 ∷ p7 ∷ p8 ∷ p9 ∷ p10 ∷ rest)
      (
        blanks,
        (
          (a, ea, da),
          (
            (b, eb, db),
            (
              (u, eu, du),
              (
                (c, ec, dc),
                (
                  (d, ed, dd),
                  (
                    (v, ev, dv),
                    ((e, ee, de), ((f, ef, df), ((w, ew, dw), ((g, fs, eg, dg, dfs), more)))),
                  ),
                ),
              ),
            ),
          ),
        ),
      ) =
    record {
      a = a;
      b = b;
      c = c;
      d = d;
      e = e;
      f = f;
      g = g;
      fs = fs;
      digits = (da, (db, (dc, (dd, (de, (df, (dg, dfs)))))));
      text = rw (
        ea,
        eb,
        eu,
        ec,
        ed,
        ev,
        ee,
        ef,
        ew,
        eg,
        is_byte u b':' du,
        is_byte v b':' dv,
        is_byte w b'.' dw,
        append-nil,
      );
    }

module _ (date : ℕ → Clock → ℕ) where
  -- Whatever the line, if lineRE matches it, its clock is two digits for each of the hour, the minute
  -- and the second and a fraction in digits, and parseClockOnDay reads it as that time of the day, of
  -- whose fraction nine digits count. It refuses the clock exactly where there is no such time: an
  -- hour above 23, a minute above 59 or a second above 59.
  pub line_re-time :
      (line : Bytes) (today : ℕ) {m : LineMatch}
      → line_re line ≡ some m
      → (t : ClockText m.clock) × (parse_clock_on_day date m.clock today ≡ (
          if in_day (two t.a t.b) (two t.c t.d) (two t.e t.f)
          then some (
              date today (record {
                hour = two t.a t.b;
                minute = two t.c t.d;
                second = two t.e t.f;
                nanosecond = nanoseconds (t.g ∷ t.fs);
              }))
          else none))
  line_re-time line today {m} e =
      let (ps, fits, _, same) = subst (LineSpec line) e (line_re_lem line) in
      let t = subst (λ x. ClockText x.clock) (sym same) (clock_pieces ps fits) in
      (
        t,
        ap (λ s. parse_clock_on_day date s today) t.text
            ∙ parse_clock_on_day-digits date t.a t.b t.c t.d t.e t.f t.g t.fs today t.digits,
      )
