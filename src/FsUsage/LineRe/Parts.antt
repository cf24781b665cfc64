-- ===== src/FsUsage/LineRe/Parts.antt =====
-- internal/tap/parse.go: the lines that lineRE matches, in words.
use mathlib.Core.Path.{subst}
use agentflash.Common.{
  ℕ, true, Option, none, some, List, [], ◌∷◌, ◌++◌, ◌≡◌, ◌⊎◌, refl, sym, ap, ◌∙◌, arith, inl, inr,
  Bytes, ◌==◌, append-nil,
}
use agentflash.GoPath.Clean.{All}
use agentflash.Flags.{is_digit}
use agentflash.FsUsage.{LineMatch}
use agentflash.FsUsage.Regex.{Set, Item, optional, plus, Pieces}
use agentflash.FsUsage.Regex.Exact.{In, Fits, FitsItem, text_of}
use agentflash.FsUsage.LineRe.{line_items, line_match, line_re, blank, no_blank, any_byte, just}
use agentflash.FsUsage.LineRe.Shape.{IsBlank, IsDecimal, IsWord, IsInline, Run, LineParts}
use agentflash.FsUsage.LineRe.Exact.{LineSpec, line_re_lem}

IsBlank-of : (x : ℕ) → blank x ≡ true → IsBlank x
IsBlank-of x e = ground arith

of_IsBlank : (x : ℕ) → IsBlank x → blank x ≡ true
of_IsBlank x e = ground arith

IsDecimal-of : (x : ℕ) → is_digit x ≡ true → IsDecimal x
IsDecimal-of x e = ground arith

of_IsDecimal : (x : ℕ) → IsDecimal x → is_digit x ≡ true
of_IsDecimal x e = ground arith

IsWord-of : (x : ℕ) → no_blank x ≡ true → IsWord x
IsWord-of x e = ground arith

of_IsWord : (x : ℕ) → IsWord x → no_blank x ≡ true
of_IsWord x e = ground arith

IsInline-of : (x : ℕ) → any_byte x ≡ true → IsInline x
IsInline-of x e = ground arith

of_IsInline : (x : ℕ) → IsInline x → any_byte x ≡ true
of_IsInline x e = ground arith

is_byte : (x b : ℕ) → (x == b) ≡ true → x ≡ b
is_byte x b e = ground arith

module _ {P : ℕ → Type 0} {c : Set} (f : (x : ℕ) → c x ≡ true → P x) where
  All-of : (p : Bytes) → In c p → All P p
  All-of [] i = tt
  All-of (x ∷ p) (e, i) = (f x e, All-of p i)

  Run-of : (p : Bytes) → FitsItem (plus c) p → Run P p
  Run-of p (x, r, e, h, i) = subst (Run P) (sym e) ((λ (n : x ∷ r ≡ []). cc), (f x h, All-of r i))

module _ {P : ℕ → Type 0} {c : Set} (f : (x : ℕ) → P x → c x ≡ true) where
  of_All : (p : Bytes) → All P p → In c p
  of_All [] i = tt
  of_All (x ∷ p) (e, i) = (f x e, of_All p i)

  of_Run : (p : Bytes) → Run P p → FitsItem (plus c) p
  of_Run [] (n, i) = absurd (n refl)
  of_Run (x ∷ p) (n, (e, i)) = (x, p, refl, f x e, of_All p i)

flag_of : (p : Bytes) → FitsItem (optional (just b'W')) p → (p ≡ []) ⊎ (p ≡ b'W' ∷ [])
flag_of p (inl e) = inl e
flag_of p (inr (x, e, h)) = inr (e ∙ ap (λ y. y ∷ []) (is_byte x b'W' h))

of_flag : (p : Bytes) → (p ≡ []) ⊎ (p ≡ b'W' ∷ []) → FitsItem (optional (just b'W')) p
of_flag p (inl e) = inl e
of_flag p (inr e) = inr (b'W', e, refl)

-- A statement about pieces that fit, one by one.
abbrev Curried : List Item → (Pieces → Type 0) → Type 0
Curried [] P = P []
Curried (i ∷ is) P = (p : Bytes) → FitsItem i p → Curried is (λ ps. P (p ∷ ps))

uncurried :
    (is : List Item) (P : Pieces → Type 0) → Curried is P → (ps : Pieces) → Fits is ps → P ps
uncurried [] P f [] h = f
uncurried [] P f (p ∷ ps) h = absurd h
uncurried (i ∷ is) P f [] h = absurd h
uncurried (i ∷ is) P f (p ∷ ps) (a, b) = uncurried is (λ qs. P (p ∷ qs)) (f p a) ps b

parts_of : (ps : Pieces) → Fits line_items ps → LineParts (text_of ps) (line_match ps)
parts_of =
    uncurried line_items (λ ps. LineParts (text_of ps) (line_match ps))
      (λ margin f_margin h1 (x_h1, e_h1, t_h1) h2 (x_h2, e_h2, t_h2) u (x_u, e_u, t_u) m1
          (x_m1, e_m1, t_m1) m2 (x_m2, e_m2, t_m2) v (x_v, e_v, t_v) s1 (x_s1, e_s1, t_s1) s2
          (x_s2, e_s2, t_s2) w (x_w, e_w, t_w) fr f_fr g1 f_g1 call f_call g2 f_g2 args f_args g3
          f_g3 whole f_whole z (x_z, e_z, t_z) part f_part g4 f_g4 flag f_flag g5 f_g5 proc f_proc y
          (x_y, e_y, t_y) pid f_pid g6 f_g6.
        record {
          margin = margin;
          margin_blank = All-of IsBlank-of margin f_margin;
          clock = record {
            h1 = x_h1;
            h2 = x_h2;
            m1 = x_m1;
            m2 = x_m2;
            s1 = x_s1;
            s2 = x_s2;
            fraction = fr;
            digits = (
              IsDecimal-of x_h1 t_h1,
              (
                IsDecimal-of x_h2 t_h2,
                (
                  IsDecimal-of x_m1 t_m1,
                  (IsDecimal-of x_m2 t_m2, (IsDecimal-of x_s1 t_s1, (IsDecimal-of x_s2 t_s2, tt))),
                ),
              ),
            );
            fraction_digits = Run-of IsDecimal-of fr f_fr;
            text =
                rw
                  (
                    e_h1,
                    e_h2,
                    e_u,
                    e_m1,
                    e_m2,
                    e_v,
                    e_s1,
                    e_s2,
                    e_w,
                    is_byte x_u b':' t_u,
                    is_byte x_v b':' t_v,
                    is_byte x_w b'.' t_w,
                    append-nil fr,
                  )
                  refl;
          };
          gap1 = g1;
          gap1_blank = Run-of IsBlank-of g1 f_g1;
          call_word = Run-of IsWord-of call f_call;
          gap2 = g2;
          gap2_blank = Run-of IsBlank-of g2 f_g2;
          args_line = Run-of IsInline-of args f_args;
          gap3 = g3;
          gap3_blank = Run-of IsBlank-of g3 f_g3;
          seconds = whole;
          seconds_digits = Run-of IsDecimal-of whole f_whole;
          fraction = part;
          fraction_digits = Run-of IsDecimal-of part f_part;
          gap4 = g4;
          gap4_blank = All-of IsBlank-of g4 f_g4;
          waited = flag;
          waited_mark = flag_of flag f_flag;
          gap5 = g5;
          gap5_blank = Run-of IsBlank-of g5 f_g5;
          proc_word = Run-of IsWord-of proc f_proc;
          pid_digits = Run-of IsDecimal-of pid f_pid;
          gap6 = g6;
          gap6_blank = All-of IsBlank-of g6 f_g6;
          text =
              rw
                (
                  e_h1,
                  e_h2,
                  e_u,
                  e_m1,
                  e_m2,
                  e_v,
                  e_s1,
                  e_s2,
                  e_w,
                  e_z,
                  e_y,
                  is_byte x_z b'.' t_z,
                  is_byte x_y b'.' t_y,
                  append-nil fr,
                  append-nil g6,
                )
                refl;
        })

-- The pieces of a line with such parts.
fit_parts :
    (line : Bytes) (m : LineMatch)
    → LineParts line m
    → (ps : Pieces) × Fits line_items ps × (text_of ps ≡ line)
fit_parts line m p =
    let k = p.clock in
    let (d1, (d2, (d3, (d4, (d5, (d6, u)))))) = k.digits in
    (
      p.margin
          ∷ (k.h1 ∷ [])
          ∷ (k.h2 ∷ [])
          ∷ (b':' ∷ [])
          ∷ (k.m1 ∷ [])
          ∷ (k.m2 ∷ [])
          ∷ (b':' ∷ [])
          ∷ (k.s1 ∷ [])
          ∷ (k.s2 ∷ [])
          ∷ (b'.' ∷ [])
          ∷ k.fraction
          ∷ p.gap1
          ∷ m.call
          ∷ p.gap2
          ∷ m.args
          ∷ p.gap3
          ∷ p.seconds
          ∷ (b'.' ∷ [])
          ∷ p.fraction
          ∷ p.gap4
          ∷ p.waited
          ∷ p.gap5
          ∷ m.proc
          ∷ (b'.' ∷ [])
          ∷ m.pid_str
          ∷ p.gap6
          ∷ [],
      (
        of_All of_IsBlank p.margin p.margin_blank,
        (
          (k.h1, refl, of_IsDecimal k.h1 d1),
          (
            (k.h2, refl, of_IsDecimal k.h2 d2),
            (
              (b':', refl, refl),
              (
                (k.m1, refl, of_IsDecimal k.m1 d3),
                (
                  (k.m2, refl, of_IsDecimal k.m2 d4),
                  (
                    (b':', refl, refl),
                    (
                      (k.s1, refl, of_IsDecimal k.s1 d5),
                      (
                        (k.s2, refl, of_IsDecimal k.s2 d6),
                        (
                          (b'.', refl, refl),
                          (
                            of_Run of_IsDecimal k.fraction k.fraction_digits,
                            (
                              of_Run of_IsBlank p.gap1 p.gap1_blank,
                              (
                                of_Run of_IsWord m.call p.call_word,
                                (
                                  of_Run of_IsBlank p.gap2 p.gap2_blank,
                                  (
                                    of_Run of_IsInline m.args p.args_line,
                                    (
                                      of_Run of_IsBlank p.gap3 p.gap3_blank,
                                      (
                                        of_Run of_IsDecimal p.seconds p.seconds_digits,
                                        (
                                          (b'.', refl, refl),
                                          (
                                            of_Run of_IsDecimal p.fraction p.fraction_digits,
                                            (
                                              of_All of_IsBlank p.gap4 p.gap4_blank,
                                              (
                                                of_flag p.waited p.waited_mark,
                                                (
                                                  of_Run of_IsBlank p.gap5 p.gap5_blank,
                                                  (
                                                    of_Run of_IsWord m.proc p.proc_word,
                                                    (
                                                      (b'.', refl, refl),
                                                      (
                                                        of_Run of_IsDecimal m.pid_str p.pid_digits,
                                                        (of_All of_IsBlank p.gap6 p.gap6_blank, tt),
                                                      ),
                                                    ),
                                                  ),
                                                ),
                                              ),
                                            ),
                                          ),
                                        ),
                                      ),
                                    ),
                                  ),
                                ),
                              ),
                            ),
                          ),
                        ),
                      ),
                    ),
                  ),
                ),
              ),
            ),
          ),
        ),
      ),
      sym (
          p.text
          ∙ ap
              (λ c.
                p.margin
                ++ (c
                    ++ (p.gap1
                        ++ (m.call
                            ++ (p.gap2
                                ++ (m.args
                                    ++ (p.gap3
                                        ++ (p.seconds
                                            ++ (b'.'
                                                ∷ (p.fraction
                                                    ++ (p.gap4
                                                        ++ (p.waited
                                                            ++ (p.gap5
                                                            ++ (m.proc
                                                            ++ (b'.'
                                                            ∷ (m.pid_str ++ p.gap6))))))))))))))))
              k.text
          ∙ rw (append-nil p.gap6) refl),
    )

-- No match is for the lines without such parts, and the groups of a match are parts of the line.
abbrev pub PartsSpec : Bytes → Option LineMatch → Type 0
PartsSpec line none = (m : LineMatch) → ¬ LineParts line m
PartsSpec line (some m) = LineParts line m

PartsSpec-of : (line : Bytes) (o : Option LineMatch) → LineSpec line o → PartsSpec line o
PartsSpec-of line none h = λ m p. h (fit_parts line m p)
PartsSpec-of line (some m) (ps, f, t, e) =
    subst (λ x. LineParts line x) (sym e)
      (subst (λ x. LineParts x (line_match ps)) t (parts_of ps f))

-- The match of lineRE fails only on the lines that do not have, from left to right: blanks or
-- nothing, a clock HH:MM:SS.f, blanks, a call without a blank, blanks, arguments without a newline,
-- blanks, digits with a dot among them, blanks or nothing, a W or nothing, blanks, a process without
-- a blank, a dot, digits, and blanks or nothing. On the others the groups that ParseLine takes are
-- the clock, the call, the arguments, the process and the last digits of such parts.
pub line_re-parts : (line : Bytes) → PartsSpec line (line_re line)
line_re-parts line = PartsSpec-of line (line_re line) (line_re_lem line)
