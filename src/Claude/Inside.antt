-- ===== src/Claude/Inside.antt =====
-- Which sessions the handler lets through, by the names of their working directories.
use agentflash.Common.{
  Bool, true, false, not, ◌&&◌, Option, none, some, List, [], ◌∷◌, ◌++◌, map, ◌≡◌, ◌↔◌, refl, sym,
  ap, ◌∙◌, arith, inl, inr, Bytes, eq_bytes, eq_bytes_iff, eq_bytes_refl, has_prefix, append-nil,
  Bool-cases,
}
use agentflash.GoPath.{dot, dot_dot, join_elems, abs, rel, rel_elems, elems, strip_common}
use agentflash.GoPath.Clean.{All, IsName, path_of, clean-path_of}
use agentflash.GoPath.Inside.{elems-path_of, All-append_right}
use agentflash.Claude.{cwd_inside}

-- No name, or a first name that does not begin with two dots.
abbrev pub StartsPlain : List Bytes → Type 0
StartsPlain [] = Unit
StartsPlain (s ∷ ss) = has_prefix s dot_dot ≡ false

strip_common-append : (rs ss : List Bytes) → strip_common rs (rs ++ ss) ≡ ([], ss)
strip_common-append [] ss = refl
strip_common-append (r ∷ rs) ss = rw (eq_bytes_refl r) (strip_common-append rs ss)

strip_common-common :
    (bs ts : List Bytes)
    → (cs : List Bytes) × (bs ≡ cs ++ (strip_common bs ts).0) × (ts ≡ cs ++ (strip_common bs ts).1)
strip_common-common [] ts = ([], refl, refl)
strip_common-common (b ∷ bs) [] = ([], refl, refl)
strip_common-common (b ∷ bs) (t ∷ ts) = elim (Bool-cases (eq_bytes t b)) [
  | inl same ↦
      let (cs, eb, et) = strip_common-common bs ts in
      (b ∷ cs, rw same (ap (◌∷◌ b) eb), rw same (rw ((eq_bytes_iff t b).0 same) (ap (◌∷◌ b) et)))
  | inr other ↦ rw other ([], refl, refl)
]

-- `Rel` between rooted clean paths that differ.
rel-path_of :
    (rs ps : List Bytes)
    → All IsName rs
    → All IsName ps
    → eq_bytes (path_of ps) (path_of rs) ≡ false
    → rel (path_of rs) (path_of ps) ≡ (let (bs, ts) = strip_common rs ps in rel_elems bs ts)
unfolding rel has_prefix eq_bytes
rel-path_of rs ps hr hp e =
    rw (clean-path_of rs hr, clean-path_of ps hp, e, elems-path_of rs hr, elems-path_of ps hp)

-- What `cwdInside` makes of a relative path.
abbrev verdict : Option Bytes → Bool
verdict none = false
verdict (some r) = not (has_prefix r dot_dot) && not (eq_bytes r dot)

verdict-name :
    (t : Bytes) (ts : List Bytes)
    → IsName t
    → verdict (some (join_elems (t ∷ ts))) ≡ not (has_prefix t dot_dot)
unfolding join_elems has_prefix eq_bytes
verdict-name [] ts h = cc (h.ne_nil)
verdict-name (c ∷ []) [] h = let n = h.ne_dot in ground arith
verdict-name (c ∷ d ∷ t) [] h = ground arith
verdict-name (c ∷ []) (u ∷ ts) h = ground arith
verdict-name (c ∷ d ∷ t) (u ∷ ts) h = ground arith

verdict-up : (b : Bytes) (bs ts : List Bytes) → IsName b → verdict (rel_elems (b ∷ bs) ts) ≡ false
unfolding rel_elems join_elems has_prefix
verdict-up b bs ts h = rw (h.ne_dot_dot) (up (map (λ _. dot_dot) bs ++ ts))
  where
    up : (es : List Bytes) → verdict (some (join_elems (dot_dot ∷ es))) ≡ false
    up [] = refl
    up (e ∷ es) = refl

verdict_iff :
    (bs ts : List Bytes)
    → All IsName bs
    → All IsName ts
    → (verdict (rel_elems bs ts) ≡ true) ↔ ((bs ≡ []) × StartsPlain ts)
unfolding rel_elems join_elems has_prefix eq_bytes
verdict_iff [] [] hb ht = (λ v. (refl, tt), λ _. refl)
verdict_iff [] (t ∷ ts) hb ht =
    let n = verdict-name t ts (ht.0) in (λ v. (refl, ground arith), λ (_, p). ground arith)
verdict_iff (b ∷ bs) ts hb ht = let n = verdict-up b bs ts (hb.0) in (λ v. cc, λ (none_up, p). cc)

module _ (cwd : Option Bytes) (rs ps : List Bytes) (dir : Bytes) (hr : All IsName rs)
    (hp : All IsName ps) (given : eq_bytes dir [] ≡ false)
    (leads : abs cwd dir ≡ some (path_of ps)) where
  abbrev Inside : Type 0
  Inside = (ss : List Bytes) × (ps ≡ rs ++ ss) × StartsPlain ss

  inside-same :
      eq_bytes (path_of ps) (path_of rs) ≡ true → (cwd_inside cwd dir (path_of rs) ≡ true) ↔ Inside
  unfolding cwd_inside
  inside-same e =
      let same =
        sym (elems-path_of ps hp)
        ∙ ap elems ((eq_bytes_iff (path_of ps) (path_of rs)).0 e)
        ∙ elems-path_of rs hr
        ∙ sym (append-nil rs) in
      (λ _. ([], same, tt), λ _. rw (given, leads, e))

  -- Where two different directories part.
  inside-parted :
      eq_bytes (path_of ps) (path_of rs) ≡ false
      → (bs ts cs : List Bytes) → strip_common rs ps ≡ (bs, ts)
      → rs ≡ cs ++ bs
      → ps ≡ cs ++ ts
      → (cwd_inside cwd dir (path_of rs) ≡ true) ↔ Inside
  unfolding cwd_inside
  inside-parted e bs ts cs parted er et = (
    λ inside.
        let (none_up, plain) = parts.0 (sym decides ∙ inside) in
        (ts, rw (er, none_up, append-nil) et, plain),
    λ (ss, below, plain).
        let down = sym parted ∙ ap (strip_common rs) below ∙ strip_common-append rs ss in
        decides ∙ parts.1 (ap (λ x. x.0) down, rw (ap (λ x. x.1) down) plain),
  )
    where
      parts : (verdict (rel_elems bs ts) ≡ true) ↔ ((bs ≡ []) × StartsPlain ts)
      parts =
          verdict_iff bs ts (All-append_right IsName cs bs (rw er at hr))
            (All-append_right IsName cs ts (rw et at hp))

      decides : cwd_inside cwd dir (path_of rs) ≡ verdict (rel_elems bs ts)
      decides = rw (given, leads, e, rel-path_of rs ps hr hp e, parted)

  -- A session's working directory is let through exactly when it is the watched directory, or
  -- lies below it on a path whose first name there does not begin with two dots.
  pub cwd_inside_iff : (cwd_inside cwd dir (path_of rs) ≡ true) ↔ Inside
  cwd_inside_iff = elim (Bool-cases (eq_bytes (path_of ps) (path_of rs))) [
    | inl same ↦ inside-same same
    | inr other ↦
        let (cs, er, et) = strip_common-common rs ps in
        inside-parted other (strip_common rs ps).0 (strip_common rs ps).1 cs refl er et
  ]
