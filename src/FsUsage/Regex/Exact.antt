-- ===== src/FsUsage/Regex/Exact.antt =====
-- The matches of an expression and the pieces of a text that fit its items.
use agentflash.Common.{
  ℕ, true, Option, none, some, List, [], ◌∷◌, ◌++◌, ◌≡◌, ◌⊎◌, inl, inr, refl, sym, ap, ◌∙◌, Bytes,
  Bool-cases, Option-cases,
}
use mathlib.Core.Path.{subst}
use mathlib.Core.Option.{some-injective}
use agentflash.GoPath.Clean.{All}
use agentflash.FsUsage.Regex.{
  Set, Item, one, optional, star, plus, lazy_plus, Pieces, stop, extend, greedy, lazy, match_one,
  match_plus, match_lazy_plus, match_optional, find,
}

abbrev pub In : Set → Bytes → Type 0
In c = All (λ x. c x ≡ true)

-- What a piece has to be for its item.
abbrev pub FitsItem : Item → Bytes → Type 0
FitsItem (one c) p = (x : ℕ) × (p ≡ x ∷ []) × (c x ≡ true)
FitsItem (optional c) p = (p ≡ []) ⊎ ((x : ℕ) × (p ≡ x ∷ []) × (c x ≡ true))
FitsItem (star c) p = In c p
FitsItem (plus c) p = (x : ℕ) × (r : Bytes) × (p ≡ x ∷ r) × (c x ≡ true) × In c r
FitsItem (lazy_plus c) p = (x : ℕ) × (r : Bytes) × (p ≡ x ∷ r) × (c x ≡ true) × In c r

-- The text of a list of pieces.
abbrev pub text_of : Pieces → Bytes
text_of [] = []
text_of (p ∷ ps) = p ++ text_of ps

abbrev pub Fits : List Item → Pieces → Type 0
Fits [] [] = Unit
Fits [] (p ∷ ps) = ⊥
Fits (i ∷ is) [] = ⊥
Fits (i ∷ is) (p ∷ ps) = FitsItem i p × Fits is ps

-- `ps` begins with a piece in `P` and goes on with pieces in `Q`, and its text is `s`.
abbrev Split : (Bytes → Type 0) → (Pieces → Type 0) → Bytes → Pieces → Type 0
Split P Q s ps = (p : Bytes) × (qs : Pieces) × (ps ≡ p ∷ qs) × P p × Q qs × (text_of ps ≡ s)

-- All that a continuation finds is in `Q` and has the text given.
abbrev pub Sound : (Pieces → Type 0) → (Bytes → Option Pieces) → Type 0
Sound Q k = (s : Bytes) (ps : Pieces) → k s ≡ some ps → Q ps × (text_of ps ≡ s)

abbrev pub IsSome : Option Pieces → Type 0
IsSome o = (ps : Pieces) × (o ≡ some ps)

clash : {o : Option Pieces} → o ≡ none → IsSome o → ⊥
clash n (ps, e) = cc

extend-IsSome : (x : ℕ) {o : Option Pieces} → IsSome o → IsSome (extend x o)
extend-IsSome x ([], e) = ((x ∷ []) ∷ [], ap (extend x) e)
extend-IsSome x (p ∷ ps, e) = ((x ∷ p) ∷ ps, ap (extend x) e)

extend-Split :
    {P P' : Bytes → Type 0} {Q : Pieces → Type 0} (x : ℕ) (r : Bytes) (o : Option Pieces)
    {ps : Pieces}
    → ((qs : Pieces) → o ≡ some qs → Split P Q r qs)
    → ((p : Bytes) → P p → P' (x ∷ p))
    → extend x o ≡ some ps
    → Split P' Q (x ∷ r) ps
extend-Split x r none s f e = cc
extend-Split x r (some []) s f e = let (p, qs, bad, _, _, _) = s [] refl in cc
extend-Split x r (some (p ∷ ps)) s f e =
    let (p', qs, q, fits, rest, t) = s (p ∷ ps) refl in
    let whole = some-injective _ _ (sym e) in
    (x ∷ p', qs, cc, f p' fits, rest, ap text_of whole ∙ ap (λ b. x ∷ b) t)

module _ (c : Set) (k : Bytes → Option Pieces) (Q : Pieces → Type 0) where
  stop-Split :
      {P : Bytes → Type 0} (s : Bytes) {ps : Pieces}
      → Sound Q k
      → P []
      → stop k s ≡ some ps
      → Split P Q s ps
  stop-Split s {ps} sound empty e = elim (Option-cases (k s)) [
    | inl nothing ↦ cc (rw (stop, nothing) at e)
    | inr (qs, m) ↦
        let whole = sym (some-injective _ _ (rw (stop, m) at e)) in
        let (fits, t) = sound s qs m in ([], qs, whole, empty, fits, ap text_of whole ∙ t)
  ]

  stop-IsSome : (s : Bytes) → IsSome (k s) → IsSome (stop k s)
  stop-IsSome s (ps, e) = ([] ∷ ps, rw (stop, e) refl)

  greedy-Split :
      (s : Bytes) {ps : Pieces} → Sound Q k → greedy c k s ≡ some ps → Split (In c) Q s ps
  unfolding greedy
  greedy-Split [] sound e = stop-Split [] sound tt e
  greedy-Split (x ∷ r) {ps} sound e = elim (Bool-cases (c x)) [
    | inr out ↦ stop-Split (x ∷ r) sound tt (rw (greedy, out) at e)
    | inl member ↦ elim (Option-cases (extend x (greedy c k r))) [
      | inl shorter ↦ stop-Split (x ∷ r) sound tt (rw (greedy, member, shorter) at e)
      | inr (qs, longer) ↦
          extend-Split x r (greedy c k r) (λ q f. greedy-Split r sound f) (λ p i. (member, i))
            (longer ∙ (rw (greedy, member, longer) at e))
    ]
  ]

  lazy-Split : (s : Bytes) {ps : Pieces} → Sound Q k → lazy c k s ≡ some ps → Split (In c) Q s ps
  unfolding lazy
  lazy-Split [] sound e = stop-Split [] sound tt e
  lazy-Split (x ∷ r) {ps} sound e = elim (Option-cases (stop k (x ∷ r))) [
    | inr (qs, shorter) ↦ stop-Split (x ∷ r) sound tt (shorter ∙ (rw (lazy, shorter) at e))
    | inl none_here ↦ elim (Bool-cases (c x)) [
      | inr out ↦ cc (rw (lazy, none_here, out) at e)
      | inl member ↦
          extend-Split x r (lazy c k r) (λ q f. lazy-Split r sound f) (λ p i. (member, i))
            (rw (lazy, none_here, member) at e)
    ]
  ]

  greedy-IsSome : (p t : Bytes) → In c p → IsSome (k t) → IsSome (greedy c k (p ++ t))
  unfolding greedy
  greedy-IsSome [] [] i m = stop-IsSome [] m
  greedy-IsSome [] (x ∷ r) i m = elim (Bool-cases (c x)) [
    | inr out ↦ rw (greedy, out) (stop-IsSome (x ∷ r) m)
    | inl member ↦ elim (Option-cases (extend x (greedy c k r))) [
      | inl shorter ↦ rw (greedy, member, shorter) (stop-IsSome (x ∷ r) m)
      | inr (qs, longer) ↦ rw (greedy, member, longer) (qs, refl)
    ]
  ]
  greedy-IsSome (x ∷ p) t (member, i) m =
      let (qs, longer) = extend-IsSome x (greedy-IsSome p t i m) in
      rw (greedy, member, longer) (qs, refl)

  lazy-IsSome : (p t : Bytes) → In c p → IsSome (k t) → IsSome (lazy c k (p ++ t))
  unfolding lazy
  lazy-IsSome [] [] i m = stop-IsSome [] m
  lazy-IsSome [] (x ∷ r) i m =
      let (qs, shorter) = stop-IsSome (x ∷ r) m in rw (lazy, shorter) (qs, refl)
  lazy-IsSome (x ∷ p) t (member, i) m = elim (Option-cases (stop k (x ∷ (p ++ t)))) [
    | inr (qs, shorter) ↦ rw (lazy, shorter) (qs, refl)
    | inl none_here ↦ rw (lazy, none_here, member) (extend-IsSome x (lazy-IsSome p t i m))
  ]

joined :
    (is : List Item) (i : Item) (s : Bytes) (ps : Pieces)
    → Split (FitsItem i) (Fits is) s ps
    → Fits (i ∷ is) ps × (text_of ps ≡ s)
joined is i s ps (p, qs, q, fits, rest, t) =
    subst (λ x. Fits (i ∷ is) x × (text_of x ≡ s)) (sym q) ((fits, rest), ap text_of (sym q) ∙ t)

module _ (c : Set) (k : Bytes → Option Pieces) (Q : Pieces → Type 0) where
  match_one-Split :
      (s : Bytes) {ps : Pieces}
      → Sound Q k
      → match_one c k s ≡ some ps
      → Split (FitsItem (one c)) Q s ps
  unfolding match_one
  match_one-Split [] sound e = cc
  match_one-Split (x ∷ r) sound e = elim (Bool-cases (c x)) [
    | inr out ↦ cc (rw (match_one, out) at e)
    | inl member ↦
        extend-Split {P = λ p. p ≡ []} x r (stop k r) (λ q f. stop-Split c k Q r sound refl f)
          (λ p z. (x, ap (λ b. x ∷ b) z, member)) (rw (match_one, member) at e)
  ]

  match_plus-Split :
      (s : Bytes) {ps : Pieces}
      → Sound Q k
      → match_plus c k s ≡ some ps
      → Split (FitsItem (plus c)) Q s ps
  unfolding match_plus
  match_plus-Split [] sound e = cc
  match_plus-Split (x ∷ r) sound e = elim (Bool-cases (c x)) [
    | inr out ↦ cc (rw (match_plus, out) at e)
    | inl member ↦
        extend-Split x r (greedy c k r) (λ q f. greedy-Split c k Q r sound f)
          (λ p i. (x, p, refl, member, i)) (rw (match_plus, member) at e)
  ]

  match_lazy_plus-Split :
      (s : Bytes) {ps : Pieces}
      → Sound Q k
      → match_lazy_plus c k s ≡ some ps
      → Split (FitsItem (lazy_plus c)) Q s ps
  unfolding match_lazy_plus
  match_lazy_plus-Split [] sound e = cc
  match_lazy_plus-Split (x ∷ r) sound e = elim (Bool-cases (c x)) [
    | inr out ↦ cc (rw (match_lazy_plus, out) at e)
    | inl member ↦
        extend-Split x r (lazy c k r) (λ q f. lazy-Split c k Q r sound f)
          (λ p i. (x, p, refl, member, i)) (rw (match_lazy_plus, member) at e)
  ]

  match_optional-Split :
      (s : Bytes) {ps : Pieces}
      → Sound Q k
      → match_optional c k s ≡ some ps
      → Split (FitsItem (optional c)) Q s ps
  unfolding match_optional
  match_optional-Split s sound e = elim (Option-cases (match_one c k s)) [
    | inl without ↦ stop-Split c k Q s sound (inl refl) (rw (match_optional, without) at e)
    | inr (qs, with_one) ↦
        let (p, rest, q, fits, r, t) =
          match_one-Split s sound (with_one ∙ (rw (match_optional, with_one) at e)) in
        (p, rest, q, inr fits, r, t)
  ]

  match_one-IsSome :
      (p t : Bytes) → FitsItem (one c) p → IsSome (k t) → IsSome (match_one c k (p ++ t))
  unfolding match_one
  match_one-IsSome p t (x, q, member) m =
      subst (λ b. IsSome (match_one c k (b ++ t))) (sym q)
        (rw (match_one, member) (extend-IsSome x (stop-IsSome c k Q t m)))

  match_plus-IsSome :
      (p t : Bytes) → FitsItem (plus c) p → IsSome (k t) → IsSome (match_plus c k (p ++ t))
  unfolding match_plus
  match_plus-IsSome p t (x, r, q, member, i) m =
      subst (λ b. IsSome (match_plus c k (b ++ t))) (sym q)
        (rw (match_plus, member) (extend-IsSome x (greedy-IsSome c k Q r t i m)))

  match_lazy_plus-IsSome :
      (p t : Bytes)
      → FitsItem (lazy_plus c) p
      → IsSome (k t)
      → IsSome (match_lazy_plus c k (p ++ t))
  unfolding match_lazy_plus
  match_lazy_plus-IsSome p t (x, r, q, member, i) m =
      subst (λ b. IsSome (match_lazy_plus c k (b ++ t))) (sym q)
        (rw (match_lazy_plus, member) (extend-IsSome x (lazy-IsSome c k Q r t i m)))

  match_optional-IsSome :
      (p t : Bytes) → FitsItem (optional c) p → IsSome (k t) → IsSome (match_optional c k (p ++ t))
  unfolding match_optional
  match_optional-IsSome p t f m = elim (Option-cases (match_one c k (p ++ t))) [
    | inr (qs, e) ↦ rw (match_optional, e) (qs, refl)
    | inl without ↦ rw (match_optional, without) (skipped without f)
  ]
    where
      skipped : match_one c k (p ++ t) ≡ none → FitsItem (optional c) p → IsSome (stop k (p ++ t))
      skipped without (inl empty) =
          subst (λ b. IsSome (stop k (b ++ t))) (sym empty) (stop-IsSome c k Q t m)
      skipped without (inr fits) = absurd (clash without (match_one-IsSome p t fits m))

pub find-Sound : (is : List Item) → Sound (Fits is) (find is)
unfolding find
find-Sound [] [] ps e = subst (λ x. Fits [] x × (text_of x ≡ [])) (some-injective _ _ e) (tt, refl)
find-Sound [] (x ∷ s) ps e = cc
find-Sound (one c ∷ is) s ps e =
    joined is (one c) s ps (match_one-Split c (find is) (Fits is) s (find-Sound is) e)
find-Sound (optional c ∷ is) s ps e =
    joined is (optional c) s ps (match_optional-Split c (find is) (Fits is) s (find-Sound is) e)
find-Sound (star c ∷ is) s ps e =
    joined is (star c) s ps (greedy-Split c (find is) (Fits is) s (find-Sound is) e)
find-Sound (plus c ∷ is) s ps e =
    joined is (plus c) s ps (match_plus-Split c (find is) (Fits is) s (find-Sound is) e)
find-Sound (lazy_plus c ∷ is) s ps e =
    joined is (lazy_plus c) s ps (match_lazy_plus-Split c (find is) (Fits is) s (find-Sound is) e)

-- Backtracking misses no match.
pub find-IsSome : (is : List Item) (ps : Pieces) → Fits is ps → IsSome (find is (text_of ps))
unfolding find
find-IsSome [] [] f = ([], refl)
find-IsSome [] (p ∷ ps) f = absurd f
find-IsSome (one c ∷ is) [] f = absurd f
find-IsSome (optional c ∷ is) [] f = absurd f
find-IsSome (star c ∷ is) [] f = absurd f
find-IsSome (plus c ∷ is) [] f = absurd f
find-IsSome (lazy_plus c ∷ is) [] f = absurd f
find-IsSome (one c ∷ is) (p ∷ ps) (f, fs) =
    match_one-IsSome c (find is) (Fits is) p (text_of ps) f (find-IsSome is ps fs)
find-IsSome (optional c ∷ is) (p ∷ ps) (f, fs) =
    match_optional-IsSome c (find is) (Fits is) p (text_of ps) f (find-IsSome is ps fs)
find-IsSome (star c ∷ is) (p ∷ ps) (f, fs) =
    greedy-IsSome c (find is) (Fits is) p (text_of ps) f (find-IsSome is ps fs)
find-IsSome (plus c ∷ is) (p ∷ ps) (f, fs) =
    match_plus-IsSome c (find is) (Fits is) p (text_of ps) f (find-IsSome is ps fs)
find-IsSome (lazy_plus c ∷ is) (p ∷ ps) (f, fs) =
    match_lazy_plus-IsSome c (find is) (Fits is) p (text_of ps) f (find-IsSome is ps fs)
