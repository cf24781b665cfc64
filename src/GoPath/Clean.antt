-- ===== src/GoPath/Clean.antt =====
-- `Clean` of a rooted path: a slash and plain names.
use agentflash.Common.{
  Bool, true, false, List, [], ◌∷◌, ◌++◌, reverse, ◌≡◌, ◌≢◌, refl, sym, ap, ◌∙◌, arith, inl, inr,
  Bytes, eq_bytes, has_prefix, ◌==◌, Bool-cases, append_assoc, append-nil, reverse-append,
  reverse-reverse,
}
use agentflash.GoPath.{
  slash, dot, dot_dot, onto_head, split_at, split, join_elems, is_rooted, go_up, clean_elem,
  clean_elems, clean,
}

abbrev pub All {ℓ κ} : {A : Type ℓ} → (A → Type κ) → List A → Type κ
All P [] = Unit
All P (x ∷ xs) = P x × All P xs

pub All-append {ℓ κ} :
    {A : Type ℓ} (P : A → Type κ) (xs ys : List A) → All P xs → All P ys → All P (xs ++ ys)
All-append P [] ys hx hy = hy
All-append P (x ∷ xs) ys hx hy = (hx.0, All-append P xs ys hx.1 hy)

pub All-reverse {ℓ κ} : {A : Type ℓ} (P : A → Type κ) (xs : List A) → All P xs → All P (reverse xs)
All-reverse P [] h = tt
All-reverse P (x ∷ xs) h =
    rw (reverse-append (x ∷ []) xs)
      (All-append P (reverse xs) (x ∷ []) (All-reverse P xs h.1) (h.0, tt))

abbrev pub HasNoSlash : Bytes → Type 0
HasNoSlash e = All (λ c. (c == slash) ≡ false) e

-- A name that a directory can hold.
pub record IsName (e : Bytes) : Type 0 where
  pub ne_nil : eq_bytes e [] ≡ false
  pub ne_dot : eq_bytes e dot ≡ false
  pub ne_dot_dot : eq_bytes e dot_dot ≡ false
  pub no_slash : HasNoSlash e

-- The rooted path of these names.
abbrev pub path_of : List Bytes → Bytes
path_of names = slash ∷ join_elems names

pub split_at-HasNoSlash : (p : Bytes) → All HasNoSlash (split p)
unfolding split_at
split_at-HasNoSlash [] = (tt, tt)
split_at-HasNoSlash (c ∷ cs) = elim (Bool-cases (c == slash)) [
  | inl is ↦ rw is (tt, split_at-HasNoSlash cs)
  | inr ne ↦ rw ne (head ne (split cs) (split_at-HasNoSlash cs))
]
  where
    head :
        (c == slash) ≡ false
        → (es : List Bytes) → All HasNoSlash es
        → All HasNoSlash (onto_head c es)
    head ne [] h = ((ne, tt), tt)
    head ne (e ∷ es) (a, b) = ((ne, a), b)

clean_elem-IsName :
    (e : Bytes) (kept : List Bytes)
    → HasNoSlash e
    → All IsName kept
    → All IsName (clean_elem true e kept)
unfolding clean_elem go_up
clean_elem-IsName e [] s k = ground arith
clean_elem-IsName e (top ∷ below) s (t, b) = ground (arith, t.ne_dot_dot)

pub clean_elems-IsName :
    (es kept : List Bytes)
    → All HasNoSlash es
    → All IsName kept
    → All IsName (clean_elems true es kept)
unfolding clean_elems
clean_elems-IsName [] kept h k = k
clean_elems-IsName (e ∷ es) kept (a, h) k =
    clean_elems-IsName es (clean_elem true e kept) h (clean_elem-IsName e kept a k)

-- `Clean` of a rooted path is the rooted path of plain names: no element of it is empty, `.` or
-- `..`.
pub clean-IsName :
    (p : Bytes)
    → is_rooted p ≡ true
    → (names : List Bytes) × All IsName names × (clean p ≡ path_of names)
unfolding clean
clean-IsName p r =
    let kept = clean_elems true (split p) [] in
    (
      reverse kept,
      All-reverse IsName kept (clean_elems-IsName (split p) [] (split_at-HasNoSlash p) tt),
      rw r,
    )

split_at-ne : (p : Bytes) → split p ≢ []
unfolding split_at
split_at-ne [] e = cc
split_at-ne (c ∷ cs) e = elim (Bool-cases (c == slash)) [
  | inl is ↦ cc (rw is at e)
  | inr ne ↦ not_nil (split cs) (rw ne at e)
]
  where
    not_nil : (es : List Bytes) → onto_head c es ≡ [] → ⊥
    not_nil [] e = cc
    not_nil (f ∷ fs) e = cc

-- Splitting where two parts are joined by a slash splits the parts.
pub split-append : (a r : Bytes) → split (a ++ slash ∷ r) ≡ split a ++ split r
unfolding split_at
split-append [] r = refl
split-append (c ∷ cs) r = elim (Bool-cases (c == slash)) [
  | inl is ↦ rw is (ap (◌∷◌ []) (split-append cs r))
  | inr ne ↦ rw ne (ap (onto_head c) (split-append cs r) ∙ head (split cs) (split_at-ne cs))
]
  where
    head : (es : List Bytes) → es ≢ [] → onto_head c (es ++ split r) ≡ onto_head c es ++ split r
    head [] n = absurd (n refl)
    head (e ∷ es) n = refl

pub split-HasNoSlash : (e : Bytes) → HasNoSlash e → split e ≡ e ∷ []
unfolding split_at
split-HasNoSlash [] h = refl
split-HasNoSlash (c ∷ cs) (ne, h) = rw (ne, split-HasNoSlash cs h)

pub split-join_elems :
    (names : List Bytes) → All IsName names → names ≢ [] → split (join_elems names) ≡ names
unfolding join_elems
split-join_elems [] h n = absurd (n refl)
split-join_elems (e ∷ []) h n = split-HasNoSlash e h.0.no_slash
split-join_elems (e ∷ f ∷ es) (he, h) n =
    split-append e (join_elems (f ∷ es))
    ∙ rw (split-HasNoSlash e he.no_slash) (ap (◌∷◌ e) (split-join_elems (f ∷ es) h (λ x. cc)))

-- The elements of the rooted path of plain names.
pub split-path_of :
    (names : List Bytes) → All IsName names → names ≢ [] → split (path_of names) ≡ [] ∷ names
unfolding split_at
split-path_of names h n =
    split-append [] (join_elems names) ∙ ap (◌∷◌ []) (split-join_elems names h n)

clean_elem-name :
    (rooted : Bool) (e : Bytes) (kept : List Bytes) → IsName e → clean_elem rooted e kept ≡ e ∷ kept
unfolding clean_elem
clean_elem-name rooted e kept h = rw (h.ne_nil, h.ne_dot, h.ne_dot_dot)

-- Plain names are kept as they are.
pub clean_elems-names :
    (rooted : Bool) (names kept : List Bytes)
    → All IsName names
    → clean_elems rooted names kept ≡ reverse names ++ kept
unfolding clean_elems
clean_elems-names rooted [] kept h = refl
clean_elems-names rooted (e ∷ es) kept (he, h) =
    rw
      (
        clean_elem-name rooted e kept he,
        clean_elems-names rooted es (e ∷ kept) h,
        reverse-append (e ∷ []) es,
      )
      (sym (append_assoc (reverse es) (e ∷ []) kept))

pub clean_elems-append :
    (rooted : Bool) (es fs kept : List Bytes)
    → clean_elems rooted (es ++ fs) kept ≡ clean_elems rooted fs (clean_elems rooted es kept)
unfolding clean_elems
clean_elems-append rooted [] fs kept = refl
clean_elems-append rooted (e ∷ es) fs kept =
    clean_elems-append rooted es fs (clean_elem rooted e kept)

pub clean_elem-nil : (rooted : Bool) (kept : List Bytes) → clean_elem rooted [] kept ≡ kept
unfolding clean_elem eq_bytes
clean_elem-nil rooted kept = refl

pub is_rooted-slash : (r : Bytes) → is_rooted (slash ∷ r) ≡ true
unfolding has_prefix
is_rooted-slash r = refl

-- `Clean` of a rooted path whose elements are plain names.
pub clean-of_split :
    (p : Bytes) (names : List Bytes)
    → is_rooted p ≡ true
    → split p ≡ [] ∷ names
    → All IsName names
    → clean p ≡ path_of names
unfolding clean clean_elems
clean-of_split p names r e h =
    rw
      (r, e, clean_elem-nil true [], clean_elems-names true names [] h, append-nil, reverse-reverse)

-- A path that is clean already stays.
pub clean-path_of : (names : List Bytes) → All IsName names → clean (path_of names) ≡ path_of names
unfolding clean clean_elems clean_elem has_prefix split_at join_elems eq_bytes
clean-path_of [] h = refl
clean-path_of (e ∷ es) h =
    clean-of_split (path_of (e ∷ es)) (e ∷ es) (is_rooted-slash (join_elems (e ∷ es)))
      (split-path_of (e ∷ es) h (λ x. cc)) h

-- `Clean` is idempotent on rooted paths.
pub clean-clean : (p : Bytes) → is_rooted p ≡ true → clean (clean p) ≡ clean p
clean-clean p r = let (names, h, e) = clean-IsName p r in ap clean e ∙ clean-path_of names h ∙ sym e
