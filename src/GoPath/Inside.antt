-- ===== src/GoPath/Inside.antt =====
-- One clean path lies under another: by elements, and by the tests on bytes that the program makes.
use agentflash.Common.{
  true, List, [], ◌∷◌, ◌++◌, ◌≡◌, ◌≢◌, refl, sym, ap, ◌∙◌, Bytes, eq_bytes, eq_bytes_iff,
  has_prefix, has_prefix-append, has_prefix_split, append_assoc, append-nil,
}
use agentflash.GoPath.{slash, split_at, split, join_elems, non_empty, elems}
use agentflash.GoPath.Clean.{All, IsName, path_of, split-append, split-path_of}

pub All-append_left {ℓ κ} :
    {A : Type ℓ} (P : A → Type κ) (xs ys : List A) → All P (xs ++ ys) → All P xs
All-append_left P [] ys h = tt
All-append_left P (x ∷ xs) ys h = (h.0, All-append_left P xs ys h.1)

pub All-append_right {ℓ κ} :
    {A : Type ℓ} (P : A → Type κ) (xs ys : List A) → All P (xs ++ ys) → All P ys
All-append_right P [] ys h = h
All-append_right P (x ∷ xs) ys h = All-append_right P xs ys h.1

non_empty-append : (es fs : List Bytes) → non_empty (es ++ fs) ≡ non_empty es ++ non_empty fs
non_empty-append [] fs = refl
non_empty-append ([] ∷ es) fs = non_empty-append es fs
non_empty-append ((c ∷ cs) ∷ es) fs = ap (◌∷◌ (c ∷ cs)) (non_empty-append es fs)

non_empty-names : (names : List Bytes) → All IsName names → non_empty names ≡ names
unfolding eq_bytes
non_empty-names [] h = refl
non_empty-names ([] ∷ es) h = cc (h.0.ne_nil)
non_empty-names ((c ∷ cs) ∷ es) h = ap (◌∷◌ (c ∷ cs)) (non_empty-names es h.1)

pub elems-append : (a r : Bytes) → elems (a ++ slash ∷ r) ≡ elems a ++ elems r
unfolding elems
elems-append a r = rw (split-append a r) (non_empty-append (split a) (split r))

pub elems-path_of : (names : List Bytes) → All IsName names → elems (path_of names) ≡ names
unfolding elems join_elems split_at
elems-path_of [] h = refl
elems-path_of (e ∷ es) h = rw (split-path_of (e ∷ es) h (λ x. cc)) (non_empty-names (e ∷ es) h)

pub join_elems-append :
    (rs ss : List Bytes)
    → rs ≢ []
    → ss ≢ []
    → join_elems (rs ++ ss) ≡ join_elems rs ++ slash ∷ join_elems ss
unfolding join_elems
join_elems-append [] ss n m = absurd (n refl)
join_elems-append (r ∷ []) [] n m = absurd (m refl)
join_elems-append (r ∷ []) (s ∷ ss) n m = refl
join_elems-append (r ∷ q ∷ rs) ss n m =
    ap (λ x. r ++ slash ∷ x) (join_elems-append (q ∷ rs) ss (λ x. cc) m)
    ∙ sym (append_assoc r (slash ∷ join_elems (q ∷ rs)) (slash ∷ join_elems ss))

-- The path of `ps` is that of `rs` or lies below it.
abbrev pub Under : List Bytes → List Bytes → Type 0
Under rs ps = (ss : List Bytes) × (ps ≡ rs ++ ss) × All IsName ss

module _ (rs ps : List Bytes) (hr : All IsName rs) (hp : All IsName ps) where
  pub eq-Under : eq_bytes (path_of ps) (path_of rs) ≡ true → Under rs ps
  eq-Under e =
      let same =
        sym (elems-path_of ps hp)
        ∙ ap elems ((eq_bytes_iff (path_of ps) (path_of rs)).0 e)
        ∙ elems-path_of rs hr in
      ([], same ∙ sym (append-nil rs), tt)

  pub has_prefix-Under : has_prefix (path_of ps) (path_of rs ++ slash ∷ []) ≡ true → Under rs ps
  has_prefix-Under e =
      let (r, s) = has_prefix_split (path_of ps) (path_of rs ++ slash ∷ []) e in
      let below =
        sym (elems-path_of ps hp)
        ∙ ap elems (s ∙ append_assoc (path_of rs) (slash ∷ []) r)
        ∙ elems-append (path_of rs) r
        ∙ ap (λ x. x ++ elems r) (elems-path_of rs hr) in
      (elems r, below, All-append_right IsName rs (elems r) (rw below at hp))

-- The path of names put behind others, byte by byte.
pub path_of-append :
    (rs ss : List Bytes)
    → rs ≢ []
    → ss ≢ []
    → path_of (rs ++ ss) ≡ (path_of rs ++ slash ∷ []) ++ join_elems ss
path_of-append rs ss n m =
    ap (◌∷◌ slash) (join_elems-append rs ss n m)
    ∙ sym (append_assoc (path_of rs) (slash ∷ []) (join_elems ss))

pub Under-has_prefix :
    (rs ss : List Bytes)
    → rs ≢ []
    → ss ≢ []
    → has_prefix (path_of (rs ++ ss)) (path_of rs ++ slash ∷ []) ≡ true
Under-has_prefix rs ss n m =
    rw (path_of-append rs ss n m) (has_prefix-append (path_of rs ++ slash ∷ []) (join_elems ss))
