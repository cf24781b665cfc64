-- ===== src/Tap/Watched.antt =====
-- `pathIn` and `cleanPath` by the names of directories: which paths the tap takes for watched.
use agentflash.Common.{
  Bool, true, false, ◌||◌, List, [], ◌∷◌, ◌++◌, reverse, ◌≡◌, ◌≢◌, ◌↔◌, refl, sym, ap, ◌∙◌, arith,
  inl, inr, Bytes, eq_bytes, eq_bytes_refl, has_prefix, ◌==◌, Bool-cases, append_assoc, append-nil,
  reverse-append, reverse-reverse,
}
use agentflash.GoPath.{slash, join_elems, clean, is_rooted}
use agentflash.GoPath.Clean.{All, All-reverse, HasNoSlash, IsName, path_of, clean-IsName}
use agentflash.GoPath.Inside.{Under, eq-Under, has_prefix-Under, Under-has_prefix}
use agentflash.Tap.{path_in, clean_path, prefix_of}

join_elems-last :
    (names : List Bytes)
    → All IsName names
    → names ≢ []
    → (front last : Bytes) × (join_elems names ≡ front ++ last) × IsName last
unfolding join_elems
join_elems-last [] h n = absurd (n refl)
join_elems-last (e ∷ []) h n = ([], e, refl, h.0)
join_elems-last (e ∷ f ∷ es) h n =
    let (front, last, same, name) = join_elems-last (f ∷ es) h.1 (λ x. cc) in
    (
      e ++ slash ∷ front,
      last,
      ap (λ x. e ++ slash ∷ x) same ∙ sym (append_assoc e (slash ∷ front) last),
      name,
    )

no_slash_first : (r s : Bytes) → HasNoSlash r → r ≢ [] → has_prefix (r ++ s) (slash ∷ []) ≡ false
unfolding has_prefix
no_slash_first [] s h n = absurd (n refl)
no_slash_first (c ∷ cs) s h n = let k = h.0 in rw k

name_ne_nil : (e : Bytes) → IsName e → reverse e ≢ []
unfolding eq_bytes
name_ne_nil e h r = cc (h.ne_nil, sym (reverse-reverse e) ∙ ap reverse r, eq_bytes_refl [])

-- The path of some names does not end in a slash, so its prefix has one more; the prefix of the
-- file system's root is the root.
prefix_of-path_of :
    (names : List Bytes)
    → All IsName names
    → names ≢ []
    → prefix_of (path_of names) ≡ path_of names ++ slash ∷ []
unfolding prefix_of
prefix_of-path_of names h n =
    let (front, last, same, name) = join_elems-last names h n in
    let ends = ap (λ x. reverse (slash ∷ x)) same ∙ reverse-append (slash ∷ front) last in
    rw (
      ends,
      no_slash_first (reverse last) (reverse (slash ∷ front))
          (All-reverse (λ c. (c == slash) ≡ false) last name.no_slash) (name_ne_nil last name),
    )

path_in-Under :
    (rs ps : List Bytes)
    → All IsName rs
    → All IsName ps
    → path_in (path_of ps) (path_of rs) (prefix_of (path_of rs)) ≡ true
    → Under rs ps
unfolding path_in
path_in-Under [] ps hr hp h = (ps, refl, hp)
path_in-Under (r ∷ rs) ps hr hp h = elim (Bool-cases (eq_bytes (path_of ps) (path_of (r ∷ rs)))) [
  | inl same ↦ eq-Under (r ∷ rs) ps hr hp same
  | inr other ↦
      has_prefix-Under (r ∷ rs) ps hr hp (ground (arith, prefix_of-path_of (r ∷ rs) hr (λ x. cc)))
]

or_right : (a b : Bool) → b ≡ true → (a || b) ≡ true
or_right true b h = refl
or_right false b h = h

Under-path_in :
    (rs ss : List Bytes)
    → All IsName rs
    → path_in (path_of (rs ++ ss)) (path_of rs) (prefix_of (path_of rs)) ≡ true
unfolding path_in prefix_of join_elems has_prefix
Under-path_in [] ss hr = or_right (eq_bytes (path_of ss) (path_of [])) _ refl
Under-path_in (r ∷ rs) [] hr = rw (append-nil rs, eq_bytes_refl (path_of (r ∷ rs)))
Under-path_in (r ∷ rs) (s ∷ ss) hr =
    or_right (eq_bytes (path_of ((r ∷ rs) ++ s ∷ ss)) (path_of (r ∷ rs))) _ (
      rw (prefix_of-path_of (r ∷ rs) hr (λ x. cc))
        (Under-has_prefix (r ∷ rs) (s ∷ ss) (λ x. cc) (λ x. cc)))

clean_path-clean :
    (p : Bytes) (names : List Bytes)
    → is_rooted p ≡ true
    → clean p ≡ path_of names
    → clean_path p ≡ clean p
unfolding clean_path has_prefix eq_bytes
clean_path-clean [] names r e = cc
clean_path-clean (c ∷ cs) names r e = rw (e, clean_path, eq_bytes)

-- Of a rooted path that the kernel reports, the tap takes the cleaned path, made of plain names; and
-- it takes that for watched exactly when its names are those of the watch dir followed by any
-- others, also where the watch dir is the file system's root.
pub path_in-iff_Under :
    (rs : List Bytes) (p : Bytes)
    → All IsName rs
    → is_rooted p ≡ true
    → (ps : List Bytes) × (clean_path p ≡ path_of ps)
      × All IsName ps
      × ((path_in (clean_path p) (path_of rs) (prefix_of (path_of rs)) ≡ true) ↔ Under rs ps)
path_in-iff_Under rs p hr r =
    let (ps, hp, e) = clean-IsName p r in
    let same = clean_path-clean p ps r e ∙ e in
    (
      ps,
      same,
      hp,
      (
        λ h. path_in-Under rs ps hr hp (rw same at h),
        λ (ss, below, _). rw (same, below) (Under-path_in rs ss hr),
      ),
    )
