-- ===== src/GoPath/Absolute.antt =====
-- `Join` and `Abs` on rooted clean paths, by names.
use agentflash.Common.{
  true, Option, some, List, [], ◌∷◌, ◌++◌, reverse, ◌≡◌, ◌≢◌, ap, Bytes, append-nil,
  reverse-reverse, reverse-append,
}
use agentflash.GoPath.{slash, split_at, split, join_elems, clean_elems, clean, join, abs}
use agentflash.GoPath.Clean.{
  All, All-reverse, IsName, path_of, clean-path_of, split-append, split-path_of, is_rooted-slash,
  clean_elems-append, clean_elems-names, clean_elems-IsName, split_at-HasNoSlash, clean_elem-nil,
  split-join_elems,
}

-- The names that `rel` leads to from the directory of `names`.
abbrev pub resolve : List Bytes → Bytes → List Bytes
resolve names rel = reverse (clean_elems true (split rel) (reverse names))

pub resolve-IsName :
    (names : List Bytes) (rel : Bytes) → All IsName names → All IsName (resolve names rel)
resolve-IsName names rel h = All-reverse IsName (clean_elems true (split rel) (reverse names)) (
    clean_elems-IsName (split rel) (reverse names) (split_at-HasNoSlash rel)
      (All-reverse IsName names h))

-- Going through plain names changes nothing but the names kept.
resolve_root :
    (names : List Bytes)
    → All IsName names
    → clean_elems true (split (path_of names)) [] ≡ reverse names
unfolding split_at clean_elems join_elems
resolve_root [] h = rw (clean_elem-nil true []) (clean_elem-nil true [])
resolve_root (e ∷ es) h =
    rw
      (
        split-path_of (e ∷ es) h (λ x. cc),
        clean_elem-nil true [],
        clean_elems-names true (e ∷ es) [] h,
      )
      (append-nil (reverse (e ∷ es)))

-- `Join` of a rooted clean path and any other.
pub join-path_of :
    (names : List Bytes) (rel : Bytes)
    → All IsName names
    → join (path_of names) rel ≡ path_of (resolve names rel)
unfolding join clean
join-path_of names rel h = rw (
  is_rooted-slash (join_elems names ++ slash ∷ rel),
  split-append (path_of names) rel,
  clean_elems-append true (split (path_of names)) (split rel) [],
  resolve_root names h,
)

-- `Abs` of a rooted clean path.
pub abs-path_of :
    (cwd : Option Bytes) (names : List Bytes)
    → All IsName names
    → abs cwd (path_of names) ≡ some (path_of names)
unfolding abs
abs-path_of cwd names h = rw (is_rooted-slash (join_elems names)) (ap some (clean-path_of names h))

-- The relative path of plain names.
pub resolve-join_elems :
    (names ns : List Bytes) → All IsName ns → ns ≢ [] → resolve names (join_elems ns) ≡ names ++ ns
resolve-join_elems names ns h n =
    rw (split-join_elems ns h n, clean_elems-names true ns (reverse names) h, reverse-append)
      (simp reverse-reverse)
