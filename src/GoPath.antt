-- ===== src/GoPath.antt =====
-- Package path/filepath of the standard library on Unix (and path, which it agrees with there), as
-- far as the program uses it. A path is its bytes; `Clean` works on the elements between slashes.
pub mod Clean
pub mod Inside
pub mod Plain
pub mod Absolute
mod Tests
use agentflash.Common.{
  ℕ, zero, suc, ◌+◌, Bool, true, false, not, ◌&&◌, ◌||◌, Option, none, some, List, [], ◌∷◌, ◌++◌,
  map, reverse, Bytes, codes, eq_bytes, has_prefix, ◌==◌, if◌then◌else◌,
}

abbrev pub slash : ℕ
slash = b'/'

abbrev pub dot : Bytes
dot = codes "."

abbrev pub dot_dot : Bytes
dot_dot = codes ".."

-- The first element of a path put before the others.
abbrev pub onto_head : ℕ → List Bytes → List Bytes
onto_head c [] = (c ∷ []) ∷ []
onto_head c (e ∷ es) = (c ∷ e) ∷ es

-- `strings.Split(p, sep)` at one byte: never empty, and a trailing separator gives a last `""`.
unfoldable pub split_at : ℕ → Bytes → List Bytes
split_at sep [] = [] ∷ []
split_at sep (c ∷ cs) = if c == sep then [] ∷ split_at sep cs else onto_head c (split_at sep cs)

abbrev pub split : Bytes → List Bytes
split = split_at slash

-- `strings.Join(elems, "/")`
unfoldable pub join_elems : List Bytes → Bytes
join_elems [] = []
join_elems (e ∷ []) = e
join_elems (e ∷ f ∷ es) = e ++ (slash ∷ join_elems (f ∷ es))

abbrev pub is_rooted : Bytes → Bool
is_rooted p = has_prefix p (slash ∷ [])

-- `..` after the elements kept so far, the last one first.
unfoldable pub go_up : Bool → List Bytes → List Bytes
go_up rooted [] = if rooted then [] else dot_dot ∷ []
go_up rooted (top ∷ below) = if eq_bytes top dot_dot then dot_dot ∷ top ∷ below else below

-- What `Clean` does with one element.
unfoldable pub clean_elem : Bool → Bytes → List Bytes → List Bytes
clean_elem rooted e kept =
    if eq_bytes e [] || eq_bytes e dot
    then kept
    else if eq_bytes e dot_dot
    then go_up rooted kept
    else e ∷ kept

unfoldable pub clean_elems : Bool → List Bytes → List Bytes → List Bytes
clean_elems rooted [] kept = kept
clean_elems rooted (e ∷ es) kept = clean_elems rooted es (clean_elem rooted e kept)

unfoldable pub unrooted : Bytes → Bytes
unrooted [] = dot
unrooted (c ∷ cs) = c ∷ cs

-- `path.Clean`, `filepath.Clean`
unfoldable pub clean : Bytes → Bytes
clean p =
    let kept = join_elems (reverse (clean_elems (is_rooted p) (split p) [])) in
    if is_rooted p then slash ∷ kept else unrooted kept

-- `filepath.Join(a, b)`
unfoldable pub join : Bytes → Bytes → Bytes
join [] [] = []
join [] (c ∷ cs) = clean (c ∷ cs)
join (c ∷ cs) b = clean ((c ∷ cs) ++ slash ∷ b)

-- `filepath.Abs`; `cwd` is what `os.Getwd` returns, `none` its error.
unfoldable pub abs : Option Bytes → Bytes → Option Bytes
abs cwd p =
    if is_rooted p then some (clean p) else elim cwd [ none ↦ none | some wd ↦ some (join wd p) ]

abbrev non_empty : List Bytes → List Bytes
non_empty [] = []
non_empty ([] ∷ es) = non_empty es
non_empty ((c ∷ cs) ∷ es) = (c ∷ cs) ∷ non_empty es

-- The elements of a clean path.
unfoldable pub elems : Bytes → List Bytes
elems p = non_empty (split p)

unfoldable pub last_or : Bytes → List Bytes → Bytes
last_or d [] = d
last_or d (e ∷ es) = last_or e es

-- `filepath.Base`
unfoldable pub base : Bytes → Bytes
base [] = dot
base (c ∷ cs) = last_or (slash ∷ []) (elems (c ∷ cs))

-- What is left of two lists of elements after the elements that both begin with.
abbrev pub strip_common : List Bytes → List Bytes → List Bytes × List Bytes
strip_common [] ts = ([], ts)
strip_common (b ∷ bs) [] = (b ∷ bs, [])
strip_common (b ∷ bs) (t ∷ ts) =
    let rest = strip_common bs ts in if eq_bytes t b then rest else (b ∷ bs, t ∷ ts)

-- The end of `filepath.Rel`, on what is left of the two clean paths.
unfoldable pub rel_elems : List Bytes → List Bytes → Option Bytes
rel_elems [] ts = some (join_elems ts)
rel_elems (b ∷ bs) ts =
    if eq_bytes b dot_dot then none else some (join_elems (map (λ _. dot_dot) (b ∷ bs) ++ ts))

-- `filepath.Rel`
unfoldable pub rel : Bytes → Bytes → Option Bytes
rel basepath targpath =
    let b = clean basepath in
    let t = clean targpath in
    if eq_bytes t b
    then some dot
    else (let b' = if eq_bytes b dot then [] else b in
        if is_rooted b' && is_rooted t || not (is_rooted b' || is_rooted t)
        then (let (bs, ts) = strip_common (elems b') (elems t) in rel_elems bs ts)
        else none)
