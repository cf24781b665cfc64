-- ===== src/Tree.antt =====
-- internal/ui/tree.go: the handler of /api/tree. `cwd` is what `os.Getwd` returns and `read_dir`
-- is `os.ReadDir` with the names and kinds of its entries; `none` is an error of either.
pub mod Confined
pub mod Order
mod Tests
use agentflash.Common.{
  ℕ, Bool, true, false, not, ◌&&◌, ◌||◌, Option, none, some, List, [], ◌∷◌, ◌++◌, Bytes, codes, ltb,
  ◌==◌, if◌then◌else◌, eq_bytes, has_prefix,
}
use agentflash.GoPath.{slash, join, abs}

pub record TreeEntry : Type 0 where
  pub name : Bytes
  pub is_dir : Bool

-- How the handler can answer, in the order of the code.
pub data TreeResponse : Type 0 where
  absolute_not_allowed abs_error escapes_root read_error : TreeResponse
  listing : List TreeEntry → TreeResponse

pub status : TreeResponse → ℕ
status absolute_not_allowed = 400
status abs_error = 400
status escapes_root = 400
status read_error = 500
status (listing _) = 200

-- `a < b` on strings
pub lt_bytes : Bytes → Bytes → Bool
lt_bytes xs [] = false
lt_bytes [] (y ∷ ys) = true
lt_bytes (x ∷ xs) (y ∷ ys) = if x == y then lt_bytes xs ys else ltb x y

same : Bool → Bool → Bool
same true b = b
same false b = not b

-- The comparison that `sort.Slice` is given.
pub less : TreeEntry → TreeEntry → Bool
unfolding same
less a b = if not (same a.is_dir b.is_dir) then a.is_dir else lt_bytes a.name b.name

-- `sort.Slice(out, less)`, by insertion.
insert : TreeEntry → List TreeEntry → List TreeEntry
insert e [] = e ∷ []
insert e (x ∷ xs) = if less x e then x ∷ insert e xs else e ∷ x ∷ xs

pub sort_entries : List TreeEntry → List TreeEntry
sort_entries [] = []
sort_entries (e ∷ es) = insert e (sort_entries es)

-- The guard on the cleaned path.
pub escapes : Bytes → Bytes → Bool
escapes clean_path root_abs =
    not (eq_bytes clean_path root_abs) && not (has_prefix clean_path (root_abs ++ slash ∷ []))

abbrev pub or_empty : Option Bytes → Bytes
or_empty none = []
or_empty (some p) = p

module _ (cwd : Option Bytes) (read_dir : Bytes → Option (List TreeEntry)) where
  pub list_dir : Bytes → TreeResponse
  list_dir p = elim (read_dir p) [ none ↦ read_error | some es ↦ listing (sort_entries es) ]

  -- The answer, with the directory that is read before it, if one is.
  pub tree_handler : Bytes → Bytes → Option Bytes × TreeResponse
  tree_handler root rel =
      if has_prefix rel (slash ∷ [])
      then (none, absolute_not_allowed)
      else elim (abs cwd (join root rel)) [
        | none ↦ (none, abs_error)
        | some clean_path ↦
            if escapes clean_path (or_empty (abs cwd root))
            then (none, escapes_root)
            else (some clean_path, list_dir clean_path)
      ]
