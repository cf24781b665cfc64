-- ===== src/Tree/Confined.antt =====
-- internal/ui/tree.go: which directories the handler reads and lists.
use mathlib.Core.Option.{some-injective}
use agentflash.Common.{
  Bool, true, false, Option, none, some, List, [], ◌∷◌, ◌++◌, ◌≡◌, ◌≢◌, refl, sym, ap, ◌∙◌, arith,
  inl, inr, Bytes, eq_bytes, eq_bytes_refl, has_prefix, if◌then◌else◌, Bool-cases, append-nil,
}
use agentflash.GoPath.{slash, join_elems}
use agentflash.GoPath.Clean.{All, IsName, path_of}
use agentflash.GoPath.Absolute.{resolve, resolve-IsName, join-path_of, abs-path_of}
use agentflash.GoPath.Inside.{Under, eq-Under, has_prefix-Under, Under-has_prefix}
use agentflash.Tree.{TreeEntry, TreeResponse, escapes_root, escapes, list_dir, tree_handler}

-- The root of the server is absolute and clean, as runUI makes it: the path of plain names.
module _ (names : List Bytes) (plain : All IsName names) where
  escapes-Under :
      (ps : List Bytes)
      → All IsName ps
      → escapes (path_of ps) (path_of names) ≡ false
      → Under names ps
  unfolding escapes
  escapes-Under ps h e = elim (Bool-cases (eq_bytes (path_of ps) (path_of names))) [
    | inl same ↦ eq-Under names ps plain h same
    | inr other ↦ has_prefix-Under names ps plain h (ground arith)
  ]

  Under-escapes :
      (ss : List Bytes) → names ≢ [] → escapes (path_of (names ++ ss)) (path_of names) ≡ false
  unfolding escapes
  Under-escapes [] n = rw (append-nil, eq_bytes_refl (path_of names))
  Under-escapes (s ∷ ss) n = let p = Under-has_prefix names (s ∷ ss) n (λ x. cc) in ground arith

root_escapes :
    (n : Bytes) (ns : List Bytes)
    → All IsName (n ∷ ns)
    → escapes (path_of (n ∷ ns)) (path_of []) ≡ true
unfolding escapes has_prefix eq_bytes join_elems
root_escapes [] ns h = cc (h.0.ne_nil)
root_escapes (c ∷ cs) [] (h, _) = let s = h.no_slash.0 in rw s
root_escapes (c ∷ cs) (m ∷ ns) (h, _) = let s = h.no_slash.0 in rw s

module _ (cwd : Option Bytes) (read_dir : Bytes → Option (List TreeEntry)) where
  abbrev answer : Bytes → Bool → Option Bytes × TreeResponse
  answer p outside = if outside then (none, escapes_root) else (some p, list_dir cwd read_dir p)

  -- The handler by names: what it reads is the resolved path, if the guard lets it through.
  tree_handler-resolve :
      (names : List Bytes) (rel : Bytes)
      → All IsName names
      → has_prefix rel (slash ∷ []) ≡ false
      → tree_handler cwd read_dir (path_of names) rel
        ≡ (let p = path_of (resolve names rel) in answer p (escapes p (path_of names)))
  unfolding tree_handler
  tree_handler-resolve names rel h r = rw (
    r,
    join-path_of names rel h,
    abs-path_of cwd (resolve names rel) (resolve-IsName names rel h),
    abs-path_of cwd names h,
  )

  absolute_refused :
      (names : List Bytes) (rel : Bytes)
      → has_prefix rel (slash ∷ []) ≡ true
      → (tree_handler cwd read_dir (path_of names) rel).0 ≡ none
  unfolding tree_handler
  absolute_refused names rel a = rw a

  -- Whatever the query says, a directory that the handler reads is the watched one or lies below
  -- it: its path is the root's followed by plain names, none of which is empty, `.` or `..`.
  pub tree_handler-Under :
      (names : List Bytes) (rel : Bytes) (p : Bytes)
      → All IsName names
      → (tree_handler cwd read_dir (path_of names) rel).0 ≡ some p
      → (ss : List Bytes) × (p ≡ path_of (names ++ ss)) × All IsName ss
  tree_handler-Under names rel p h e = elim (Bool-cases (has_prefix rel (slash ∷ []))) [
    | inl absolute ↦ cc (refused absolute, e)
    | inr relative ↦
        read relative (escapes (path_of (resolve names rel)) (path_of names)) refl
          (ap (λ r. r.0) (sym (tree_handler-resolve names rel h relative)) ∙ e)
  ]
    where
      refused :
          has_prefix rel (slash ∷ []) ≡ true
          → (tree_handler cwd read_dir (path_of names) rel).0 ≡ none
      refused a = absolute_refused names rel a

      read :
          has_prefix rel (slash ∷ []) ≡ false
          → (b : Bool) → escapes (path_of (resolve names rel)) (path_of names) ≡ b
          → (answer (path_of (resolve names rel)) b).0 ≡ some p
          → (ss : List Bytes) × (p ≡ path_of (names ++ ss)) × All IsName ss
      read relative true g q = cc
      read relative false g q =
          let (ss, same, plain) =
            escapes-Under names h (resolve names rel) (resolve-IsName names rel h) g in
          (ss, sym (some-injective _ _ q) ∙ ap path_of same, plain)

  -- A relative query that leads to the watched directory or below it is answered by that directory,
  -- unless the watched directory is the file system's root.
  pub tree_handler_complete :
      (names ss : List Bytes) (rel : Bytes)
      → All IsName names
      → names ≢ []
      → has_prefix rel (slash ∷ []) ≡ false
      → resolve names rel ≡ names ++ ss
      → tree_handler cwd read_dir (path_of names) rel
        ≡ (some (path_of (names ++ ss)), list_dir cwd read_dir (path_of (names ++ ss)))
  tree_handler_complete names ss rel h n relative e =
      tree_handler-resolve names rel h relative ∙ rw (e, Under-escapes names h ss n)

  -- Where the watched directory is the file system's root, every query for a directory below it is
  -- refused as an escape: the guard looks for the prefix `//`.
  pub tree_handler-file_system_root :
      (rel n : Bytes) (ns : List Bytes)
      → has_prefix rel (slash ∷ []) ≡ false
      → resolve [] rel ≡ n ∷ ns
      → tree_handler cwd read_dir (path_of []) rel ≡ (none, escapes_root)
  tree_handler-file_system_root rel n ns relative e =
      tree_handler-resolve [] rel tt relative
      ∙ rw (e, root_escapes n ns (rw e at (resolve-IsName [] rel tt)))
