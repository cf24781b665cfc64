-- ===== src/Tree/Tests.antt =====
-- internal/ui/tree_test.go, and the handler's theorems at concrete inputs.
use mathlib.Core.List.{Perm}
use agentflash.Common.{
  ◌≡◌, refl, List, [], ◌∷◌, ◌++◌, Option, none, some, true, false, codes, Bytes, eq_bytes,
  has_prefix,
}
use agentflash.GoPath.{
  split_at, join_elems, clean_elems, clean_elem, go_up, clean, join, abs, unrooted,
}
use agentflash.GoPath.Clean.{All, IsName, path_of}
use agentflash.Tree.{
  TreeEntry, listing, escapes_root, absolute_not_allowed, tree_handler, list_dir, sort_entries,
  insert, less, lt_bytes, escapes, status,
}
use agentflash.Tree.Order.{IsListed, sort_entries_lem}
use agentflash.Tree.Confined.{
  tree_handler-Under, tree_handler_complete, tree_handler-file_system_root,
}

abbrev file : Bytes → TreeEntry
file name = record { name = name; is_dir = false }

abbrev dir : Bytes → TreeEntry
dir name = record { name = name; is_dir = true }

abbrev entries : List TreeEntry
entries = file (codes "b.txt") ∷ dir (codes "sub") ∷ file (codes "a.txt") ∷ []

abbrev sorted : List TreeEntry
sorted = dir (codes "sub") ∷ file (codes "a.txt") ∷ file (codes "b.txt") ∷ []

-- Stands for `os.ReadDir`.
abbrev read_dir : Bytes → Option (List TreeEntry)
read_dir p = some entries

abbrev srv : List Bytes
srv = codes "srv" ∷ codes "www" ∷ []

sort-entries : sort_entries entries ≡ sorted
unfolding sort_entries insert less lt_bytes
sort-entries = refl

handler :
    (tree_handler none read_dir (codes "/srv/www") [] ≡ (some (codes "/srv/www"), listing sorted))
    × (tree_handler none read_dir (codes "/srv/www") (codes "a/../sub")
        ≡ (some (codes "/srv/www/sub"), listing sorted))
    × (tree_handler none read_dir (codes "/srv/www") (codes "../../etc") ≡ (none, escapes_root))
    × (tree_handler none read_dir (codes "/srv/www") (codes "../www2") ≡ (none, escapes_root))
    × (tree_handler none read_dir (codes "/srv/www") (codes "/etc") ≡ (none, absolute_not_allowed))
    × (status escapes_root ≡ 400)
unfolding tree_handler list_dir escapes sort_entries insert less lt_bytes status abs join clean
    clean_elems clean_elem go_up unrooted split_at join_elems eq_bytes has_prefix
handler = (refl, refl, refl, refl, refl, refl)

srv-IsName : All IsName srv
unfolding eq_bytes
srv-IsName = (
  record { ne_nil = refl; ne_dot = refl; ne_dot_dot = refl; no_slash = (refl, (refl, (refl, tt))) },
  (
    record {
      ne_nil = refl;
      ne_dot = refl;
      ne_dot_dot = refl;
      no_slash = (refl, (refl, (refl, tt)));
    },
    tt,
  ),
)

tree_handler-Under_example :
    (ss : List Bytes) × (codes "/srv/www/sub" ≡ path_of (srv ++ ss)) × All IsName ss
unfolding tree_handler escapes abs join clean clean_elems clean_elem go_up unrooted split_at
    join_elems eq_bytes has_prefix
tree_handler-Under_example =
    tree_handler-Under none read_dir srv (codes "a/../sub") (codes "/srv/www/sub") srv-IsName refl

tree_handler_complete_example : tree_handler none read_dir (path_of srv) (codes "a/../sub") ≡ (
  some (path_of (srv ++ codes "sub" ∷ [])),
  list_dir none read_dir (path_of (srv ++ codes "sub" ∷ [])),
)
unfolding clean_elems clean_elem go_up split_at eq_bytes has_prefix
tree_handler_complete_example =
    tree_handler_complete none read_dir srv (codes "sub" ∷ []) (codes "a/../sub") srv-IsName
      (λ e. cc) refl refl

tree_handler-file_system_root_example :
    tree_handler none read_dir (path_of []) (codes "etc") ≡ (none, escapes_root)
unfolding clean_elems clean_elem go_up split_at eq_bytes has_prefix
tree_handler-file_system_root_example =
    tree_handler-file_system_root none read_dir (codes "etc") (codes "etc") [] refl refl

sort_entries_lem_example :
    Perm (sort_entries entries) entries
    × IsListed (sort_entries entries)
    × ((m : List TreeEntry) → Perm m entries → IsListed m → m ≡ sort_entries entries)
sort_entries_lem_example = sort_entries_lem entries
