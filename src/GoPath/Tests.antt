-- ===== src/GoPath/Tests.antt =====
-- internal/tap/clean_test.go, and other paths.
use agentflash.Common.{◌≡◌, refl, some, codes, [], has_prefix, eq_bytes}
use agentflash.GoPath.{
  clean, clean_elems, clean_elem, go_up, unrooted, split_at, join_elems, join, abs, elems, base,
  last_or, rel, rel_elems,
}

clean_paths :
    (clean (codes "//Users/stef/foo") ≡ codes "/Users/stef/foo")
    × (clean (codes "/../../System/Volumes/Preboot/OS") ≡ codes "/System/Volumes/Preboot/OS")
    × (clean (codes "//Users/com.app/Data/x/") ≡ codes "/Users/com.app/Data/x")
    × (clean (codes "a/../../b/./c/..") ≡ codes "../b")
    × (clean (codes "a/..") ≡ codes ".")
    × (clean [] ≡ codes ".")
    × (clean (codes "/..") ≡ codes "/")
unfolding clean clean_elems clean_elem go_up unrooted split_at join_elems eq_bytes has_prefix
clean_paths = (refl, refl, refl, refl, refl, refl, refl)

join_paths :
    (join (codes "/srv") (codes "../../etc") ≡ codes "/etc")
    × (abs (some (codes "/home/u")) (codes "x/../y") ≡ some (codes "/home/u/y"))
    × (base (codes "/a/b.txt") ≡ codes "b.txt")
    × (base (codes "/") ≡ codes "/")
    × (rel (codes "/a/b") (codes "/a/c/d") ≡ some (codes "../c/d"))
    × (rel (codes "/a/b") (codes "/a/b/c") ≡ some (codes "c"))
    × (rel (codes "/") (codes "/a") ≡ some (codes "a"))
unfolding join abs base last_or rel rel_elems elems clean clean_elems clean_elem go_up unrooted
    split_at join_elems eq_bytes has_prefix
join_paths = (refl, refl, refl, refl, refl, refl, refl)
