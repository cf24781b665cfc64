-- ===== src/Watcher/Parent.antt =====
-- internal/ui/server.go, parentDir: the parent of a path by bytes and by names.
use agentflash.Common.{
  ℕ, suc, none, some, List, [], ◌∷◌, ◌++◌, ◌≡◌, refl, ap, ◌∙◌, Bytes, length, take,
  take-append_length,
}
use agentflash.GoPath.{slash, join_elems}
use agentflash.GoPath.Clean.{HasNoSlash, path_of}
use agentflash.GoPath.Inside.{join_elems-append}
use agentflash.Watcher.{last_slash, parent_dir}

last_slash-HasNoSlash : (e : Bytes) → HasNoSlash e → last_slash e ≡ none
unfolding last_slash
last_slash-HasNoSlash [] h = refl
last_slash-HasNoSlash (c ∷ cs) (n, h) = rw (last_slash-HasNoSlash cs h, n)

last_slash-append : (a e : Bytes) → HasNoSlash e → last_slash (a ++ slash ∷ e) ≡ some (length a)
unfolding last_slash
last_slash-append [] e h = rw (last_slash-HasNoSlash e h)
last_slash-append (c ∷ a) e h = rw (last_slash-append a e h)

parent_dir-take : (p : Bytes) (i : ℕ) → last_slash p ≡ some (suc i) → parent_dir p ≡ take (suc i) p
unfolding parent_dir
parent_dir-take p i e = rw (e, parent_dir)

parent_dir_root : (p : Bytes) → last_slash p ≡ some 0 → parent_dir p ≡ p
unfolding parent_dir
parent_dir_root p e = rw (e, parent_dir)

-- The parent of the path of two or more names is the path of all names but the last; that of a
-- path directly in the root is the path itself.
pub parent_dir-path_of :
    (m : Bytes) (ms : List Bytes) (n : Bytes)
    → HasNoSlash n
    → (parent_dir (path_of ((m ∷ ms) ++ n ∷ [])) ≡ path_of (m ∷ ms))
      × (parent_dir (path_of (n ∷ [])) ≡ path_of (n ∷ []))
unfolding join_elems
parent_dir-path_of m ms n h =
    let split = ap (◌∷◌ slash) (join_elems-append (m ∷ ms) (n ∷ []) (λ x. cc) (λ x. cc)) in
    (
      ap parent_dir split
          ∙ parent_dir-take (path_of (m ∷ ms) ++ slash ∷ n) (length (join_elems (m ∷ ms)))
              (last_slash-append (path_of (m ∷ ms)) n h)
          ∙ take-append_length (path_of (m ∷ ms)) (slash ∷ n),
      parent_dir_root (slash ∷ n) (last_slash-append [] n h),
    )
