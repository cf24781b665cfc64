-- ===== src/Tree/Order.antt =====
-- The order of a listing: directories first, then by name. It has one sorted arrangement, so any
-- correct `sort.Slice` gives it.
use mathlib.Core.List.{Mem, Perm, Pairwise, mem-cons_self, forall_mem-cons, not-mem-nil}
use mathlib.Core.List.Pairwise
use mathlib.Core.List.Perm
use agentflash.Common.{
  ◌<◌, ◌↔◌, ◌⊎◌, true, false, List, [], ◌∷◌, ◌≡◌, refl, ap₂, arith, inl, inr, Bytes, Bool-cases,
}
use agentflash.Tree.{TreeEntry, lt_bytes, less, insert, sort_entries}

lt_bytes-asymm : (a b : Bytes) → lt_bytes a b ≡ true → lt_bytes b a ≡ false
unfolding lt_bytes
lt_bytes-asymm [] [] h = cc
lt_bytes-asymm [] (y ∷ ys) h = refl
lt_bytes-asymm (x ∷ xs) [] h = cc
lt_bytes-asymm (x ∷ xs) (y ∷ ys) h = ground (arith, lt_bytes-asymm xs ys)

lt_bytes_trans :
    (a b c : Bytes) → lt_bytes b a ≡ false → lt_bytes c b ≡ false → lt_bytes c a ≡ false
unfolding lt_bytes
lt_bytes_trans [] b [] h k = refl
lt_bytes_trans [] [] (z ∷ zs) h k = refl
lt_bytes_trans [] (y ∷ ys) (z ∷ zs) h k = refl
lt_bytes_trans (x ∷ xs) [] c h k = cc
lt_bytes_trans (x ∷ xs) (y ∷ ys) [] h k = cc
lt_bytes_trans (x ∷ xs) (y ∷ ys) (z ∷ zs) h k = ground (arith, lt_bytes_trans xs ys zs)

lt_bytes_antisymm : (a b : Bytes) → lt_bytes a b ≡ false → lt_bytes b a ≡ false → a ≡ b
unfolding lt_bytes
lt_bytes_antisymm [] [] h k = refl
lt_bytes_antisymm [] (y ∷ ys) h k = cc
lt_bytes_antisymm (x ∷ xs) [] h k = cc
lt_bytes_antisymm (x ∷ xs) (y ∷ ys) h k = ground (arith, lt_bytes_antisymm xs ys)

-- `b` does not have to stand before `a`.
abbrev Le : TreeEntry → TreeEntry → Type 0
Le a b = less b a ≡ false

Le_prop : (a b : TreeEntry) → IsProp (Le a b)
Le_prop a b = hlevel

Le-of_less : (a b : TreeEntry) → less a b ≡ true → Le a b
unfolding less
Le-of_less a b h = ground (arith, lt_bytes-asymm a.name b.name)

Le_refl : (a : TreeEntry) → Le a a
Le_refl a = elim (Bool-cases (less a a)) [ inl t ↦ Le-of_less a a t | inr f ↦ f ]

Le_trans : (a b c : TreeEntry) → Le a b → Le b c → Le a c
unfolding less
Le_trans a b c h k = ground (arith, lt_bytes_trans a.name b.name c.name)

Le_antisymm : (a b : TreeEntry) → Le a b → Le b a → a ≡ b
unfolding less
Le_antisymm a b h k = ground (arith, lt_bytes_antisymm a.name b.name)

abbrev IsSorted : List TreeEntry → Type 0
IsSorted = Pairwise Le

abbrev IsBelow : TreeEntry → List TreeEntry → Type 0
IsBelow a l = (x : TreeEntry) → Mem x l → Le a x

IsBelow-cons : (a b : TreeEntry) {l : List TreeEntry} → Le a b → IsBelow a l → IsBelow a (b ∷ l)
IsBelow-cons a b p h = (forall_mem-cons (Le_prop a)).1 (p, h)

IsBelow-head :
    (a b : TreeEntry) {l : List TreeEntry} → Le a b → IsSorted (b ∷ l) → IsBelow a (b ∷ l)
IsBelow-head a b p (Pairwise.cons h _) = IsBelow-cons a b p (λ x m. Le_trans a b x p (h x m))

IsBelow-perm : (a : TreeEntry) {l r : List TreeEntry} → Perm l r → IsBelow a r → IsBelow a l
IsBelow-perm a p h x m = h x ((Perm.mem_iff p).0 m)

insert-perm : (e : TreeEntry) (l : List TreeEntry) → Perm (insert e l) (e ∷ l)
unfolding insert
insert-perm e [] = Perm.refl (e ∷ [])
insert-perm e (x ∷ xs) = elim (Bool-cases (less x e)) [
  | inl before ↦ rw before (Perm.trans (Perm.cons x (insert-perm e xs)) (Perm.swap e x xs))
  | inr after ↦ rw after (Perm.refl (e ∷ x ∷ xs))
]

insert-IsSorted : (e : TreeEntry) (l : List TreeEntry) → IsSorted l → IsSorted (insert e l)
unfolding insert
insert-IsSorted e [] s = Pairwise.cons (λ x m. absurd (not-mem-nil m)) Pairwise.nil
insert-IsSorted e (x ∷ xs) (Pairwise.cons h s) = elim (Bool-cases (less x e)) [
  | inl before ↦ rw before (
      Pairwise.cons (IsBelow-perm x (insert-perm e xs) (IsBelow-cons x e (Le-of_less x e before) h))
        (insert-IsSorted e xs s))
  | inr after ↦
      rw after (Pairwise.cons (IsBelow-head e x after (Pairwise.cons h s)) (Pairwise.cons h s))
]

sort_entries-perm : (l : List TreeEntry) → Perm (sort_entries l) l
unfolding sort_entries
sort_entries-perm [] = Perm.refl []
sort_entries-perm (e ∷ es) =
    Perm.trans (insert-perm e (sort_entries es)) (Perm.cons e (sort_entries-perm es))

sort_entries-IsSorted : (l : List TreeEntry) → IsSorted (sort_entries l)
unfolding sort_entries
sort_entries-IsSorted [] = Pairwise.nil
sort_entries-IsSorted (e ∷ es) = insert-IsSorted e (sort_entries es) (sort_entries-IsSorted es)

heads_le :
    (a b : TreeEntry) {l r : List TreeEntry} → IsSorted (a ∷ l) → Perm (b ∷ r) (a ∷ l) → Le a b
heads_le a b s p = IsBelow-perm a p (IsBelow-head a a (Le_refl a) s) b mem-cons_self

IsSorted-eq_of_perm : (l r : List TreeEntry) → IsSorted l → IsSorted r → Perm l r → l ≡ r
IsSorted-eq_of_perm [] r _ _ p = Perm.nil-eq p
IsSorted-eq_of_perm (a ∷ l) [] _ _ p = Perm.eq-nil p
IsSorted-eq_of_perm (a ∷ l) (b ∷ r) sl sr p =
    let heads = Le_antisymm a b (heads_le a b sl (Perm.symm p)) (heads_le b a sr p) in
    let tails = Perm.cons_inv (Perm.trans p (Perm.symm (Perm.cons' heads Perm.rfl))) in
    ap₂ ◌∷◌ heads (IsSorted-eq_of_perm l r (Pairwise.of_cons sl) (Pairwise.of_cons sr) tails)

-- The order of the names byte by byte, in which a name stands behind each of its beginnings.
abbrev pub AtMost : Bytes → Bytes → Type 0
AtMost [] b = Unit
AtMost (x ∷ xs) [] = ⊥
AtMost (x ∷ xs) (y ∷ ys) = (x < y) ⊎ ((x ≡ y) × AtMost xs ys)

AtMost-iff : (a b : Bytes) → (lt_bytes b a ≡ false) ↔ AtMost a b
unfolding lt_bytes
AtMost-iff [] b = (λ h. tt, λ h. refl)
AtMost-iff (x ∷ xs) [] = (λ h. cc, λ h. absurd h)
AtMost-iff (x ∷ xs) (y ∷ ys) = ground (arith, AtMost-iff xs ys)

-- One entry may stand before another: a directory before any file, and two of a kind by name.
abbrev pub MayPrecede : TreeEntry → TreeEntry → Type 0
MayPrecede a b =
    ((a.is_dir ≡ true) × (b.is_dir ≡ false)) ⊎ ((a.is_dir ≡ b.is_dir) × AtMost a.name b.name)

MayPrecede-iff : (a b : TreeEntry) → Le a b ↔ MayPrecede a b
unfolding less
MayPrecede-iff a b = ground (arith, AtMost-iff a.name b.name)

abbrev pub IsListed : List TreeEntry → Type 0
IsListed = Pairwise MayPrecede

-- The listing holds the entries of the directory, each as often as it was read; each of its entries
-- may stand before all that follow it, where a directory stands before any file and entries of the
-- same kind are in the order of the bytes of their names; and no other arrangement of them has that
-- order.
pub sort_entries_lem :
    (l : List TreeEntry)
    → Perm (sort_entries l) l
      × IsListed (sort_entries l)
      × ((m : List TreeEntry) → Perm m l → IsListed m → m ≡ sort_entries l)
sort_entries_lem l = (
  sort_entries-perm l,
  Pairwise.imp (λ a b. (MayPrecede-iff a b).0) (sort_entries-IsSorted l),
  λ m p s.
      IsSorted-eq_of_perm m (sort_entries l) (Pairwise.imp (λ a b. (MayPrecede-iff a b).1) s)
        (sort_entries-IsSorted l) (Perm.trans p (Perm.symm (sort_entries-perm l))),
)
