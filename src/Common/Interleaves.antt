-- ===== src/Common/Interleaves.antt =====
-- Two lists woven into one.
use mathlib.Core.List.{List, [], ◌∷◌, ◌++◌}

-- `zs` has the elements of `xs` and of `ys`, each in their order, and no others.
pub data Interleaves {ℓ} {A : Type ℓ} : List A → List A → List A → Type ℓ where
  nothing : Interleaves [] [] []
  first : {x : A} {xs ys zs : List A} → Interleaves xs ys zs → Interleaves (x ∷ xs) ys (x ∷ zs)
  second : {y : A} {xs ys zs : List A} → Interleaves xs ys zs → Interleaves xs (y ∷ ys) (y ∷ zs)

pub Interleaves-snoc_first {ℓ} :
    {A : Type ℓ} {xs ys zs : List A} (a : A)
    → Interleaves xs ys zs
    → Interleaves (xs ++ a ∷ []) ys (zs ++ a ∷ [])
Interleaves-snoc_first a nothing = first nothing
Interleaves-snoc_first a (first i) = first (Interleaves-snoc_first a i)
Interleaves-snoc_first a (second i) = second (Interleaves-snoc_first a i)

Interleaves_second_only {ℓ} : {A : Type ℓ} (ys : List A) → Interleaves [] ys ys
Interleaves_second_only [] = nothing
Interleaves_second_only (y ∷ ys) = second (Interleaves_second_only ys)

pub Interleaves-append_second {ℓ} :
    {A : Type ℓ} {xs ys zs : List A} (bs : List A)
    → Interleaves xs ys zs
    → Interleaves xs (ys ++ bs) (zs ++ bs)
Interleaves-append_second bs nothing = Interleaves_second_only bs
Interleaves-append_second bs (first i) = first (Interleaves-append_second bs i)
Interleaves-append_second bs (second i) = second (Interleaves-append_second bs i)
