-- ===== src/FsUsage/Regex.antt =====
-- Package regexp of Go as far as parse.go uses it: an anchored expression is a sequence of items over
-- sets of bytes, and its match is the first in the order of Perl, found by backtracking. The items
-- of the program are bounded by ASCII, so that bytes can stand for runes.
pub mod Exact
use agentflash.Common.{
  ℕ, Bool, true, false, ◌&&◌, Option, none, some, List, [], ◌∷◌, ◌++◌, ◌≡◌, ◌≢◌, Bytes,
  if◌then◌else◌,
}
use agentflash.GoPath.Clean.{All}

abbrev pub Set : Type 0
Set = ℕ → Bool

-- An item takes one byte of the set, at most one, any number or at least one; with `lazy_plus` as
-- few as can be, else as many.
pub data Item : Type 0 where
  one optional star plus lazy_plus : Set → Item

-- The pieces of the text that the items take, in their order.
abbrev pub Pieces : Type 0
Pieces = List Bytes

-- An item ends here.
abbrev pub stop : (Bytes → Option Pieces) → Bytes → Option Pieces
stop k s = elim (k s) [ none ↦ none | some ps ↦ some ([] ∷ ps) ]

-- A byte put before the first piece.
abbrev pub extend : ℕ → Option Pieces → Option Pieces
extend x none = none
extend x (some []) = some ((x ∷ []) ∷ [])
extend x (some (p ∷ ps)) = some ((x ∷ p) ∷ ps)

module _ (c : Set) (k : Bytes → Option Pieces) where
  -- The longest piece first, with `k` for the items behind it.
  unfoldable pub greedy : Bytes → Option Pieces
  greedy [] = stop k []
  greedy (x ∷ r) =
      let longer = extend x (greedy r) in
      if c x then elim longer [ none ↦ stop k (x ∷ r) | some ps ↦ some ps ] else stop k (x ∷ r)

  -- The shortest piece first.
  unfoldable pub lazy : Bytes → Option Pieces
  lazy [] = stop k []
  lazy (x ∷ r) =
      let longer = extend x (lazy r) in
      elim (stop k (x ∷ r)) [ none ↦ if c x then longer else none | some ps ↦ some ps ]

unfoldable pub match_one : Set → (Bytes → Option Pieces) → Bytes → Option Pieces
match_one c k [] = none
match_one c k (x ∷ r) = if c x then extend x (stop k r) else none

unfoldable pub match_plus : Set → (Bytes → Option Pieces) → Bytes → Option Pieces
match_plus c k [] = none
match_plus c k (x ∷ r) = if c x then extend x (greedy c k r) else none

unfoldable pub match_lazy_plus : Set → (Bytes → Option Pieces) → Bytes → Option Pieces
match_lazy_plus c k [] = none
match_lazy_plus c k (x ∷ r) = if c x then extend x (lazy c k r) else none

unfoldable pub match_optional : Set → (Bytes → Option Pieces) → Bytes → Option Pieces
match_optional c k s = elim (match_one c k s) [ none ↦ stop k s | some ps ↦ some ps ]

abbrev pub at_end : Bytes → Option Pieces
at_end [] = some []
at_end (x ∷ s) = none

-- The match of the whole text.
unfoldable pub find : List Item → Bytes → Option Pieces
find [] s = at_end s
find (one c ∷ is) s = match_one c (find is) s
find (optional c ∷ is) s = match_optional c (find is) s
find (star c ∷ is) s = greedy c (find is) s
find (plus c ∷ is) s = match_plus c (find is) s
find (lazy_plus c ∷ is) s = match_lazy_plus c (find is) s
