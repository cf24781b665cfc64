-- ===== src/Common/Ticks.antt =====
-- The loop of the two statsTickers, internal/tap/tap.go and internal/ui/hub.go: of the counters at
-- each tick, those whose first one has moved are logged.
use Prim.Native.Nat.{ℕ}
use mathlib.Core.Path.{◌≡◌, refl, sym, ap, ◌∙◌}
use mathlib.Core.Logic.{◌≢◌, inl, inr}
use mathlib.Core.Bool.{false}
use mathlib.Core.List.{List, [], ◌∷◌}
use native.Mathlib.Omega.{arith}
use agentflash.Common.Tests.{◌==◌, ==_iff, if◌then◌else◌, Bool-cases}

different : (a b : ℕ) → (a == b) ≡ false → a ≢ b
different a b e = ground arith

module _ {A : Type 0} (moved : A → ℕ) where
  pub logged_ticks : ℕ → List A → List A
  logged_ticks prev [] = []
  logged_ticks prev (a ∷ later) =
      let same = logged_ticks prev later in
      let next = logged_ticks (moved a) later in if moved a == prev then same else a ∷ next

  -- No two neighbours show the same count, nor does the first show `prev`.
  abbrev pub Moves : ℕ → List A → Type 0
  Moves prev [] = Unit
  Moves prev (a ∷ later) = (moved a ≢ prev) × Moves (moved a) later

  abbrev pub last_count : ℕ → List A → ℕ
  last_count prev [] = prev
  last_count prev (a ∷ later) = last_count (moved a) later

  -- What is logged moves with each line, and its last line shows the count of the last tick.
  pub logged_ticks-Moves :
      (prev : ℕ) (later : List A)
      → Moves prev (logged_ticks prev later)
        × (last_count prev (logged_ticks prev later) ≡ last_count prev later)
  unfolding logged_ticks
  logged_ticks-Moves prev [] = (tt, refl)
  logged_ticks-Moves prev (a ∷ later) = elim (Bool-cases (moved a == prev)) [
    | inl same ↦
        let e = (==_iff (moved a) prev).0 same in
        let (m, l) = logged_ticks-Moves prev later in
        rw same (m, l ∙ ap (λ n. last_count n later) (sym e))
    | inr other ↦
        let (m, l) = logged_ticks-Moves (moved a) later in
        rw other ((different (moved a) prev other, m), l)
  ]
