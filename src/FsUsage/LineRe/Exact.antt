-- ===== src/FsUsage/LineRe/Exact.antt =====
-- The lines that ParseLine takes apart.
use agentflash.Common.{Option, none, some, ◌≡◌, refl, sym, ap, ◌∙◌, Bytes, Option-cases, inl, inr}
use agentflash.FsUsage.{LineMatch}
use agentflash.FsUsage.Regex.{Pieces, find}
use agentflash.FsUsage.Regex.Exact.{Fits, text_of, find-Sound, find-IsSome}
use agentflash.FsUsage.LineRe.{line_items, line_match, line_re}

-- A line has the shape of lineRE if it is the text of pieces that fit the items.
abbrev pub Shape : Bytes → Type 0
Shape line = (ps : Pieces) × Fits line_items ps × (text_of ps ≡ line)

-- No match is for the lines without that shape, and the groups are pieces of the line.
abbrev pub LineSpec : Bytes → Option LineMatch → Type 0
LineSpec line none = ¬ Shape line
LineSpec line (some m) =
    (ps : Pieces) × Fits line_items ps × (text_of ps ≡ line) × (m ≡ line_match ps)

no-Shape : (line : Bytes) → find line_items line ≡ none → ¬ Shape line
no-Shape line n (ps, f, t) =
    let (qs, e) = find-IsSome line_items ps f in clash (sym n ∙ ap (find line_items) (sym t) ∙ e)
  where
    clash : {qs : Pieces} → none ≡ some qs → ⊥
    clash e = cc

-- The backtracking search for lineRE finds no match exactly in the lines that do not have its
-- shape. In the others the pieces of its match make up the whole line, each of them fits its item,
-- and the groups that ParseLine takes are the clock, the call, the arguments, the process and the
-- process ID among them.
pub line_re_lem : (line : Bytes) → LineSpec line (line_re line)
unfolding line_re
line_re_lem line = elim (Option-cases (find line_items line)) [
  | inl nothing ↦ rw (line_re, nothing) (no-Shape line nothing)
  | inr (ps, e) ↦ let (f, t) = find-Sound line_items line ps e in rw (line_re, e) (ps, f, t, refl)
]
