-- ===== src/Event/Wire.antt =====
-- internal/event/event.go: Writer and Reader, one JSON document in a line for each event. `encode`
-- is what json.Encoder makes of an event before its newline and `decode` is json.Unmarshal into an
-- event; `none` is an error. The reader stands on bufio.Scanner with the buffer it sets: a line is a
-- token without its end, a last line needs no newline, and one that does not fit the buffer is an
-- error.
pub mod Lines
use agentflash.Common.{
  ℕ, ◌*◌, Bool, true, false, Option, none, some, List, [], ◌∷◌, ◌++◌, Bytes, ltb, ◌==◌,
  if◌then◌else◌, length,
}
use agentflash.Event.{Event}

abbrev pub newline : ℕ
newline = 10

abbrev pub carriage_return : ℕ
carriage_return = 13

-- The size that the scanner's buffer may grow to.
abbrev pub max_token : ℕ
max_token = 1024 * 1024

-- `Writer.Write`: the bytes written behind those there, `none` for an encoding error.
unfoldable pub write : (Event → Option Bytes) → Event → Bytes → Option Bytes
write encode e out = elim (encode e) [ none ↦ none | some b ↦ some (out ++ b ++ newline ∷ []) ]

-- A byte put before the first of the lines.
abbrev pub onto_line : ℕ → List Bytes → List Bytes
onto_line c [] = (c ∷ []) ∷ []
onto_line c (l ∷ ls) = (c ∷ l) ∷ ls

-- The lines of a stream, without their newlines; nothing behind the last newline is no line.
unfoldable pub lines_of : Bytes → List Bytes
lines_of [] = []
lines_of (c ∷ cs) = let rest = lines_of cs in if c == newline then [] ∷ rest else onto_line c rest

-- `bufio.ScanLines` drops one carriage return at the end.
pub drop_cr : Bytes → Bytes
drop_cr [] = []
drop_cr (c ∷ []) = if c == carriage_return then [] else c ∷ []
drop_cr (c ∷ d ∷ cs) = c ∷ drop_cr (d ∷ cs)

-- The three ways in which `Reader.Next` returns.
pub data Next : Type 0 where
  next : Event → Next
  at_end : Next
  failed : Next

-- `Reader.Next`, with the lines left. `ended_well` is false where the stream ends by a read error.
unfoldable pub read_next : (Bytes → Option Event) → Bool → List Bytes → Next × List Bytes
read_next decode ended_well [] = (if ended_well then at_end else failed, [])
read_next decode ended_well (l ∷ ls) =
    if ltb (length l) max_token
    then elim (decode (drop_cr l)) [ none ↦ (failed, ls) | some e ↦ (next e, ls) ]
    else (failed, ls)
