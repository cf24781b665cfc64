-- ===== src/Event/Wire/Lines.antt =====
-- internal/event/event.go: documents, the lines they are written in and the lines that are read.
use agentflash.Common.{
  ◌≤◌, ◌<◌, Bool, false, Option, none, some, List, [], ◌∷◌, ◌++◌, ◌≡◌, ◌⊎◌, refl, ap, arith, inl,
  inr, Bytes, Bool-cases, ltb, lt→ltb, ◌==◌, length,
}
use agentflash.GoPath.Clean.{All}
use agentflash.Event.{Event}
use agentflash.Event.Wire.{
  newline, carriage_return, max_token, lines_of, drop_cr, next, failed, read_next,
}

-- No control character, as in a JSON document on one line.
abbrev pub IsPlain : Bytes → Type 0
IsPlain b = All (λ c. 32 ≤ c) b

pub lines_of-append :
    (b rest : Bytes) → IsPlain b → lines_of (b ++ newline ∷ rest) ≡ b ∷ lines_of rest
unfolding lines_of
lines_of-append [] rest p = refl
lines_of-append (c ∷ b) rest (h, p) = rw (other h, lines_of-append b rest p)
  where
    other : 32 ≤ c → (c == newline) ≡ false
    other h = ground arith

pub drop_cr-IsPlain : (b : Bytes) → IsPlain b → drop_cr b ≡ b
unfolding drop_cr
drop_cr-IsPlain [] p = refl
drop_cr-IsPlain (c ∷ []) (h, p) = rw (other h)
  where
    other : 32 ≤ c → (c == carriage_return) ≡ false
    other h = ground arith
drop_cr-IsPlain (c ∷ d ∷ b) (h, p) = ap (◌∷◌ c) (drop_cr-IsPlain (d ∷ b) p)

module _ (encode : Event → Option Bytes) (decode : Bytes → Option Event) where
  -- The event survives the trip as the document `text`.
  pub record Travels (e : Event) : Type 0 where
    pub text : Bytes
    pub encoded : encode e ≡ some text
    pub plain : IsPlain text
    pub fits : length text < max_token
    pub decoded : decode text ≡ some e

  pub read_next-Travels :
      (ended_well : Bool) (e : Event) (t : Travels e) (ls : List Bytes)
      → read_next decode ended_well (t.text ∷ ls) ≡ (next e, ls)
  unfolding read_next
  read_next-Travels ended_well e t ls =
      rw (lt→ltb (length t.text) max_token t.fits, drop_cr-IsPlain t.text t.plain, t.decoded)

  -- A line that is no event: it does not fit the scanner's buffer, or does not decode.
  abbrev pub IsBad : Bytes → Type 0
  IsBad l = (ltb (length l) max_token ≡ false) ⊎ (decode l ≡ none)

  pub read_next-IsBad :
      (ended_well : Bool) (l : Bytes) (ls : List Bytes)
      → IsPlain l
      → IsBad l
      → read_next decode ended_well (l ∷ ls) ≡ (failed, ls)
  unfolding read_next
  read_next-IsBad ended_well l ls p (inl long) = rw long
  read_next-IsBad ended_well l ls p (inr bad) = elim (Bool-cases (ltb (length l) max_token)) [
    | inl short ↦ rw (short, drop_cr-IsPlain l p, bad)
    | inr long ↦ rw long
  ]
