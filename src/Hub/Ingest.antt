-- ===== src/Hub/Ingest.antt =====
-- `Hub.Ingest`: the events that the tap writes become broadcasts of the hub.
use mathlib.Core.Option.{some-injective}
use agentflash.Common.{
  Bool, true, Option, none, some, List, [], ◌∷◌, ◌++◌, map, ◌≡◌, sym, ap, ◌∙◌, inl, inr, Bytes,
  Option-cases, append_assoc, append-nil,
}
use agentflash.GoPath.Clean.{All}
use agentflash.Event.{Event}
use agentflash.Event.Wire.{newline, write, lines_of, next, at_end, failed, read_next}
use agentflash.Event.Wire.Lines.{
  IsPlain, Travels, IsBad, lines_of-append, read_next-Travels, read_next-IsBad,
}
use agentflash.Hub.{Hub, Call, send_call, broadcast, send, step, run}

-- How `Ingest` can return, with the hub it leaves; a broadcast may panic.
pub data Ingested : Type 0 where
  done : Hub → Ingested
  stopped : Hub → Ingested
  panicked : Ingested

module _ (marshal : Event → Option Bytes) (decode : Bytes → Option Event) (ended_well : Bool) where
  -- The loop, over the lines left. `Next` takes a line in each round but the last.
  pub ingest_lines : List Bytes → Hub → Ingested
  ingest_lines [] h = elim (read_next decode ended_well []).0 [
    | at_end ↦ done h
    | failed ↦ stopped h
    | next e ↦ stopped h
  ]
  ingest_lines (l ∷ ls) h = elim (read_next decode ended_well (l ∷ ls)).0 [
    | at_end ↦ done h
    | failed ↦ stopped h
    | next e ↦ elim (broadcast marshal e h) [ none ↦ panicked | some h' ↦ ingest_lines ls h' ]
  ]

  pub ingest : Bytes → Hub → Ingested
  ingest stream h = ingest_lines (lines_of stream) h

-- `Writer.Write` of one event after the other.
unfoldable pub write_all : (Event → Option Bytes) → List Event → Bytes → Option Bytes
write_all encode [] out = some out
write_all encode (e ∷ es) out = elim (write encode e out) [
  | none ↦ none
  | some out' ↦ write_all encode es out'
]

-- A call of `broadcast` for each of the events.
abbrev pub broadcasts : List Event → List Call
broadcasts es = map (λ e. send_call e true) es

module _ (encode : Event → Option Bytes) (decode : Bytes → Option Event) where
  abbrev pub AllTravel : List Event → Type 0
  AllTravel es = All (Travels encode decode) es

  -- The lines of events that travel.
  texts : (es : List Event) → AllTravel es → Bytes
  texts [] ts = []
  texts (e ∷ es) (t, ts) = t.text ++ newline ∷ texts es ts

  write_all-texts :
      (es : List Event) (ts : AllTravel es) (out : Bytes)
      → write_all encode es out ≡ some (out ++ texts es ts)
  unfolding write_all texts write
  write_all-texts [] ts out = ap some (sym (append-nil out))
  write_all-texts (e ∷ es) (t, ts) out =
      rw (t.encoded, write_all)
        (write_all-texts es ts ((out ++ t.text) ++ newline ∷ [])
          ∙ ap some (
              append_assoc (out ++ t.text) (newline ∷ []) (texts es ts)
              ∙ append_assoc out t.text (newline ∷ texts es ts)))

  module _ (marshal : Event → Option Bytes) (ended_well : Bool) where
    ingest_lines-next :
        (e : Event) (t : Travels encode decode e) (ls : List Bytes) (h k : Hub)
        → send marshal e true h ≡ some k
        → ingest_lines marshal decode ended_well (t.text ∷ ls) h
          ≡ ingest_lines marshal decode ended_well ls k
    unfolding ingest_lines broadcast
    ingest_lines-next e t ls h k b =
        rw (read_next-Travels encode decode ended_well e t ls, b, ingest_lines)

    ingest_lines-texts :
        (es : List Event) (ts : AllTravel es) (rest : Bytes) (h : Hub) {h' : Hub}
        → run marshal (broadcasts es) h ≡ some h'
        → ingest_lines marshal decode ended_well (lines_of (texts es ts ++ rest)) h
          ≡ ingest_lines marshal decode ended_well (lines_of rest) h'
    unfolding run step texts
    ingest_lines-texts [] ts rest h r =
        ap (ingest_lines marshal decode ended_well (lines_of rest)) (some-injective _ _ r)
    ingest_lines-texts (e ∷ es) (t, ts) rest h {h'} r =
        elim (Option-cases (send marshal e true h)) [
          | inl panic ↦ cc (rw (panic, run, step) at r)
          | inr (k, b) ↦
              ap (λ x. ingest_lines marshal decode ended_well (lines_of x) h)
                (append_assoc t.text (newline ∷ texts es ts) rest)
              ∙ ap (λ x. ingest_lines marshal decode ended_well x h)
                  (lines_of-append t.text (texts es ts ++ rest) t.plain)
              ∙ ingest_lines-next e t (lines_of (texts es ts ++ rest)) h k b
              ∙ ingest_lines-texts es ts rest k (rw (b, run) at r)
        ]

  stream-texts :
      (es : List Event) (ts : AllTravel es) (stream : Bytes)
      → write_all encode es [] ≡ some stream
      → stream ≡ texts es ts
  stream-texts es ts stream w = some-injective _ _ (sym w ∙ write_all-texts es ts [])

  -- What the writer wrote for any events, each of whose documents has no control character, fits
  -- the scanner's buffer and decodes to the event, `Ingest` broadcasts: it returns without an error
  -- and leaves the hub that these broadcasts, in order, leave.
  pub ingest-write_all :
      (marshal : Event → Option Bytes) (es : List Event) (ts : AllTravel es) (stream : Bytes)
      (h : Hub) {h' : Hub}
      → write_all encode es [] ≡ some stream
      → run marshal (broadcasts es) h ≡ some h'
      → ingest marshal decode true stream h ≡ done h'
  unfolding ingest ingest_lines read_next lines_of
  ingest-write_all marshal es ts stream h {h'} w r =
      ap (λ x. ingest marshal decode true x h)
        (stream-texts es ts stream w ∙ sym (append-nil (texts es ts)))
      ∙ ingest_lines-texts marshal true es ts [] h r

  -- A line behind them that does not fit the buffer or does not decode ends `Ingest` with an error:
  -- the events before it are broadcast, and none behind it.
  pub ingest-stops :
      (marshal : Event → Option Bytes) (ended_well : Bool) (es : List Event) (ts : AllTravel es)
      (stream bad rest : Bytes) (h : Hub) {h' : Hub}
      → write_all encode es [] ≡ some stream
      → IsPlain bad
      → IsBad encode decode bad
      → run marshal (broadcasts es) h ≡ some h'
      → ingest marshal decode ended_well (stream ++ bad ++ newline ∷ rest) h ≡ stopped h'
  unfolding ingest ingest_lines
  ingest-stops marshal ended_well es ts stream bad rest h {h'} w p b r =
      ap (λ x. ingest marshal decode ended_well x h)
        (ap (λ x. x ++ bad ++ newline ∷ rest) (stream-texts es ts stream w)
          ∙ append_assoc (texts es ts) bad (newline ∷ rest))
      ∙ ingest_lines-texts marshal ended_well es ts (bad ++ newline ∷ rest) h r
      ∙ ap (λ x. ingest_lines marshal decode ended_well x h') (lines_of-append bad rest p)
      ∙ rw (read_next-IsBad encode decode ended_well bad (lines_of rest) p b, ingest_lines)
