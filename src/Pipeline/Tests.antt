-- ===== src/Pipeline/Tests.antt =====
-- The way of two events from the kernel to a browser, and the theorems of the stream between the
-- processes at concrete inputs.
use mathlib.Core.Path.{subst}
use agentflash.Common.{
  ◌+◌, true, false, Option, none, some, [], ◌∷◌, ◌++◌, ◌≡◌, refl, sym, ap, arith, Bytes, codes,
  ◌==◌, if◌then◌else◌, inr,
}
use agentflash.Common.Int.{pos}
use agentflash.GoPath.Clean.{All}
use agentflash.Event.{Event, zero_event}
use agentflash.Event.Wire.{write}
use agentflash.Event.Wire.Lines.{Travels}
use agentflash.Tap.{bytes, interrupted, run_loop, initial}
use agentflash.Tap.Admitted.{Admitted}
use agentflash.Tap.Tests.{world, filter, stream, run_batch}
use agentflash.Hub.{Hub, new_hub, snapshot, run}
use agentflash.Hub.Ring.{last_n}
use agentflash.Hub.Replay.{snapshot-run}
use agentflash.Hub.Ingest.{done, stopped, ingest, write_all, broadcasts, AllTravel, ingest-stops}
use agentflash.Pipeline.{tap_of, snapshot-run_loop}

abbrev first : Event
first = record {
  ts = 0;
  op = codes "write";
  path = codes "/w/a.txt";
  process = codes "cat";
  pid = pos 200;
  claude = none;
}

abbrev second : Event
second = record first { ts = 5; op = codes "read" }

-- Stands for the JSON encoder: a brace and a byte that tells the time.
abbrev encode : Event → Option Bytes
encode e = some (b'{' ∷ (40 + e.ts) ∷ [])

-- Stands for the decoder, on these documents.
abbrev decode : Bytes → Option Event
decode [] = none
decode (c ∷ []) = none
decode (c ∷ d ∷ []) = if d == 40 then some first else if d == 45 then some second else none
decode (c ∷ d ∷ e ∷ rest) = none

both-Travel : AllTravel encode decode (first ∷ second ∷ [])
both-Travel = (
  record {
    text = codes "{(";
    encoded = refl;
    plain = omega arith;
    fits = omega arith;
    decoded = refl;
  },
  (
    record {
      text = codes "{-";
      encoded = refl;
      plain = omega arith;
      fits = omega arith;
      decoded = refl;
    },
    tt,
  ),
)

abbrev lines : Bytes
lines = codes "{(\n{-\n"

both_written : write_all encode (first ∷ second ∷ []) [] ≡ some lines
unfolding write_all write
both_written = refl

abbrev hub_one : Hub
hub_one = record {
  ring = zero_event ∷ [];
  ring_head = 0;
  ring_size = 1;
  ring_filled = false;
  clients = [];
  bcast_count = 0;
  deliver_count = 0;
  drop_count = 0;
}

new_hub_one : new_hub (pos 1) ≡ some hub_one
unfolding new_hub
new_hub_one = refl

written_batch :
    (tap_of (run_loop world filter (bytes stream ∷ interrupted ∷ []) (initial none))).written
    ≡ first ∷ second ∷ []
written_batch = ap (λ o. (tap_of o).written) run_batch

snapshot-run_loop_example :
    (let written =
        (tap_of (run_loop world filter (bytes stream ∷ interrupted ∷ []) (initial none))).written in
      (h' : Hub) × (ingest encode decode true lines hub_one ≡ done h')
      × (snapshot h' ≡ last_n 1 written)
      × All (Admitted filter) written)
snapshot-run_loop_example =
    snapshot-run_loop encode decode world filter none (bytes stream ∷ interrupted ∷ []) lines 1
      (subst (All (Travels encode decode)) (sym written_batch) both-Travel)
      (subst (λ es. write_all encode es [] ≡ some lines) (sym written_batch) both_written)
      (omega arith) new_hub_one

ran :
    (h' : Hub) × (run encode (broadcasts (first ∷ second ∷ [])) hub_one ≡ some h')
    × (snapshot h' ≡ last_n 1 (first ∷ second ∷ []))
ran = snapshot-run encode 1 (broadcasts (first ∷ second ∷ [])) (omega arith) new_hub_one

-- A line of text from elsewhere in the stream.
ingest-stops_example :
    ingest encode decode true (lines ++ codes "panic" ++ codes "\n{(\n") hub_one ≡ stopped ran.0
ingest-stops_example =
    ingest-stops encode decode encode true (first ∷ second ∷ []) both-Travel lines (codes "panic")
      (codes "{(\n") hub_one both_written (omega arith) (inr refl) ran.1
