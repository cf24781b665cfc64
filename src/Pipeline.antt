-- ===== src/Pipeline.antt =====
-- The way of an event through both processes: the tap (internal/tap/tap_linux.go) writes it as a
-- line (internal/event/event.go), the UI's ingest loop (internal/ui/hub.go) reads the lines, and a
-- browser that connects is replayed the hub's snapshot.
mod Tests
use agentflash.Common.{
  ℕ, ◌<◌, Bool, true, Option, none, some, List, [], ◌∷◌, ◌++◌, map, ◌≡◌, ◌⊎◌, refl, sym, ap, ◌∙◌,
  inl, inr, Bytes,
}
use agentflash.Common.Int.{pos}
use agentflash.GoPath.Clean.{All}
use agentflash.Event.{Event}
use agentflash.Event.Wire.Lines.{Travels}
use agentflash.Tap.{Tap, World, Filter, Outcome, ongoing, stopped, ReadResult, run_loop, initial}
use agentflash.Tap.Admitted.{Admitted, Sound, SoundOutcome, run_loop-Sound}
use agentflash.Hub.{Hub, new_hub, snapshot, run, send_call}
use agentflash.Hub.Ring.{last_n}
use agentflash.Hub.Replay.{snapshot-run, stored_events}
use agentflash.Hub.Ingest.{
  Ingested, done, ingest, write_all, broadcasts, AllTravel, ingest-write_all,
}

-- What the tap holds when its loop has gone through the reads, or has returned.
abbrev pub tap_of : Outcome → Tap
tap_of (ongoing t) = t
tap_of (stopped t) = t

SoundOutcome-Admitted :
    (f : Filter) (o : Outcome) → SoundOutcome f o → All (Admitted f) (tap_of o).written
SoundOutcome-Admitted f (ongoing t) s = s.admitted
SoundOutcome-Admitted f (stopped t) (inl s) = s.admitted
SoundOutcome-Admitted f (stopped t) (inr s) = s.admitted

module _ (encode : Event → Option Bytes) (decode : Bytes → Option Event) where
  stored_events-broadcasts :
      (es : List Event) → All (Travels encode decode) es → stored_events encode (broadcasts es) ≡ es
  stored_events-broadcasts [] ts = refl
  stored_events-broadcasts (e ∷ es) (t, ts) =
      rw (t.encoded) (ap (◌∷◌ e) (stored_events-broadcasts es ts))

  -- Whatever the kernel gives the tap, and with a positive replay buffer of n events: if the tap
  -- writes its events to the stream that the UI ingests, and each event's document has no control
  -- character, fits the scanner's buffer and decodes to the event, then the UI ingests the stream to
  -- its end, a browser that connects then is replayed exactly the last n of the tap's events in
  -- their order, and the tap's filter lets each of its events through.
  pub snapshot-run_loop :
      (w : World) (f : Filter) (raw : Option Bytes) (rs : List ReadResult) (stream : Bytes) (n : ℕ)
      {h : Hub}
      → All (Travels encode decode) (tap_of (run_loop w f rs (initial raw))).written
      → write_all encode (tap_of (run_loop w f rs (initial raw))).written [] ≡ some stream
      → 0 < n
      → new_hub (pos n) ≡ some h
      → (h' : Hub) × (ingest encode decode true stream h ≡ done h')
        × (snapshot h' ≡ last_n n (tap_of (run_loop w f rs (initial raw))).written)
        × All (Admitted f) (tap_of (run_loop w f rs (initial raw))).written
  snapshot-run_loop w f raw rs stream n {h} ts out p e =
      let es = (tap_of (run_loop w f rs (initial raw))).written in
      let (h', r, s) = snapshot-run encode n (broadcasts es) p e in
      (
        h',
        ingest-write_all encode decode encode es ts stream h out r,
        s ∙ ap (last_n n) (stored_events-broadcasts es ts),
        SoundOutcome-Admitted f (run_loop w f rs (initial raw)) (run_loop-Sound w f raw rs),
      )
