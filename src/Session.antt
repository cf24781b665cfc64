-- ===== src/Session.antt =====
-- internal/ui/server.go, wsHandler: the connection of one browser. Four goroutines share its client
-- with the rest of the program: the replay of the snapshot, the reader that notices the end of the
-- connection, the writer loop, and whoever sends to the hub. A Step is one of their atomic moves,
-- and their moves interleave in any order; the critical section of a send and each of its offers are
-- moves of their own.
pub mod Foreign
pub mod Woven
pub mod Replayed
pub mod Ends
mod Tests
use agentflash.Common.{
  ℕ, ◌<◌, ◌≤◌, Bool, true, false, Option, none, some, List, [], ◌∷◌, ◌++◌, ◌≡◌, Bytes, ◌==◌, length,
  if◌then◌else◌,
}
use agentflash.Event.{Event}
use agentflash.Hub.{Hub, new_client, register, unregister, receive, snapshot, send_capacity}
use agentflash.Hub.Channel.{channel, push_client}
use agentflash.Hub.Overlap.{
  Busy, Sending, count, lock_stored, lock_transient, offer_client, offer_gone, return,
  call_register, call_unregister, call_receive,
}
use agentflash.Hub.Overlap

-- The frames of a snapshot: the loop skips an event that does not marshal.
pub frames : (Event → Option Bytes) → List Event → List Bytes
frames marshal [] = []
frames marshal (ev ∷ evs) = elim (marshal ev) [
  | none ↦ frames marshal evs
  | some m ↦ m ∷ frames marshal evs
]

-- The replay goroutine has not taken its snapshot, or has put `sent` in the channel and `left` is
-- still to be put there; `seen` is what the history was when it took the snapshot.
pub data Replay : Type 0 where
  waiting : Replay
  replaying : (seen : List Event) (sent left : List Bytes) → Replay

-- `done` is the channel that the reader closes. `returned` tells that wsHandler has returned, and
-- `lost` is what the client's channel holds then. `failed` is the frame whose write failed, if one
-- has.
pub record Session : Type 0 where
  pub busy : Busy
  pub replay : Replay
  pub done : Bool
  pub returned : Bool
  pub lost : List Bytes
  pub written : List Bytes
  pub failed : List Bytes

-- A new connection, after `hub.register(c)`.
pub connect : ℕ → Busy → Session
connect id b = record {
  busy = record b { hub = register (new_client id) b.hub };
  replay = waiting;
  done = false;
  returned = false;
  lost = [];
  written = [];
  failed = [];
}

-- What is in the client's channel. A send that has copied the set, and the replay, can still use the
-- channel of a client that has left the set.
abbrev pub queue : ℕ → Session → List Bytes
queue id s = if s.returned then s.lost else channel id s.busy.hub.clients

-- `case c.send <- data`
put_in : Bool → ℕ → Bytes → Session → Session
put_in true id m s = record s { lost = s.lost ++ m ∷ [] }
put_in false id m s = record s {
  busy = record s.busy {
    hub = record s.busy.hub { clients = push_client id m s.busy.hub.clients };
  };
}

pub put : ℕ → Bytes → Session → Session
unfolding put_in
put id m s = put_in s.returned id m s

-- The deferred calls when wsHandler returns.
pub leave : ℕ → Session → Session
leave id s = record s {
  busy = record s.busy { hub = unregister id s.busy.hub };
  returned = true;
  lost = channel id s.busy.hub.clients;
}

-- An offer made: its counter, and the sends with what is left for them.
abbrev pub offered : Bool → List Sending → Session → Session
offered room sending s = record s {
  busy = record s.busy { hub = count room s.busy.hub; sending = sending };
}

module _ (marshal : Event → Option Bytes) (id : ℕ) where
  -- A move of other goroutines that does not touch this client: its pointer is new, and only
  -- wsHandler has it besides the sends.
  abbrev pub IsForeign : {b c : Busy} → Overlap.Step marshal b c → Type 0
  IsForeign (lock_stored ev m h e r) = Unit
  IsForeign (lock_transient ev m e) = Unit
  IsForeign (offer_client before after m first rest pre post c e f) = (id == c.id) ≡ false
  IsForeign (offer_gone before after m j first rest room e f) = (id == j) ≡ false
  IsForeign (return before after m e) = Unit
  IsForeign (call_register c) = ((id == c.id) ≡ false) × (c.send ≡ [])
  IsForeign (call_unregister j) = (id == j) ≡ false
  IsForeign (call_receive j) = (id == j) ≡ false

  -- Each step with the live frame it puts in the channel.
  pub data Step (s : Session) : List Bytes → Session → Type 0 where
    -- Other goroutines move.
    foreign :
        (b : Busy) (st : Overlap.Step marshal s.busy b)
        → IsForeign st
        → Step s [] (record s { busy = b })
    -- A send offers its frame to this client, whose channel has room, or is full.
    offer_room :
        (before after : List Sending) (m : Bytes) (first rest : List ℕ)
        → s.busy.sending ≡ before ++ record { frame = m; left = first ++ id ∷ rest } ∷ after
        → length (queue id s) < send_capacity
        → Step s (m ∷ []) (
            put id m
              (offered true (before ++ record { frame = m; left = first ++ rest } ∷ after) s))
    offer_full :
        (before after : List Sending) (m : Bytes) (first rest : List ℕ)
        → s.busy.sending ≡ before ++ record { frame = m; left = first ++ id ∷ rest } ∷ after
        → send_capacity ≤ length (queue id s)
        → Step s [] (offered false (before ++ record { frame = m; left = first ++ rest } ∷ after) s)
    -- The replay goroutine takes the snapshot.
    take_snapshot :
        s.replay ≡ waiting
        → Step s [] (record s {
          replay = replaying s.busy.history [] (frames marshal (snapshot s.busy.hub));
        })
    -- It puts its next frame in the channel, while there is room.
    replay_frame :
        (m : Bytes) (seen : List Event) (sent left : List Bytes)
        → s.replay ≡ replaying seen sent (m ∷ left)
        → length (queue id s) < send_capacity
        → Step s [] (put id m (record s { replay = replaying seen (sent ++ m ∷ []) left }))
    -- It gives up once the reader is done.
    give_up :
        (seen : List Event) (sent left : List Bytes)
        → s.replay ≡ replaying seen sent left
        → s.done ≡ true
        → Step s [] (record s { replay = replaying seen sent [] })
    -- The reader meets the end of the connection.
    hang_up : Step s [] (record s { done = true })
    -- The writer loop writes the oldest frame that waits.
    write_frame :
        (m : Bytes) (rest : List Bytes)
        → s.returned ≡ false
        → channel id s.busy.hub.clients ≡ m ∷ rest
        → Step s [] (record s {
          busy = record s.busy { hub = receive id s.busy.hub };
          written = s.written ++ m ∷ [];
        })
    -- The write fails, and wsHandler returns.
    write_error :
        (m : Bytes) (rest : List Bytes)
        → s.returned ≡ false
        → channel id s.busy.hub.clients ≡ m ∷ rest
        → Step s [] (
            leave id
              (record s { busy = record s.busy { hub = receive id s.busy.hub }; failed = m ∷ [] }))
    -- A ping fails, and wsHandler returns.
    ping_error : s.returned ≡ false → Step s [] (leave id s)
    -- The reader is done, and wsHandler returns.
    return_done : s.returned ≡ false → s.done ≡ true → Step s [] (leave id s)

  -- The states that a connection to a hub in the state `b` can be in, with the live frames put in
  -- its channel so far.
  pub data Reach (b : Busy) : List Bytes → Session → Type 0 where
    connected : Reach b [] (connect id b)
    later :
        {live more : List Bytes} {s t : Session}
        → Reach b live s
        → Step s more t
        → Reach b (live ++ more) t
