-- ===== src/Session/Tests.antt =====
-- A connection whose replay begins after an event was sent live, and the theorems at it.
use agentflash.Common.{
  ℕ, ◌≤◌, true, false, not, Option, some, List, [], ◌∷◌, ◌++◌, ◌≡◌, refl, arith, Bytes, length,
}
use agentflash.Event.{Event, zero_event}
use agentflash.Hub.{
  Hub, Client, new_hub, record_event, snapshot, copy, register, insert_client, receive,
  receive_client,
}
use agentflash.Hub.Ring.{last_n}
use agentflash.Hub.Clients.{has_client}
use agentflash.Hub.Channel.{push_client}
use agentflash.Hub.Overlap.{Busy, Sending, lock_stored, return}
use agentflash.Hub.Overlap
use agentflash.Session.{
  Session, Replay, replaying, frames, connect, queue, put, put_in, foreign, offer_room,
  take_snapshot, replay_frame, hang_up, write_frame, Reach, connected, later,
}
use agentflash.Common.Interleaves.{Interleaves}
use agentflash.Session.Woven.{replayed, Reach-Interleaves}
use agentflash.Session.Ends.{Moves, IsOver, Reach-ends}
use agentflash.Session.Replayed.{IsReplay, Reach-IsReplay, Reach-complete}

abbrev event : ℕ → Event
event n = record zero_event { ts = n }

-- Stands for `json.Marshal`: a frame of one byte.
abbrev marshal : Event → Option Bytes
marshal e = some (e.ts ∷ [])

abbrev frame : ℕ → Bytes
frame n = n ∷ []

abbrev fresh : Hub
fresh = record {
  ring = zero_event ∷ zero_event ∷ zero_event ∷ [];
  ring_head = 0;
  ring_size = 3;
  ring_filled = false;
  clients = [];
  bcast_count = 0;
  deliver_count = 0;
  drop_count = 0;
}

-- Event 1 is stored before the connection.
abbrev hub_one : List Client → Hub
hub_one cs = record fresh {
  ring = event 1 ∷ zero_event ∷ zero_event ∷ [];
  ring_head = 1;
  clients = cs;
  bcast_count = 1;
}

abbrev busy_one : Busy
busy_one = record { hub = hub_one []; sending = []; history = event 1 ∷ []; due = 0 }

r_one : Overlap.Reach marshal fresh busy_one
unfolding record_event
r_one =
    Overlap.later
      (Overlap.later Overlap.idle (lock_stored (event 1) (frame 1) (hub_one []) refl refl))
      (return [] [] (frame 1) refl)

abbrev client : List Bytes → List Client
client q = record { id = 7; send = q } ∷ []

-- Event 2 is stored, and its frame is still to be offered to the client, or has been.
abbrev busy_two : List Bytes → ℕ → List ℕ → Busy
busy_two q delivered left = record {
  hub = record (hub_one (client q)) {
    ring = event 1 ∷ event 2 ∷ zero_event ∷ [];
    ring_head = 2;
    bcast_count = 2;
    deliver_count = delivered;
  };
  sending = record { frame = frame 2; left = left } ∷ [];
  history = event 1 ∷ event 2 ∷ [];
  due = 1;
}

abbrev at : List Bytes → Replay → List Bytes → Session
at q replay written = record {
  busy = busy_two q 1 [];
  replay = replay;
  done = false;
  returned = false;
  lost = [];
  written = written;
  failed = [];
}

abbrev seen : List Event
seen = event 1 ∷ event 2 ∷ []

r_locked :
    Reach marshal 7 busy_one [] (record (connect 7 busy_one) { busy = busy_two [] 0 (7 ∷ []) })
unfolding connect register insert_client record_event
r_locked = later connected (
    foreign (busy_two [] 0 (7 ∷ []))
      (lock_stored (event 2) (frame 2) (busy_two [] 0 []).hub refl refl) tt)

r_live :
    Reach marshal 7 busy_one
      (frame 2 ∷ [])
      (record (connect 7 busy_one) { busy = busy_two (frame 2 ∷ []) 1 [] })
unfolding connect put put_in push_client
r_live = later r_locked (offer_room [] [] (frame 2) [] [] refl (omega arith))

r_snapshot :
    Reach marshal 7 busy_one
      (frame 2 ∷ [])
      (at (frame 2 ∷ []) (replaying seen [] (frame 1 ∷ frame 2 ∷ [])) [])
unfolding connect snapshot frames copy
r_snapshot = later r_live (take_snapshot refl)

abbrev all_sent : Replay
all_sent = replaying seen (frame 1 ∷ frame 2 ∷ []) []

-- The replay puts both of its frames behind the live one.
r_replayed :
    Reach marshal 7 busy_one (frame 2 ∷ []) (at (frame 2 ∷ frame 1 ∷ frame 2 ∷ []) all_sent [])
unfolding put put_in push_client
r_replayed =
    later (later r_snapshot (replay_frame (frame 1) seen [] (frame 2 ∷ []) refl (omega arith)))
      (replay_frame (frame 2) seen (frame 1 ∷ []) [] refl (omega arith))

abbrev twice : Session
twice = at [] all_sent (frame 2 ∷ frame 1 ∷ frame 2 ∷ [])

-- The browser is sent event 2 twice.
r_written : Reach marshal 7 busy_one (frame 2 ∷ []) twice
unfolding receive receive_client
r_written =
    later
      (later (later r_replayed (write_frame (frame 2) (frame 1 ∷ frame 2 ∷ []) refl refl))
        (write_frame (frame 1) (frame 2 ∷ []) refl refl))
      (write_frame (frame 2) [] refl refl)

Reach-Interleaves_example :
    Interleaves
      (replayed twice.replay)
      (frame 2 ∷ [])
      (twice.written ++ (twice.failed ++ queue 7 twice))
    × (has_client 7 twice.busy.hub.clients ≡ not twice.returned)
    × (length (queue 7 twice) ≤ 1024)
Reach-Interleaves_example = Reach-Interleaves marshal 7 tt refl r_written

Reach-IsReplay_example : IsReplay marshal 3 (event 1 ∷ []) seen false all_sent
unfolding new_hub
Reach-IsReplay_example = Reach-IsReplay marshal 7 3 (omega arith) refl r_one r_written

Reach-complete_example : Interleaves (frames marshal (last_n 3 seen)) (frame 2 ∷ []) twice.written
unfolding new_hub
Reach-complete_example =
    Reach-complete marshal 7 3 seen (frame 1 ∷ frame 2 ∷ []) (omega arith) refl r_one tt refl
      r_written refl refl refl refl

-- The connection ends before the replay has given its second frame.
abbrev cut_short : Session
cut_short = record (at (frame 2 ∷ []) (replaying seen [] (frame 1 ∷ frame 2 ∷ [])) []) {
  done = true;
}

Reach-ends_example :
    (t : Session) × Moves marshal 7 cut_short t
    × IsOver t.replay
    × (t.returned ≡ true)
    × (t.written ≡ cut_short.written)
    × (has_client 7 t.busy.hub.clients ≡ false)
Reach-ends_example = Reach-ends marshal 7 tt refl (later r_snapshot hang_up) refl
