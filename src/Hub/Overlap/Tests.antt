-- ===== src/Hub/Overlap/Tests.antt =====
-- Two sends that overlap: the events are stored in one order and reach the client in the other.
use agentflash.Common.{ℕ, false, Option, some, List, [], ◌∷◌, ◌≡◌, refl, arith, Bytes}
use agentflash.Event.{Event, zero_event}
use agentflash.Hub.{
  Hub, new_hub, new_client, record_event, offer, register, insert_client, snapshot,
}
use agentflash.Hub.Ring.{last_n}
use agentflash.Hub.Overlap.{
  Sending, Busy, lock_stored, offer_client, call_register, Reach, idle, later,
}
use agentflash.Hub.Overlap.Counted.{Counted, snapshot-Reach}

abbrev event : ℕ → Event
event n = record zero_event { ts = n }

-- Stands for `json.Marshal`: a frame of one byte.
abbrev marshal : Event → Option Bytes
marshal e = some (e.ts ∷ [])

abbrev fresh : Hub
fresh = record {
  ring = zero_event ∷ zero_event ∷ zero_event ∷ [];
  ring_head = 0;
  ring_size = 3;
  ring_filled = false;
  clients = [];
  bcast_count = 0;
  deliver_count = 0;
  drop_count = 0;
}

abbrev stored_one : Hub
stored_one = record fresh {
  ring = event 1 ∷ zero_event ∷ zero_event ∷ [];
  ring_head = 1;
  clients = new_client 7 ∷ [];
  bcast_count = 1;
}

abbrev stored_two : Hub
stored_two = record stored_one {
  ring = event 1 ∷ event 2 ∷ zero_event ∷ [];
  ring_head = 2;
  bcast_count = 2;
}

abbrev sending : ℕ → List ℕ → Sending
sending n left = record { frame = n ∷ []; left = left }

abbrev both : Busy
both = record {
  hub = stored_two;
  sending = sending 1 (7 ∷ []) ∷ sending 2 (7 ∷ []) ∷ [];
  history = event 1 ∷ event 2 ∷ [];
  due = 2;
}

r_both : Reach marshal fresh both
unfolding record_event register insert_client
r_both =
    later
      (later (later idle (call_register (new_client 7)))
        (lock_stored (event 1) (1 ∷ []) stored_one refl refl))
      (lock_stored (event 2) (2 ∷ []) stored_two refl refl)

abbrev swapped : Busy
swapped = record both {
  hub = record stored_two {
    clients = record { id = 7; send = (2 ∷ []) ∷ (1 ∷ []) ∷ [] } ∷ [];
    deliver_count = 2;
  };
  sending = sending 1 [] ∷ sending 2 [] ∷ [];
}

r_swapped : Reach marshal fresh swapped
unfolding offer
r_swapped =
    later
      (later r_both
        (offer_client (sending 1 (7 ∷ []) ∷ []) [] (2 ∷ []) [] [] [] [] (new_client 7) refl refl))
      (offer_client [] (sending 2 [] ∷ []) (1 ∷ []) [] [] [] []
        (record { id = 7; send = (2 ∷ []) ∷ [] }) refl refl)

snapshot-Reach_example :
    (snapshot swapped.hub ≡ last_n 3 (event 1 ∷ event 2 ∷ [])) × Counted swapped
unfolding new_hub
snapshot-Reach_example = snapshot-Reach marshal 3 (omega arith) refl r_swapped
