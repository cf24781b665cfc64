-- ===== src/Hub/Tests.antt =====
-- Runs of the hub, and its theorems at concrete inputs.
use agentflash.Common.{ℕ, ◌≡◌, refl, List, [], ◌∷◌, Option, none, some, true, false, Bytes, arith}
use agentflash.Common.Int.{pos}
use agentflash.Event.{Event, zero_event}
use agentflash.Hub.{
  Hub, Call, send_call, register_call, receive_call, new_hub, snapshot, run, step, send,
  record_event, deliver, offer, new_client, register, receive, insert_client, receive_client,
  broadcast, broadcast_transient,
}
use agentflash.Hub.Ring.{last_n}
use agentflash.Hub.Replay.{snapshot-run, stored_events}
use agentflash.Hub.Delivery.{Delivered, send-delivers, send-new_hub_zero}

abbrev event : ℕ → Event
event n = record zero_event { ts = n }

-- Stands for `json.Marshal`: a frame of one byte.
abbrev one_byte : Event → Option Bytes
one_byte e = some (e.ts ∷ [])

abbrev calls : List Call
calls =
    send_call (event 1) true
    ∷ register_call 7
    ∷ send_call (event 2) true
    ∷ send_call (event 9) false
    ∷ send_call (event 3) true
    ∷ receive_call 7
    ∷ send_call (event 4) true
    ∷ []

abbrev hub_of : List Event → ℕ → Hub
hub_of ring n = record {
  ring = ring;
  ring_head = 0;
  ring_size = n;
  ring_filled = false;
  clients = [];
  bcast_count = 0;
  deliver_count = 0;
  drop_count = 0;
}

abbrev hub_two : Hub
hub_two = hub_of (zero_event ∷ zero_event ∷ []) 2

abbrev busy : Hub
busy = record hub_two {
  clients = new_client 7 ∷ record (new_client 8) { send = (5 ∷ []) ∷ [] } ∷ [];
}

run-calls :
    run one_byte calls hub_two
    ≡ some (record hub_two {
      ring = event 3 ∷ event 4 ∷ [];
      ring_filled = true;
      clients = record (new_client 7) { send = (9 ∷ []) ∷ (3 ∷ []) ∷ (4 ∷ []) ∷ [] } ∷ [];
      bcast_count = 5;
      deliver_count = 4;
    })
unfolding run step send record_event deliver offer register insert_client receive receive_client
run-calls = refl

broadcast-busy : broadcast one_byte (event 1) busy ≡ send one_byte (event 1) true busy
unfolding broadcast
broadcast-busy = refl

transient_keeps_ring :
    broadcast_transient one_byte (event 1) (hub_of [] 0)
    ≡ some (record (hub_of [] 0) { bcast_count = 1 })
unfolding broadcast_transient send deliver
transient_keeps_ring = refl

new_hub_two : new_hub (pos 2) ≡ some hub_two
unfolding new_hub
new_hub_two = refl

snapshot-run_example :
    (h : Hub) × (run one_byte calls hub_two ≡ some h)
    × (snapshot h ≡ last_n 2 (stored_events one_byte calls))
snapshot-run_example = snapshot-run one_byte 2 calls (omega arith) new_hub_two

last_of_calls : last_n 2 (stored_events one_byte calls) ≡ event 3 ∷ event 4 ∷ []
last_of_calls = refl

send_busy :
    send one_byte (event 1) true busy
    ≡ some (record busy {
      ring = event 1 ∷ zero_event ∷ [];
      ring_head = 1;
      clients =
          record (new_client 7) { send = (1 ∷ []) ∷ [] }
          ∷ record (new_client 8) { send = (5 ∷ []) ∷ (1 ∷ []) ∷ [] }
          ∷ [];
      bcast_count = 1;
      deliver_count = 2;
    })
unfolding send record_event deliver offer
send_busy = refl

send-delivers_example : Delivered (1 ∷ []) busy (record busy {
  ring = event 1 ∷ zero_event ∷ [];
  ring_head = 1;
  clients =
      record (new_client 7) { send = (1 ∷ []) ∷ [] }
      ∷ record (new_client 8) { send = (5 ∷ []) ∷ (1 ∷ []) ∷ [] }
      ∷ [];
  bcast_count = 1;
  deliver_count = 2;
})
send-delivers_example =
    send-delivers one_byte (event 1) true (1 ∷ []) busy (omega arith) (omega arith) refl send_busy

new_hub_zero : new_hub (pos 0) ≡ some (hub_of [] 0)
unfolding new_hub
new_hub_zero = refl

send-new_hub_zero_example : send one_byte (event 1) true (hub_of [] 0) ≡ none
send-new_hub_zero_example = send-new_hub_zero one_byte (event 1) (1 ∷ []) refl new_hub_zero
