-- ===== src/Hub.antt =====
-- internal/ui/hub.go: the fan-out of events to the connected clients, and the replay ring.
-- `none` is a Go panic. A client is its pointer with the frames that wait in its `send` channel.
-- The mutex makes `record_event` and the changes of the client set atomic.
pub mod Ring
pub mod Replay
pub mod Delivery
pub mod Clients
pub mod Ingest
pub mod Channel
pub mod Overlap
mod Stats
mod Tests
use agentflash.Common.{
  ℕ, suc, ◌+◌, ◌-◌, ◌%◌, ◌^◌, Bool, true, false, not, Option, none, some, List, [], ◌∷◌, ◌++◌, map,
  Bytes, ltb, ◌==◌, if◌then◌else◌, length, set, take, drop, replicate,
}
use agentflash.Common.Int.{ℤ, pos, negsuc}
use agentflash.Event.{Event, zero_event}

pub record Client : Type 0 where
  pub id : ℕ
  pub send : List Bytes

pub record Hub : Type 0 where
  pub ring : List Event
  pub ring_head : ℕ
  pub ring_size : ℕ
  pub ring_filled : Bool
  pub clients : List Client
  pub bcast_count : ℕ
  pub deliver_count : ℕ
  pub drop_count : ℕ

-- `atomic.Uint64.Add(1)`
abbrev pub add_uint64 : ℕ → ℕ
add_uint64 n = (n + 1) % 2 ^ 64

-- `c := &client{send: make(chan []byte, 1024)}` in wsHandler
abbrev pub send_capacity : ℕ
send_capacity = 1024

-- `make` panics at a negative length.
unfoldable pub new_hub : ℤ → Option Hub
new_hub (negsuc _) = none
new_hub (pos n) = some (record {
  ring = replicate n zero_event;
  ring_head = 0;
  ring_size = n;
  ring_filled = false;
  clients = [];
  bcast_count = 0;
  deliver_count = 0;
  drop_count = 0;
})

-- The client of a new connection, in wsHandler.
abbrev pub new_client : ℕ → Client
new_client id = record { id = id; send = [] }

-- The stored half of `send`, under the mutex. An index out of range panics.
unfoldable pub record_event : Event → Hub → Option Hub
record_event ev h =
    if ltb h.ring_head (length h.ring)
    then (let head = (h.ring_head + 1) % h.ring_size in
        some (record h {
          ring = set h.ring h.ring_head ev;
          ring_head = head;
          ring_filled = if head == 0 then true else h.ring_filled;
        }))
    else none

-- `select { case c.send <- data: … default: … }`
pub offer : Bytes → Client → Client × Bool
offer msg c =
    if ltb (length c.send) send_capacity
    then (record c { send = c.send ++ msg ∷ [] }, true)
    else (c, false)

-- The loop of `send` over the clients.
pub deliver : Bytes → List Client → Hub → Hub
unfolding offer
deliver msg [] h = h
deliver msg (c ∷ cs) h =
    let (c', sent) = offer msg c in
    let h' = deliver msg cs (
      if sent
      then record h { deliver_count = add_uint64 h.deliver_count }
      else record h { drop_count = add_uint64 h.drop_count }) in
    record h' { clients = c' ∷ h'.clients }

module _ (marshal : Event → Option Bytes) where
  -- `marshal` is `json.Marshal`.
  pub send : Event → Bool → Hub → Option Hub
  send ev store h = elim (marshal ev) [
    | none ↦ some h
    | some msg ↦
        let h1 = record h { bcast_count = add_uint64 h.bcast_count } in
        elim (if store then record_event ev h1 else some h1) [
          | none ↦ none
          | some h2 ↦ some (deliver msg h2.clients (record h2 { clients = [] }))
        ]
  ]

  pub broadcast : Event → Hub → Option Hub
  broadcast ev h = send ev true h

  pub broadcast_transient : Event → Hub → Option Hub
  broadcast_transient ev h = send ev false h

-- `copy(dst, src)`
unfoldable pub copy {ℓ} : {A : Type ℓ} → List A → List A → List A
copy [] src = []
copy (d ∷ ds) [] = d ∷ ds
copy (d ∷ ds) (s ∷ ss) = s ∷ copy ds ss

unfoldable pub snapshot : Hub → List Event
unfolding copy
snapshot h =
    if not h.ring_filled
    then copy (replicate h.ring_head zero_event) (take h.ring_head h.ring)
    else (let out = copy (replicate h.ring_size zero_event) (drop h.ring_head h.ring) in
        let k = h.ring_size - h.ring_head in
        take k out ++ copy (drop k out) (take h.ring_head h.ring))

unfoldable pub insert_client : Client → List Client → List Client
insert_client c [] = c ∷ []
insert_client c (d ∷ ds) = if c.id == d.id then d ∷ ds else d ∷ insert_client c ds

pub remove_client : ℕ → List Client → List Client
remove_client id [] = []
remove_client id (d ∷ ds) = if id == d.id then ds else d ∷ remove_client id ds

-- `h.clients[c] = struct{}{}`: a client that is there stays as it is.
unfoldable pub register : Client → Hub → Hub
unfolding insert_client
register c h = record h { clients = insert_client c h.clients }

-- `delete(h.clients, c)`
unfoldable pub unregister : ℕ → Hub → Hub
unfolding remove_client
unregister id h = record h { clients = remove_client id h.clients }

-- The writer loop of wsHandler takes the oldest waiting frame of its client.
unfoldable pub receive_client : ℕ → List Client → List Client
receive_client id [] = []
receive_client id (d ∷ ds) =
    if id == d.id then (record d { send = drop 1 d.send }) ∷ ds else d ∷ receive_client id ds

unfoldable pub receive : ℕ → Hub → Hub
unfolding receive_client
receive id h = record h { clients = receive_client id h.clients }

-- What the other goroutines do to a hub, one call at a time.
pub data Call : Type 0 where
  send_call : Event → Bool → Call
  register_call : ℕ → Call
  unregister_call : ℕ → Call
  receive_call : ℕ → Call

module _ (marshal : Event → Option Bytes) where
  pub step : Call → Hub → Option Hub
  step (send_call ev store) h = send marshal ev store h
  step (register_call id) h = some (register (new_client id) h)
  step (unregister_call id) h = some (unregister id h)
  step (receive_call id) h = some (receive id h)

  pub run : List Call → Hub → Option Hub
  run [] h = some h
  run (c ∷ cs) h = elim (step c h) [ none ↦ none | some h' ↦ run cs h' ]
