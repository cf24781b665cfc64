-- ===== src/Hub/Clients.antt =====
-- The set of clients: `register`, `unregister`, and what every run of the hub keeps of it.
use agentflash.Common.{
  ℕ, ◌≤◌, Bool, true, false, Option, none, some, List, [], ◌∷◌, ◌||◌, ◌≡◌, refl, arith, Bytes, ◌==◌,
  if◌then◌else◌, length, map, length-append, length-drop,
}
use agentflash.Event.{Event}
use agentflash.Hub.{
  Hub, Client, Call, send_call, register_call, unregister_call, receive_call, deliver, offer,
  send_capacity, add_uint64, record_event, send, new_client, register, unregister, receive,
  insert_client, remove_client, receive_client, step,
}
use agentflash.Hub.Delivery.{deliver-clients, Untouched, record_event-Untouched}

-- Every waiting queue fits its channel, and no client stands twice in the set.
abbrev pub has_client : ℕ → List Client → Bool
has_client id [] = false
has_client id (c ∷ cs) = id == c.id || has_client id cs

abbrev pub IsSound : List Client → Type 0
IsSound [] = Unit
IsSound (c ∷ cs) = (length c.send ≤ send_capacity) × (has_client c.id cs ≡ false) × IsSound cs

pub offer-bounded :
    (msg : Bytes) (c : Client)
    → length c.send ≤ send_capacity
    → length (offer msg c).0.send ≤ send_capacity
unfolding offer
offer-bounded msg c h = ground (arith, length-append c.send (msg ∷ []))

pub offer_id : (msg : Bytes) (c : Client) → (offer msg c).0.id ≡ c.id
unfolding offer
offer_id msg c = ground arith

pub has_client-offer :
    (msg : Bytes) (id : ℕ) (cs : List Client)
    → has_client id (map (λ c. (offer msg c).0) cs) ≡ has_client id cs
has_client-offer msg id [] = refl
has_client-offer msg id (c ∷ cs) = rw (offer_id msg c, has_client-offer msg id cs)

map-offer-IsSound :
    (msg : Bytes) (cs : List Client) → IsSound cs → IsSound (map (λ c. (offer msg c).0) cs)
map-offer-IsSound msg [] s = tt
map-offer-IsSound msg (c ∷ cs) (b, u, s) = (
  offer-bounded msg c b,
  rw (offer_id msg c, has_client-offer msg c.id cs) u,
  map-offer-IsSound msg cs s,
)

pub has_client-insert :
    (id : ℕ) (c : Client) (cs : List Client)
    → has_client id (insert_client c cs) ≡ (id == c.id || has_client id cs)
unfolding insert_client
has_client-insert id c [] = refl
has_client-insert id c (d ∷ ds) = ground (arith, has_client-insert id c ds)

pub insert_client-IsSound :
    (c : Client) (cs : List Client)
    → length c.send ≤ send_capacity
    → IsSound cs
    → IsSound (insert_client c cs)
unfolding insert_client
insert_client-IsSound c [] b s = (b, refl, tt)
insert_client-IsSound c (d ∷ ds) b (bd, u, s) =
    ground (arith, insert_client-IsSound c ds b s, has_client-insert d.id c ds)

pub has_client-remove :
    (id j : ℕ) (cs : List Client)
    → IsSound cs
    → has_client j (remove_client id cs) ≡ (if id == j then false else has_client j cs)
unfolding remove_client
has_client-remove id j [] s = ground arith
has_client-remove id j (d ∷ ds) (b, u, s) = ground (arith, has_client-remove id j ds s)

pub remove_client-IsSound : (id : ℕ) (cs : List Client) → IsSound cs → IsSound (remove_client id cs)
unfolding remove_client
remove_client-IsSound id [] s = tt
remove_client-IsSound id (d ∷ ds) (b, u, s) =
    ground (arith, remove_client-IsSound id ds s, has_client-remove id d.id ds s)

pub has_client-receive :
    (id j : ℕ) (cs : List Client) → has_client j (receive_client id cs) ≡ has_client j cs
unfolding receive_client
has_client-receive id j [] = refl
has_client-receive id j (d ∷ ds) = ground (arith, has_client-receive id j ds)

pub receive_client-IsSound :
    (id : ℕ) (cs : List Client) → IsSound cs → IsSound (receive_client id cs)
unfolding receive_client
receive_client-IsSound id [] s = tt
receive_client-IsSound id (d ∷ ds) (b, u, s) =
    ground
      (arith, receive_client-IsSound id ds s, has_client-receive id d.id ds, length-drop 1 d.send)

abbrev pub Sound : Option Hub → Type 0
Sound none = Unit
Sound (some h) = IsSound h.clients

module _ (marshal : Event → Option Bytes) where
  send-Sound :
      (ev : Event) (store : Bool) (h : Hub) → IsSound h.clients → Sound (send marshal ev store h)
  unfolding send
  send-Sound ev store h s = by_message (marshal ev) refl
    where
      h1 : Hub
      h1 = record h { bcast_count = add_uint64 h.bcast_count }

      kept : (b : Bool) → Untouched h1 (if b then record_event ev h1 else some h1)
      kept true = record_event-Untouched ev h1
      kept false = (refl, refl, refl, refl)

      sent : Bytes → Option Hub → Option Hub
      sent msg r = elim r [
        | none ↦ none
        | some h2 ↦ some (deliver msg h2.clients (record h2 { clients = [] }))
      ]

      after : (msg : Bytes) (r : Option Hub) → Untouched h1 r → Sound (sent msg r)
      after msg none u = tt
      after msg (some h2) u =
          rw (deliver-clients msg h2.clients (record h2 { clients = [] }) refl)
            (map-offer-IsSound msg h2.clients (rw u.0 s))

      by_message : (o : Option Bytes) → marshal ev ≡ o → Sound (send marshal ev store h)
      by_message none m = rw (m, send) s
      by_message (some msg) m = rw (m, send) (after msg _ (kept store))

  pub step-Sound : (c : Call) (h : Hub) → IsSound h.clients → Sound (step marshal c h)
  unfolding step register unregister receive
  step-Sound (send_call ev store) h s = send-Sound ev store h s
  step-Sound (register_call id) h s =
      insert_client-IsSound (new_client id) h.clients (omega arith) s
  step-Sound (unregister_call id) h s = remove_client-IsSound id h.clients s
  step-Sound (receive_call id) h s = receive_client-IsSound id h.clients s

-- In a hub whose clients are distinct, `register` adds its client and `unregister` takes its client
-- out, and neither changes whether any other client is in the set.
pub register-unregister :
    (c : Client) (id j : ℕ) (h : Hub)
    → IsSound h.clients
    → (has_client j (register c h).clients ≡ (j == c.id || has_client j h.clients))
      × (has_client j (unregister id h).clients
          ≡ (if id == j then false else has_client j h.clients))
unfolding register unregister
register-unregister c id j h s =
    (has_client-insert j c h.clients, has_client-remove id j h.clients s)
