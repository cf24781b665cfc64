-- ===== src/Hub/Delivery.antt =====
-- What `send` does to the clients' channels and to the counters.
use mathlib.Core.Path.{subst}
use mathlib.Core.Option.{some-injective}
use agentflash.Common.{
  ℕ, ◌+◌, ◌-◌, ◌%◌, ◌^◌, ◌≤◌, ◌<◌, Bool, true, false, Option, none, some, List, [], ◌∷◌, ◌++◌, ◌≡◌,
  refl, sym, ap, ap₂, ◌∙◌, arith, Bytes, ltb, if◌then◌else◌, Bool-cases, inl, inr, length, map,
}
use agentflash.Common.Int.{pos}
use agentflash.Event.{Event}
use agentflash.Hub.{
  Hub, Client, new_hub, deliver, offer, send_capacity, add_uint64, record_event, send,
}

-- How many channels have room for one more frame.
abbrev pub with_room : List Client → ℕ
with_room [] = 0
with_room (c ∷ cs) = (if ltb (length c.send) send_capacity then 1 else 0) + with_room cs

pub with_room-le : (cs : List Client) → with_room cs ≤ length cs
with_room-le [] = omega arith
with_room-le (c ∷ cs) = ground (arith, with_room-le cs)

pub deliver-clients :
    (msg : Bytes) (cs : List Client) (h : Hub)
    → h.clients ≡ []
    → (deliver msg cs h).clients ≡ map (λ c. (offer msg c).0) cs
unfolding deliver offer
deliver-clients msg [] h e = e
deliver-clients msg (c ∷ cs) h e = elim (Bool-cases (ltb (length c.send) send_capacity)) [
  | inl room ↦ rw room (
      ap (◌∷◌ (record c { send = c.send ++ msg ∷ [] }))
        (deliver-clients msg cs (record h { deliver_count = add_uint64 h.deliver_count }) e))
  | inr full ↦
      rw full
        (ap (◌∷◌ c) (deliver-clients msg cs (record h { drop_count = add_uint64 h.drop_count }) e))
]

deliver-counts :
    (msg : Bytes) (cs : List Client) (h : Hub)
    → h.deliver_count < 2 ^ 64
    → h.drop_count < 2 ^ 64
    → ((deliver msg cs h).deliver_count ≡ (h.deliver_count + with_room cs) % 2 ^ 64)
      × ((deliver msg cs h).drop_count ≡ (h.drop_count + (length cs - with_room cs)) % 2 ^ 64)
      × ((deliver msg cs h).bcast_count ≡ h.bcast_count)
unfolding deliver offer
deliver-counts msg [] h p q = (omega arith, omega arith, refl)
deliver-counts msg (c ∷ cs) h p q = elim (Bool-cases (ltb (length c.send) send_capacity)) [
  | inl room ↦ rw room (
      let ih =
        deliver-counts msg cs (record h { deliver_count = add_uint64 h.deliver_count })
          (omega arith) q in
      (omega (arith, ih.0), omega (arith, ih.1, with_room-le cs), ih.2))
  | inr full ↦ rw full (
      let ih =
        deliver-counts msg cs (record h { drop_count = add_uint64 h.drop_count }) p (omega arith) in
      (omega (arith, ih.0), omega (arith, ih.1, with_room-le cs), ih.2))
]

-- Storing an event leaves the clients and the counters alone.
abbrev pub Untouched : Hub → Option Hub → Type 0
Untouched h none = Unit
Untouched h (some k) =
    (k.clients ≡ h.clients)
    × (k.bcast_count ≡ h.bcast_count)
    × (k.deliver_count ≡ h.deliver_count)
    × (k.drop_count ≡ h.drop_count)

pub record_event-Untouched : (ev : Event) (h : Hub) → Untouched h (record_event ev h)
unfolding record_event
record_event-Untouched ev h = elim (Bool-cases (ltb h.ring_head (length h.ring))) [
  | inl inside ↦ rw inside (refl, refl, refl, refl)
  | inr outside ↦ rw outside tt
]

abbrev pub Delivered : Bytes → Hub → Hub → Type 0
Delivered msg h h' =
    (h'.clients ≡ map (λ c. (offer msg c).0) h.clients)
    × (h'.bcast_count ≡ (h.bcast_count + 1) % 2 ^ 64)
    × (h'.deliver_count ≡ (h.deliver_count + with_room h.clients) % 2 ^ 64)
    × (h'.drop_count ≡ (h.drop_count + (length h.clients - with_room h.clients)) % 2 ^ 64)

module _ (msg : Bytes) (h : Hub) (p : h.deliver_count < 2 ^ 64) (q : h.drop_count < 2 ^ 64) where
  deliver-Delivered :
      (k : Hub)
      → Untouched (record h { bcast_count = add_uint64 h.bcast_count }) (some k)
      → Delivered msg h (deliver msg k.clients (record k { clients = [] }))
  deliver-Delivered k (c, b, d, r) =
      let (x, y, z) = deliver-counts msg k.clients (record k { clients = [] }) (rw d p) (rw r q) in
      (
        deliver-clients msg k.clients (record k { clients = [] }) refl
            ∙ ap (map (λ c. (offer msg c).0)) c,
        z ∙ b,
        x ∙ ap₂ (λ m cs. (m + with_room cs) % 2 ^ 64) d c,
        y ∙ ap₂ (λ m cs. (m + (length cs - with_room cs)) % 2 ^ 64) r c,
      )

-- A `send` that is marshalled and does not panic delivers in a hub that differs in the ring alone.
pub send-deliver :
    (marshal : Event → Option Bytes) (ev : Event) (store : Bool) (msg : Bytes) (h : Hub) {h' : Hub}
    → marshal ev ≡ some msg
    → send marshal ev store h ≡ some h'
    → (k : Hub) × Untouched (record h { bcast_count = add_uint64 h.bcast_count }) (some k)
      × (deliver msg k.clients (record k { clients = [] }) ≡ h')
unfolding send
send-deliver marshal ev store msg h {h'} m e =
    after (if store then record_event ev h1 else some h1) (kept store) (rw (m, send) at e)
  where
    h1 : Hub
    h1 = record h { bcast_count = add_uint64 h.bcast_count }

    kept : (b : Bool) → Untouched h1 (if b then record_event ev h1 else some h1)
    kept true = record_event-Untouched ev h1
    kept false = (refl, refl, refl, refl)

    sent : Option Hub → Option Hub
    sent r = elim r [
      | none ↦ none
      | some h2 ↦ some (deliver msg h2.clients (record h2 { clients = [] }))
    ]

    after :
        (r : Option Hub)
        → Untouched h1 r
        → sent r ≡ some h'
        → (k : Hub) × Untouched h1 (some k)
          × (deliver msg k.clients (record k { clients = [] }) ≡ h')
    after none u d = cc
    after (some h2) u d = (h2, u, some-injective _ _ d)

pub send-clients :
    (marshal : Event → Option Bytes) (ev : Event) (store : Bool) (msg : Bytes) (h : Hub) {h' : Hub}
    → marshal ev ≡ some msg
    → send marshal ev store h ≡ some h'
    → h'.clients ≡ map (λ c. (offer msg c).0) h.clients
send-clients marshal ev store msg h m e =
    let (k, u, d) = send-deliver marshal ev store msg h m e in
    ap (λ x. x.clients) (sym d)
    ∙ deliver-clients msg k.clients (record k { clients = [] }) refl
    ∙ ap (map (λ c. (offer msg c).0)) u.0

-- What one `send` that is marshalled does: each registered client is offered the frame once, in a
-- channel of 1024 frames; `bcastCount` goes up by one, `deliverCount` by the number of channels
-- with room and `dropCount` by the number of the others, each modulo 2^64; no client is lost.
pub send-delivers :
    (marshal : Event → Option Bytes) (ev : Event) (store : Bool) (msg : Bytes) (h : Hub) {h' : Hub}
    → h.deliver_count < 2 ^ 64
    → h.drop_count < 2 ^ 64
    → marshal ev ≡ some msg
    → send marshal ev store h ≡ some h'
    → Delivered msg h h'
send-delivers marshal ev store msg h p q m e =
    let (k, u, d) = send-deliver marshal ev store msg h m e in
    subst (Delivered msg h) d (deliver-Delivered msg h p q k u)

-- A stored event panics the hub of an empty ring buffer (`--buffer 0`): whatever can be marshalled,
-- the first `broadcast` writes outside the ring.
pub send-new_hub_zero :
    (marshal : Event → Option Bytes) (ev : Event) (msg : Bytes) {h : Hub}
    → marshal ev ≡ some msg
    → new_hub (pos 0) ≡ some h
    → send marshal ev true h ≡ none
unfolding new_hub send record_event
send-new_hub_zero marshal ev msg m e =
    subst (λ k. send marshal ev true k ≡ none) (some-injective _ _ e) (rw (m, send))
