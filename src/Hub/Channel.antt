-- ===== src/Hub/Channel.antt =====
-- The channel of one client, through every call on the hub.
use agentflash.Common.{
  ℕ, ◌≤◌, ◌<◌, true, false, List, [], ◌∷◌, ◌++◌, ◌≡◌, refl, arith, inl, inr, Bytes, ◌==◌, ltb,
  if◌then◌else◌, Bool-cases, length, map, drop, length-append,
}
use agentflash.Hub.{
  Client, offer, send_capacity, new_client, insert_client, remove_client, receive_client,
}
use agentflash.Hub.Clients.{has_client, IsSound, offer_id}

-- The frames that wait for the client; none where it is not registered.
abbrev pub channel : ℕ → List Client → List Bytes
channel id [] = []
channel id (c ∷ cs) = if id == c.id then c.send else channel id cs

-- A frame put at the end of the client's channel.
unfoldable pub push_client : ℕ → Bytes → List Client → List Client
push_client id m [] = []
push_client id m (c ∷ cs) =
    if id == c.id then (record c { send = c.send ++ m ∷ [] }) ∷ cs else c ∷ push_client id m cs

pub channel-push :
    (id : ℕ) (m : Bytes) (cs : List Client)
    → has_client id cs ≡ true
    → channel id (push_client id m cs) ≡ channel id cs ++ m ∷ []
unfolding push_client
channel-push id m [] h = cc
channel-push id m (c ∷ cs) h = ground (arith, channel-push id m cs)

pub has_client-push :
    (id j : ℕ) (m : Bytes) (cs : List Client) → has_client j (push_client id m cs) ≡ has_client j cs
unfolding push_client
has_client-push id j m [] = refl
has_client-push id j m (c ∷ cs) = ground (arith, has_client-push id j m cs)

pub push_client-IsSound :
    (id : ℕ) (m : Bytes) (cs : List Client)
    → length (channel id cs) < send_capacity
    → IsSound cs
    → IsSound (push_client id m cs)
unfolding push_client
push_client-IsSound id m [] r s = tt
push_client-IsSound id m (c ∷ cs) r (b, u, s) = ground (
  arith,
  push_client-IsSound id m cs,
  has_client-push id c.id m cs,
  length-append c.send (m ∷ []),
)

offer-send :
    (msg : Bytes) (c : Client)
    → (offer msg c).0.send
      ≡ (if ltb (length c.send) send_capacity then c.send ++ msg ∷ [] else c.send)
unfolding offer
offer-send msg c = elim (Bool-cases (ltb (length c.send) send_capacity)) [
  | inl room ↦ rw room
  | inr full ↦ rw full
]

pub channel-offer :
    (id : ℕ) (msg : Bytes) (cs : List Client)
    → has_client id cs ≡ true
    → channel id (map (λ c. (offer msg c).0) cs) ≡ (
        if ltb (length (channel id cs)) send_capacity
        then channel id cs ++ msg ∷ []
        else channel id cs)
channel-offer id msg [] h = cc
channel-offer id msg (c ∷ cs) h = elim (Bool-cases (id == c.id)) [
  | inl own ↦ rw (offer_id msg c, own) (offer-send msg c)
  | inr other ↦ rw (offer_id msg c, other) (channel-offer id msg cs (ground arith))
]

pub channel-insert_other :
    (id : ℕ) (c : Client) (cs : List Client)
    → (id == c.id) ≡ false
    → channel id (insert_client c cs) ≡ channel id cs
unfolding insert_client
channel-insert_other id c [] h = rw h
channel-insert_other id c (d ∷ ds) h = ground (arith, channel-insert_other id c ds)

pub channel-insert_new :
    (id : ℕ) (cs : List Client)
    → has_client id cs ≡ false
    → channel id (insert_client (new_client id) cs) ≡ []
unfolding insert_client
channel-insert_new id [] h = ground arith
channel-insert_new id (d ∷ ds) h = ground (arith, channel-insert_new id ds)

pub channel-remove_other :
    (id j : ℕ) (cs : List Client)
    → (id == j) ≡ false
    → channel id (remove_client j cs) ≡ channel id cs
unfolding remove_client
channel-remove_other id j [] h = refl
channel-remove_other id j (d ∷ ds) h = ground (arith, channel-remove_other id j ds)

pub channel-receive_other :
    (id j : ℕ) (cs : List Client)
    → (id == j) ≡ false
    → channel id (receive_client j cs) ≡ channel id cs
unfolding receive_client
channel-receive_other id j [] h = refl
channel-receive_other id j (d ∷ ds) h = ground (arith, channel-receive_other id j ds)

pub channel-receive :
    (id : ℕ) (cs : List Client) → channel id (receive_client id cs) ≡ drop 1 (channel id cs)
unfolding receive_client
channel-receive id [] = refl
channel-receive id (d ∷ ds) = ground (arith, channel-receive id ds)

pub channel-bounded :
    (id : ℕ) (cs : List Client) → IsSound cs → length (channel id cs) ≤ send_capacity
channel-bounded id [] s = omega arith
channel-bounded id (c ∷ cs) (b, u, s) = ground (arith, channel-bounded id cs s)
