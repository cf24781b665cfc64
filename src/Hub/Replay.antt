-- ===== src/Hub/Replay.antt =====
-- internal/ui/hub.go: the replay of a new client after any calls.
use agentflash.Common.{
  ℕ, ◌<◌, Bool, true, false, Option, none, some, List, [], ◌∷◌, ◌++◌, ◌≡◌, refl, sym, ap, ◌∙◌,
  Bytes, ltb, Bool-cases, Option-cases, length, append-nil, append_assoc, inl, inr,
}
use agentflash.Common.Int.{pos}
use agentflash.Event.{Event}
use agentflash.Hub.{
  Hub, Client, Call, send_call, register_call, unregister_call, receive_call, new_hub, deliver,
  offer, send_capacity, add_uint64, send, broadcast, new_client, register, unregister, receive,
  snapshot, step, run,
}
use agentflash.Hub.Ring.{
  IsValid, Holds, last_n, stored, record_event-stored, stored-Holds, new_hub-Holds,
  snapshot-contents, new_hub-size,
}

deliver-ring :
    (msg : Bytes) (cs : List Client) (h : Hub)
    → ((deliver msg cs h).ring ≡ h.ring)
      × ((deliver msg cs h).ring_head ≡ h.ring_head)
      × ((deliver msg cs h).ring_size ≡ h.ring_size)
      × ((deliver msg cs h).ring_filled ≡ h.ring_filled)
unfolding deliver offer
deliver-ring msg [] h = (refl, refl, refl, refl)
deliver-ring msg (c ∷ cs) h = elim (Bool-cases (ltb (length c.send) send_capacity)) [
  | inl room ↦
      rw room (deliver-ring msg cs (record h { deliver_count = add_uint64 h.deliver_count }))
  | inr none_left ↦
      rw none_left (deliver-ring msg cs (record h { drop_count = add_uint64 h.drop_count }))
]

-- What `Holds` says depends on the four ring fields alone.
pub Holds-congr :
    {h k : Hub} {history : List Event}
    → (k.ring ≡ h.ring)
      × (k.ring_head ≡ h.ring_head)
      × (k.ring_size ≡ h.ring_size)
      × (k.ring_filled ≡ h.ring_filled)
    → Holds h history
    → Holds k history
Holds-congr (a, b, c, d) s = record {
  valid = record { storage = rw (a, c) s.valid.storage; head_in = rw (b, c) s.valid.head_in };
  held = rw (a, b, c, d) s.held;
  part = rw (b, d) s.part;
  full = rw (c, d) s.full;
}

abbrev pub keep : Option Bytes → Bool → Event → List Event → List Event
keep none store ev rest = rest
keep (some msg) true ev rest = ev ∷ rest
keep (some msg) false ev rest = rest

-- The events that a sequence of calls stores.
abbrev pub stored_events : (Event → Option Bytes) → List Call → List Event
stored_events marshal [] = []
stored_events marshal (send_call ev store ∷ cs) =
    keep (marshal ev) store ev (stored_events marshal cs)
stored_events marshal (register_call c ∷ cs) = stored_events marshal cs
stored_events marshal (unregister_call id ∷ cs) = stored_events marshal cs
stored_events marshal (receive_call id ∷ cs) = stored_events marshal cs

bumped : {h : Hub} → IsValid h → IsValid (record h { bcast_count = add_uint64 h.bcast_count })
bumped v = record { storage = v.storage; head_in = v.head_in }

module _ (marshal : Event → Option Bytes) where
  stored_events-cons :
      (c : Call) (cs : List Call)
      → stored_events marshal (c ∷ cs) ≡ stored_events marshal (c ∷ []) ++ stored_events marshal cs
  stored_events-cons (send_call ev true) cs = elim (Option-cases (marshal ev)) [
    | inl m ↦ rw m
    | inr (msg, m) ↦ rw m
  ]
  stored_events-cons (send_call ev false) cs = elim (Option-cases (marshal ev)) [
    | inl m ↦ rw m
    | inr (msg, m) ↦ rw m
  ]
  stored_events-cons (register_call c) cs = refl
  stored_events-cons (unregister_call id) cs = refl
  stored_events-cons (receive_call id) cs = refl

  abbrev pub After : Hub → List Event → Option Hub → Type 0
  After h history r = (h' : Hub) × (r ≡ some h') × Holds h' history × (h'.ring_size ≡ h.ring_size)

  send_stored :
      {h : Hub} {history : List Event} (ev : Event) (msg : Bytes)
      → marshal ev ≡ some msg
      → Holds h history
      → After h (history ++ ev ∷ []) (send marshal ev true h)
  unfolding send
  send_stored {h} ev msg m s =
      let h1 = record h { bcast_count = add_uint64 h.bcast_count } in
      let h2 = stored ev h1 in
      let kept = deliver-ring msg h2.clients (record h2 { clients = [] }) in
      (
        deliver msg h2.clients (record h2 { clients = [] }),
        rw (m, send) (rw (record_event-stored {h = h1} ev (bumped s.valid))),
        Holds-congr kept (stored-Holds ev s),
        kept.2,
      )

  pub broadcast_stored :
      {h : Hub} {history : List Event} (ev : Event) (msg : Bytes)
      → marshal ev ≡ some msg
      → Holds h history
      → After h (history ++ ev ∷ []) (broadcast marshal ev h)
  unfolding broadcast
  broadcast_stored ev msg m s = send_stored ev msg m s

  send_transient :
      {h : Hub} {history : List Event} (ev : Event) (msg : Bytes)
      → marshal ev ≡ some msg
      → Holds h history
      → After h history (send marshal ev false h)
  unfolding send
  send_transient {h} ev msg m s =
      let h1 = record h { bcast_count = add_uint64 h.bcast_count } in
      let kept = deliver-ring msg h1.clients (record h1 { clients = [] }) in
      (
        deliver msg h1.clients (record h1 { clients = [] }),
        rw (m, send),
        Holds-congr kept s,
        kept.2,
      )

  pub send_unmarshalled :
      (ev : Event) (store : Bool) (h : Hub) → marshal ev ≡ none → send marshal ev store h ≡ some h
  unfolding send
  send_unmarshalled ev store h m = rw (m, send)

  pub broadcast_unmarshalled :
      (ev : Event) (h : Hub) → marshal ev ≡ none → broadcast marshal ev h ≡ some h
  unfolding broadcast
  broadcast_unmarshalled ev h m = send_unmarshalled ev true h m

  pub step-After :
      (c : Call) {h : Hub} {history : List Event}
      → Holds h history
      → After h (history ++ stored_events marshal (c ∷ [])) (step marshal c h)
  unfolding step register unregister receive
  step-After (send_call ev true) {h} {history} s = elim (Option-cases (marshal ev)) [
    | inl no_msg ↦ rw (no_msg, append-nil) (h, send_unmarshalled ev true h no_msg, s, refl)
    | inr (msg, m) ↦ rw m (send_stored ev msg m s)
  ]
  step-After (send_call ev false) {h} {history} s = elim (Option-cases (marshal ev)) [
    | inl no_msg ↦ rw (no_msg, append-nil) (h, send_unmarshalled ev false h no_msg, s, refl)
    | inr (msg, m) ↦ rw (m, append-nil) (send_transient ev msg m s)
  ]
  step-After (register_call c) {h} s = (
    register (new_client c) h,
    refl,
    rw append-nil (Holds-congr (refl, refl, refl, refl) s),
    refl,
  )
  step-After (unregister_call id) {h} s =
      (unregister id h, refl, rw append-nil (Holds-congr (refl, refl, refl, refl) s), refl)
  step-After (receive_call id) {h} s =
      (receive id h, refl, rw append-nil (Holds-congr (refl, refl, refl, refl) s), refl)

  run-After :
      (cs : List Call) {h : Hub} {history : List Event}
      → Holds h history
      → After h (history ++ stored_events marshal cs) (run marshal cs h)
  unfolding run
  run-After [] {h} {history} s = rw append-nil (h, refl, s, refl)
  run-After (c ∷ cs) {h} {history} s =
      let (h1, e1, s1, n1) = step-After c s in
      let (h2, e2, s2, n2) = run-After cs s1 in (h2, rw (e1, run) e2, rw regroup at s2, n2 ∙ n1)
    where
      regroup :
          (history ++ stored_events marshal (c ∷ [])) ++ stored_events marshal cs
          ≡ history ++ stored_events marshal (c ∷ cs)
      regroup = append_assoc history _ _ ∙ ap (λ xs. history ++ xs) (sym (stored_events-cons c cs))

-- Start a hub with a positive buffer of n events and let the other goroutines make any calls of
-- `send`, `register`, `unregister` and channel receives. No call panics, and the snapshot that a
-- new client is replayed is then exactly the last n of the stored events, oldest first.
pub snapshot-run :
    (marshal : Event → Option Bytes) (n : ℕ) (cs : List Call) {h : Hub}
    → 0 < n
    → new_hub (pos n) ≡ some h
    → (h' : Hub) × (run marshal cs h ≡ some h')
      × (snapshot h' ≡ last_n n (stored_events marshal cs))
snapshot-run marshal n cs {h} p e =
    let (h', r, s, same) = run-After marshal cs (new_hub-Holds n p e) in
    (
      h',
      r,
      snapshot-contents h' s.valid
          ∙ s.held
          ∙ ap (λ k. last_n k (stored_events marshal cs)) (same ∙ size),
    )
  where
    size : h.ring_size ≡ n
    size = new_hub-size n e
