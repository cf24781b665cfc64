-- ===== src/Session/Foreign.antt =====
-- internal/ui/server.go and hub.go: what the moves of other goroutines leave as it is for a client.
use mathlib.Core.Path.{subst}
use agentflash.Common.{
  ℕ, ◌≤◌, true, false, Option, List, [], ◌∷◌, ◌++◌, ◌≡◌, refl, sym, ◌∙◌, arith, Bytes, ◌==◌, length,
}
use agentflash.Event.{Event}
use agentflash.Hub.{Client, offer, send_capacity, register, unregister, receive}
use agentflash.Hub.Delivery.{Untouched, record_event-Untouched}
use agentflash.Hub.Clients.{
  has_client, IsSound, offer_id, offer-bounded, insert_client-IsSound, remove_client-IsSound,
  receive_client-IsSound, has_client-insert, has_client-remove, has_client-receive,
}
use agentflash.Hub.Channel.{
  channel, channel-insert_other, channel-remove_other, channel-receive_other,
}
use agentflash.Hub.Overlap.{
  Busy, bump, lock_stored, lock_transient, offer_client, offer_gone, return, call_register,
  call_unregister, call_receive,
}
use agentflash.Hub.Overlap
use agentflash.Session.{IsForeign}

-- A client of the set replaced by one of the same pointer.
has_client-replace :
    (j : ℕ) (c d : Client) (pre post : List Client)
    → d.id ≡ c.id
    → has_client j (pre ++ d ∷ post) ≡ has_client j (pre ++ c ∷ post)
has_client-replace j c d [] post e = rw e refl
has_client-replace j c d (x ∷ pre) post e = rw (has_client-replace j c d pre post e) refl

IsSound-replace :
    (c d : Client) (pre post : List Client)
    → d.id ≡ c.id
    → (length c.send ≤ send_capacity → length d.send ≤ send_capacity)
    → IsSound (pre ++ c ∷ post)
    → IsSound (pre ++ d ∷ post)
IsSound-replace c d [] post e f (b, u, s) = (f b, rw e u, s)
IsSound-replace c d (x ∷ pre) post e f (b, u, s) =
    (b, has_client-replace x.id c d pre post e ∙ u, IsSound-replace c d pre post e f s)

channel-replace :
    (j : ℕ) (c d : Client) (pre post : List Client)
    → d.id ≡ c.id
    → (j == c.id) ≡ false
    → channel j (pre ++ d ∷ post) ≡ channel j (pre ++ c ∷ post)
channel-replace j c d [] post e n = rw (e, n) refl
channel-replace j c d (x ∷ pre) post e n = rw (channel-replace j c d pre post e n) refl

-- The client is still registered or not, and its channel is as it was.
pub record Kept (id : ℕ) (cs ds : List Client) : Type 0 where
  pub sound : IsSound ds
  pub member : has_client id ds ≡ has_client id cs
  pub queued : channel id ds ≡ channel id cs

Kept-same : (id : ℕ) (cs ds : List Client) → ds ≡ cs → IsSound cs → Kept id cs ds
Kept-same id cs ds e s = rw e (record { sound = s; member = refl; queued = refl })

Kept-offer :
    (id : ℕ) (m : Bytes) (c : Client) (pre post : List Client)
    → (id == c.id) ≡ false
    → IsSound (pre ++ c ∷ post)
    → Kept id (pre ++ c ∷ post) (pre ++ (offer m c).0 ∷ post)
Kept-offer id m c pre post n s = record {
  sound = IsSound-replace c (offer m c).0 pre post (offer_id m c) (offer-bounded m c) s;
  member = has_client-replace id c (offer m c).0 pre post (offer_id m c);
  queued = channel-replace id c (offer m c).0 pre post (offer_id m c) n;
}

module _ (marshal : Event → Option Bytes) (id : ℕ) where
  pub Kept-foreign :
      {b c : Busy} (st : Overlap.Step marshal b c)
      → IsForeign marshal id st
      → IsSound b.hub.clients
      → Kept id b.hub.clients c.hub.clients
  unfolding register unregister receive
  Kept-foreign {b} (lock_stored ev m h e r) f s =
      let u = subst (Untouched (bump b.hub)) r (record_event-Untouched ev (bump b.hub)) in
      Kept-same id b.hub.clients h.clients (u.0) s
  Kept-foreign {b} (lock_transient ev m e) f s = Kept-same id b.hub.clients _ refl s
  Kept-foreign {b} (offer_client before after m first rest pre post c e q) f s =
      subst (λ x. Kept id x (pre ++ (offer m c).0 ∷ post)) (sym q)
        (Kept-offer id m c pre post f (subst IsSound q s))
  Kept-foreign {b} (offer_gone before after m j first rest true e q) f s =
      Kept-same id b.hub.clients _ refl s
  Kept-foreign {b} (offer_gone before after m j first rest false e q) f s =
      Kept-same id b.hub.clients _ refl s
  Kept-foreign {b} (return before after m e) f s = Kept-same id b.hub.clients _ refl s
  Kept-foreign {b} (call_register c) (n, z) s = record {
    sound = insert_client-IsSound c b.hub.clients (rw z (omega arith)) s;
    member = rw (has_client-insert id c b.hub.clients, n) refl;
    queued = channel-insert_other id c b.hub.clients n;
  }
  Kept-foreign {b} (call_unregister j) n s = record {
    sound = remove_client-IsSound j b.hub.clients s;
    member = has_client-remove j id b.hub.clients s ∙ ground arith;
    queued = channel-remove_other id j b.hub.clients n;
  }
  Kept-foreign {b} (call_receive j) n s = record {
    sound = receive_client-IsSound j b.hub.clients s;
    member = has_client-receive j id b.hub.clients;
    queued = channel-receive_other id j b.hub.clients n;
  }
