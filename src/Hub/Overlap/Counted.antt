-- ===== src/Hub/Overlap/Counted.antt =====
-- internal/ui/hub.go: the ring and the counters under sends that overlap.
use mathlib.Core.Path.{subst}
use mathlib.Core.Option.{some-injective}
use agentflash.Common.{
  ℕ, ◌+◌, ◌%◌, ◌^◌, ◌<◌, Bool, true, false, Option, some, List, [], ◌∷◌, ◌++◌, ◌≡◌, refl, sym, ap,
  ◌∙◌, arith, Bytes, length, append-nil, length-append,
}
use agentflash.Common.Int.{pos}
use agentflash.Event.{Event}
use agentflash.Hub.{Hub, Client, new_hub, offer, register, unregister, receive, snapshot}
use agentflash.Hub.Ring.{
  Holds, last_n, stored, record_event-stored, stored-Holds, new_hub-Holds, new_hub-size,
  snapshot-contents,
}
use agentflash.Hub.Replay.{Holds-congr}
use agentflash.Hub.Overlap.{
  Sending, Busy, bump, ids, count, locked, Step, lock_stored, lock_transient, offer_client,
  offer_gone, return, call_register, call_unregister, call_receive, Reach, idle, later,
}

-- The offers that are still to come.
abbrev pub pending : List Sending → ℕ
pending [] = 0
pending (x ∷ xs) = length x.left + pending xs

pending-append : (xs ys : List Sending) → pending (xs ++ ys) ≡ pending xs + pending ys
pending-append [] ys = omega arith
pending-append (x ∷ xs) ys = omega (arith, pending-append xs ys)

-- Modulo 2^64 every offer set up is counted once, or still to come.
abbrev pub Counted : Busy → Type 0
Counted s = (s.hub.deliver_count + s.hub.drop_count + pending s.sending) % 2 ^ 64 ≡ s.due % 2 ^ 64

-- A send under way with one offer less to make.
pub pending-less :
    (before after : List Sending) (m : Bytes) (id : ℕ) (first rest : List ℕ)
    → pending (before ++ record { frame = m; left = first ++ id ∷ rest } ∷ after)
      ≡ 1 + pending (before ++ record { frame = m; left = first ++ rest } ∷ after)
pending-less before after m id first rest = omega (
  arith,
  length-append first (id ∷ rest),
  length-append first rest,
  pending-append before (record { frame = m; left = first ++ id ∷ rest } ∷ after),
  pending-append before (record { frame = m; left = first ++ rest } ∷ after),
)

pending-return :
    (before after : List Sending) (m : Bytes)
    → pending (before ++ record { frame = m; left = [] } ∷ after) ≡ pending (before ++ after)
pending-return before after m = omega (
  arith,
  pending-append before (record { frame = m; left = [] } ∷ after),
  pending-append before after,
)

-- What the invariant says of the state.
pub record Inv (n : ℕ) (s : Busy) : Type 0 where
  pub holds : Holds s.hub s.history
  pub size : s.hub.ring_size ≡ n
  pub counted : Counted s

pub count-Inv :
    (n : ℕ) (b : Bool) (rest : List Sending) (cs : List Client) (s : Busy)
    → pending s.sending ≡ 1 + pending rest
    → Inv n s
    → Inv n (record s { hub = record (count b s.hub) { clients = cs }; sending = rest })
count-Inv n true rest cs s e i = record {
  holds = Holds-congr (refl, refl, refl, refl) i.holds;
  size = i.size;
  counted = omega (arith, e, i.counted);
}
count-Inv n false rest cs s e i = record {
  holds = Holds-congr (refl, refl, refl, refl) i.holds;
  size = i.size;
  counted = omega (arith, e, i.counted);
}

locked-Inv :
    (n : ℕ) (m : Bytes) (evs : List Event) (h : Hub) (s : Busy)
    → Holds h (s.history ++ evs)
    → h.ring_size ≡ n
    → h.deliver_count ≡ s.hub.deliver_count
    → h.drop_count ≡ s.hub.drop_count
    → Inv n s
    → Inv n (locked m evs h s)
locked-Inv n m evs h s held size d e i = record {
  holds = held;
  size = size;
  counted = omega (
    arith,
    d,
    e,
    i.counted,
    pending-append s.sending (record { frame = m; left = ids h.clients } ∷ []),
  );
}

-- A call on the set of clients.
pub same_ring-Inv :
    (n : ℕ) (cs : List Client) (s : Busy)
    → Inv n s
    → Inv n (record s { hub = record s.hub { clients = cs } })
same_ring-Inv n cs s i = record {
  holds = Holds-congr (refl, refl, refl, refl) i.holds;
  size = i.size;
  counted = i.counted;
}

module _ (marshal : Event → Option Bytes) (n : ℕ) where
  pub Step-Inv : {s t : Busy} → Step marshal s t → Inv n s → Inv n t
  unfolding register unregister receive
  Step-Inv {s} (lock_stored ev m h q r) i =
      let b : Holds (bump s.hub) s.history = Holds-congr (refl, refl, refl, refl) i.holds in
      subst (λ x. Inv n (locked m (ev ∷ []) x s))
        (some-injective _ _ (sym (record_event-stored {h = bump s.hub} ev b.valid) ∙ r))
        (locked-Inv n m (ev ∷ []) (stored ev (bump s.hub)) s (stored-Holds ev b) i.size refl refl i)
  Step-Inv {s} (lock_transient ev m q) i =
      locked-Inv n m [] (bump s.hub) s
        (rw append-nil (Holds-congr (refl, refl, refl, refl) i.holds)) i.size refl refl i
  Step-Inv {s} (offer_client before after m first rest pre post c q d) i =
      count-Inv n (offer m c).1 (before ++ record { frame = m; left = first ++ rest } ∷ after)
        (pre ++ (offer m c).0 ∷ post) s (ap pending q ∙ pending-less before after m c.id first rest)
        i
  Step-Inv {s} (offer_gone before after m id first rest true q g) i =
      count-Inv n true (before ++ record { frame = m; left = first ++ rest } ∷ after) s.hub.clients
        s (ap pending q ∙ pending-less before after m id first rest) i
  Step-Inv {s} (offer_gone before after m id first rest false q g) i =
      count-Inv n false (before ++ record { frame = m; left = first ++ rest } ∷ after) s.hub.clients
        s (ap pending q ∙ pending-less before after m id first rest) i
  Step-Inv {s} (return before after m q) i = record {
    holds = i.holds;
    size = i.size;
    counted = rw (ap pending q ∙ pending-return before after m) at i.counted;
  }
  Step-Inv {s} (call_register c) i = same_ring-Inv n (register c s.hub).clients s i
  Step-Inv {s} (call_unregister id) i = same_ring-Inv n (unregister id s.hub).clients s i
  Step-Inv {s} (call_receive id) i = same_ring-Inv n (receive id s.hub).clients s i

  pub Reach-Inv :
      {h : Hub} {s : Busy} → 0 < n → new_hub (pos n) ≡ some h → Reach marshal h s → Inv n s
  unfolding new_hub
  Reach-Inv {h} p e idle = record {
    holds = new_hub-Holds n p e;
    size = new_hub-size n e;
    counted =
        subst (λ k. Counted (record { hub = k; sending = []; history = []; due = 0 }))
          (some-injective _ _ e) refl;
  }
  Reach-Inv p e (later r st) = Step-Inv st (Reach-Inv p e r)

  -- However sends overlap with each other and with clients that come and go, from a new hub with a
  -- positive buffer of n events: a client that connects is replayed the last n of the events stored,
  -- in the order of the critical sections, and modulo 2^64 each offer of a frame to a client that was
  -- in the set in the critical section of its send has been counted once, as delivered or as
  -- dropped, or is still to come.
  pub snapshot-Reach :
      {h : Hub} {s : Busy}
      → 0 < n
      → new_hub (pos n) ≡ some h
      → Reach marshal h s
      → (snapshot s.hub ≡ last_n n s.history) × Counted s
  snapshot-Reach {h} {s} p e r =
      let i = Reach-Inv p e r in
      (
        snapshot-contents s.hub i.holds.valid ∙ i.holds.held ∙ ap (λ k. last_n k s.history) i.size,
        i.counted,
      )
