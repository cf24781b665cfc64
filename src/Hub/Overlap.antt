-- ===== src/Hub/Overlap.antt =====
-- internal/ui/hub.go: sends that overlap. `send` holds the mutex while it stores its event and copies
-- the set of clients, and then offers its frame to them one by one, in any order, while other sends do the same
-- and clients come and go.
pub mod Counted
mod Tests
use mathlib.Core.Path.{subst}
use mathlib.Core.Option.{some-injective}
use agentflash.Common.{
  ℕ, ◌+◌, ◌%◌, ◌^◌, ◌<◌, Bool, true, false, Option, none, some, List, [], ◌∷◌, ◌++◌, map, ◌≡◌, refl,
  sym, ap, ◌∙◌, arith, Bytes, length, if◌then◌else◌,
}
use agentflash.Common.Int.{pos}
use agentflash.Event.{Event}
use agentflash.Hub.{
  Hub, Client, add_uint64, new_hub, record_event, offer, register, unregister, receive, snapshot,
}
use agentflash.Hub.Clients.{has_client}
use agentflash.Hub.Ring.{
  Holds, last_n, stored, record_event-stored, stored-Holds, new_hub-Holds, new_hub-size,
  snapshot-contents,
}
use agentflash.Hub.Replay.{Holds-congr}

-- A send behind its critical section: its frame, and the clients it still has to offer it to.
pub record Sending : Type 0 where
  pub frame : Bytes
  pub left : List ℕ

-- `sending` is the sends under way. Beside the state of the program, `history` is the events stored
-- so far, in the order of the critical sections, and `due` the number of offers these have set up.
pub record Busy : Type 0 where
  pub hub : Hub
  pub sending : List Sending
  pub history : List Event
  pub due : ℕ

abbrev pub bump : Hub → Hub
bump h = record h { bcast_count = add_uint64 h.bcast_count }

abbrev pub ids : List Client → List ℕ
ids = map (λ c. c.id)

-- The counter of an offer.
abbrev pub count : Bool → Hub → Hub
count true h = record h { deliver_count = add_uint64 h.deliver_count }
count false h = record h { drop_count = add_uint64 h.drop_count }

-- The state after the critical section of a send that leaves the hub `h`.
abbrev pub locked : Bytes → List Event → Hub → Busy → Busy
locked m evs h s = record {
  hub = h;
  sending = s.sending ++ record { frame = m; left = ids h.clients } ∷ [];
  history = s.history ++ evs;
  due = s.due + length (ids h.clients);
}

module _ (marshal : Event → Option Bytes) where
  pub data Step (s : Busy) : Busy → Type 0 where
    -- The critical section of a send that stores its event, and of one that does not.
    lock_stored :
        (ev : Event) (m : Bytes) (h : Hub)
        → marshal ev ≡ some m
        → record_event ev (bump s.hub) ≡ some h
        → Step s (locked m (ev ∷ []) h s)
    lock_transient :
        (ev : Event) (m : Bytes) → marshal ev ≡ some m → Step s (locked m [] (bump s.hub) s)
    -- A send offers its frame to a client of the set; the loop over a map takes them in any order.
    offer_client :
        (before after : List Sending) (m : Bytes) (first rest : List ℕ) (pre post : List Client)
        (c : Client)
        → s.sending ≡ before ++ record { frame = m; left = first ++ c.id ∷ rest } ∷ after
        → s.hub.clients ≡ pre ++ c ∷ post
        → Step s (record s {
          hub = record (count (offer m c).1 s.hub) { clients = pre ++ (offer m c).0 ∷ post };
          sending = before ++ record { frame = m; left = first ++ rest } ∷ after;
        })
    -- It offers it to a client that has left the set; whether its channel has room is left open.
    offer_gone :
        (before after : List Sending) (m : Bytes) (id : ℕ) (first rest : List ℕ) (room : Bool)
        → s.sending ≡ before ++ record { frame = m; left = first ++ id ∷ rest } ∷ after
        → has_client id s.hub.clients ≡ false
        → Step s (record s {
          hub = count room s.hub;
          sending = before ++ record { frame = m; left = first ++ rest } ∷ after;
        })
    -- A send returns.
    return :
        (before after : List Sending) (m : Bytes)
        → s.sending ≡ before ++ record { frame = m; left = [] } ∷ after
        → Step s (record s { sending = before ++ after })
    -- The clients.
    call_register : (c : Client) → Step s (record s { hub = register c s.hub })
    call_unregister : (id : ℕ) → Step s (record s { hub = unregister id s.hub })
    call_receive : (id : ℕ) → Step s (record s { hub = receive id s.hub })

  pub data Reach (h : Hub) : Busy → Type 0 where
    idle : Reach h (record { hub = h; sending = []; history = []; due = 0 })
    later : {s t : Busy} → Reach h s → Step s t → Reach h t
