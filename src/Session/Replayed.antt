-- ===== src/Session/Replayed.antt =====
-- internal/ui/server.go, wsHandler: the replay of a connection.
use mathlib.Core.Path.{subst}
use agentflash.Common.{
  ℕ, ◌<◌, Bool, true, false, Option, some, List, [], ◌∷◌, ◌++◌, ◌≡◌, ◌⊎◌, refl, sym, ap, ◌∙◌, inl,
  inr, Bytes, append_assoc, append-nil,
}
use agentflash.Common.Int.{pos}
use agentflash.Event.{Event}
use agentflash.Hub.{Hub, new_hub, new_client, register, unregister, receive, snapshot}
use agentflash.Hub.Ring.{last_n, snapshot-contents}
use agentflash.Hub.Channel.{push_client}
use agentflash.Hub.Clients.{has_client, IsSound}
use agentflash.Common.Interleaves.{Interleaves}
use agentflash.Session.Woven.{replayed, Reach-Interleaves}
use agentflash.Hub.Overlap.{
  Busy, Sending, lock_stored, lock_transient, offer_client, offer_gone, return, call_register,
  call_unregister, call_receive,
}
use agentflash.Hub.Overlap
use agentflash.Hub.Overlap.Counted
use agentflash.Hub.Overlap.Counted.{pending, pending-less, count-Inv, same_ring-Inv}
use agentflash.Session.{
  Session, Replay, waiting, replaying, frames, connect, queue, put_in, put, leave, offered, Step,
  foreign, offer_room, offer_full, take_snapshot, replay_frame, give_up, hang_up, write_frame,
  write_error, ping_error, return_done, Reach, connected, later,
}

module _ (marshal : Event → Option Bytes) (n : ℕ) (past : List Event) where
  -- `seen` is the events stored when the replay took its snapshot: those stored before the
  -- connection and some since; others may have been stored later. The frames of the last `n` of them
  -- have been put in the channel or are still to be put there, but for those that it gave up.
  abbrev pub IsReplay : List Event → Bool → Replay → Type 0
  IsReplay history done waiting = Unit
  IsReplay history done (replaying seen sent left) =
      (since more : List Event) × (missed : List Bytes) × (seen ≡ past ++ since)
      × (history ≡ seen ++ more)
      × (sent ++ (left ++ missed) ≡ frames marshal (last_n n seen))
      × ((missed ≡ []) ⊎ (done ≡ true))

  IsReplay-more :
      (history more : List Event) (done : Bool) (r : Replay)
      → IsReplay history done r
      → IsReplay (history ++ more) done r
  IsReplay-more history more done waiting i = tt
  IsReplay-more history more done (replaying seen sent left) (a, b, missed, p, q, f, d) =
      (a, b ++ more, missed, p, ap (λ x. x ++ more) q ∙ append_assoc seen b more, f, d)

  IsReplay-frame :
      (history : List Event) (done : Bool) (r : Replay) (m : Bytes) (seen : List Event)
      (sent left : List Bytes)
      → r ≡ replaying seen sent (m ∷ left)
      → IsReplay history done r
      → IsReplay history done (replaying seen (sent ++ m ∷ []) left)
  IsReplay-frame history done r m seen sent left e i =
      let (a, b, missed, p, q, f, d) = subst (IsReplay history done) e i in
      (a, b, missed, p, q, append_assoc sent (m ∷ []) (left ++ missed) ∙ f, d)

  IsReplay-give_up :
      (history : List Event) (done : Bool) (r : Replay) (seen : List Event) (sent left : List Bytes)
      → r ≡ replaying seen sent left
      → done ≡ true
      → IsReplay history done r
      → IsReplay history done (replaying seen sent [])
  IsReplay-give_up history done r seen sent left e g i =
      let (a, b, missed, p, q, f, d) = subst (IsReplay history done) e i in
      (a, b, left ++ missed, p, q, f, inr g)

  IsReplay-done :
      (history : List Event) (done : Bool) (r : Replay)
      → IsReplay history done r
      → IsReplay history true r
  IsReplay-done history done waiting i = tt
  IsReplay-done history done (replaying seen sent left) (a, b, missed, p, q, f, d) =
      (a, b, missed, p, q, f, inr refl)

  record Inv (s : Session) : Type 0 where
    ring : Counted.Inv n s.busy
    since : List Event
    grown : s.busy.history ≡ past ++ since
    replay_of : IsReplay s.busy.history s.done s.replay

-- The history only grows.
Step-history :
    (marshal : Event → Option Bytes) {b c : Busy}
    → Overlap.Step marshal b c
    → (more : List Event) × (c.history ≡ b.history ++ more)
Step-history marshal {b} (lock_stored ev m h e r) = (ev ∷ [], refl)
Step-history marshal {b} (lock_transient ev m e) = ([], refl)
Step-history marshal {b} (offer_client before after m first rest pre post c e q) =
    ([], sym (append-nil b.history))
Step-history marshal {b} (offer_gone before after m j first rest room e q) =
    ([], sym (append-nil b.history))
Step-history marshal {b} (return before after m e) = ([], sym (append-nil b.history))
Step-history marshal {b} (call_register c) = ([], sym (append-nil b.history))
Step-history marshal {b} (call_unregister j) = ([], sym (append-nil b.history))
Step-history marshal {b} (call_receive j) = ([], sym (append-nil b.history))

module _ (marshal : Event → Option Bytes) (id n : ℕ) (past : List Event) where
  -- A move that leaves the history and the replay as they are.
  same-Inv :
      {s : Session} (t : Session)
      → Counted.Inv n t.busy
      → t.busy.history ≡ s.busy.history
      → t.done ≡ s.done
      → t.replay ≡ s.replay
      → Inv marshal n past s
      → Inv marshal n past t
  same-Inv {s} t ring h d r i = record {
    ring = ring;
    since = i.since;
    grown = h ∙ i.grown;
    replay_of = rw (h, d, r) i.replay_of;
  }

  -- A frame put in the channel.
  put_in-Inv :
      (m : Bytes) (s : Session) (b : Bool)
      → Inv marshal n past s
      → Inv marshal n past (put_in b id m s)
  unfolding put_in
  put_in-Inv m s true i = same-Inv (put_in true id m s) i.ring refl refl refl i
  put_in-Inv m s false i =
      same-Inv (put_in false id m s)
        (same_ring-Inv n (push_client id m s.busy.hub.clients) s.busy i.ring) refl refl refl i

  offered-Inv :
      (s : Session) (room : Bool) (before after : List Sending) (m : Bytes) (first rest : List ℕ)
      → s.busy.sending ≡ before ++ record { frame = m; left = first ++ id ∷ rest } ∷ after
      → Inv marshal n past s
      → Inv marshal n past
          (offered room (before ++ record { frame = m; left = first ++ rest } ∷ after) s)
  offered-Inv s true before after m first rest e i =
      same-Inv _
        (count-Inv n true (before ++ record { frame = m; left = first ++ rest } ∷ after)
          s.busy.hub.clients s.busy (ap pending e ∙ pending-less before after m id first rest)
          i.ring)
        refl refl refl i
  offered-Inv s false before after m first rest e i =
      same-Inv _
        (count-Inv n false (before ++ record { frame = m; left = first ++ rest } ∷ after)
          s.busy.hub.clients s.busy (ap pending e ∙ pending-less before after m id first rest)
          i.ring)
        refl refl refl i

  Step-Inv :
      {s : Session} {more : List Bytes} {t : Session}
      → Step marshal id s more t
      → Inv marshal n past s
      → Inv marshal n past t
  unfolding put leave receive unregister
  Step-Inv {s} (foreign b st f) i =
      let (more, h) = Step-history marshal st in
      record {
        ring = Counted.Step-Inv marshal n st i.ring;
        since = i.since ++ more;
        grown = h ∙ ap (λ x. x ++ more) i.grown ∙ append_assoc past i.since more;
        replay_of =
            rw h (IsReplay-more marshal n past s.busy.history more s.done s.replay i.replay_of);
      }
  Step-Inv {s} (offer_room before after m first rest e room) i =
      put_in-Inv m _ s.returned (offered-Inv s true before after m first rest e i)
  Step-Inv {s} (offer_full before after m first rest e full) i =
      offered-Inv s false before after m first rest e i
  Step-Inv {s} (take_snapshot w) i = record {
    ring = i.ring;
    since = i.since;
    grown = i.grown;
    replay_of = (
      i.since,
      [],
      [],
      i.grown,
      sym (append-nil s.busy.history),
      append-nil (frames marshal (snapshot s.busy.hub))
          ∙ ap (frames marshal) (
              snapshot-contents s.busy.hub i.ring.holds.valid
              ∙ i.ring.holds.held
              ∙ ap (λ k. last_n k s.busy.history) i.ring.size),
      inl refl,
    );
  }
  Step-Inv {s} (replay_frame m seen sent left e room) i =
      put_in-Inv m (record s { replay = replaying seen (sent ++ m ∷ []) left }) s.returned
        (record {
          ring = i.ring;
          since = i.since;
          grown = i.grown;
          replay_of =
              IsReplay-frame marshal n past s.busy.history s.done s.replay m seen sent left e
                i.replay_of;
        })
  Step-Inv {s} (give_up seen sent left e d) i = record {
    ring = i.ring;
    since = i.since;
    grown = i.grown;
    replay_of =
        IsReplay-give_up marshal n past s.busy.history s.done s.replay seen sent left e d
          i.replay_of;
  }
  Step-Inv {s} hang_up i = record {
    ring = i.ring;
    since = i.since;
    grown = i.grown;
    replay_of = IsReplay-done marshal n past s.busy.history s.done s.replay i.replay_of;
  }
  Step-Inv {s} (write_frame m rest r e) i =
      same-Inv _ (same_ring-Inv n (receive id s.busy.hub).clients s.busy i.ring) refl refl refl i
  Step-Inv {s} (write_error m rest r e) i =
      same-Inv _ (same_ring-Inv n (unregister id (receive id s.busy.hub)).clients s.busy i.ring)
        refl refl refl i
  Step-Inv {s} (ping_error r) i =
      same-Inv _ (same_ring-Inv n (unregister id s.busy.hub).clients s.busy i.ring) refl refl refl i
  Step-Inv {s} (return_done r d) i =
      same-Inv _ (same_ring-Inv n (unregister id s.busy.hub).clients s.busy i.ring) refl refl refl i

  connect-Inv : (b : Busy) → Counted.Inv n b → b.history ≡ past → Inv marshal n past (connect id b)
  unfolding connect register
  connect-Inv b i e = record {
    ring = same_ring-Inv n (register (new_client id) b.hub).clients b i;
    since = [];
    grown = e ∙ sym (append-nil past);
    replay_of = tt;
  }

  Reach-Inv :
      {b : Busy} {live : List Bytes} {s : Session}
      → Counted.Inv n b
      → b.history ≡ past
      → Reach marshal id b live s
      → Inv marshal n past s
  Reach-Inv {b} i e connected = connect-Inv b i e
  Reach-Inv i e (later r st) = Step-Inv st (Reach-Inv i e r)

-- Let a hub begin with a positive buffer of n events, let sends and clients use it in any way, and let
-- a client then connect. However the goroutines of the connection, the critical sections and offers
-- of sends and the other clients interleave: from its snapshot on, the frames that the replay has
-- put in the channel, those that it still has to put there and those that it gave up are the frames
-- of the last n of the events `seen`, which are the events stored when it took the snapshot; these
-- begin with all that were stored before the connection, and later events are behind them in the
-- history. It gives frames up only once the reader has met the end of the connection.
pub Reach-IsReplay :
    (marshal : Event → Option Bytes) (id n : ℕ) {h : Hub} {b : Busy} {live : List Bytes}
    {s : Session}
    → 0 < n
    → new_hub (pos n) ≡ some h
    → Overlap.Reach marshal h b
    → Reach marshal id b live s
    → IsReplay marshal n b.history s.busy.history s.done s.replay
Reach-IsReplay marshal id n {h} {b} {live} {s} p e o r =
    let i = Reach-Inv marshal id n b.history (Counted.Reach-Inv marshal n p e o) refl r in
    i.replay_of

given_all :
    (marshal : Event → Option Bytes) (n : ℕ) (past history seen : List Event) (sent : List Bytes)
    → IsReplay marshal n past history false (replaying seen sent [])
    → sent ≡ frames marshal (last_n n seen)
given_all marshal n past history seen sent (a, b, missed, p, q, f, inl none_missed) =
    sym (append-nil sent) ∙ (rw none_missed at f)
given_all marshal n past history seen sent (a, b, missed, p, q, f, inr e) = cc

-- In the same situation, let the client not have been in the set, whose clients are distinct with
-- channels that are not over-full. When the replay has put all of its frames in the channel, the
-- connection has not ended, no write has failed and nothing is in the channel, then the browser has
-- been sent the frames of the last n of the events `seen`, in their order, woven with the live frames
-- in theirs, and nothing else.
pub Reach-complete :
    (marshal : Event → Option Bytes) (id n : ℕ) {h : Hub} {b : Busy} {live : List Bytes}
    {s : Session} (seen : List Event) (sent : List Bytes)
    → 0 < n
    → new_hub (pos n) ≡ some h
    → Overlap.Reach marshal h b
    → IsSound b.hub.clients
    → has_client id b.hub.clients ≡ false
    → Reach marshal id b live s
    → s.replay ≡ replaying seen sent []
    → s.done ≡ false
    → s.failed ≡ []
    → queue id s ≡ []
    → Interleaves (frames marshal (last_n n seen)) live s.written
Reach-complete marshal id n {h} {b} {live} {s} seen sent p e o d c r all open_yet ok drained =
    let k = (Reach-Interleaves marshal id d c r).0 in
    let i = Reach-IsReplay marshal id n p e o r in
    let i' = subst (IsReplay marshal n b.history s.busy.history s.done) all i in
    let i'' =
      subst (λ x. IsReplay marshal n b.history s.busy.history x (replaying seen sent [])) open_yet
        i' in
    let f = given_all marshal n b.history s.busy.history seen sent i'' in
    let w =
      subst (λ x. Interleaves (replayed x) live (s.written ++ (s.failed ++ queue id s))) all k in
    subst (λ x. Interleaves x live s.written) f (rw (ok, drained, append-nil) at w)
