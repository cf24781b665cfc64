-- ===== src/Session/Woven.antt =====
-- internal/ui/server.go, wsHandler: what reaches the browser, and in which order.
use mathlib.Core.Path.{subst}
use agentflash.Common.{
  ℕ, ◌≤◌, ◌<◌, Bool, true, false, not, Option, List, [], ◌∷◌, ◌++◌, ◌≡◌, refl, sym, ap, ◌∙◌, arith,
  Bytes, length, length-append, append_assoc, append-nil,
}
use agentflash.Event.{Event}
use agentflash.Hub.{new_client, send_capacity, register, unregister, receive}
use agentflash.Hub.Clients.{
  has_client, IsSound, remove_client-IsSound, insert_client-IsSound, receive_client-IsSound,
  has_client-insert, has_client-remove, has_client-receive,
}
use agentflash.Hub.Channel.{
  channel, channel-push, has_client-push, push_client-IsSound, channel-insert_new, channel-receive,
  channel-bounded,
}
use agentflash.Hub.Overlap.{Busy}
use agentflash.Common.Interleaves.{
  Interleaves, nothing, Interleaves-snoc_first, Interleaves-append_second,
}
use agentflash.Session.Foreign.{Kept-foreign}
use agentflash.Session.{
  Session, Replay, waiting, replaying, connect, queue, put_in, put, leave, offered, Step, foreign,
  offer_room, offer_full, take_snapshot, replay_frame, give_up, hang_up, write_frame, write_error,
  ping_error, return_done, Reach, connected, later,
}

-- What the replay has put in the channel.
abbrev pub replayed : Replay → List Bytes
replayed waiting = []
replayed (replaying seen sent left) = sent

module _ (id : ℕ) where
  -- The invariant, on what it depends on: the clients, whether wsHandler has returned, the frames
  -- replayed and live, those written and failed, and the queue.
  record Inv (live : List Bytes) (s : Session) : Type 0 where
    sound : IsSound s.busy.hub.clients
    member : has_client id s.busy.hub.clients ≡ not s.returned
    woven : Interleaves (replayed s.replay) live (s.written ++ (s.failed ++ queue id s))
    bounded : length (queue id s) ≤ send_capacity
    unfailed : s.returned ≡ false → s.failed ≡ []

  -- A frame put in the channel of a client.
  record IsPut (m : Bytes) (s t : Session) : Type 0 where
    sound : IsSound t.busy.hub.clients
    member : has_client id t.busy.hub.clients ≡ has_client id s.busy.hub.clients
    queued : queue id t ≡ queue id s ++ m ∷ []
    returned : t.returned ≡ s.returned
    written : t.written ≡ s.written
    failed : t.failed ≡ s.failed
    replay : t.replay ≡ s.replay

  put_in-IsPut :
      (m : Bytes) (s : Session) (b : Bool)
      → s.returned ≡ b
      → IsSound s.busy.hub.clients
      → has_client id s.busy.hub.clients ≡ not s.returned
      → length (queue id s) < send_capacity
      → IsPut m s (put_in b id m s)
  unfolding put_in
  put_in-IsPut m s true e c h room = record {
    sound = c;
    member = refl;
    queued = rw e refl;
    returned = refl;
    written = refl;
    failed = refl;
    replay = refl;
  }
  put_in-IsPut m s false e c h room = record {
    sound = push_client-IsSound id m s.busy.hub.clients (rw e at room) c;
    member = has_client-push id id m s.busy.hub.clients;
    queued = rw e (channel-push id m s.busy.hub.clients (h ∙ ap not e));
    returned = refl;
    written = refl;
    failed = refl;
    replay = refl;
  }

  put-IsPut :
      (m : Bytes) (s : Session)
      → IsSound s.busy.hub.clients
      → has_client id s.busy.hub.clients ≡ not s.returned
      → length (queue id s) < send_capacity
      → IsPut m s (put id m s)
  unfolding put
  put-IsPut m s c h room = put_in-IsPut m s s.returned refl c h room

  -- The invariant behind a frame put, from how the lists are woven then.
  put-Inv :
      {m : Bytes} {live : List Bytes} {s t : Session}
      → IsPut m s t
      → has_client id s.busy.hub.clients ≡ not s.returned
      → (s.returned ≡ false → s.failed ≡ [])
      → length (queue id s) < send_capacity
      → Interleaves (replayed s.replay) live ((s.written ++ (s.failed ++ queue id s)) ++ m ∷ [])
      → Inv live t
  put-Inv {m} {live} {s} {t} p member unfailed room w = record {
    sound = p.sound;
    member = p.member ∙ member ∙ ap not (sym p.returned);
    woven =
        rw
          (
            p.replay,
            p.written,
            p.failed,
            p.queued,
            ← append_assoc s.failed (queue id s) (m ∷ []),
            ← append_assoc s.written (s.failed ++ queue id s) (m ∷ []),
          )
          w;
    bounded = rw p.queued (omega (arith, length-append (queue id s) (m ∷ []), room));
    unfailed = λ e. p.failed ∙ unfailed (sym p.returned ∙ e);
  }

  -- wsHandler returns, with what the writer has just taken.
  leave-Inv :
      {live : List Bytes} (s : Session)
      → IsSound s.busy.hub.clients
      → Interleaves
          (replayed s.replay)
          live
          (s.written ++ (s.failed ++ channel id s.busy.hub.clients))
      → Inv live (leave id s)
  unfolding leave unregister
  leave-Inv {live} s c w = record {
    sound = remove_client-IsSound id s.busy.hub.clients c;
    member = has_client-remove id id s.busy.hub.clients c ∙ ground arith;
    woven = w;
    bounded = channel-bounded id s.busy.hub.clients c;
    unfailed = λ e. cc;
  }

  -- While wsHandler is at work, no write has failed, and the queue is in the set of clients.
  at_work :
      {live : List Bytes} (s : Session)
      → s.returned ≡ false
      → Inv live s
      → Interleaves (replayed s.replay) live (s.written ++ channel id s.busy.hub.clients)
  at_work {live} s r i = rw (i.unfailed r, r) at i.woven

module _ (marshal : Event → Option Bytes) (id : ℕ) where
  Step-Inv :
      {s : Session} {live more : List Bytes} {t : Session}
      → Step marshal id s more t
      → Inv id live s
      → Inv id (live ++ more) t
  unfolding receive
  Step-Inv {s} {live} (foreign b st f) i =
      let k = Kept-foreign marshal id st f i.sound in
      rw append-nil (record {
        sound = k.sound;
        member = k.member ∙ i.member;
        woven = rw k.queued i.woven;
        bounded = rw k.queued i.bounded;
        unfailed = i.unfailed;
      })
  Step-Inv {s} {live} (offer_room before after m first rest e room) i =
      let t = offered true (before ++ record { frame = m; left = first ++ rest } ∷ after) s in
      put-Inv id (put-IsPut id m t i.sound i.member room) i.member i.unfailed room
        (Interleaves-append_second (m ∷ []) i.woven)
  Step-Inv {s} {live} (offer_full before after m first rest e full) i = rw append-nil (record {
    sound = i.sound;
    member = i.member;
    woven = i.woven;
    bounded = i.bounded;
    unfailed = i.unfailed;
  })
  Step-Inv {s} {live} (take_snapshot w) i = rw append-nil (record {
    sound = i.sound;
    member = i.member;
    woven =
        subst (λ x. Interleaves x live (s.written ++ (s.failed ++ queue id s))) (ap replayed w)
          i.woven;
    bounded = i.bounded;
    unfailed = i.unfailed;
  })
  Step-Inv {s} {live} (replay_frame m seen sent left e room) i =
      let t = record s { replay = replaying seen (sent ++ m ∷ []) left } in
      rw append-nil (
        put-Inv id (put-IsPut id m t i.sound i.member room) i.member i.unfailed room (
          Interleaves-snoc_first m (
            subst (λ x. Interleaves x live (s.written ++ (s.failed ++ queue id s))) (ap replayed e)
              i.woven)))
  Step-Inv {s} {live} (give_up seen sent left e d) i = rw append-nil (record {
    sound = i.sound;
    member = i.member;
    woven =
        subst (λ x. Interleaves x live (s.written ++ (s.failed ++ queue id s))) (ap replayed e)
          i.woven;
    bounded = i.bounded;
    unfailed = i.unfailed;
  })
  Step-Inv {s} {live} hang_up i = rw append-nil (record {
    sound = i.sound;
    member = i.member;
    woven = i.woven;
    bounded = i.bounded;
    unfailed = i.unfailed;
  })
  Step-Inv {s} {live} (write_frame m rest r e) i = rw append-nil (record {
    sound = receive_client-IsSound id s.busy.hub.clients i.sound;
    member = has_client-receive id id s.busy.hub.clients ∙ i.member;
    woven =
        rw
          (
            i.unfailed r,
            r,
            channel-receive id s.busy.hub.clients,
            e,
            append_assoc s.written (m ∷ []) rest,
          )
          (rw e at (at_work id s r i));
    bounded = rw r (
        channel-bounded id (receive id s.busy.hub).clients
          (receive_client-IsSound id s.busy.hub.clients i.sound));
    unfailed = i.unfailed;
  })
  Step-Inv {s} {live} (write_error m rest r e) i = rw append-nil (
      leave-Inv id
        (record s { busy = record s.busy { hub = receive id s.busy.hub }; failed = m ∷ [] })
        (receive_client-IsSound id s.busy.hub.clients i.sound)
        (rw (channel-receive id s.busy.hub.clients, e) (rw e at (at_work id s r i))))
  Step-Inv {s} {live} (ping_error r) i =
      rw append-nil (leave-Inv id s i.sound (rw (i.unfailed r) (at_work id s r i)))
  Step-Inv {s} {live} (return_done r d) i =
      rw append-nil (leave-Inv id s i.sound (rw (i.unfailed r) (at_work id s r i)))

  connect-Inv :
      (b : Busy)
      → IsSound b.hub.clients
      → has_client id b.hub.clients ≡ false
      → Inv id [] (connect id b)
  unfolding connect register
  connect-Inv b s f = record {
    sound = insert_client-IsSound (new_client id) b.hub.clients (omega arith) s;
    member = has_client-insert id (new_client id) b.hub.clients ∙ ground arith;
    woven = rw (channel-insert_new id b.hub.clients f) nothing;
    bounded = rw (channel-insert_new id b.hub.clients f) (omega arith);
    unfailed = λ e. refl;
  }

  Reach-Inv :
      {b : Busy} {live : List Bytes} {s : Session}
      → IsSound b.hub.clients
      → has_client id b.hub.clients ≡ false
      → Reach marshal id b live s
      → Inv id live s
  Reach-Inv {b} d f connected = connect-Inv b d f
  Reach-Inv d f (later r st) = Step-Inv st (Reach-Inv d f r)

  -- Let a client connect that is not in the set, whose clients are distinct with channels that are
  -- not over-full. However the goroutines of the connection, the critical sections and offers of
  -- sends and the other clients interleave: the frames written to the browser, then the one whose
  -- write failed, if one has, and then those that are in the channel, are the frames that the replay
  -- has put there woven with the live frames that sends have put there, each of the two in its order.
  -- The client is registered until wsHandler returns, and no longer, and its channel never holds more
  -- than 1024 frames.
  pub Reach-Interleaves :
      {b : Busy} {live : List Bytes} {s : Session}
      → IsSound b.hub.clients
      → has_client id b.hub.clients ≡ false
      → Reach marshal id b live s
      → Interleaves (replayed s.replay) live (s.written ++ (s.failed ++ queue id s))
        × (has_client id s.busy.hub.clients ≡ not s.returned)
        × (length (queue id s) ≤ 1024)
  Reach-Interleaves {b} {live} {s} d f r = let i = Reach-Inv d f r in (i.woven, i.member, i.bounded)
