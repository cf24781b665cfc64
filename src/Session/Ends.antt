-- ===== src/Session/Ends.antt =====
-- internal/ui/server.go, wsHandler: the end of a connection and of its goroutines.
use mathlib.Core.Path.{subst}
use agentflash.Common.{
  ℕ, true, false, not, Option, List, [], ◌++◌, ◌≡◌, refl, ap, ◌∙◌, inl, inr, Bytes, append-nil,
  Bool-cases,
}
use agentflash.Event.{Event}
use agentflash.Hub.{snapshot}
use agentflash.Hub.Clients.{has_client, IsSound}
use agentflash.Hub.Overlap.{Busy}
use agentflash.Session.{
  Session, Replay, waiting, replaying, frames, leave, Step, foreign, offer_room, offer_full,
  take_snapshot, replay_frame, give_up, hang_up, write_frame, write_error, ping_error, return_done,
  Reach, later,
}
use agentflash.Session.Woven.{Reach-Interleaves}

-- The replay goroutine has returned.
abbrev pub IsOver : Replay → Type 0
IsOver waiting = ⊥
IsOver (replaying seen sent left) = left ≡ []

module _ (marshal : Event → Option Bytes) (id : ℕ) where
  -- A move that the goroutines of the connection can make whether or not the browser or anyone else
  -- ever does anything again: nothing is written, no ping fails, and nothing is put in the channel.
  abbrev pub IsOwn : {s t : Session} {more : List Bytes} → Step marshal id s more t → Type 0
  IsOwn (foreign b st f) = ⊥
  IsOwn (offer_room before after m first rest e room) = ⊥
  IsOwn (offer_full before after m first rest e full) = ⊥
  IsOwn (take_snapshot w) = Unit
  IsOwn (replay_frame m seen sent left e room) = ⊥
  IsOwn (give_up seen sent left e d) = Unit
  IsOwn hang_up = ⊥
  IsOwn (write_frame m rest r e) = ⊥
  IsOwn (write_error m rest r e) = ⊥
  IsOwn (ping_error r) = ⊥
  IsOwn (return_done r d) = Unit

  pub data Moves (s : Session) : Session → Type 0 where
    none_left : Moves s s
    move :
        {t u : Session} {more : List Bytes}
        → Moves s t
        → (st : Step marshal id t more u) → IsOwn st
        → Moves s u

  IsOwn-quiet :
      {s t : Session} {more : List Bytes} (st : Step marshal id s more t) → IsOwn st → more ≡ []
  IsOwn-quiet (foreign b st f) o = absurd o
  IsOwn-quiet (offer_room before after m first rest e room) o = absurd o
  IsOwn-quiet (offer_full before after m first rest e full) o = absurd o
  IsOwn-quiet (take_snapshot w) o = refl
  IsOwn-quiet (replay_frame m seen sent left e room) o = absurd o
  IsOwn-quiet (give_up seen sent left e d) o = refl
  IsOwn-quiet hang_up o = absurd o
  IsOwn-quiet (write_frame m rest r e) o = absurd o
  IsOwn-quiet (write_error m rest r e) o = absurd o
  IsOwn-quiet (ping_error r) o = absurd o
  IsOwn-quiet (return_done r d) o = refl

  Reach-Moves :
      {b : Busy} {live : List Bytes} {s t : Session}
      → Reach marshal id b live s
      → Moves s t
      → Reach marshal id b live t
  Reach-Moves r none_left = r
  Reach-Moves {b} {live} {s} {t} r (move ms st o) =
      subst (λ x. Reach marshal id b x t) (ap (λ x. live ++ x) (IsOwn-quiet st o) ∙ append-nil live)
        (later (Reach-Moves r ms) st)

  -- The replay goroutine of an ended connection can return.
  end_replay :
      (s : Session) (r : Replay)
      → s.replay ≡ r
      → s.done ≡ true
      → (seen : List Event) × (sent : List Bytes) × Moves s
          (record s { replay = replaying seen sent [] })
  end_replay s waiting e d =
      let seen = s.busy.history in
      (
        seen,
        [],
        move (move none_left (take_snapshot e) tt)
            (give_up seen [] (frames marshal (snapshot s.busy.hub)) refl d) tt,
      )
  end_replay s (replaying seen sent left) e d =
      (seen, sent, move none_left (give_up seen sent left e d) tt)

  -- Let the client not have been in the set, whose clients are distinct with channels that are not
  -- over-full. Once the reader has met the end of the connection, whatever the other goroutines were
  -- at, the replay goroutine and wsHandler can both return by moves of their own that write nothing,
  -- wait for no room in the channel and need no ping to fail; the client is then no longer
  -- registered.
  pub Reach-ends :
      {b : Busy} {live : List Bytes} {s : Session}
      → IsSound b.hub.clients
      → has_client id b.hub.clients ≡ false
      → Reach marshal id b live s
      → s.done ≡ true
      → (t : Session) × Moves s t
        × IsOver t.replay
        × (t.returned ≡ true)
        × (t.written ≡ s.written)
        × (has_client id t.busy.hub.clients ≡ false)
  unfolding leave
  Reach-ends {b} {live} {s} c f r d =
      let (seen, sent, moves) = end_replay s s.replay refl d in
      elim (Bool-cases s.returned) [
        | inl gone ↦
            let m = (Reach-Interleaves marshal id c f r).1 in
            (record s { replay = replaying seen sent [] }, moves, refl, gone, refl, m ∙ ap not gone)
        | inr there ↦
            let all = move moves (return_done there d) tt in
            let m = (Reach-Interleaves marshal id c f (Reach-Moves r all)).1 in
            (leave id (record s { replay = replaying seen sent [] }), all, refl, refl, refl, m)
      ]
