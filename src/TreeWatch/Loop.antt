-- ===== src/TreeWatch/Loop.antt =====
-- internal/treewatch/treewatch.go: New, loop and Close. The loop, its two channels and the two
-- channels that stop it are a state; what the package notify, the loop, the reader of Events and the
-- caller of Close do are its steps, which interleave in any order.
pub mod Faithful
use agentflash.Common.{
  ℕ, ◌<◌, Bool, true, false, Option, none, some, List, [], ◌∷◌, ◌++◌, ◌≡◌, Bytes, codes, length,
  if◌then◌else◌,
}
use agentflash.TreeWatch.{EventInfo, WatchEvent, forward}

-- The capacity of the channel that notify sends to.
abbrev pub in_capacity : ℕ
in_capacity = 256

-- `c` and `out` are the events that wait in the channels. `notifying` is on between notify.Watch and
-- notify.Stop, `out_closed`, `stop` and `closed` tell that these channels are closed. `reported` is
-- what notify has sent to `c` so far, and `received` what the reader has got.
pub record Watch : Type 0 where
  pub c : List EventInfo
  pub out : List WatchEvent
  pub notifying : Bool
  pub out_closed : Bool
  pub stop : Bool
  pub closed : Bool
  pub reported : List EventInfo
  pub received : List WatchEvent

abbrev pub begun : Watch
begun = record {
  c = [];
  out = [];
  notifying = true;
  out_closed = false;
  stop = false;
  closed = false;
  reported = [];
  received = [];
}

-- `New`; `watch` tells whether notify.Watch accepts a pattern, here that of a recursive watch.
unfoldable pub new_watch : (Bytes → Bool) → Bytes → Option Watch
new_watch watch root = if watch (root ++ codes "/...") then some begun else none

module _ (normalize_path : Bytes → Bytes) where
  pub data Step (w : Watch) : Watch → Type 0 where
    -- notify sends an event; it does not wait for room.
    report :
        (e : EventInfo)
        → w.notifying ≡ true
        → length w.c < in_capacity
        → Step w (record w { c = w.c ++ e ∷ []; reported = w.reported ++ e ∷ [] })
    -- The loop takes an event.
    take_event :
        (e : EventInfo) (rest : List EventInfo)
        → w.closed ≡ false
        → w.c ≡ e ∷ rest
        → Step w (record w { c = rest; out = forward normalize_path e w.out })
    -- The loop sees that it is to stop.
    see_stop :
        w.closed ≡ false
        → w.stop ≡ true
        → Step w (record w { notifying = false; out_closed = true; closed = true })
    -- The reader gets an event, also one that was left when the channel was closed.
    receive_event :
        (ev : WatchEvent) (rest : List WatchEvent)
        → w.out ≡ ev ∷ rest
        → Step w (record w { out = rest; received = w.received ++ ev ∷ [] })
    -- The first half of `Close`, which must be called once.
    close_stop : w.stop ≡ false → Step w (record w { stop = true })

  pub data Reach (w0 : Watch) : Watch → Type 0 where
    here : Reach w0 w0
    later : {w v : Watch} → Reach w0 w → Step w v → Reach w0 v
