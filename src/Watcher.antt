-- ===== src/Watcher.antt =====
-- internal/ui/server.go, runFSEventsWatcher: directory changes become events of the hub, with
-- repeated ones left out. What it asks of the hub is the list of calls. Times are nanoseconds of
-- the monotonic clock; a time that lies in the future is 0 away, and stays within the window as in
-- the code.
pub mod Dedupe
pub mod Coalesce
pub mod Complete
pub mod Parent
mod Tests
use agentflash.Common.{
  ℕ, zero, suc, ◌+◌, ◌-◌, ◌*◌, Bool, true, false, ◌&&◌, Option, none, some, List, [], ◌∷◌, ◌++◌,
  Bytes, codes, ltb, ◌==◌, if◌then◌else◌, eq_bytes, length, take,
}
use agentflash.Common.Int.{pos}
use agentflash.Event.{Event}
use agentflash.GoPath.{slash}
use agentflash.Hub.{Call, send_call}
use agentflash.TreeWatch.{EventKind, create, write, remove, rename, WatchEvent}

-- Package time's Millisecond and Second.
abbrev pub milliseconds : ℕ → ℕ
milliseconds n = n * 1000000

abbrev pub dedupe_window : ℕ
dedupe_window = milliseconds 200

abbrev pub prune_above : ℕ
prune_above = 1024

abbrev pub prune_age : ℕ
prune_age = milliseconds 5000

pub record DedupeKey : Type 0 where
  pub path : Bytes
  pub kind : EventKind

abbrev pub eq_kind : EventKind → EventKind → Bool
eq_kind create create = true
eq_kind write write = true
eq_kind remove remove = true
eq_kind rename rename = true
eq_kind _ _ = false

abbrev pub eq_key : DedupeKey → DedupeKey → Bool
eq_key a b = eq_bytes a.path b.path && eq_kind a.kind b.kind

-- `map[dedupeKey]lastSeen`
abbrev pub Recent : Type 0
Recent = List (DedupeKey × ℕ)

pub last_seen : DedupeKey → Recent → Option ℕ
last_seen k [] = none
last_seen k ((j, t) ∷ r) = if eq_key k j then some t else last_seen k r

-- `recent[key] = lastSeen{ts: now}`
pub see : DedupeKey → ℕ → Recent → Recent
see k now [] = (k, now) ∷ []
see k now ((j, t) ∷ r) = if eq_key k j then (j, now) ∷ r else (j, t) ∷ see k now r

pub is_repeated : DedupeKey → ℕ → Recent → Bool
is_repeated k now recent = elim (last_seen k recent) [
  | none ↦ false
  | some t ↦ ltb (now - t) dedupe_window
]

-- The loop that deletes old entries.
pub delete_old : ℕ → Recent → Recent
delete_old now [] = []
delete_old now ((k, t) ∷ r) =
    if ltb prune_age (now - t) then delete_old now r else (k, t) ∷ delete_old now r

pub prune : ℕ → Recent → Recent
prune now recent = if ltb prune_above (length recent) then delete_old now recent else recent

-- The index of the last slash; `none` is -1.
pub last_slash : Bytes → Option ℕ
last_slash [] = none
last_slash (c ∷ cs) = elim (last_slash cs) [
  | some i ↦ some (suc i)
  | none ↦ if c == slash then some 0 else none
]

pub parent_dir : Bytes → Bytes
parent_dir p = elim (last_slash p) [ none ↦ p | some zero ↦ p | some (suc i) ↦ take (suc i) p ]

pub timeline_op : EventKind → Option Bytes
timeline_op create = some (codes "write")
timeline_op write = some (codes "write")
timeline_op rename = some (codes "write")
timeline_op remove = none

abbrev pub fsevent : ℕ → Bytes → Bytes → Event
fsevent now op path = record {
  ts = now;
  op = op;
  path = path;
  process = codes "fsevents";
  pid = pos 0;
  claude = none;
}

-- What an event that is not repeated makes the hub send.
pub calls_of : ℕ → WatchEvent → List Call
calls_of now ev =
    send_call (fsevent now (codes "dirchange") (parent_dir ev.path)) false
    ∷ elim (timeline_op ev.kind) [
      | none ↦ []
      | some op ↦ send_call (fsevent now op ev.path) true ∷ []
    ]

abbrev pub key_of : WatchEvent → DedupeKey
key_of ev = record { path = ev.path; kind = ev.kind }

-- One round of the loop, at time `now`.
pub watch_event : ℕ → WatchEvent → Recent → Recent × List Call
watch_event now ev recent =
    if is_repeated (key_of ev) now recent
    then (recent, [])
    else (prune now (see (key_of ev) now recent), calls_of now ev)

pub watch : List (ℕ × WatchEvent) → Recent → List Call
watch [] recent = []
watch ((now, ev) ∷ evs) recent =
    let (recent', calls) = watch_event now ev recent in calls ++ watch evs recent'
