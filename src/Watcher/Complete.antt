-- ===== src/Watcher/Complete.antt =====
-- internal/ui/server.go, runFSEventsWatcher: the directories that are refreshed.
use mathlib.Core.List.{Memᴰ}
use agentflash.Common.{ℕ, ◌-◌, ◌≤◌, true, false, List, ◌≡◌, codes, ltb}
use agentflash.Hub.{Call, send_call}
use agentflash.TreeWatch.{WatchEvent}
use agentflash.Watcher.{key_of, dedupe_window, fsevent, parent_dir}
use agentflash.Watcher.Coalesce.{Timed}

-- The call that refreshes the directory of `e`, made at time `s`.
abbrev pub refresh : ℕ → WatchEvent → Call
refresh s e = send_call (fsevent s (codes "dirchange") (parent_dir e.path)) false

record Covers (t : ℕ) (e : WatchEvent) (passed : List Timed) : Type 0 where
  at : ℕ
  by : WatchEvent
  same : key_of e ≡ key_of by
  before : at ≤ t
  near : ltb (t - at) dedupe_window ≡ true
  member : Memᴰ (at, by) passed
