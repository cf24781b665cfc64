-- ===== src/Watcher/Tests.antt =====
-- A run of the watcher, and its theorems at it.
use agentflash.Common.{List, [], ◌∷◌, ◌≡◌, refl, arith, codes, eq_bytes}
use agentflash.GoPath.Clean.{path_of}
use agentflash.TreeWatch.{WatchEvent, EventKind, create, write, remove}
use agentflash.Watcher.{
  watch, watch_event, is_repeated, last_seen, see, prune, last_slash, parent_dir, milliseconds,
}
use agentflash.Watcher.Coalesce.{Timed, Monotone, coalesce, calls_of_all, watch-coalesce}
use agentflash.Watcher.Parent.{parent_dir-path_of}

abbrev event : EventKind → WatchEvent
event k = record { kind = k; path = codes "/w/f" }

-- Created, written, written again within the window, removed, and written after it.
abbrev reports : List Timed
reports =
    (milliseconds 1, event create)
    ∷ (milliseconds 2, event write)
    ∷ (milliseconds 150, event write)
    ∷ (milliseconds 160, event remove)
    ∷ (milliseconds 202, event write)
    ∷ []

abbrev passed : List Timed
passed =
    (milliseconds 1, event create)
    ∷ (milliseconds 2, event write)
    ∷ (milliseconds 160, event remove)
    ∷ (milliseconds 202, event write)
    ∷ []

reports-coalesce : coalesce reports [] ≡ passed
unfolding eq_bytes
reports-coalesce = refl

reports-watch : watch reports [] ≡ calls_of_all passed
unfolding watch watch_event is_repeated last_seen see prune eq_bytes
reports-watch = refl

in_order : Monotone 0 reports
in_order = (omega arith, (omega arith, (omega arith, (omega arith, (omega arith, tt)))))

watch-coalesce_example : watch reports [] ≡ calls_of_all (coalesce reports [])
watch-coalesce_example = watch-coalesce reports in_order

parent_dir-path_of_example :
    (parent_dir (path_of (codes "w" ∷ codes "f" ∷ [])) ≡ path_of (codes "w" ∷ []))
    × (parent_dir (path_of (codes "f" ∷ [])) ≡ path_of (codes "f" ∷ []))
parent_dir-path_of_example = parent_dir-path_of (codes "w") [] (codes "f") (refl, tt)

parents : (parent_dir (codes "/w/f") ≡ codes "/w") × (parent_dir (codes "/f") ≡ codes "/f")
unfolding parent_dir last_slash
parents = (refl, refl)
