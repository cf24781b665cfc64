-- ===== src/TreeWatch.antt =====
-- internal/treewatch: the watcher of directory changes under the root. The package notify is
-- third-party: of an event of it, the model has its path and which of the bits Create, Remove
-- and Rename are set in it.
pub mod Firmlink
pub mod Loop
mod Tests
use agentflash.Common.{
  ℕ, Bool, true, false, List, [], ◌∷◌, ◌++◌, Bytes, codes, ltb, if◌then◌else◌, has_prefix, length,
  drop,
}

pub data EventKind : Type 0 where
  create write remove rename : EventKind

pub record WatchEvent : Type 0 where
  pub kind : EventKind
  pub path : Bytes

-- `notify.EventInfo`
pub record EventInfo : Type 0 where
  pub raw_path : Bytes
  pub has_create : Bool
  pub has_remove : Bool
  pub has_rename : Bool

pub classify : EventInfo → EventKind
classify e =
    if e.has_create
    then create
    else if e.has_remove
    then remove
    else if e.has_rename
    then rename
    else write

abbrev pub mac_data_volume : Bytes
mac_data_volume = codes "/System/Volumes/Data"

-- `normalizePath` on macOS, and on Linux.
pub normalize_path_darwin : Bytes → Bytes
normalize_path_darwin p =
    if has_prefix p (mac_data_volume ++ codes "/") then drop (length mac_data_volume) p else p

pub normalize_path_linux : Bytes → Bytes
normalize_path_linux p = p

abbrev pub out_capacity : ℕ
out_capacity = 256

-- One round of `loop`, on the events that wait in the channel `out`.
pub forward : (Bytes → Bytes) → EventInfo → List WatchEvent → List WatchEvent
forward normalize_path e out =
    let ev : WatchEvent = record { kind = classify e; path = normalize_path e.raw_path } in
    if ltb (length out) out_capacity then out ++ ev ∷ [] else out
