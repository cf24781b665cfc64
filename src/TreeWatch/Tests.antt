-- ===== src/TreeWatch/Tests.antt =====
-- Events of the tree watcher, and its theorems at concrete inputs.
use agentflash.Common.{
  List, arith, [], ◌∷◌, ◌++◌, ◌≡◌, refl, true, false, codes, Bytes, has_prefix, eq_bytes,
}
use agentflash.GoPath.Clean.{path_of}
use agentflash.GoPath.Plain.{are_names-IsName}
use agentflash.TreeWatch.{EventInfo, create, classify, forward, normalize_path_darwin}
use agentflash.TreeWatch.Loop.{
  Watch, begun, new_watch, report, take_event, see_stop, receive_event, close_stop, Reach, here,
  later,
}
use agentflash.TreeWatch.Loop.Faithful.{event_of, Accounts, Bounded, Closes, Reach-state}
use agentflash.TreeWatch.Firmlink.{data_volume, normalize_path_darwin-path_of}

-- The bits Create and Remove set at once, as FSEvents reports a file that came and went.
abbrev came_and_went : EventInfo
came_and_went = record {
  raw_path = codes "/System/Volumes/Data/w/f";
  has_create = true;
  has_remove = true;
  has_rename = false;
}

forwarded :
    forward normalize_path_darwin came_and_went []
    ≡ record { kind = create; path = codes "/w/f" } ∷ []
unfolding forward classify normalize_path_darwin has_prefix
forwarded = refl

abbrev watched : List Bytes
watched = codes "w" ∷ codes "f" ∷ []

normalize_path_darwin-path_of_example :
    (normalize_path_darwin (path_of (data_volume ++ watched)) ≡ path_of watched)
    × (normalize_path_darwin (path_of watched) ≡ path_of watched)
unfolding eq_bytes
normalize_path_darwin-path_of_example =
    normalize_path_darwin-path_of watched watched (λ x. cc) (are_names-IsName watched refl)
      (λ (ss, e, _). different ss e)
  where
    different : (ss : List Bytes) → watched ≡ data_volume ++ ss → ⊥
    different ss e = cc

-- An event is reported, taken and received, and the watcher is closed.
abbrev ended : Watch
ended = record begun {
  reported = came_and_went ∷ [];
  received = event_of normalize_path_darwin came_and_went ∷ [];
  stop = true;
  notifying = false;
  out_closed = true;
  closed = true;
}

r_taken : Reach normalize_path_darwin begun (record begun {
  reported = came_and_went ∷ [];
  out = event_of normalize_path_darwin came_and_went ∷ [];
})
unfolding forward
r_taken =
    later (later here (report came_and_went refl (omega arith)))
      (take_event came_and_went [] refl refl)

r_ended : Reach normalize_path_darwin begun ended
r_ended =
    later
      (later (later r_taken (receive_event (event_of normalize_path_darwin came_and_went) [] refl))
        (close_stop refl))
      (see_stop refl refl)

Reach-state_example : Accounts normalize_path_darwin ended × Bounded ended × Closes ended
unfolding new_watch
Reach-state_example = Reach-state normalize_path_darwin (λ pattern. true) (codes "/w") refl r_ended
