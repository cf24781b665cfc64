-- ===== src/Tap/Comm.antt =====
-- The cache of process names in internal/tap/proc_linux.go.
use agentflash.Common.{
  suc, ◌+◌, ◌≤◌, Option, none, some, List, ◌++◌, Bool-cases, [], ◌∷◌, ◌≡◌, refl, arith, inl, inr,
  Bytes, ltb, if◌then◌else◌, Option-cases, length,
}
use agentflash.Common.Int.{ℤ, eq_ℤ, eq_ℤ_iff}
use agentflash.Fanotify.{FanotifyEvent, ParseResult, parsed, failed, parse_fanotify_events}
use agentflash.Tap.{
  Cache, lookup, insert, trim_newlines, max_cache, comm_name, World, Filter, ReadResult, bytes,
  interrupted, read_error, Tap, Outcome, ongoing, stopped, and_then, initial, next_tick, has_name,
  path_in, clean_path, has_pid, path_for_fd, write_event, by_name, by_path, handle_event,
  handle_events, handle_read, run_loop,
}

lookup-insert :
    (k j : ℤ) (v : Bytes) (m : Cache)
    → lookup j (insert k v m) ≡ (if eq_ℤ k j then some v else lookup j m)
unfolding lookup insert
lookup-insert k j v [] = refl
lookup-insert k j v ((i, w) ∷ m) =
    ground (arith, eq_ℤ_iff k j, eq_ℤ_iff i k, eq_ℤ_iff i j, lookup-insert k j v m)

length-insert : (k : ℤ) (v : Bytes) (m : Cache) → length (insert k v m) ≤ suc (length m)
unfolding insert
length-insert k v [] = omega arith
length-insert k v ((i, w) ∷ m) = ground (arith, length-insert k v m)

comm_name-bounded :
    (read : ℤ → Option Bytes) (pid : ℤ) (cache : Cache)
    → length cache ≤ max_cache + 1
    → length (comm_name read pid cache).1 ≤ max_cache + 1
unfolding comm_name
comm_name-bounded read pid cache h = elim (Option-cases (lookup pid cache)) [
  | inr (name, hit) ↦ rw (hit, comm_name) h
  | inl miss ↦ elim (Option-cases (read pid)) [
    | inl gone ↦ rw (miss, comm_name, gone) h
    | inr (raw, got) ↦
        rw (miss, comm_name, got)
          (ground (
            arith,
            length-insert pid (trim_newlines raw) [],
            length-insert pid (trim_newlines raw) cache,
          ))
  ]
]

comm_name-hit :
    (read : ℤ → Option Bytes) (pid : ℤ) (cache : Cache) {name : Bytes}
    → lookup pid cache ≡ some name
    → comm_name read pid cache ≡ (name, cache)
unfolding comm_name
comm_name-hit read pid cache hit = rw (hit, comm_name)

comm_name-miss :
    (read : ℤ → Option Bytes) (pid : ℤ) (cache : Cache) {raw : Bytes}
    → lookup pid cache ≡ none
    → read pid ≡ some raw
    → let name = trim_newlines raw in
      comm_name read pid cache
      ≡ (name, insert pid name (if ltb max_cache (length cache) then [] else cache))
unfolding comm_name
comm_name-miss read pid cache miss got = rw (miss, comm_name, got)

-- A name is read once: whatever the files say later, the next lookup of the same pid gives the name
-- that the first one found, and changes nothing.
pub comm_name_stable :
    (read later : ℤ → Option Bytes) (pid : ℤ) (cache : Cache) (raw : Bytes)
    → read pid ≡ some raw
    → comm_name later pid (comm_name read pid cache).1 ≡ comm_name read pid cache
comm_name_stable read later pid cache raw got = elim (Option-cases (lookup pid cache)) [
  | inr (name, hit) ↦ rw (comm_name-hit read pid cache hit) (comm_name-hit later pid cache hit)
  | inl miss ↦
      let m = if ltb max_cache (length cache) then [] else cache in
      rw (comm_name-miss read pid cache miss got) (
        comm_name-hit later pid (insert pid (trim_newlines raw) m)
          (rw (lookup-insert pid pid (trim_newlines raw) m, (eq_ℤ_iff pid pid).1 refl)))
]

-- The cache of a state of the loop, which may be the last one.
abbrev pub cache_of : Outcome → Cache
cache_of (ongoing t) = t.cache
cache_of (stopped t) = t.cache

abbrev Bounded : Cache → Type 0
Bounded c = length c ≤ 4097

abbrev BoundedOutcome : Outcome → Type 0
BoundedOutcome o = Bounded (cache_of o)

and_then-Bounded :
    (o : Outcome) (k : Tap → Outcome)
    → BoundedOutcome o
    → ((t : Tap) → Bounded t.cache → BoundedOutcome (k t))
    → BoundedOutcome (and_then o k)
and_then-Bounded (ongoing t) k b f = f t b
and_then-Bounded (stopped t) k b f = b

next_tick-Bounded : (o : Outcome) → BoundedOutcome o → BoundedOutcome (next_tick o)
unfolding next_tick
next_tick-Bounded (ongoing t) b = b
next_tick-Bounded (stopped t) b = b

module _ (w : World) (f : Filter) where
  write_event-Bounded :
      (path pname : Bytes) (ev : FanotifyEvent) (t : Tap)
      → Bounded t.cache
      → BoundedOutcome (write_event w f path pname ev t)
  unfolding write_event
  write_event-Bounded path pname ev t b = elim (Bool-cases (w.write_ok t.tick)) [
    | inl ok ↦ rw ok b
    | inr bad ↦ rw bad b
  ]

  by_name-Bounded :
      (path : Bytes) (ev : FanotifyEvent) (t : Tap)
      → Bounded t.cache
      → BoundedOutcome (by_name w f path ev t)
  unfolding by_name
  by_name-Bounded path ev t b =
      let (pname, cache) = comm_name (w.read_comm t.tick) ev.pid t.cache in
      let c = comm_name-bounded (w.read_comm t.tick) ev.pid t.cache b in
      elim (Bool-cases (has_name (comm_name (w.read_comm t.tick) ev.pid t.cache).0 f.names)) [
        | inl out ↦ rw out c
        | inr kept ↦ rw kept (write_event-Bounded path _ ev _ c)
      ]

  by_path-Bounded :
      (path : Bytes) (ev : FanotifyEvent) (t : Tap)
      → Bounded t.cache
      → BoundedOutcome (by_path w f path ev t)
  unfolding by_path
  by_path-Bounded [] ev t b = b
  by_path-Bounded (c ∷ cs) ev t b =
      elim (Bool-cases (path_in (clean_path (c ∷ cs)) f.dir f.prefix)) [
        | inr outside ↦ rw outside b
        | inl inside ↦ elim (Bool-cases (has_pid ev.pid f.pids)) [
          | inl out ↦ rw (inside, out) b
          | inr kept ↦ rw (inside, kept) (by_name-Bounded (clean_path (c ∷ cs)) ev _ b)
        ]
      ]

  handle_events-Bounded :
      (evs : List FanotifyEvent) (t : Tap)
      → Bounded t.cache
      → BoundedOutcome (handle_events w f evs t)
  unfolding handle_events handle_event
  handle_events-Bounded [] t b = b
  handle_events-Bounded (ev ∷ evs) t b =
      and_then-Bounded (handle_event w f ev t) (handle_events w f evs)
        (next_tick-Bounded _ (by_path-Bounded (path_for_fd (w.readlink t.tick) ev.fd) ev _ b))
        (λ t' b'. handle_events-Bounded evs t' b')

  handle_read-Bounded :
      (input : Bytes) (t : Tap) → Bounded t.cache → BoundedOutcome (handle_read w f input t)
  unfolding handle_read
  handle_read-Bounded input t b = after (parse_fanotify_events (t.leftover ++ input))
    where
      after :
          (r : ParseResult)
          → BoundedOutcome (elim r [
            | failed evs n ↦ ongoing (record t { leftover = [] })
            | parsed evs rest ↦ handle_events w f evs (record t { leftover = rest })
          ])
      after (failed evs n) = b
      after (parsed evs rest) = handle_events-Bounded evs (record t { leftover = rest }) b

  run_loop-Bounded :
      (rs : List ReadResult) (t : Tap) → Bounded t.cache → BoundedOutcome (run_loop w f rs t)
  unfolding run_loop
  run_loop-Bounded [] t b = b
  run_loop-Bounded (interrupted ∷ rs) t b = run_loop-Bounded rs t b
  run_loop-Bounded (read_error ∷ rs) t b = b
  run_loop-Bounded (bytes i ∷ rs) t b =
      and_then-Bounded (handle_read w f i t) (run_loop w f rs) (handle_read-Bounded i t b)
        (λ t' b'. run_loop-Bounded rs t' b')

-- However long the tap runs, whatever it reads and whatever names the processes have, the cache of
-- process names holds at most 4097 of them.
pub run_loop-bounded :
    (w : World) (f : Filter) (raw : Option Bytes) (rs : List ReadResult)
    → length (cache_of (run_loop w f rs (initial raw))) ≤ 4097
run_loop-bounded w f raw rs = run_loop-Bounded w f rs (initial raw) (omega arith)
