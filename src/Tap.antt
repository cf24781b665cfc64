-- ===== src/Tap.antt =====
-- internal/tap on Linux: tap.go, tap_linux.go, proc_linux.go and exclude_linux.go.
-- The kernel and the clock are a `World`; its answers may differ from one event to the next, so they
-- take the number of events read so far. The writes to the raw dump are taken to succeed.
pub mod Debug
pub mod Comm
pub mod Admitted
pub mod Reads
pub mod Chunks
pub mod Watched
pub mod Setup
mod Stats
pub mod Tests
use Prim.Native.Nat.{bit_and}
use agentflash.Common.{
  ℕ, zero, suc, ◌+◌, ◌-◌, ◌%◌, ◌^◌, Bool, true, false, not, ◌&&◌, ◌||◌, Option, none, some, List,
  [], ◌∷◌, ◌++◌, map, reverse, Bytes, codes, ltb, ◌==◌, if◌then◌else◌, eq_bytes, has_prefix, length,
}
use agentflash.Common.Int.{ℤ, pos, eq_ℤ}
use agentflash.Event.{Event}
use agentflash.GoPath.{slash, dot, clean, abs}
use agentflash.Tap.Debug.{
  AccessSamples, no_samples, kept_access, log_filtered, log_kept, dump_access,
}
use agentflash.Fanotify.{FanotifyEvent, ParseResult, parsed, failed, parse_fanotify_events}

-- tap.go

-- `pathIn`
pub path_in : Bytes → Bytes → Bytes → Bool
path_in p dir prefix = eq_bytes p dir || has_prefix p prefix

-- `cleanPath`
pub clean_path : Bytes → Bytes
clean_path [] = []
clean_path (b ∷ bs) = let c = clean (b ∷ bs) in if eq_bytes c dot then [] else c

-- The prefix that `Run` derives from the watch dir.
pub prefix_of : Bytes → Bytes
prefix_of dir = if has_prefix (reverse dir) (slash ∷ []) then dir else dir ++ slash ∷ []

-- proc_linux.go

abbrev pub Cache : Type 0
Cache = List (ℤ × Bytes)

pub lookup : ℤ → Cache → Option Bytes
lookup k [] = none
lookup k ((j, v) ∷ m) = if eq_ℤ j k then some v else lookup k m

pub insert : ℤ → Bytes → Cache → Cache
insert k v [] = (k, v) ∷ []
insert k v ((j, w) ∷ m) = if eq_ℤ j k then (k, v) ∷ m else (j, w) ∷ insert k v m

skip_newlines : Bytes → Bytes
skip_newlines [] = []
skip_newlines (c ∷ cs) = if c == b'\n' then skip_newlines cs else c ∷ cs

-- `bytes.TrimRight(data, "\n")`
trim_newlines : Bytes → Bytes
trim_newlines raw = reverse (skip_newlines (reverse raw))

abbrev pub max_cache : ℕ
max_cache = 4096

-- `CommName`; `read` is `os.ReadFile` of `<root>/<pid>/comm`, `none` its error.
pub comm_name : (ℤ → Option Bytes) → ℤ → Cache → Bytes × Cache
comm_name read pid cache = elim (lookup pid cache) [
  | some name ↦ (name, cache)
  | none ↦ elim (read pid) [
    | none ↦ ([], cache)
    | some raw ↦
        let name = trim_newlines raw in
        (name, insert pid name (if ltb max_cache (length cache) then [] else cache))
  ]
]

-- exclude_linux.go
abbrev pub exclude_processes : List Bytes
exclude_processes =
    codes "systemd-journal"
    ∷ codes "tracker-miner-f"
    ∷ codes "tracker-extract"
    ∷ codes "updatedb"
    ∷ codes "updatedb.mlocat"
    ∷ codes "mlocate"
    ∷ codes "plocate"
    ∷ codes "baloo_file"
    ∷ codes "baloo_file_extr"
    ∷ codes "gvfsd"
    ∷ codes "gvfsd-trash"
    ∷ codes "gvfsd-metadata"
    ∷ codes "thumbnail"
    ∷ codes "thumbnailer"
    ∷ codes "snapd"
    ∷ codes "packagekitd"
    ∷ []

-- tap_linux.go

pub record Config : Type 0 where
  pub watch_dir : Bytes
  pub exclude_pid : List ℤ
  pub exclude_name : List Bytes
  pub raw_dump_file : Bytes
  pub debug : Bool

-- What `Run` makes of its configuration before its loop. `getpid` is the tap, `getppid` sudo.
pub record Filter : Type 0 where
  pub dir : Bytes
  pub prefix : Bytes
  pub pids : List ℤ
  pub names : List Bytes
  pub debug : Bool

unfoldable pub make_filter : Config → Bytes → ℕ → ℕ → Filter
make_filter cfg dir getpid getppid = record {
  dir = dir;
  prefix = prefix_of dir;
  pids = (if ltb 1 getppid then pos getppid ∷ [] else []) ++ pos getpid ∷ cfg.exclude_pid;
  names = exclude_processes ++ cfg.exclude_name;
  debug = cfg.debug;
}

unfoldable pub has_pid : ℤ → List ℤ → Bool
has_pid p [] = false
has_pid p (q ∷ qs) = eq_ℤ p q || has_pid p qs

unfoldable pub has_name : Bytes → List Bytes → Bool
has_name n [] = false
has_name n (m ∷ ms) = eq_bytes n m || has_name n ms

-- `unix.FAN_MODIFY|unix.FAN_CLOSE_WRITE`
abbrev pub write_mask : ℕ
write_mask = 0xa

pub op_from_mask : ℕ → Bytes
op_from_mask m = if not (bit_and m write_mask == 0) then codes "write" else codes "read"

pub record World : Type 0 where
  pub readlink : ℕ → ℤ → Option Bytes
  pub read_comm : ℕ → ℤ → Option Bytes
  pub now : ℕ → ℕ
  pub write_ok : ℕ → Bool

-- The variables of `Run`, with the fds closed and the events written so far, in order. `tick` is the
-- number of events taken so far.
pub record Tap : Type 0 where
  pub tick : ℕ
  pub leftover : Bytes
  pub cache : Cache
  pub lines : ℕ
  pub parsed_count : ℕ
  pub kept : ℕ
  pub dropped : ℕ
  pub excluded : ℕ
  pub closed : List ℤ
  pub written : List Event
  pub raw_dump : Option Bytes
  pub samples : AccessSamples

abbrev pub add_uint64 : ℕ → ℕ
add_uint64 n = (n + 1) % 2 ^ 64

-- `raw_dump` is the new file, `none` if there is none.
abbrev pub initial : Option Bytes → Tap
initial raw_dump = record {
  tick = 0;
  leftover = [];
  cache = [];
  lines = 0;
  parsed_count = 0;
  kept = 0;
  dropped = 0;
  excluded = 0;
  closed = [];
  written = [];
  raw_dump = raw_dump;
  samples = no_samples;
}

-- A round of a loop goes on, or returns from `Run` with an error.
pub data Outcome : Type 0 where
  ongoing : Tap → Outcome
  stopped : Tap → Outcome

-- To go on, unless `Run` has returned.
abbrev pub and_then : Outcome → (Tap → Outcome) → Outcome
and_then (ongoing t) k = k t
and_then (stopped t) k = stopped t

next_tick : Outcome → Outcome
next_tick (ongoing t) = ongoing (record t { tick = t.tick + 1 })
next_tick (stopped t) = stopped (record t { tick = t.tick + 1 })

-- `pathForFD`
pub path_for_fd : (ℤ → Option Bytes) → ℤ → Bytes
path_for_fd readlink fd = elim (readlink fd) [ none ↦ [] | some link ↦ link ]

module _ (w : World) (f : Filter) where
  -- The end of a round, from the write of the event on.
  pub write_event : Bytes → Bytes → FanotifyEvent → Tap → Outcome
  write_event path pname ev t =
      let out : Event = record {
        ts = w.now t.tick;
        op = op_from_mask ev.mask;
        path = path;
        process = pname;
        pid = ev.pid;
        claude = none;
      } in
      let sample = kept_access out.op path pname ev.pid in
      let t' = record t { kept = add_uint64 t.kept; samples = log_kept f.debug sample t.samples } in
      if w.write_ok t.tick
      then ongoing (record t' { written = t'.written ++ out ∷ [] })
      else stopped t'

  -- The tests on the name of the process.
  pub by_name : Bytes → FanotifyEvent → Tap → Outcome
  by_name path ev t =
      let (pname, cache) = comm_name (w.read_comm t.tick) ev.pid t.cache in
      let t' = record t { cache = cache } in
      if has_name pname f.names
      then ongoing (record t' { excluded = add_uint64 t'.excluded })
      else write_event path pname ev t'

  -- A round from the resolved path on.
  pub by_path : Bytes → FanotifyEvent → Tap → Outcome
  by_path [] ev t = ongoing t
  by_path (b ∷ bs) ev t =
      let path = clean_path (b ∷ bs) in
      let t' = record t { parsed_count = add_uint64 t.parsed_count } in
      if not (path_in path f.dir f.prefix)
      then ongoing (record t' {
        dropped = add_uint64 t'.dropped;
        samples = log_filtered f.debug path ev.pid t'.samples;
      })
      else if has_pid ev.pid f.pids
      then ongoing (record t' { excluded = add_uint64 t'.excluded })
      else by_name path ev t'

  -- One round of the loop over the events of a read. The tick moves on once the round has used it.
  pub handle_event : FanotifyEvent → Tap → Outcome
  handle_event ev t = next_tick (
      by_path (path_for_fd (w.readlink t.tick) ev.fd) ev (record t {
        lines = add_uint64 t.lines;
        raw_dump = dump_access ev.mask ev.pid ev.fd t.raw_dump;
        closed = t.closed ++ ev.fd ∷ [];
      }))

  pub handle_events : List FanotifyEvent → Tap → Outcome
  handle_events [] t = ongoing t
  handle_events (ev ∷ evs) t = and_then (handle_event ev t) (handle_events evs)

  -- What follows a read of `input`: the events of a read that fails to parse are dropped.
  pub handle_read : Bytes → Tap → Outcome
  handle_read input t = elim (parse_fanotify_events (t.leftover ++ input)) [
    | failed evs n ↦ ongoing (record t { leftover = [] })
    | parsed evs rest ↦ handle_events evs (record t { leftover = rest })
  ]

-- What `dev.Read` returns.
pub data ReadResult : Type 0 where
  bytes : Bytes → ReadResult
  interrupted : ReadResult
  read_error : ReadResult

-- The loop of `Run` over the reads that the kernel answers.
pub run_loop : World → Filter → List ReadResult → Tap → Outcome
run_loop w f [] t = ongoing t
run_loop w f (interrupted ∷ rs) t = run_loop w f rs t
run_loop w f (read_error ∷ rs) t = stopped t
run_loop w f (bytes b ∷ rs) t = and_then (handle_read w f b t) (run_loop w f rs)
