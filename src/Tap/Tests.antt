-- ===== src/Tap/Tests.antt =====
-- The tap on a batch of events, and its theorems at concrete inputs.
use agentflash.Common.{
  ℕ, ◌≡◌, ◌↔◌, refl, List, [], ◌∷◌, ◌++◌, map, none, some, true, codes, Bytes, arith, inl, ◌≤◌,
  eq_bytes, has_prefix, replicate, take, drop, length, if◌then◌else◌,
}
use agentflash.Common.Int.{pos, negsuc, eq_ℤ}
use agentflash.GoPath.{split_at, join_elems, clean_elems, clean_elem, go_up, clean, unrooted}
use agentflash.GoPath.Clean.{All, IsName, path_of}
use agentflash.GoPath.Inside.{Under}
use agentflash.Fanotify.{parse_loop, event_len, decode, le_uint, parse_fanotify_events, parsed}
use agentflash.Fanotify.RoundTrip.{
  Metadata, AllFit, put_events, event_of, parse_fanotify_events-put_events,
}
use agentflash.Tap.{
  World, Filter, ongoing, bytes, interrupted, initial, make_filter, run_loop, handle_read,
  handle_events, comm_name, lookup, insert, trim_newlines, skip_newlines, path_in, clean_path,
  prefix_of, has_name, has_pid, op_from_mask, path_for_fd, handle_event, by_path, by_name,
  write_event, next_tick, exclude_processes,
}
use agentflash.Tap.Debug.{
  filtered_access, kept_access, log_filtered, log_kept, dump_access, raw_line, hex_loop,
}
use agentflash.Flags.{itoa, itoa_loop}
use agentflash.Tap.Comm.{cache_of, run_loop-bounded}
use agentflash.Tap.Admitted.{SoundOutcome, run_loop-Sound}
use agentflash.Tap.Reads.{Closes, handle_events-Closes, handle_read-drops}
use agentflash.Tap.Chunks.{settle, concat, run_loop-concat}
use agentflash.Tap.Watched.{path_in-iff_Under}

abbrev pub written : ℕ → ℕ → ℕ → Metadata
written mask fd pid = record {
  vers = 3;
  reserved = 0;
  metadata_len_low = 24;
  metadata_len_high = 0;
  mask = mask;
  fd = fd;
  pid = pid;
  extra = [];
}

-- Descriptor 3 is a file in the watch dir and 4 one outside it; process 200 is `cat`, 300 is `gvfsd`.
abbrev pub world : World
world = record {
  readlink = λ n fd.
      if eq_ℤ fd (pos 3)
      then some (codes "/w//a.txt")
      else if eq_ℤ fd (pos 4)
      then some (codes "/etc/x")
      else none;
  read_comm = λ n pid. if eq_ℤ pid (pos 200) then some (codes "cat\n") else some (codes "gvfsd\n");
  now = λ n. n;
  write_ok = λ n. true;
}

abbrev pub filter : Filter
filter = record {
  dir = codes "/w";
  prefix = codes "/w/";
  pids = pos 1 ∷ pos 50 ∷ [];
  names = codes "gvfsd" ∷ [];
  debug = true;
}

abbrev pub batch : List Metadata
batch =
    written 0x2 3 200
    ∷ written 0x20 4 200
    ∷ written 0x20 3 50
    ∷ written 0x1 3 300
    ∷ written 0x1 9 200
    ∷ written 0x20 3 200
    ∷ []

abbrev pub stream : Bytes
stream = put_events batch []

pub run_batch :
    run_loop world filter (bytes stream ∷ interrupted ∷ []) (initial none)
    ≡ ongoing (record {
      tick = 6;
      leftover = [];
      cache = (pos 200, codes "cat") ∷ (pos 300, codes "gvfsd") ∷ [];
      lines = 6;
      parsed_count = 5;
      kept = 2;
      dropped = 1;
      excluded = 2;
      closed = pos 3 ∷ pos 4 ∷ pos 3 ∷ pos 3 ∷ pos 9 ∷ pos 3 ∷ [];
      written =
          record {
            ts = 0;
            op = codes "write";
            path = codes "/w/a.txt";
            process = codes "cat";
            pid = pos 200;
            claude = none;
          }
          ∷ record {
            ts = 5;
            op = codes "read";
            path = codes "/w/a.txt";
            process = codes "cat";
            pid = pos 200;
            claude = none;
          }
          ∷ [];
      raw_dump = none;
      samples = record {
        parsed = 2;
        filtered = 1;
        logged =
            kept_access (codes "write") (codes "/w/a.txt") (codes "cat") (pos 200)
            ∷ filtered_access (codes "/etc/x") (pos 200)
            ∷ kept_access (codes "read") (codes "/w/a.txt") (codes "cat") (pos 200)
            ∷ [];
      };
    })
unfolding log_filtered log_kept dump_access run_loop handle_read handle_events handle_event by_path
    by_name write_event next_tick path_for_fd comm_name lookup insert trim_newlines skip_newlines
    path_in clean_path has_name has_pid op_from_mask parse_fanotify_events parse_loop event_len
    decode le_uint split_at join_elems clean_elems clean_elem go_up clean unrooted eq_bytes
    has_prefix
run_batch = refl

a_raw_line : raw_line 0x2b (pos 200) (negsuc 0) ≡ codes "mask=2b pid=200 fd=-1\n"
unfolding raw_line hex_loop itoa itoa_loop
a_raw_line = refl

batch-AllFit : AllFit batch
batch-AllFit = omega arith

filter_made :
    make_filter
      (record {
        watch_dir = codes "/w";
        exclude_pid = [];
        exclude_name = [];
        raw_dump_file = [];
        debug = true;
      })
      (codes "/w")
      50
      1
    ≡ record filter { pids = pos 50 ∷ []; names = exclude_processes ++ [] }
unfolding make_filter prefix_of has_prefix
filter_made = refl

run_loop-Sound_example :
    SoundOutcome filter
      (run_loop world filter (bytes stream ∷ interrupted ∷ []) (initial (some [])))
run_loop-Sound_example = run_loop-Sound world filter (some []) (bytes stream ∷ interrupted ∷ [])

abbrev pieces : List Bytes
pieces = take 30 stream ∷ [] ∷ drop 30 stream ∷ []

run_loop-concat_example :
    settle (run_loop world filter (map bytes pieces) (initial none))
    ≡ settle (handle_read world filter (concat pieces) (initial none))
run_loop-concat_example =
    run_loop-concat world filter pieces (initial none) (map event_of batch) [] (inl (omega arith))
      (parse_fanotify_events-put_events batch [] batch-AllFit (inl (omega arith)))

handle_events-Closes_example :
    Closes
      (map event_of batch)
      (initial (some []))
      (handle_events world filter (map event_of batch) (initial (some [])))
handle_events-Closes_example =
    handle_events-Closes world filter (map event_of batch) (initial (some []))

handle_read-drops_example :
    (parse_fanotify_events (put_events batch []) ≡ parsed (map event_of batch) [])
    × (handle_read world filter (put_events batch [] ++ replicate 24 0) (initial none)
        ≡ ongoing (initial none))
unfolding event_len le_uint
handle_read-drops_example =
    handle_read-drops world filter batch (replicate 24 0) (initial none) batch-AllFit refl
      (omega arith) (omega arith)

run_loop-bounded_example :
    length (cache_of (run_loop world filter (bytes (put_events batch []) ∷ []) (initial none)))
    ≤ 4097
run_loop-bounded_example = run_loop-bounded world filter none (bytes (put_events batch []) ∷ [])

w-IsName : All IsName (codes "w" ∷ [])
unfolding eq_bytes
w-IsName = (record { ne_nil = refl; ne_dot = refl; ne_dot_dot = refl; no_slash = (refl, tt) }, tt)

path_in-iff_Under_example :
    (ps : List Bytes) × (clean_path (codes "//w/./a.txt") ≡ path_of ps)
    × All IsName ps
    × ((path_in (clean_path (codes "//w/./a.txt")) (codes "/w") (prefix_of (codes "/w")) ≡ true)
        ↔ Under (codes "w" ∷ []) ps)
unfolding has_prefix join_elems
path_in-iff_Under_example = path_in-iff_Under (codes "w" ∷ []) (codes "//w/./a.txt") w-IsName refl
