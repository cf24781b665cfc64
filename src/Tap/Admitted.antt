-- ===== src/Tap/Admitted.antt =====
-- What the tap lets through, and its counters and descriptors.
use agentflash.Common.{
  ℕ, ◌+◌, ◌%◌, ◌^◌, true, false, Option, none, List, [], ◌∷◌, ◌++◌, ◌≡◌, ◌⊎◌, refl, arith, inl, inr,
  Bytes, Bool-cases, length, length-append,
}
use agentflash.Event.{Event}
use agentflash.Common.Int.{ℤ}
use agentflash.Tap.Debug.{
  FewLogged, kept_access, log_filtered, no_samples-FewLogged, log_filtered-FewLogged,
  log_kept-FewLogged,
}
use agentflash.Fanotify.{FanotifyEvent, ParseResult, parsed, failed, parse_fanotify_events}
use agentflash.GoPath.Clean.{All, All-append}
use agentflash.Tap.{
  and_then, ReadResult, bytes, interrupted, read_error, handle_read, run_loop, Cache, Tap, World,
  Filter, Outcome, ongoing, stopped, path_in, clean_path, has_pid, has_name, comm_name,
  op_from_mask, add_uint64, write_event, by_name, by_path, handle_event, handle_events, next_tick,
  initial,
}

-- An event that the filter lets through.
pub record Admitted (f : Filter) (e : Event) : Type 0 where
  pub inside : path_in e.path f.dir f.prefix ≡ true
  pub other_pid : has_pid e.pid f.pids ≡ false
  pub other_name : has_name e.process f.names ≡ false

-- What the loop keeps: all that is written is admitted, and the counters add up modulo 2^64.
pub record Sound (f : Filter) (failed_writes : ℕ) (t : Tap) : Type 0 where
  pub admitted : All (Admitted f) t.written
  pub balance : t.parsed_count ≡ (t.kept + t.dropped + t.excluded) % 2 ^ 64
  pub kept_count : t.kept ≡ (length t.written + failed_writes) % 2 ^ 64
  pub line_count : t.lines ≡ length t.closed % 2 ^ 64
  pub few : FewLogged f.debug t.samples

abbrev pub SoundOutcome : Filter → Outcome → Type 0
SoundOutcome f (ongoing t) = Sound f 0 t
SoundOutcome f (stopped t) = Sound f 0 t ⊎ Sound f 1 t

-- The same in a round that has counted its event as parsed, and not yet as kept, dropped or
-- excluded.
record Pending (f : Filter) (t : Tap) : Type 0 where
  admitted : All (Admitted f) t.written
  balance : t.parsed_count ≡ (t.kept + t.dropped + t.excluded + 1) % 2 ^ 64
  kept_count : t.kept ≡ length t.written % 2 ^ 64
  line_count : t.lines ≡ length t.closed % 2 ^ 64
  few : FewLogged f.debug t.samples

excluded-Sound :
    {f : Filter} {t : Tap} → Pending f t → Sound f 0 (record t { excluded = add_uint64 t.excluded })
excluded-Sound s = record {
  admitted = s.admitted;
  balance = omega arith;
  kept_count = omega arith;
  line_count = s.line_count;
  few = s.few;
}

dropped-Sound :
    {f : Filter} {t : Tap} (path : Bytes) (pid : ℤ)
    → Pending f t
    → Sound f 0 (record t {
      dropped = add_uint64 t.dropped;
      samples = log_filtered f.debug path pid t.samples;
    })
dropped-Sound path pid s = record {
  admitted = s.admitted;
  balance = omega arith;
  kept_count = omega arith;
  line_count = s.line_count;
  few = log_filtered-FewLogged _ _ s.few path pid;
}

parsed-Pending :
    {f : Filter} {t : Tap}
    → Sound f 0 t
    → Pending f (record t { parsed_count = add_uint64 t.parsed_count })
parsed-Pending s = record {
  admitted = s.admitted;
  balance = omega arith;
  kept_count = omega arith;
  line_count = s.line_count;
  few = s.few;
}

module _ (w : World) (f : Filter) where
  write_event-Sound :
      (path pname : Bytes) (ev : FanotifyEvent) (t : Tap)
      → Pending f t
      → path_in path f.dir f.prefix ≡ true
      → has_pid ev.pid f.pids ≡ false
      → has_name pname f.names ≡ false
      → SoundOutcome f (write_event w f path pname ev t)
  unfolding write_event
  write_event-Sound path pname ev t s i p n = elim (Bool-cases (w.write_ok t.tick)) [
    | inl good ↦ rw good (record {
      admitted =
          All-append (Admitted f) t.written _ s.admitted
            (record { inside = i; other_pid = p; other_name = n }, tt);
      balance = omega arith;
      kept_count = omega (arith, length-append t.written (out ∷ []));
      line_count = s.line_count;
      few = log_kept-FewLogged _ _ s.few (kept_access out.op path pname ev.pid);
    })
    | inr bad ↦ rw bad (
        inr (record {
          admitted = s.admitted;
          balance = omega arith;
          kept_count = omega arith;
          line_count = s.line_count;
          few = log_kept-FewLogged _ _ s.few (kept_access out.op path pname ev.pid);
        }))
  ]
    where
      out : Event
      out = record {
        ts = w.now t.tick;
        op = op_from_mask ev.mask;
        path = path;
        process = pname;
        pid = ev.pid;
        claude = none;
      }

  by_name-Sound :
      (path : Bytes) (ev : FanotifyEvent) (t : Tap)
      → Pending f t
      → path_in path f.dir f.prefix ≡ true
      → has_pid ev.pid f.pids ≡ false
      → SoundOutcome f (by_name w f path ev t)
  unfolding by_name
  by_name-Sound path ev t s i p = elim (Bool-cases (has_name found.0 f.names)) [
    | inl noise ↦ rw noise (excluded-Sound looked_up)
    | inr other ↦ rw other (write_event-Sound path found.0 ev _ looked_up i p other)
  ]
    where
      found : Bytes × Cache
      found = comm_name (w.read_comm t.tick) ev.pid t.cache

      looked_up : Pending f (record t { cache = found.1 })
      looked_up = record {
        admitted = s.admitted;
        balance = s.balance;
        kept_count = s.kept_count;
        line_count = s.line_count;
        few = s.few;
      }

  by_path-Sound :
      (path : Bytes) (ev : FanotifyEvent) (t : Tap)
      → Sound f 0 t
      → SoundOutcome f (by_path w f path ev t)
  unfolding by_path
  by_path-Sound [] ev t s = s
  by_path-Sound (b ∷ bs) ev t s = elim (Bool-cases (path_in (clean_path (b ∷ bs)) f.dir f.prefix)) [
    | inr outside ↦ rw outside (dropped-Sound _ ev.pid (parsed-Pending s))
    | inl inside ↦ elim (Bool-cases (has_pid ev.pid f.pids)) [
      | inl ours ↦ rw (inside, ours) (excluded-Sound (parsed-Pending s))
      | inr other ↦
          rw (inside, other)
            (by_name-Sound (clean_path (b ∷ bs)) ev _ (parsed-Pending s) inside other)
    ]
  ]

  next_tick-Sound : (o : Outcome) → SoundOutcome f o → SoundOutcome f (next_tick o)
  unfolding next_tick
  next_tick-Sound (ongoing t) s = record {
    admitted = s.admitted;
    balance = s.balance;
    kept_count = s.kept_count;
    line_count = s.line_count;
    few = s.few;
  }
  next_tick-Sound (stopped t) (inl s) = inl (record {
    admitted = s.admitted;
    balance = s.balance;
    kept_count = s.kept_count;
    line_count = s.line_count;
    few = s.few;
  })
  next_tick-Sound (stopped t) (inr s) = inr (record {
    admitted = s.admitted;
    balance = s.balance;
    kept_count = s.kept_count;
    line_count = s.line_count;
    few = s.few;
  })

  handle_event-Sound :
      (ev : FanotifyEvent) (t : Tap) → Sound f 0 t → SoundOutcome f (handle_event w f ev t)
  unfolding handle_event
  handle_event-Sound ev t s = next_tick-Sound _ (
      by_path-Sound _ ev _ (record {
        admitted = s.admitted;
        balance = s.balance;
        kept_count = s.kept_count;
        line_count = omega (arith, s.line_count, length-append t.closed (ev.fd ∷ []));
        few = s.few;
      }))

  and_then-Sound :
      (o : Outcome) (k : Tap → Outcome)
      → SoundOutcome f o
      → ((t : Tap) → Sound f 0 t → SoundOutcome f (k t))
      → SoundOutcome f (and_then o k)
  and_then-Sound (ongoing t) k s next = next t s
  and_then-Sound (stopped t) k s next = s

  handle_events-Sound :
      (evs : List FanotifyEvent) (t : Tap) → Sound f 0 t → SoundOutcome f (handle_events w f evs t)
  unfolding handle_events
  handle_events-Sound [] t s = s
  handle_events-Sound (ev ∷ evs) t s =
      and_then-Sound (handle_event w f ev t) (handle_events w f evs) (handle_event-Sound ev t s)
        (λ t' s'. handle_events-Sound evs t' s')

  with_leftover : (rest : Bytes) (t : Tap) → Sound f 0 t → Sound f 0 (record t { leftover = rest })
  with_leftover rest t s = record {
    admitted = s.admitted;
    balance = s.balance;
    kept_count = s.kept_count;
    line_count = s.line_count;
    few = s.few;
  }

  handle_read-Sound :
      (input : Bytes) (t : Tap) → Sound f 0 t → SoundOutcome f (handle_read w f input t)
  unfolding handle_read
  handle_read-Sound input t s = after (parse_fanotify_events (t.leftover ++ input))
    where
      after :
          (r : ParseResult)
          → SoundOutcome f (elim r [
            | failed evs n ↦ ongoing (record t { leftover = [] })
            | parsed evs rest ↦ handle_events w f evs (record t { leftover = rest })
          ])
      after (failed evs n) = with_leftover [] t s
      after (parsed evs rest) = handle_events-Sound evs _ (with_leftover rest t s)

  run_loop-keeps :
      (rs : List ReadResult) (t : Tap) → Sound f 0 t → SoundOutcome f (run_loop w f rs t)
  unfolding run_loop
  run_loop-keeps [] t s = s
  run_loop-keeps (interrupted ∷ rs) t s = run_loop-keeps rs t s
  run_loop-keeps (read_error ∷ rs) t s = inl s
  run_loop-keeps (bytes b ∷ rs) t s =
      and_then-Sound (handle_read w f b t) (run_loop w f rs) (handle_read-Sound b t s)
        (λ t' s'. run_loop-keeps rs t' s')

-- However long the tap runs and whatever the kernel answers, every event that it has written has a
-- path that passes the test on the watch dir, a pid outside the excluded ones and a process name
-- outside the excluded ones. Modulo 2^64 `parsed` is the sum of `kept`, `filtered_out` and
-- `excluded`, `lines` is the number of descriptors closed, and `kept` is the number of events
-- written, or one more if the run ended in a write that failed. The debug flag has at most 200
-- samples of each kind logged, and without it none is.
pub run_loop-Sound :
    (w : World) (f : Filter) (raw : Option Bytes) (rs : List ReadResult)
    → SoundOutcome f (run_loop w f rs (initial raw))
run_loop-Sound w f raw rs = run_loop-keeps w f rs (initial raw) (record {
  admitted = tt;
  balance = refl;
  kept_count = refl;
  line_count = refl;
  few = no_samples-FewLogged f.debug;
})
