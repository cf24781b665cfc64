-- ===== src/FsUsage/Admitted.antt =====
-- What the tap on macOS lets through, its counters, its log and its raw dump.
use agentflash.Common.{
  ℕ, ◌+◌, ◌*◌, ◌%◌, ◌^◌, ◌≤◌, Bool, true, false, Option, List, [], ◌∷◌, ◌≡◌, refl, arith, inl, inr,
  Bytes, Bool-cases, Option-cases, length,
}
use agentflash.Event.{Event}
use agentflash.GoPath.Clean.{All, All-append}
use agentflash.TreeWatch.{normalize_path_darwin}
use agentflash.Tap.{Filter, path_in, clean_path, has_pid, has_name, add_uint64}
use agentflash.Tap.Admitted.{Admitted}
use agentflash.FsUsage.{LineMatch, parse_line}
use agentflash.FsUsage.Logged.{
  Logged, few, sample_interesting-Logged, sample_filtered-Logged, sample_kept-Logged,
  sample_unparsed-Logged,
}
use agentflash.FsUsage.Loop.{
  Debug, LineTap, Input, max_samples, max_interesting, start, sample_interesting, sample_kept,
  write_line_event, handle_parsed, handle_line, run_lines, go_on, dump_line,
}

-- All that is written is admitted, and the counters add up modulo 2^64; `n` lines have been parsed
-- and are not yet counted as kept, dropped or excluded.
record Balanced (d : Debug) (f : Filter) (n : ℕ) (t : LineTap) : Type 0 where
  admitted : All (Admitted f) t.written
  balance : t.parsed ≡ (t.kept + t.dropped + t.excluded + n) % 2 ^ 64
  log : Logged d t.samples

abbrev IsBalanced : Debug → Filter → ℕ → LineTap × Bool → Type 0
IsBalanced d f n (t, _) = Balanced d f n t

-- What has been written, counted and logged is in order.
abbrev pub InOrder : Debug → Filter → LineTap → Type 0
InOrder d f t =
    All (Admitted f) t.written
    × (t.parsed ≡ (t.kept + t.dropped + t.excluded) % 2 ^ 64)
    × (length t.samples.logged ≤ max_interesting + 3 * max_samples)
    × (d.on ≡ false → t.samples.logged ≡ [])

write_line_event-Balanced :
    {d : Debug} {f : Filter} (ok : Bool) (ev : Event) (t : LineTap)
    → Admitted f ev
    → Balanced d f 0 t
    → IsBalanced d f 0 (write_line_event ev ok t)
unfolding write_line_event
write_line_event-Balanced true ev t a s = record {
  admitted = All-append (Admitted _) t.written (ev ∷ []) s.admitted (a, tt);
  balance = s.balance;
  log = s.log;
}
write_line_event-Balanced false ev t a s = s

module _ (d : Debug) (f : Filter) where
  handle_parsed-Balanced :
      (ev : Event) (ok : Bool) (t : LineTap)
      → Balanced d f 1 t
      → IsBalanced d f 0 (handle_parsed d f ev ok t)
  unfolding handle_parsed
  handle_parsed-Balanced ev ok t s =
      let path = normalize_path_darwin (clean_path ev.path) in
      let e = record ev { path = path } in
      elim (Bool-cases (path_in path f.dir f.prefix)) [
        | inr outside ↦ rw outside (record {
          admitted = s.admitted;
          balance = omega arith;
          log = sample_filtered-Logged d t.samples s.log e;
        })
        | inl inside ↦ elim (Bool-cases (has_pid ev.pid f.pids)) [
          | inl own ↦
              rw (inside, own)
                (record { admitted = s.admitted; balance = omega arith; log = s.log })
          | inr pid ↦ elim (Bool-cases (has_name ev.process f.names)) [
            | inl daemon ↦
                rw (inside, pid, daemon)
                  (record { admitted = s.admitted; balance = omega arith; log = s.log })
            | inr name ↦
                rw (inside, pid, name)
                  (write_line_event-Balanced ok e
                    (record t { kept = add_uint64 t.kept; samples = sample_kept d e t.samples })
                    (record { inside = inside; other_pid = pid; other_name = name })
                    (record {
                      admitted = s.admitted;
                      balance = omega arith;
                      log = sample_kept-Logged d t.samples s.log e;
                    }))
          ]
        ]
      ]

module _ (line_re : Bytes → Option LineMatch) (open_mode_re : Bytes → Option Bytes)
    (parse_clock : Bytes → ℕ → Option ℕ) (d : Debug) (f : Filter) where
  handle_line-Balanced :
      (i : Input) (t : LineTap)
      → Balanced d f 0 t
      → IsBalanced d f 0 (handle_line line_re open_mode_re parse_clock d f i t)
  unfolding handle_line
  handle_line-Balanced i t s =
      let l = sample_interesting-Logged d t.samples s.log i.line in
      let counted = dump_line i.line (record t { lines = add_uint64 t.lines }) in
      let read = record counted { samples = sample_interesting d i.line counted.samples } in
      elim (Option-cases (parse_line line_re open_mode_re parse_clock i.line i.now)) [
        | inl no_event ↦
            rw (no_event, handle_line)
              (record {
                admitted = s.admitted;
                balance = s.balance;
                log = sample_unparsed-Logged d read.samples l i.line;
              })
        | inr (ev, p) ↦
            rw (p, handle_line)
              (handle_parsed-Balanced d f ev i.write_ok
                (record read { parsed = add_uint64 read.parsed })
                (record { admitted = s.admitted; balance = omega arith; log = l }))
      ]

  run_lines-Balanced :
      (is : List Input) (t : LineTap)
      → Balanced d f 0 t
      → IsBalanced d f 0 (run_lines line_re open_mode_re parse_clock d f is t)
  unfolding run_lines
  run_lines-Balanced [] t s = s
  run_lines-Balanced (i ∷ is) t s =
      next (handle_line line_re open_mode_re parse_clock d f i t) (handle_line-Balanced i t s)
        (λ u b. run_lines-Balanced is u b)
    where
      next :
          (o : LineTap × Bool)
          → IsBalanced d f 0 o
          → ((u : LineTap)
              → Balanced d f 0 u
              → IsBalanced d f 0 (run_lines line_re open_mode_re parse_clock d f is u))
          → IsBalanced d f 0 (go_on o (run_lines line_re open_mode_re parse_clock d f is))
      next (u, true) b later = later u b
      next (u, false) b later = b

  start-Balanced : (raw : Option Bytes) → Balanced d f 0 (start raw)
  start-Balanced raw = record {
    admitted = tt;
    balance = omega arith;
    log = record {
      silent = λ off. refl;
      total = refl;
      unparsed_few = omega arith;
      kept_few = omega arith;
      filtered_few = omega arith;
      interesting_few = omega arith;
    };
  }

  -- Whatever fs_usage prints and for however long, every event that the tap writes has a path that
  -- passes the test on the watch dir, a pid outside the excluded ones and a process name outside
  -- the excluded ones; modulo 2^64 `parsed` is the sum of `kept`, `dropped` and `excluded`; and no
  -- more than 1600 samples are logged, none without the debug flag.
  pub run_lines-Admitted :
      (raw : Option Bytes) (is : List Input)
      → InOrder d f (run_lines line_re open_mode_re parse_clock d f is (start raw)).0
  run_lines-Admitted raw is =
      let b = run_lines-Balanced is (start raw) (start-Balanced raw) in
      (b.admitted, omega arith, few b.log, b.log.silent)
