-- ===== src/FsUsage/Run/Lifecycle.antt =====
-- internal/tap/tap_darwin.go, Run: the life of fs_usage and of the raw dump.
use agentflash.Common.{
  ℕ, zero, suc, Bool, true, false, Option, none, some, List, [], ◌∷◌, ◌++◌, ◌≡◌, refl, sym, ap, ◌∙◌,
  inl, inr, Bytes, map, append-nil, append_assoc, eq_bytes, Bool-cases, Option-cases, if◌then◌else◌,
}
use mathlib.Core.Bool.{true≢false}
use agentflash.Event.{Event}
use agentflash.Event.Wire.{newline, lines_of}
use agentflash.GoPath.{abs}
use agentflash.TreeWatch.{normalize_path_darwin}
use agentflash.Tap.{Config, Filter, path_in, clean_path, has_pid, has_name}
use agentflash.FsUsage.{LineMatch, make_filter_darwin, parse_line}
use agentflash.FsUsage.Loop.{
  Debug, LineTap, Input, start, write_line_event, handle_parsed, handle_line, run_lines, go_on,
}
use agentflash.FsUsage.Admitted.{InOrder, run_lines-Admitted}
use agentflash.FsUsage.Run.{
  System, Call, cmd_start, cmd_kill, cmd_wait, dump_create, dump_close, Return, resolve_failed,
  pipe_failed, start_failed, write_failed, scan_failed, exit_failed, returned, MacRun, scan,
  make_debug, close_dump, inputs_from, after_loop, open_dump, run_started, after_scan, run_launched,
  run_piped, run_resolved_darwin, run_darwin,
}

-- The states of fs_usage; `misused` is a call that does not fit the state.
pub data Child : Type 0 where
  not_started : Child
  running : ℕ → Child
  killed waited_for child_misused : Child

abbrev pub after_call : Child → Call → Child
after_call c (dump_create b) = c
after_call c dump_close = c
after_call not_started (cmd_start none) = not_started
after_call not_started (cmd_start (some pid)) = running pid
after_call (running pid) cmd_kill = killed
after_call (running pid) (cmd_wait ok) = waited_for
after_call _ _ = child_misused

-- The states of the raw dump's file.
pub data DumpFile : Type 0 where
  never_opened opened closed dump_misused : DumpFile

abbrev pub after_dump_call : DumpFile → Call → DumpFile
after_dump_call never_opened (dump_create false) = never_opened
after_dump_call never_opened (dump_create true) = opened
after_dump_call opened dump_close = closed
after_dump_call f (cmd_start a) = f
after_dump_call f cmd_kill = f
after_dump_call f (cmd_wait ok) = f
after_dump_call _ _ = dump_misused

abbrev pub fold_calls : {S : Type 0} → (S → Call → S) → S → List Call → S
fold_calls after s [] = s
fold_calls after s (c ∷ cs) = fold_calls after (after s c) cs

abbrev pub child_of : List Call → Child
child_of = fold_calls after_call not_started

abbrev pub dump_of : List Call → DumpFile
dump_of = fold_calls after_dump_call never_opened

abbrev pub is_open : Option Bytes → Bool
is_open none = false
is_open (some out) = true

-- The lines of a raw dump.
abbrev pub raw_lines : List Bytes → Bytes
raw_lines [] = []
raw_lines (l ∷ ls) = l ++ newline ∷ raw_lines ls

abbrev pub behind : Option Bytes → Bytes → Option Bytes
behind none out = none
behind (some dump) out = some (dump ++ out)

-- A round and the loop keep the raw dump open, and add their lines to it.
module _ (line_re : Bytes → Option LineMatch) (open_mode_re : Bytes → Option Bytes)
    (parse_clock : Bytes → ℕ → Option ℕ) (d : Debug) (f : Filter) where
  write_line_event-raw_dump :
      (ok : Bool) (ev : Event) (t : LineTap) → (write_line_event ev ok t).0.raw_dump ≡ t.raw_dump
  unfolding write_line_event
  write_line_event-raw_dump true ev t = refl
  write_line_event-raw_dump false ev t = refl

  handle_parsed-raw_dump :
      (ev : Event) (ok : Bool) (t : LineTap) → (handle_parsed d f ev ok t).0.raw_dump ≡ t.raw_dump
  unfolding handle_parsed
  handle_parsed-raw_dump ev ok t =
      let path = normalize_path_darwin (clean_path ev.path) in
      elim (Bool-cases (path_in path f.dir f.prefix)) [
        | inr outside ↦ rw outside refl
        | inl inside ↦ elim (Bool-cases (has_pid ev.pid f.pids)) [
          | inl own ↦ rw (inside, own) refl
          | inr pid ↦ elim (Bool-cases (has_name ev.process f.names)) [
            | inl daemon ↦ rw (inside, pid, daemon) refl
            | inr name ↦ rw (inside, pid, name) (write_line_event-raw_dump ok _ _)
          ]
        ]
      ]

  dumped :
      (line : Bytes) (raw : Option Bytes)
      → elim raw [ none ↦ none | some out ↦ some (out ++ line ++ newline ∷ []) ]
        ≡ behind raw (line ++ newline ∷ [])
  dumped line none = refl
  dumped line (some out) = ap some (append_assoc out line (newline ∷ []))

  handle_line-raw_dump :
      (i : Input) (t : LineTap)
      → (handle_line line_re open_mode_re parse_clock d f i t).0.raw_dump
        ≡ behind t.raw_dump (i.line ++ newline ∷ [])
  unfolding handle_line
  handle_line-raw_dump i t =
      elim (Option-cases (parse_line line_re open_mode_re parse_clock i.line i.now)) [
        | inl no_event ↦ rw (no_event, handle_line) (dumped i.line t.raw_dump)
        | inr (ev, p) ↦
            rw (p, handle_line) (handle_parsed-raw_dump ev i.write_ok _ ∙ dumped i.line t.raw_dump)
      ]

  is_open-behind : (raw : Option Bytes) (out : Bytes) → is_open (behind raw out) ≡ is_open raw
  is_open-behind none out = refl
  is_open-behind (some dump) out = refl

  behind_assoc :
      (raw : Option Bytes) (line out : Bytes)
      → behind (behind raw (line ++ newline ∷ [])) out ≡ behind raw (line ++ newline ∷ out)
  behind_assoc none line out = refl
  behind_assoc (some dump) line out = ap some (
      append_assoc dump (line ++ newline ∷ []) out
      ∙ ap (λ x. dump ++ x) (append_assoc line (newline ∷ []) out))

  abbrev loop : List Input → LineTap → LineTap × Bool
  loop = run_lines line_re open_mode_re parse_clock d f

  loop-is_open :
      (is : List Input) (t : LineTap) → is_open (loop is t).0.raw_dump ≡ is_open t.raw_dump
  unfolding run_lines
  loop-is_open [] t = refl
  loop-is_open (i ∷ is) t =
      next (handle_line line_re open_mode_re parse_clock d f i t) (loop-is_open is)
      ∙ ap is_open (handle_line-raw_dump i t)
      ∙ is_open-behind t.raw_dump _
    where
      next :
          (o : LineTap × Bool)
          → ((u : LineTap) → is_open (loop is u).0.raw_dump ≡ is_open u.raw_dump)
          → is_open (go_on o (loop is)).0.raw_dump ≡ is_open o.0.raw_dump
      next (u, true) later = later u
      next (u, false) later = refl

  loop-raw_dump :
      (is : List Input) (t : LineTap)
      → (loop is t).1 ≡ true
      → (loop is t).0.raw_dump ≡ behind t.raw_dump (raw_lines (map (λ i. i.line) is))
  unfolding run_lines
  loop-raw_dump [] t e = nothing t.raw_dump
    where
      nothing : (raw : Option Bytes) → raw ≡ behind raw []
      nothing none = refl
      nothing (some dump) = ap some (sym (append-nil dump))
  loop-raw_dump (i ∷ is) t e =
      next (handle_line line_re open_mode_re parse_clock d f i t) (loop-raw_dump is) e
      ∙ ap (λ raw. behind raw (raw_lines (map (λ i. i.line) is))) (handle_line-raw_dump i t)
      ∙ behind_assoc t.raw_dump i.line _
    where
      next :
          (o : LineTap × Bool)
          → ((u : LineTap)
              → (loop is u).1 ≡ true
              → (loop is u).0.raw_dump ≡ behind u.raw_dump (raw_lines (map (λ i. i.line) is)))
          → (go_on o (loop is)).1 ≡ true
          → (go_on o (loop is)).0.raw_dump ≡ behind o.0.raw_dump (raw_lines (map (λ i. i.line) is))
      next (u, true) later e = later u e
      next (u, false) later e = absurd (true≢false (sym e))

-- The three ways in which the raw dump is opened or not.
data Opening : Option Bytes × List Call → Type 0 where
  created : Opening (some [], dump_create true ∷ [])
  refused : Opening (none, dump_create false ∷ [])
  unwanted : Opening (none, [])

open_dump-Opening : (m : System) (file : Bytes) → Opening (open_dump m file)
unfolding open_dump
open_dump-Opening m file = elim (Bool-cases (eq_bytes file [])) [
  | inl no_file ↦ rw no_file unwanted
  | inr named ↦ elim (Bool-cases m.create_ok) [
    | inl ok ↦ rw (named, ok) created
    | inr failed ↦ rw (named, failed) refused
  ]
]

-- A last call that ends fs_usage.
data EndCall : Call → Child → Type 0 where
  by_kill : EndCall cmd_kill killed
  by_wait : (ok : Bool) → EndCall (cmd_wait ok) waited_for

calls-Ended :
    (pid : ℕ) (o : Option Bytes × List Call) (raw : Option Bytes) (c : Call) (end : Child)
    → Opening o
    → EndCall c end
    → is_open raw ≡ is_open o.0
    → (child_of ((cmd_start (some pid) ∷ o.1) ++ c ∷ close_dump raw) ≡ end)
      × (dump_of ((cmd_start (some pid) ∷ o.1) ++ c ∷ close_dump raw)
          ≡ (if is_open o.0 then closed else never_opened))
calls-Ended pid o (some x) c end created by_kill e = (refl, refl)
calls-Ended pid o (some x) c end created (by_wait ok) e = (refl, refl)
calls-Ended pid o none c end created k e = absurd (true≢false (sym e))
calls-Ended pid o none c end refused by_kill e = (refl, refl)
calls-Ended pid o none c end refused (by_wait ok) e = (refl, refl)
calls-Ended pid o (some x) c end refused k e = absurd (true≢false e)
calls-Ended pid o none c end unwanted by_kill e = (refl, refl)
calls-Ended pid o none c end unwanted (by_wait ok) e = (refl, refl)
calls-Ended pid o (some x) c end unwanted k e = absurd (true≢false e)

module _ (m : System) (line_re : Bytes → Option LineMatch) (open_mode_re : Bytes → Option Bytes)
    (parse_clock : Bytes → ℕ → Option ℕ) (cfg : Config) where
  -- What a run that has started fs_usage, which it leaves in the state `end`, has made of it.
  pub record Started (end : Child) (r : MacRun) : Type 0 where
    pub dir : Bytes
    pub pid : ℕ
    pub resolved : abs m.getwd cfg.watch_dir ≡ some dir
    pub launched : m.launch ≡ some pid
    pub ended : child_of r.calls ≡ end
    pub dump_closed :
        dump_of r.calls
        ≡ (if is_open (open_dump m cfg.raw_dump_file).0 then closed else never_opened)
    pub in_order :
        InOrder (make_debug cfg dir) (make_filter_darwin cfg dir m.getpid m.getppid pid) r.tap

  -- The lines that the scanner gives, and whether it ends without an error.
  abbrev pub scanned : List Bytes × Bool
  scanned = scan m.ended_well (lines_of m.output)

  -- The raw dump has all of the lines.
  abbrev pub Dumped : LineTap → Type 0
  Dumped t = t.raw_dump ≡ behind (open_dump m cfg.raw_dump_file).0 (raw_lines scanned.0)

  abbrev pub Returns : Return → MacRun → Type 0
  Returns resolve_failed r = (abs m.getwd cfg.watch_dir ≡ none) × (r.calls ≡ [])
  Returns pipe_failed r = (m.pipe_ok ≡ false) × (r.calls ≡ [])
  Returns start_failed r = (m.launch ≡ none) × (r.calls ≡ cmd_start none ∷ [])
  Returns write_failed r = Started killed r
  Returns scan_failed r = (scanned.1 ≡ false) × Started killed r × Dumped r.tap
  Returns exit_failed r =
      (scanned.1 ≡ true) × (m.wait_ok ≡ false) × Started waited_for r × Dumped r.tap
  Returns returned r = (scanned.1 ≡ true) × (m.wait_ok ≡ true) × Started waited_for r × Dumped r.tap

  abbrev ReturnsWell : MacRun → Type 0
  ReturnsWell r = Returns r.result r

  map-inputs_from : (n : ℕ) (ls : List Bytes) → map (λ i. i.line) (inputs_from m n ls) ≡ ls
  unfolding inputs_from
  map-inputs_from n [] = refl
  map-inputs_from n (l ∷ ls) = ap (λ x. l ∷ x) (map-inputs_from (suc n) ls)

  module _ (dir : Bytes) (pid : ℕ) (r : abs m.getwd cfg.watch_dir ≡ some dir)
      (l : m.launch ≡ some pid) where
    abbrev opened_dump : Option Bytes × List Call
    opened_dump = open_dump m cfg.raw_dump_file

    started :
        (t : LineTap) (result : Return) {c : Call} {end : Child}
        → InOrder (make_debug cfg dir) (make_filter_darwin cfg dir m.getpid m.getppid pid) t
        → is_open t.raw_dump ≡ is_open opened_dump.0
        → EndCall c end
        → Started end (record {
          result = result;
          calls = (cmd_start (some pid) ∷ opened_dump.1) ++ c ∷ close_dump t.raw_dump;
          tap = t;
        })
    started t result fine same k =
        let ends =
          calls-Ended pid opened_dump _ _ _ (open_dump-Opening m cfg.raw_dump_file) k same in
        record {
          dir = dir;
          pid = pid;
          resolved = r;
          launched = l;
          ended = ends.0;
          dump_closed = ends.1;
          in_order = fine;
        }

    after_scan-Returns :
        (t : LineTap) (scan_ok wait_ok : Bool)
        → InOrder (make_debug cfg dir) (make_filter_darwin cfg dir m.getpid m.getppid pid) t
        → is_open t.raw_dump ≡ is_open opened_dump.0
        → Dumped t
        → scanned.1 ≡ scan_ok
        → m.wait_ok ≡ wait_ok
        → ReturnsWell (after_scan scan_ok wait_ok (cmd_start (some pid) ∷ opened_dump.1) t)
    unfolding after_scan
    after_scan-Returns t false wait_ok fine same all s w =
        (s, started t scan_failed fine same by_kill, all)
    after_scan-Returns t true false fine same all s w =
        (s, w, started t exit_failed fine same (by_wait false), all)
    after_scan-Returns t true true fine same all s w =
        (s, w, started t returned fine same (by_wait true), all)

    after_loop-Returns :
        (o : LineTap × Bool)
        → InOrder (make_debug cfg dir) (make_filter_darwin cfg dir m.getpid m.getppid pid) o.0
        → is_open o.0.raw_dump ≡ is_open opened_dump.0
        → (o.1 ≡ true → Dumped o.0)
        → ReturnsWell (after_loop m scanned.1 (cmd_start (some pid) ∷ opened_dump.1) o)
    unfolding after_loop
    after_loop-Returns (t, false) fine same all = started t write_failed fine same by_kill
    after_loop-Returns (t, true) fine same all =
        after_scan-Returns t scanned.1 m.wait_ok fine same (all refl) refl refl

    abbrev loop_start : LineTap × Bool
    loop_start =
        run_lines line_re open_mode_re parse_clock (make_debug cfg dir)
          (make_filter_darwin cfg dir m.getpid m.getppid pid) (inputs_from m zero scanned.0)
          (start opened_dump.0)

    run_started-Returns : ReturnsWell (run_started m line_re open_mode_re parse_clock cfg dir pid)
    unfolding run_started
    run_started-Returns =
        let d = make_debug cfg dir in
        let f = make_filter_darwin cfg dir m.getpid m.getppid pid in
        after_loop-Returns loop_start
          (run_lines-Admitted line_re open_mode_re parse_clock d f opened_dump.0
            (inputs_from m zero scanned.0))
          (loop-is_open line_re open_mode_re parse_clock d f (inputs_from m zero scanned.0)
            (start opened_dump.0))
          (λ e.
            loop-raw_dump line_re open_mode_re parse_clock d f (inputs_from m zero scanned.0)
              (start opened_dump.0) e
            ∙ ap (λ ls. behind opened_dump.0 (raw_lines ls)) (map-inputs_from zero scanned.0))

  module _ (dir : Bytes) (r : abs m.getwd cfg.watch_dir ≡ some dir) where
    run_launched-Returns :
        (launch : Option ℕ)
        → m.launch ≡ launch
        → ReturnsWell (run_launched m line_re open_mode_re parse_clock cfg dir launch)
    unfolding run_launched
    run_launched-Returns none l = (l, refl)
    run_launched-Returns (some pid) l = run_started-Returns dir pid r l

    run_piped-Returns :
        (pipe_ok : Bool)
        → m.pipe_ok ≡ pipe_ok
        → ReturnsWell (run_piped m line_re open_mode_re parse_clock cfg dir pipe_ok)
    unfolding run_piped
    run_piped-Returns false p = (p, refl)
    run_piped-Returns true p = run_launched-Returns m.launch refl

  run_resolved_darwin-Returns :
      (resolved : Option Bytes)
      → abs m.getwd cfg.watch_dir ≡ resolved
      → ReturnsWell (run_resolved_darwin m line_re open_mode_re parse_clock cfg resolved)
  unfolding run_resolved_darwin
  run_resolved_darwin-Returns none r = (r, refl)
  run_resolved_darwin-Returns (some dir) r = run_piped-Returns dir r m.pipe_ok refl

  -- However the system answers and whatever fs_usage prints, `Run` returns, and where it has started
  -- fs_usage it has then ended it: killed it after a write error or an error of the scanner, and
  -- otherwise waited for it. It makes no call on fs_usage before its start, after its end or twice,
  -- and the raw dump, if it could be created, is closed once. The events written are admitted by the
  -- filter that knows fs_usage's own process ID, and the counters and the log are in order. Unless
  -- an event could not be written, the raw dump has every line that was scanned.
  pub run_darwin-Returns :
      Returns
        (run_darwin m line_re open_mode_re parse_clock cfg).result
        (run_darwin m line_re open_mode_re parse_clock cfg)
  unfolding run_darwin
  run_darwin-Returns = run_resolved_darwin-Returns (abs m.getwd cfg.watch_dir) refl
