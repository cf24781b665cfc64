-- ===== src/FsUsage/Loop.antt =====
-- internal/tap/tap_darwin.go: the loop of `Run`. The writes to the raw dump are taken to succeed.
use agentflash.Common.{
  ℕ, ◌+◌, Bool, true, false, not, ◌&&◌, ◌||◌, Option, none, some, List, [], ◌∷◌, ◌++◌, Bytes, ltb,
  eq_bytes, contains, if◌then◌else◌,
}
use agentflash.Event.{Event}
use agentflash.Event.Wire.{newline}
use agentflash.TreeWatch.{normalize_path_darwin}
use agentflash.Tap.{Filter, path_in, clean_path, has_pid, has_name, add_uint64}
use agentflash.FsUsage.{LineMatch, is_noise_line, parse_line}

-- What the debug flag has the loop log, with `logger.Printf`.
pub data Sample : Type 0 where
  interesting_line unparsed_line : Bytes → Sample
  filtered_event kept_event : Event → Sample

-- The samples logged so far, of each kind and as they are.
pub record Samples : Type 0 where
  pub unparsed : ℕ
  pub kept : ℕ
  pub filtered : ℕ
  pub interesting : ℕ
  pub logged : List Sample

-- The counters of `Run`, the events written, the raw dump and the samples.
pub record LineTap : Type 0 where
  pub lines : ℕ
  pub parsed : ℕ
  pub kept : ℕ
  pub dropped : ℕ
  pub excluded : ℕ
  pub written : List Event
  pub raw_dump : Option Bytes
  pub samples : Samples

-- `raw_dump` is the new file, `none` if there is none.
abbrev pub start : Option Bytes → LineTap
start raw_dump = record {
  lines = 0;
  parsed = 0;
  kept = 0;
  dropped = 0;
  excluded = 0;
  written = [];
  raw_dump = raw_dump;
  samples = record { unparsed = 0; kept = 0; filtered = 0; interesting = 0; logged = [] };
}

-- A line, when it is read, and whether an event made of it can be written.
pub record Input : Type 0 where
  pub line : Bytes
  pub now : ℕ
  pub write_ok : Bool

-- `cfg.Debug` and the two triggers of an interesting line.
pub record Debug : Type 0 where
  pub on : Bool
  pub path_trigger : Bytes
  pub data_path_trigger : Bytes

abbrev pub max_samples : ℕ
max_samples = 200

abbrev pub max_interesting : ℕ
max_interesting = 1000

abbrev pub dump_line : Bytes → LineTap → LineTap
dump_line line t = record t {
  raw_dump = elim t.raw_dump [ none ↦ none | some out ↦ some (out ++ line ++ newline ∷ []) ];
}

-- The loop goes on, unless `Run` has returned.
abbrev pub go_on : (LineTap × Bool) → (LineTap → LineTap × Bool) → LineTap × Bool
go_on (t, true) k = k t
go_on (t, false) k = (t, false)

-- `w.Write`, whose error ends `Run`; the flag says that `Run` goes on.
unfoldable pub write_line_event : Event → Bool → LineTap → LineTap × Bool
write_line_event ev true t = (record t { written = t.written ++ ev ∷ [] }, true)
write_line_event ev false t = (t, false)

module _ (d : Debug) where
  unfoldable pub sample_interesting : Bytes → Samples → Samples
  sample_interesting line s =
      if d.on
        && ltb s.interesting max_interesting
        && (contains line d.path_trigger || contains line d.data_path_trigger)
      then record s {
        interesting = s.interesting + 1;
        logged = s.logged ++ interesting_line line ∷ [];
      }
      else s

  unfoldable pub sample_unparsed : Bytes → Samples → Samples
  sample_unparsed line s =
      if d.on && ltb s.unparsed max_samples && not (eq_bytes line []) && not (is_noise_line line)
      then record s { unparsed = s.unparsed + 1; logged = s.logged ++ unparsed_line line ∷ [] }
      else s

  unfoldable pub sample_filtered : Event → Samples → Samples
  sample_filtered ev s =
      if d.on && ltb s.filtered max_samples
      then record s { filtered = s.filtered + 1; logged = s.logged ++ filtered_event ev ∷ [] }
      else s

  unfoldable pub sample_kept : Event → Samples → Samples
  sample_kept ev s =
      if d.on && ltb s.kept max_samples
      then record s { kept = s.kept + 1; logged = s.logged ++ kept_event ev ∷ [] }
      else s

  module _ (f : Filter) where
    -- A round of the loop from the parsed event on.
    unfoldable pub handle_parsed : Event → Bool → LineTap → LineTap × Bool
    handle_parsed parsed_ev write_ok t =
        let ev = record parsed_ev { path = normalize_path_darwin (clean_path parsed_ev.path) } in
        if not (path_in ev.path f.dir f.prefix)
        then (
          record t { dropped = add_uint64 t.dropped; samples = sample_filtered ev t.samples },
          true,
        )
        else if has_pid ev.pid f.pids
        then (record t { excluded = add_uint64 t.excluded }, true)
        else if has_name ev.process f.names
        then (record t { excluded = add_uint64 t.excluded }, true)
        else write_line_event ev write_ok
            (record t { kept = add_uint64 t.kept; samples = sample_kept ev t.samples })

module _ (line_re : Bytes → Option LineMatch) (open_mode_re : Bytes → Option Bytes)
    (parse_clock : Bytes → ℕ → Option ℕ) (d : Debug) (f : Filter) where
  unfoldable pub handle_line : Input → LineTap → LineTap × Bool
  handle_line i t =
      let counted = dump_line i.line (record t { lines = add_uint64 t.lines }) in
      let read = record counted { samples = sample_interesting d i.line counted.samples } in
      elim (parse_line line_re open_mode_re parse_clock i.line i.now) [
        | none ↦ (record read { samples = sample_unparsed d i.line read.samples }, true)
        | some ev ↦
            handle_parsed d f ev i.write_ok (record read { parsed = add_uint64 read.parsed })
      ]

  unfoldable pub run_lines : List Input → LineTap → LineTap × Bool
  run_lines [] t = (t, true)
  run_lines (i ∷ is) t = go_on (handle_line i t) (run_lines is)
