-- ===== src/Flags/Start.antt =====
-- main.go: runTap, runUI and expandHome. Parameters stand for the working directory, the home
-- directory, the test for a directory and `strconv.ParseInt` of an integer flag.
use agentflash.Common.{
  Bool, true, false, not, Option, none, some, List, [], ◌∷◌, Bytes, codes, eq_bytes, has_prefix,
  if◌then◌else◌,
}
use agentflash.Common.Int.{ℤ, pos}
use agentflash.GoPath.{abs, join}
use agentflash.Tap.{Config}
use agentflash.Flags.{parse_names, parse_pids}
use agentflash.Flags.Parse.{
  FlagSet, text, boolean, number, values, help, bad, parse_flags, parse_bool, value_of,
}

abbrev pub is_set : Bytes → List (Bytes × Bytes) → Bool
is_set name vs = elim (parse_bool (value_of name (codes "false") vs)) [ none ↦ false | some b ↦ b ]

abbrev pub tap_flags : FlagSet
tap_flags =
    (codes "dir", text)
    ∷ (codes "exclude-pid", text)
    ∷ (codes "exclude-name", text)
    ∷ (codes "raw-dump", text)
    ∷ (codes "debug", boolean)
    ∷ []

-- How `runTap` goes on from its arguments: it ends the process, or calls `Run` with a configuration.
pub data TapStart : Type 0 where
  bad_arguments showed_help dir_required pid_error : TapStart
  start : Config → TapStart

-- `runTap` from the values of its flags on.
unfoldable pub tap_start : List (Bytes × Bytes) → TapStart
tap_start vs =
    let dir = value_of (codes "dir") [] vs in
    if eq_bytes dir []
    then dir_required
    else elim (parse_pids (value_of (codes "exclude-pid") [] vs)) [
      | none ↦ pid_error
      | some pids ↦ start (record {
        watch_dir = dir;
        exclude_pid = pids;
        exclude_name = parse_names (value_of (codes "exclude-name") [] vs);
        raw_dump_file = value_of (codes "raw-dump") [] vs;
        debug = is_set (codes "debug") vs;
      })
    ]

unfoldable pub run_tap : List Bytes → TapStart
run_tap args = elim (parse_flags tap_flags args) [
  | values vs ↦ tap_start vs
  | help ↦ showed_help
  | bad ↦ bad_arguments
]

-- `expandHome`; the home directory and the working directory are `none` for their errors.
unfoldable pub expand_home : Option Bytes → Option Bytes → Bytes → Option Bytes
expand_home home cwd p =
    if not (has_prefix p (codes "~"))
    then abs cwd p
    else elim home [ none ↦ none | some h ↦ some (join h (without_first p)) ]
  where
    without_first : Bytes → Bytes
    without_first [] = []
    without_first (c ∷ cs) = cs

-- The configuration that `runUI` passes to `ui.Run`.
pub record UiConfig : Type 0 where
  pub dir : Bytes
  pub addr : Bytes
  pub ring_size : ℤ
  pub raw_dump_file : Bytes
  pub debug : Bool
  pub auto_pause : Bool

pub data UiStart : Type 0 where
  bad_ui_arguments showed_ui_help ui_dir_required abs_error not_a_directory : UiStart
  serve : UiConfig → UiStart

module _ (parse_int : Bytes → Option ℤ) (cwd : Option Bytes) (is_directory : Bytes → Bool) where
  abbrev is_number : Bytes → Bool
  is_number s = elim (parse_int s) [ none ↦ false | some n ↦ true ]

  abbrev pub ui_flags : FlagSet
  ui_flags =
      (codes "dir", text)
      ∷ (codes "addr", text)
      ∷ (codes "buffer", number is_number)
      ∷ (codes "raw-dump", text)
      ∷ (codes "debug", boolean)
      ∷ (codes "auto-pause", boolean)
      ∷ []

  -- The integer of a flag, whose value has been tested if it was set; the default otherwise.
  abbrev int_of : ℤ → Bytes → ℤ
  int_of default [] = default
  int_of default (c ∷ cs) = elim (parse_int (c ∷ cs)) [ none ↦ default | some n ↦ n ]

  unfoldable pub ui_start : List (Bytes × Bytes) → UiStart
  ui_start vs =
      let dir = value_of (codes "dir") [] vs in
      if eq_bytes dir [] then ui_dir_required else elim (abs cwd dir) [
        | none ↦ abs_error
        | some path ↦
            if not (is_directory path)
            then not_a_directory
            else serve (record {
              dir = path;
              addr = value_of (codes "addr") (codes "127.0.0.1:7777") vs;
              ring_size = int_of (pos 10000) (value_of (codes "buffer") [] vs);
              raw_dump_file = value_of (codes "raw-dump") [] vs;
              debug = is_set (codes "debug") vs;
              auto_pause = is_set (codes "auto-pause") vs;
            })
      ]

  unfoldable pub run_ui : List Bytes → UiStart
  run_ui args = elim (parse_flags ui_flags args) [
    | values vs ↦ ui_start vs
    | help ↦ showed_ui_help
    | bad ↦ bad_ui_arguments
  ]
