-- ===== src/Flags/Tests.antt =====
-- The command line at concrete inputs.
use agentflash.Common.{
  Bool, List, [], ◌∷◌, ◌≡◌, refl, Option, none, some, true, false, Bytes, codes, eq_bytes,
  has_prefix, drop, arith,
}
use agentflash.Common.Int.{ℤ, pos, negsuc}
use agentflash.GoPath.{
  split_at, base, elems, last_or, abs, join, clean, join_elems, clean_elems, clean_elem, go_up,
  unrooted,
}
use agentflash.Tap.{Config, make_filter, has_pid, has_name}
use agentflash.Flags.Parse.{
  parse_flags, form_of, form_of_name, cut_value, declared, fits, parse_bool, value_of,
}
use agentflash.Flags.Start.{
  run_tap, start, run_ui, ui_start, serve, not_a_directory, ui_dir_required, bad_ui_arguments,
  showed_ui_help, expand_home,
}
use agentflash.Flags.Spawn.{IsListName, run_tap-spawn_args}
use agentflash.Flags.{
  dispatch, tap, ui, parse_names, parse_pids, names_of, pids_of, trim_space, trim_by, space_size,
  space_size_back, atoi, digits_value, itoa, itoa_loop, spawn_args,
}

lists :
    (parse_names (codes " agentflash , ,sh") ≡ codes "agentflash" ∷ codes "sh" ∷ [])
    × (parse_pids (codes "12, -3,+4") ≡ some (pos 12 ∷ negsuc 2 ∷ pos 4 ∷ []))
    × (parse_pids (codes "12,x") ≡ none)
    × (parse_pids (codes "9223372036854775808") ≡ none)
    × (dispatch (codes "__tap" ∷ codes "--debug" ∷ []) ≡ tap (codes "--debug" ∷ []))
    × (dispatch (codes "--dir" ∷ []) ≡ ui)
unfolding parse_names parse_pids names_of pids_of trim_space trim_by space_size space_size_back atoi
    digits_value split_at eq_bytes dispatch
lists = (refl, refl, refl, refl, refl, refl)

-- U+00A0 before a name and U+3000 behind it are trimmed.
wide_spaces : trim_space (194 ∷ 160 ∷ 97 ∷ 160 ∷ 227 ∷ 128 ∷ 128 ∷ []) ≡ 97 ∷ 160 ∷ []
unfolding trim_space trim_by space_size space_size_back
wide_spaces = refl

arguments :
    spawn_args (codes "/bin/agentflash") (codes "/w") 42 [] true
    ≡ codes "--"
      ∷ codes "/bin/agentflash"
      ∷ codes "__tap"
      ∷ codes "--dir"
      ∷ codes "/w"
      ∷ codes "--exclude-pid"
      ∷ codes "42"
      ∷ codes "--exclude-name"
      ∷ codes "agentflash"
      ∷ codes "--debug"
      ∷ []
unfolding spawn_args itoa itoa_loop base elems last_or split_at eq_bytes
arguments = refl

abbrev pub self : Bytes
self = codes "/bin/agentflash"

pub self-IsListName : IsListName (base self)
unfolding base elems last_or split_at trim_space trim_by space_size space_size_back
self-IsListName = record {
  not_empty = λ e. cc;
  no_comma = (refl, (refl, (refl, (refl, (refl, (refl, (refl, (refl, (refl, (refl, tt))))))))));
  trimmed = refl;
}

run_tap-spawn_args_example :
    (args : List Bytes) × (cfg : Config) × (dispatch
        (drop 2 (spawn_args self (codes "/w") 42 [] true))
      ≡ tap args)
    × (run_tap args ≡ start cfg)
    × (cfg.watch_dir ≡ codes "/w")
    × (cfg.raw_dump_file ≡ [])
    × (cfg.debug ≡ true)
    × (has_pid (pos 42) (make_filter cfg (codes "/w") 77 76).pids ≡ true)
    × (has_name (base self) (make_filter cfg (codes "/w") 77 76).names ≡ true)
run_tap-spawn_args_example =
    run_tap-spawn_args self (codes "/w") 42 [] true (codes "/w") 77 76 (λ e. cc) self-IsListName
      (omega arith)

-- Stands for `strconv.ParseInt`.
abbrev parse_int : Bytes → Option ℤ
parse_int = atoi

-- The flags of the UI: a value behind `=`, one dash, a Boolean flag, what follows the flags, and
-- the ways in which they are refused.
ui_arguments :
    (let cwd = some (codes "/home") in
      let is_dir : Bytes → Bool = λ p. eq_bytes p (codes "/home/w") in
      (run_ui parse_int cwd is_dir
          (codes "--dir=w" ∷ codes "-buffer" ∷ codes "5" ∷ codes "--debug" ∷ codes "x" ∷ [])
        ≡ serve (record {
          dir = codes "/home/w";
          addr = codes "127.0.0.1:7777";
          ring_size = pos 5;
          raw_dump_file = [];
          debug = true;
          auto_pause = false;
        }))
      × (run_ui parse_int cwd is_dir (codes "--dir" ∷ codes "/v" ∷ []) ≡ not_a_directory)
      × (run_ui parse_int cwd is_dir [] ≡ ui_dir_required)
      × (run_ui parse_int cwd is_dir (codes "--buffer" ∷ codes "x" ∷ []) ≡ bad_ui_arguments)
      × (run_ui parse_int cwd is_dir (codes "-help" ∷ []) ≡ showed_ui_help))
unfolding run_ui ui_start parse_flags form_of form_of_name cut_value declared fits parse_bool
    value_of eq_bytes atoi digits_value abs clean split_at join join_elems clean_elems unrooted
    clean_elem go_up has_prefix
ui_arguments = (refl, refl, refl, refl, refl)

home :
    (expand_home (some (codes "/root")) none (codes "~/.claude") ≡ some (codes "/root/.claude"))
    × (expand_home none none (codes "/etc/x") ≡ some (codes "/etc/x"))
unfolding expand_home has_prefix abs clean split_at join join_elems clean_elems unrooted clean_elem
    eq_bytes
home = (refl, refl)
