-- ===== src/Hooks/Start.antt =====
-- main.go: runHooks, which prints the block of hooks or merges it into the settings file. The two
-- messages on standard error are left out.
use agentflash.Common.{
  ℕ, Bool, not, Option, none, some, List, [], ◌∷◌, ◌++◌, Bytes, codes, if◌then◌else◌,
}
use agentflash.Json.{Fields}
use agentflash.Flags.Parse.{FlagSet, text, boolean, values, help, bad, parse_flags, value_of}
use agentflash.Flags.Start.{is_set, expand_home}
use agentflash.Hooks.{
  HookEntry, hook_url, hook_command, build_hooks_map, ReadResult, Applied, newline, apply_hooks,
}

-- The file system: whether the directory of a path can be made, the file at it, and whether it can
-- be written.
pub record Files : Type 0 where
  pub mkdir_ok : Bytes → Bool
  pub read_file : Bytes → ReadResult
  pub write_ok : Bytes → Bool

-- How `runHooks` can end: refused by its flags, with the block printed, or with the outcome of
-- `applyHooks` on a file.
pub data HooksRun : Type 0 where
  bad_arguments showed_help marshal_error home_error : HooksRun
  printed : Bytes → HooksRun
  applied : Bytes → Applied → HooksRun

abbrev pub hooks_flags : FlagSet
hooks_flags = (codes "addr", text) ∷ (codes "apply", boolean) ∷ (codes "path", text) ∷ []

-- What is printed. `render_block` is `json.MarshalIndent` of a map with the one key `hooks` and this
-- map of events, whose structs keep the order of their fields.
unfoldable pub print_block :
    (List (Bytes × List HookEntry) → Option Bytes) → List (Bytes × List HookEntry) → HooksRun
print_block render_block ours = elim (render_block ours) [
  | none ↦ marshal_error
  | some out ↦ printed (out ++ newline)
]

module _ (float64 : ℕ → ℕ) (parse : Bytes → Option (Option Fields)) (render : Fields → Option Bytes)
    (render_block : List (Bytes × List HookEntry) → Option Bytes) (home cwd : Option Bytes)
    (files : Files) where
  pub apply_to : Bytes → List (Bytes × List HookEntry) → Option Bytes → HooksRun
  apply_to url ours none = home_error
  apply_to url ours (some target) = applied target (
      apply_hooks float64 parse render url ours (files.mkdir_ok target) (files.read_file target)
        (files.write_ok target))

  -- `runHooks` from the values of its flags on.
  unfoldable pub hooks_start : List (Bytes × Bytes) → HooksRun
  hooks_start vs =
      let addr = value_of (codes "addr") (codes "127.0.0.1:7777") vs in
      let ours = build_hooks_map (hook_command addr) in
      if not (is_set (codes "apply") vs)
      then print_block render_block ours
      else apply_to (hook_url addr) ours
          (expand_home home cwd (value_of (codes "path") (codes "~/.claude/settings.json") vs))

  pub run_hooks : List Bytes → HooksRun
  run_hooks args = elim (parse_flags hooks_flags args) [
    | values vs ↦ hooks_start vs
    | help ↦ showed_help
    | bad ↦ bad_arguments
  ]
