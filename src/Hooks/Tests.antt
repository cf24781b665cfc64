-- ===== src/Hooks/Tests.antt =====
-- main_test.go, and the theorems of the merge at concrete inputs.
use agentflash.Common.{
  ℕ, true, Option, none, some, List, [], ◌∷◌, ◌++◌, ◌≡◌, refl, Bytes, codes, eq_bytes, contains,
  has_prefix,
}
use agentflash.Json.{
  Value, Values, Fields, string, array, object, empty, item, field, no_fields, get, as_string,
  as_array, as_object, string_or_empty,
}
use agentflash.Hooks.{
  entry_value, rune_size, coerce_rest, coerce_utf8, HookEntry, hook_url, hook_command,
  build_hooks_map, any_references, entry_references_url, keep_unrelated, merge, contents, not_exist,
  wrote, unchanged, newline, save, apply_hooks, entries_for,
}
use agentflash.Hooks.Merge.{hooks_of, HasEntries, get-merge}
use agentflash.Hooks.Mentions.{Merged, values_of}
use agentflash.Hooks.Idempotent.{IsValidText, merge_idempotent}
use agentflash.Flags.Parse.{parse_bool, value_of}
use agentflash.Hooks.Start.{Files, hooks_start, print_block, printed}
use agentflash.Hooks.Apply.{settings_of, IsMerge, apply_hooks-wrote, apply_hooks_twice}

abbrev addr : Bytes
addr = codes "h:1"

-- Stands for the conversion of integers to float64.
abbrev bits : ℕ → ℕ
bits n = n

abbrev hook : Bytes → Value
hook cmd = object (
    field (codes "type") (string (codes "command"))
      (field (codes "command") (string cmd) no_fields))

abbrev unrelated : Value
unrelated = object (field (codes "hooks") (array (item (hook (codes "echo")) empty)) no_fields)

-- An entry with a command of another tool and one that posts to the URL.
abbrev mixed : Value
mixed = object (
    field (codes "hooks")
      (array
        (item (hook (codes "echo")) (item (hook (codes "curl http://h:1/api/claude/event")) empty)))
      no_fields)

abbrev settings : Fields
settings = field (codes "theme") (string (codes "dark")) (
    field (codes "hooks")
      (object (field (codes "Stop") (array (item unrelated (item mixed empty))) no_fields))
      no_fields)

-- Of these entries the one that mentions the URL goes, with its other command.
kept : keep_unrelated (hook_url addr) (item unrelated (item mixed empty)) ≡ item unrelated empty
unfolding keep_unrelated entry_references_url any_references get as_object as_array as_string
    string_or_empty hook_url contains has_prefix eq_bytes
kept = refl

abbrev before : List (Bytes × List HookEntry)
before = (codes "PreToolUse", entries_for (codes "c") []) ∷ []

abbrev stop_entries : List HookEntry
stop_entries = entries_for (codes "c") []

get-merge_example :
    (let merged =
        merge bits (hook_url addr) (before ++ (codes "Stop", stop_entries) ∷ []) settings in
      (get (codes "theme") merged ≡ get (codes "theme") settings)
      × (get (codes "Other") (hooks_of bits (hook_url addr) merged)
          ≡ get (codes "Other") (hooks_of bits (hook_url addr) settings))
      × (old new : Values) × HasEntries bits
          (hook_url addr)
          (get (codes "Stop") (hooks_of bits (hook_url addr) settings))
          old
      × (get (codes "Stop") (hooks_of bits (hook_url addr) merged) ≡ some (array new))
      × Merged (hook_url addr) (values_of (entry_value bits) stop_entries) old new)
unfolding eq_bytes hook_url
get-merge_example =
    get-merge bits (hook_url addr) (codes "theme") (codes "Other") (codes "Stop") stop_entries
      before [] settings (λ e. cc) refl (refl, (refl, tt)) ((refl, tt), (tt, tt))

valid : IsValidText (hook_command addr)
unfolding coerce_utf8 coerce_rest rune_size hook_command hook_url
valid = refl

-- A byte that is no UTF-8 and a character that is, marshalled and unmarshalled.
coerced : coerce_utf8 (255 ∷ 194 ∷ 163 ∷ 65 ∷ []) ≡ 239 ∷ 191 ∷ 189 ∷ 194 ∷ 163 ∷ 65 ∷ []
unfolding coerce_utf8 coerce_rest rune_size
coerced = refl

merge_idempotent_example :
    merge bits
      (hook_url addr)
      (build_hooks_map (hook_command addr))
      (merge bits (hook_url addr) (build_hooks_map (hook_command addr)) settings)
    ≡ merge bits (hook_url addr) (build_hooks_map (hook_command addr)) settings
merge_idempotent_example = merge_idempotent bits addr settings valid

-- Stands for `json.MarshalIndent`.
abbrev render : Fields → Option Bytes
render fs = some (codes "{}")

-- Stands for `json.Unmarshal`, on the document that `render` gives.
abbrev parse : Bytes → Option (Option Fields)
parse b = some (some (merge bits (hook_url addr) (build_hooks_map (hook_command addr)) no_fields))

fresh :
    apply_hooks bits parse render
      (hook_url addr)
      (build_hooks_map (hook_command addr))
      true
      not_exist
      true
    ≡ wrote (codes "{}" ++ newline)
unfolding apply_hooks save eq_bytes
fresh = refl

apply_hooks-wrote_example :
    (s : Option Fields) × (settings_of bits parse render not_exist ≡ some s)
    × IsMerge bits parse render
        (hook_url addr)
        (build_hooks_map (hook_command addr))
        s
        (codes "{}" ++ newline)
apply_hooks-wrote_example =
    apply_hooks-wrote bits parse render (hook_url addr) (build_hooks_map (hook_command addr)) true
      not_exist true (codes "{}" ++ newline) fresh

apply_hooks_twice_example :
    apply_hooks bits parse render
      (hook_url addr)
      (build_hooks_map (hook_command addr))
      true
      (contents (codes "{}" ++ newline))
      true
    ≡ unchanged
apply_hooks_twice_example =
    apply_hooks_twice bits parse render addr not_exist true true true none (codes "{}" ++ newline)
      valid refl fresh refl

abbrev files : Files
files = record { mkdir_ok = λ path. true; read_file = λ path. not_exist; write_ok = λ path. true }

abbrev given : List (Bytes × Bytes)
given = (codes "addr", addr) ∷ []

prints :
    hooks_start bits parse render
      (λ ours. some (codes "{}"))
      (some (codes "/root"))
      none
      files
      given
    ≡ printed (codes "{}" ++ newline)
unfolding hooks_start print_block value_of parse_bool eq_bytes
prints = refl
