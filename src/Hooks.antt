-- ===== src/Hooks.antt =====
-- main.go: the `hooks` subcommand, which merges the hooks that post to the program's URL into a
-- settings file of Claude Code. `float64` gives the bits of an integer's float64, `parse` is
-- `json.Unmarshal` into a map (a document `null` leaves it nil) and `render` is
-- `json.MarshalIndent` of a map; `none` is an error. Our own entries are what marshalling and
-- unmarshalling gives for the struct tags of `hookEntry` and `hookCmd`; a byte of their texts that
-- is not part of valid UTF-8 becomes U+FFFD there.
pub mod Mentions
pub mod Merge
pub mod Idempotent
pub mod Apply
pub mod Start
mod Tests
use agentflash.Common.{
  ℕ, Bool, true, false, not, ◌&&◌, ◌||◌, Option, none, some, List, [], ◌∷◌, ◌++◌, Bytes, codes,
  zero, suc, ◌-◌, ltb, leb, ◌==◌, if◌then◌else◌, eq_bytes, contains,
}
use agentflash.Json.{
  Value, Values, Fields, string, number, array, object, empty, item, field, no_fields, get, put,
  as_string, as_array, as_object, string_or_empty,
}

pub record HookCmd : Type 0 where
  pub type : Bytes
  pub command : Bytes
  pub timeout : ℕ

pub record HookEntry : Type 0 where
  pub matcher : Bytes
  pub hooks : List HookCmd

-- `url` and `cmd` of `runHooks`
pub hook_url : Bytes → Bytes
hook_url addr = codes "http://" ++ addr ++ codes "/api/claude/event"

pub hook_command : Bytes → Bytes
hook_command addr =
    codes "curl -fsS -X POST "
    ++ hook_url addr
    ++ codes " -H 'Content-Type: application/json' --data-binary @-"

-- `mk` of `buildHooksMap`
abbrev pub entries_for : Bytes → Bytes → List HookEntry
entries_for cmd matcher =
    record {
      matcher = matcher;
      hooks = record { type = codes "command"; command = cmd; timeout = 5 } ∷ [];
    }
    ∷ []

-- The bytes of the character of UTF-8 that a text begins with; 0 where it begins with none, as
-- `utf8.DecodeRuneInString` reports it.
abbrev is_within : ℕ → ℕ → ℕ → Bool
is_within low high c = leb low c && leb c high

pub rune_size : Bytes → ℕ
rune_size [] = 0
rune_size (a ∷ []) = if ltb a 128 then 1 else 0
rune_size (a ∷ b ∷ []) =
    if ltb a 128 then 1 else if is_within 194 223 a && is_within 128 191 b then 2 else 0
rune_size (a ∷ b ∷ c ∷ []) =
    if ltb a 128
    then 1
    else if is_within 194 223 a && is_within 128 191 b
    then 2
    else if (a == 224 && is_within 160 191 b
          || is_within 225 236 a && is_within 128 191 b
          || a == 237 && is_within 128 159 b
          || is_within 238 239 a && is_within 128 191 b)
        && is_within 128 191 c
    then 3
    else 0
rune_size (a ∷ b ∷ c ∷ d ∷ s) =
    if ltb a 128
    then 1
    else if is_within 194 223 a && is_within 128 191 b
    then 2
    else if (a == 224 && is_within 160 191 b
          || is_within 225 236 a && is_within 128 191 b
          || a == 237 && is_within 128 159 b
          || is_within 238 239 a && is_within 128 191 b)
        && is_within 128 191 c
    then 3
    else if (a == 240 && is_within 144 191 b
          || is_within 241 243 a && is_within 128 191 b
          || a == 244 && is_within 128 143 b)
        && is_within 128 191 c
        && is_within 128 191 d
    then 4
    else 0

-- A text marshalled and unmarshalled: each byte that is not part of valid UTF-8 becomes U+FFFD. The
-- first argument counts the bytes left of the character under way.
pub coerce_rest : ℕ → Bytes → Bytes
coerce_rest n [] = []
coerce_rest (suc n) (c ∷ cs) = c ∷ coerce_rest n cs
coerce_rest zero (c ∷ cs) =
    let size = rune_size (c ∷ cs) in
    let rest = coerce_rest (size - 1) cs in if size == 0 then 239 ∷ 191 ∷ 189 ∷ rest else c ∷ rest

pub coerce_utf8 : Bytes → Bytes
coerce_utf8 s = coerce_rest 0 s

-- A Go map is the list of its keys and values in the order in which a loop meets them.
pub build_hooks_map : Bytes → List (Bytes × List HookEntry)
build_hooks_map cmd =
    (codes "PreToolUse", entries_for cmd (codes ".*"))
    ∷ (codes "PostToolUse", entries_for cmd (codes ".*"))
    ∷ (codes "UserPromptSubmit", entries_for cmd [])
    ∷ (codes "SessionStart", entries_for cmd [])
    ∷ (codes "Stop", entries_for cmd [])
    ∷ (codes "Notification", entries_for cmd [])
    ∷ (codes "SubagentStop", entries_for cmd [])
    ∷ []

-- The loop over an entry's hooks.
pub any_references : Bytes → Values → Bool
any_references url empty = false
any_references url (item h hs) = elim (as_object (some h)) [
  | none ↦ any_references url hs
  | some hm ↦
      contains (string_or_empty (as_string (get (codes "command") hm))) url || any_references url hs
]

pub entry_references_url : Bytes → Value → Bool
entry_references_url url entry = elim (as_object (some entry)) [
  | none ↦ false
  | some em ↦ elim (as_array (get (codes "hooks") em)) [
    | none ↦ false
    | some hooks ↦ any_references url hooks
  ]
]

-- The loop that keeps the entries of others.
pub keep_unrelated : Bytes → Values → Values
keep_unrelated url empty = empty
keep_unrelated url (item e es) =
    if entry_references_url url e then keep_unrelated url es else item e (keep_unrelated url es)

-- `v, _ := x.([]any)` and `v, _ := x.(map[string]any)`, nil as the empty one.
abbrev pub entries_or_empty : Option Values → Values
entries_or_empty none = empty
entries_or_empty (some vs) = vs

abbrev pub fields_or_empty : Option Fields → Fields
fields_or_empty none = no_fields
fields_or_empty (some fs) = fs

module _ (float64 : ℕ → ℕ) where
  -- A `hookCmd` and a `hookEntry` marshalled and unmarshalled; zero values with omitempty are left
  -- out.
  abbrev pub cmd_value : HookCmd → Value
  cmd_value c = object (
      field (codes "type") (string (coerce_utf8 c.type)) (
        field (codes "command") (string (coerce_utf8 c.command)) (
          if c.timeout == 0
          then no_fields
          else field (codes "timeout") (number (float64 c.timeout)) no_fields)))

  abbrev pub cmd_values : List HookCmd → Values
  cmd_values [] = empty
  cmd_values (c ∷ cs) = item (cmd_value c) (cmd_values cs)

  abbrev pub entry_value : HookEntry → Value
  entry_value e =
      let hooks = field (codes "hooks") (array (cmd_values e.hooks)) no_fields in
      object (
        if eq_bytes e.matcher []
        then hooks
        else field (codes "matcher") (string (coerce_utf8 e.matcher)) hooks)

  -- The loop that appends our entries.
  pub append_entries : Values → List HookEntry → Values
  append_entries empty [] = empty
  append_entries empty (e ∷ es) = item (entry_value e) (append_entries empty es)
  append_entries (item v vs) es = item v (append_entries vs es)

  -- One round of the loop over `ours`, on the entries of its event.
  pub merge_entries : Bytes → Option Value → List HookEntry → Values
  merge_entries url existing entries =
      append_entries (keep_unrelated url (entries_or_empty (as_array existing))) entries

  pub merge_events : Bytes → List (Bytes × List HookEntry) → Fields → Fields
  merge_events url [] hooks = hooks
  merge_events url ((evt, entries) ∷ ours) hooks =
      merge_events url ours (put evt (array (merge_entries url (get evt hooks) entries)) hooks)

  -- What `applyHooks` makes of the settings.
  pub merge : Bytes → List (Bytes × List HookEntry) → Fields → Fields
  merge url ours settings =
      let hooks = fields_or_empty (as_object (get (codes "hooks") settings)) in
      put (codes "hooks") (object (merge_events url ours hooks)) settings

-- `os.ReadFile`
pub data ReadResult : Type 0 where
  contents : Bytes → ReadResult
  not_exist read_failure : ReadResult

-- How `applyHooks` can end: the errors in the order of the code, no change, or new contents of the
-- file. `wrote` is what the caller reports as changed.
pub data Applied : Type 0 where
  mkdir_error parse_error read_error marshal_error write_error unchanged : Applied
  wrote : Bytes → Applied

abbrev pub newline : Bytes
newline = 10 ∷ []

module _ (float64 : ℕ → ℕ) (parse : Bytes → Option (Option Fields))
    (render : Fields → Option Bytes) where
  -- `old` is what `ReadFile` gives beside its result, for the comparison at the end.
  pub save : Bytes → List (Bytes × List HookEntry) → Bytes → Bool → Option Fields → Applied
  save url ours old write_ok settings =
      elim (render (merge float64 url ours (fields_or_empty settings))) [
        | none ↦ marshal_error
        | some b ↦
            let out = b ++ newline in
            if not (eq_bytes old []) && eq_bytes old out
            then unchanged
            else if write_ok
            then wrote out
            else write_error
      ]

  pub apply_hooks : Bytes → List (Bytes × List HookEntry) → Bool → ReadResult → Bool → Applied
  apply_hooks url ours false file write_ok = mkdir_error
  apply_hooks url ours true (contents []) write_ok = save url ours [] write_ok none
  apply_hooks url ours true (contents (c ∷ cs)) write_ok = elim (parse (c ∷ cs)) [
    | none ↦ parse_error
    | some settings ↦ save url ours (c ∷ cs) write_ok settings
  ]
  apply_hooks url ours true not_exist write_ok = save url ours [] write_ok none
  apply_hooks url ours true read_failure write_ok = read_error
