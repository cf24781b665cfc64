-- ===== src/Flags/Parse.antt =====
-- Package flag of Go as far as main.go uses it: flags of strings, Booleans and integers in a
-- FlagSet, which `Parse` sets one after the other from the arguments.
use agentflash.Common.{
  Bool, true, false, not, ◌||◌, Option, none, some, List, [], ◌∷◌, Bytes, codes, ◌==◌,
  if◌then◌else◌, eq_bytes,
}

-- What `fs.String`, `fs.Bool` and `fs.Int` declare. An integer comes with the test of its syntax.
pub data Flag : Type 0 where
  text boolean : Flag
  number : (Bytes → Bool) → Flag

abbrev pub FlagSet : Type 0
FlagSet = List (Bytes × Flag)

unfoldable pub declared : Bytes → FlagSet → Option Flag
declared name [] = none
declared name ((n, k) ∷ fs) = if eq_bytes name n then some k else declared name fs

-- The forms of an argument: the last is a flag with its name, and its value behind a `=`.
pub data Form : Type 0 where
  not_flag terminator bad_syntax : Form
  named : Bytes → Option Bytes → Form

-- The name up to the first `=` and the value behind it.
unfoldable pub cut_value : Bytes → Bytes × Option Bytes
cut_value [] = ([], none)
cut_value (c ∷ cs) =
    let (name, value) = cut_value cs in if c == b'=' then ([], some cs) else (c ∷ name, value)

-- A name cannot be empty or begin with `-` or `=`, and its first byte is not a `=`.
unfoldable pub form_of_name : Bytes → Form
form_of_name [] = bad_syntax
form_of_name (c ∷ cs) =
    let (name, value) = cut_value cs in
    if c == b'-' || c == b'=' then bad_syntax else named (c ∷ name) value

unfoldable pub form_of : Bytes → Form
form_of [] = not_flag
form_of (c ∷ []) = not_flag
form_of (c ∷ d ∷ []) =
    if not (c == b'-') then not_flag else if d == b'-' then terminator else form_of_name (d ∷ [])
form_of (c ∷ d ∷ e ∷ cs) =
    if not (c == b'-')
    then not_flag
    else if d == b'-'
    then form_of_name (e ∷ cs)
    else form_of_name (d ∷ e ∷ cs)

-- `strconv.ParseBool`
unfoldable pub parse_bool : Bytes → Option Bool
parse_bool s =
    if eq_bytes s (codes "1")
      || eq_bytes s (codes "t")
      || eq_bytes s (codes "T")
      || eq_bytes s (codes "true")
      || eq_bytes s (codes "TRUE")
      || eq_bytes s (codes "True")
    then some true
    else if eq_bytes s (codes "0")
        || eq_bytes s (codes "f")
        || eq_bytes s (codes "F")
        || eq_bytes s (codes "false")
        || eq_bytes s (codes "FALSE")
        || eq_bytes s (codes "False")
    then some false
    else none

-- Does a value fit its flag?
unfoldable pub fits : Flag → Bytes → Bool
fits text value = true
fits boolean value = elim (parse_bool value) [ none ↦ false | some b ↦ true ]
fits (number is_number) value = is_number value

-- The values set, in their order; `help` and `bad` end the process.
pub data Parsed : Type 0 where
  values : List (Bytes × Bytes) → Parsed
  help bad : Parsed

abbrev pub and_set : Bytes → Bytes → Parsed → Parsed
and_set name value (values vs) = values ((name, value) ∷ vs)
and_set name value help = help
and_set name value bad = bad

-- What becomes of a flag that has its value.
abbrev pub set_flag : Flag → Bytes → Bytes → Parsed → Parsed
set_flag k name value rest = if fits k value then and_set name value rest else bad

-- A flag that is not declared.
abbrev pub unknown : Bytes → Parsed
unknown name = if eq_bytes name (codes "help") || eq_bytes name (codes "h") then help else bad

abbrev pub is_boolean : Flag → Bool
is_boolean boolean = true
is_boolean text = false
is_boolean (number is_number) = false

-- `Parse`: the first argument that is no flag ends the flags.
unfoldable pub parse_flags : FlagSet → List Bytes → Parsed
parse_flags fs [] = values []
parse_flags fs (a ∷ []) = elim (form_of a) [
  | not_flag ↦ values []
  | terminator ↦ values []
  | bad_syntax ↦ bad
  | named name given ↦ elim (declared name fs) [
    | none ↦ unknown name
    | some k ↦ elim given [
      | some value ↦ set_flag k name value (values [])
      | none ↦ if is_boolean k then set_flag k name (codes "true") (values []) else bad
    ]
  ]
]
parse_flags fs (a ∷ b ∷ rest) =
    let without_b = parse_flags fs rest in
    let with_b = parse_flags fs (b ∷ rest) in
    elim (form_of a) [
      | not_flag ↦ values []
      | terminator ↦ values []
      | bad_syntax ↦ bad
      | named name given ↦ elim (declared name fs) [
        | none ↦ unknown name
        | some k ↦ elim given [
          | some value ↦ set_flag k name value with_b
          | none ↦
              if is_boolean k
              then set_flag k name (codes "true") with_b
              else set_flag k name b without_b
        ]
      ]
    ]

-- The value of a flag after `Parse`: the last one set, or its default.
unfoldable pub value_of : Bytes → Bytes → List (Bytes × Bytes) → Bytes
value_of name default [] = default
value_of name default ((n, v) ∷ vs) =
    if eq_bytes name n then value_of name v vs else value_of name default vs
