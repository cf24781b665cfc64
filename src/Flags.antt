-- ===== src/Flags.antt =====
-- main.go and internal/ui/spawn.go: the choice of the subcommand, the lists of process IDs and
-- names that the UI passes to the tap it starts, and the arguments it starts it with.
pub mod Parse
pub mod Start
pub mod Spawn
pub mod Pids
pub mod Tests
use agentflash.Common.{
  ℕ, zero, suc, ◌+◌, ◌-◌, ◌*◌, ◌/◌, ◌%◌, ◌^◌, Bool, true, false, not, ◌&&◌, ◌||◌, Option, none,
  some, List, [], ◌∷◌, ◌++◌, reverse, Bytes, codes, ltb, leb, ◌==◌, if◌then◌else◌, eq_bytes,
}
use agentflash.Common.Int.{ℤ, pos, negsuc}
use agentflash.GoPath.{split_at, base}

pub data Command : Type 0 where
  help version ui : Command
  tap hooks : List Bytes → Command

-- `main` on the arguments after the program's name; `tap` and `hooks` get those after theirs.
pub dispatch : List Bytes → Command
dispatch [] = ui
dispatch (a ∷ rest) =
    if eq_bytes a (codes "-h") || eq_bytes a (codes "--help") || eq_bytes a (codes "help")
    then help
    else if eq_bytes a (codes "--version")
        || eq_bytes a (codes "-version")
        || eq_bytes a (codes "version")
    then version
    else if eq_bytes a (codes "__tap")
    then tap rest
    else if eq_bytes a (codes "hooks")
    then hooks rest
    else ui

abbrev pub comma : ℕ
comma = b','

abbrev pub is_space : ℕ → Bool
is_space c = c == 32 || (leb 9 c && leb c 13)

-- The two and three bytes of the white space beyond ASCII, in UTF-8.
abbrev two_spaces : ℕ → ℕ → Bool
two_spaces a b = a == 194 && (b == 133 || b == 160)

abbrev three_spaces : ℕ → ℕ → ℕ → Bool
three_spaces a b c =
    a == 225 && b == 154 && c == 128
    || a == 226 && b == 128 && (leb 128 c && leb c 138 || c == 168 || c == 169 || c == 175)
    || a == 226 && b == 129 && c == 159
    || a == 227 && b == 128 && c == 128

abbrev space_sized : Bool → Bool → Bool → ℕ
space_sized one two three = if one then 1 else if two then 2 else if three then 3 else 0

-- The bytes of the white space that a text begins with, 0 without one.
pub space_size : Bytes → ℕ
space_size [] = 0
space_size (a ∷ []) = space_sized (is_space a) false false
space_size (a ∷ b ∷ []) = space_sized (is_space a) (two_spaces a b) false
space_size (a ∷ b ∷ c ∷ s) = space_sized (is_space a) (two_spaces a b) (three_spaces a b c)

-- The same for a text that is read from its end.
pub space_size_back : Bytes → ℕ
space_size_back [] = 0
space_size_back (a ∷ []) = space_sized (is_space a) false false
space_size_back (a ∷ b ∷ []) = space_sized (is_space a) (two_spaces b a) false
space_size_back (a ∷ b ∷ c ∷ s) = space_sized (is_space a) (two_spaces b a) (three_spaces c b a)

-- The first number counts the bytes left of the white space under way.
pub trim_by : (Bytes → ℕ) → ℕ → Bytes → Bytes
trim_by size n [] = []
trim_by size (suc n) (c ∷ cs) = trim_by size n cs
trim_by size zero (c ∷ cs) =
    let rest = trim_by size (size (c ∷ cs) - 1) cs in if size (c ∷ cs) == 0 then c ∷ cs else rest

-- `strings.TrimSpace`
pub trim_space : Bytes → Bytes
trim_space s = reverse (trim_by space_size_back 0 (reverse (trim_by space_size 0 s)))

abbrev pub is_digit : ℕ → Bool
is_digit c = leb b'0' c && leb c b'9'

-- The number that decimal digits stand for, going on from `n`.
unfoldable pub digits_value : ℕ → Bytes → Option ℕ
digits_value n [] = some n
digits_value n (c ∷ cs) = if is_digit c then digits_value (n * 10 + (c - b'0')) cs else none

-- `strconv.Atoi`: an optional sign and at least one digit, in the range of a 64-bit int.
abbrev pub signed : Bool → Bytes → Option ℤ
signed minus [] = none
signed minus (c ∷ cs) = elim (digits_value 0 (c ∷ cs)) [
  | none ↦ none
  | some n ↦
      if not minus
      then if ltb n (2 ^ 63) then some (pos n) else none
      else if n == 0
      then some (pos 0)
      else if leb n (2 ^ 63)
      then some (negsuc (n - 1))
      else none
]

unfoldable pub atoi : Bytes → Option ℤ
atoi [] = none
atoi (c ∷ cs) =
    if c == b'-'
    then signed true cs
    else if c == b'+'
    then signed false cs
    else signed false (c ∷ cs)

names_of : List Bytes → List Bytes
names_of [] = []
names_of (p ∷ ps) =
    let name = trim_space p in if not (eq_bytes name []) then name ∷ names_of ps else names_of ps

pub parse_names : Bytes → List Bytes
parse_names csv = if eq_bytes csv [] then [] else names_of (split_at comma csv)

pids_of : List Bytes → Option (List ℤ)
pids_of [] = some []
pids_of (p ∷ ps) =
    let rest = pids_of ps in
    if eq_bytes (trim_space p) [] then rest else elim (atoi (trim_space p)) [
      | none ↦ none
      | some n ↦ elim rest [ none ↦ none | some ns ↦ some (n ∷ ns) ]
    ]

-- `none` is the error for a text that is not a number.
pub parse_pids : Bytes → Option (List ℤ)
parse_pids csv = if eq_bytes csv [] then some [] else pids_of (split_at comma csv)

-- `strconv.Itoa` of a process ID, on fuel: each round leaves a smaller number, so n rounds are
-- enough.
unfoldable pub itoa_loop : ℕ → ℕ → Bytes
itoa_loop zero n = (b'0' + n % 10) ∷ []
itoa_loop (suc fuel) n =
    let rest = itoa_loop fuel (n / 10) in
    if ltb n 10 then (b'0' + n) ∷ [] else rest ++ (b'0' + n % 10) ∷ []

unfoldable pub itoa : ℕ → Bytes
itoa n = itoa_loop n n

-- The arguments of the `sudo` that SpawnTap starts, for the program `self`.
pub spawn_args : Bytes → Bytes → ℕ → Bytes → Bool → List Bytes
spawn_args self dir pid raw_dump_file debug =
    (codes "--"
      ∷ self
      ∷ codes "__tap"
      ∷ codes "--dir"
      ∷ dir
      ∷ codes "--exclude-pid"
      ∷ itoa pid
      ∷ codes "--exclude-name"
      ∷ base self
      ∷ [])
    ++ (if not (eq_bytes raw_dump_file []) then codes "--raw-dump" ∷ raw_dump_file ∷ [] else [])
    ++ (if debug then codes "--debug" ∷ [] else [])
