-- ===== src/Json.antt =====
-- What encoding/json decodes a document into when the target is `any`: the values that
-- internal/ui/claudehook.go and main.go look into. A number is the 64 bits of its float64.
pub mod Maps
use agentflash.Common.{
  ℕ, Bool, true, false, Option, none, some, List, [], ◌∷◌, Bytes, eq_bytes, if◌then◌else◌,
}

mutual
  pub data Value : Type 0 where
    null : Value
    bool : Bool → Value
    number : ℕ → Value
    string : Bytes → Value
    array : Values → Value
    object : Fields → Value

  -- `[]any`
  pub data Values : Type 0 where
    empty : Values
    item : Value → Values → Values

  -- `map[string]any`: no key comes twice.
  pub data Fields : Type 0 where
    no_fields : Fields
    field : Bytes → Value → Fields → Fields

-- `m[k]`, with `none` for a key that is not there.
unfoldable pub get : Bytes → Fields → Option Value
get k no_fields = none
get k (field j v fs) = if eq_bytes k j then some v else get k fs

-- `m[k] = v`
unfoldable pub put : Bytes → Value → Fields → Fields
put k v no_fields = field k v no_fields
put k v (field j w fs) = if eq_bytes k j then field j v fs else field j w (put k v fs)

-- `v.(string)` and the like: `none` where the assertion fails.
unfoldable pub as_string : Option Value → Option Bytes
as_string (some (string s)) = some s
as_string _ = none

unfoldable pub as_array : Option Value → Option Values
as_array (some (array vs)) = some vs
as_array _ = none

unfoldable pub as_object : Option Value → Option Fields
as_object (some (object fs)) = some fs
as_object _ = none

-- The first value of `s, _ := v.(string)`
unfoldable pub string_or_empty : Option Bytes → Bytes
string_or_empty none = []
string_or_empty (some s) = s
