-- ===== src/GoPath/Plain.antt =====
-- A test for plain names, for concrete paths.
use agentflash.Common.{Bool, true, not, ◌&&◌, List, [], ◌∷◌, ◌≡◌, arith, Bytes, eq_bytes, ◌==◌}
use agentflash.GoPath.{slash, dot, dot_dot}
use agentflash.GoPath.Clean.{All, HasNoSlash, IsName}

abbrev pub has_no_slash : Bytes → Bool
has_no_slash [] = true
has_no_slash (c ∷ cs) = not (c == slash) && has_no_slash cs

abbrev pub is_name : Bytes → Bool
is_name e =
    not (eq_bytes e []) && not (eq_bytes e dot) && not (eq_bytes e dot_dot) && has_no_slash e

abbrev pub are_names : List Bytes → Bool
are_names [] = true
are_names (e ∷ es) = is_name e && are_names es

has_no_slash_lem : (e : Bytes) → has_no_slash e ≡ true → HasNoSlash e
has_no_slash_lem [] h = tt
has_no_slash_lem (c ∷ cs) h = (ground arith, has_no_slash_lem cs (ground arith))

is_name-IsName : (e : Bytes) → is_name e ≡ true → IsName e
is_name-IsName e h = record {
  ne_nil = ground arith;
  ne_dot = ground arith;
  ne_dot_dot = ground arith;
  no_slash = has_no_slash_lem e (ground arith);
}

pub are_names-IsName : (es : List Bytes) → are_names es ≡ true → All IsName es
are_names-IsName [] h = tt
are_names-IsName (e ∷ es) h = (is_name-IsName e (ground arith), are_names-IsName es (ground arith))
