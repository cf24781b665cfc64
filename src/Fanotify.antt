-- ===== src/Fanotify.antt =====
-- internal/tap/fanotify_linux.go: the decoder of the fanotify event stream.
-- A word is the number that its little-endian bytes stand for. `int` has 64 bits, so that the
-- conversion of a `uint32` keeps its value.
pub mod Device
pub mod Stream
pub mod RoundTrip
mod Tests
use agentflash.Common.{
  ℕ, zero, suc, ◌+◌, ◌-◌, ◌*◌, List, [], ◌∷◌, ◌++◌, Bytes, ltb, if◌then◌else◌, length, take, drop,
}
use agentflash.Common.Int.{ℤ, signed32}

-- `fanotifyMetadataSize`
abbrev pub metadata_size : ℕ
metadata_size = 24

pub record FanotifyEvent : Type 0 where
  pub pid : ℤ
  pub mask : ℕ
  pub fd : ℤ

-- `binary.LittleEndian.Uint32` and `Uint64`, on a slice of 4 or 8 bytes.
unfoldable pub le_uint : Bytes → ℕ
le_uint [] = 0
le_uint (b ∷ bs) = b + 256 * le_uint bs

-- `s[lo:hi]`
abbrev pub slice : ℕ → ℕ → Bytes → Bytes
slice lo hi s = take (hi - lo) (drop lo s)

unfoldable pub event_len : Bytes → ℕ
event_len rest = le_uint (slice 0 4 rest)

unfoldable pub decode : Bytes → FanotifyEvent
decode rest = record {
  pid = signed32 (le_uint (slice 20 24 rest));
  mask = le_uint (slice 8 16 rest);
  fd = signed32 (le_uint (slice 16 20 rest));
}

-- The three results of the function: the events with what is left over, or the events so far with
-- the `event_len` that the error names.
pub data ParseResult : Type 0 where
  parsed : List FanotifyEvent → Bytes → ParseResult
  failed : List FanotifyEvent → ℕ → ParseResult

-- The loop of `parseFanotifyEvents`; the fuel is the number of rounds left.
unfoldable pub parse_loop : ℕ → List FanotifyEvent → Bytes → ParseResult
parse_loop zero out rest = parsed out rest
parse_loop (suc fuel) out rest =
    let more = parse_loop fuel (out ++ decode rest ∷ []) (drop (event_len rest) rest) in
    if ltb (length rest) metadata_size
    then parsed out rest
    else if ltb (event_len rest) metadata_size
    then failed out (event_len rest)
    else if ltb (length rest) (event_len rest)
    then parsed out rest
    else more

-- A round takes at least 24 bytes, so one round for each byte is more than enough.
unfoldable pub parse_fanotify_events : Bytes → ParseResult
parse_fanotify_events buf = parse_loop (length buf) [] buf
