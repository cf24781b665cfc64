-- ===== src/Event.antt =====
-- internal/event/event.go: the wire format that the tap, the hub and the browser share.
-- A `time.Time` is its count of nanoseconds; an empty string is an absent (omitempty) field.
pub mod Wire
use agentflash.Common.{ℕ, Bytes, Option, none, []}
use agentflash.Common.Int.{ℤ, pos}

pub record ClaudeInfo : Type 0 where
  pub phase : Bytes
  pub tool : Bytes
  pub summary : Bytes
  pub file_path : Bytes
  pub command : Bytes
  pub pattern : Bytes
  pub subagent_type : Bytes
  pub prompt : Bytes
  pub session_id : Bytes
  pub cwd : Bytes

pub record Event : Type 0 where
  pub ts : ℕ
  pub op : Bytes
  pub path : Bytes
  pub process : Bytes
  pub pid : ℤ
  pub claude : Option ClaudeInfo

-- `event.Event{}`
abbrev pub zero_event : Event
zero_event = record { ts = 0; op = []; path = []; process = []; pid = pos 0; claude = none }
