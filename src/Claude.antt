-- ===== src/Claude.antt =====
-- internal/ui/claudehook.go: the handler of /api/claude/event, which turns the hook calls of
-- Claude Code into events of the hub. `cwd` is what `os.Getwd` returns, `marshal` is
-- `json.Marshal` and `decode` is what the JSON decoder makes of a body; `none` is an error.
pub mod Inside
pub mod Info
pub mod Handler
pub mod Tests
use agentflash.Common.{
  ℕ, Bool, true, false, not, ◌&&◌, ◌||◌, Option, none, some, List, [], ◌∷◌, ◌++◌, Bytes, codes, leb,
  if◌then◌else◌, eq_bytes, has_prefix, length, take,
}
use agentflash.Common.Int.{pos}
use agentflash.Event.{Event, ClaudeInfo}
use agentflash.GoPath.{dot, dot_dot, abs, rel, base}
use agentflash.Json.{Fields, get, as_string, string_or_empty}
use agentflash.Hub.{Hub, broadcast}

-- `claudeHookPayload`; a nil `ToolInput` is `none`.
pub record Payload : Type 0 where
  pub hook_event_name : Bytes
  pub session_id : Bytes
  pub cwd : Bytes
  pub tool_name : Bytes
  pub tool_input : Option Fields
  pub tool_use_id : Bytes
  pub prompt : Bytes
  pub source : Bytes
  pub message : Bytes

pub map_phase : Bytes → Option Bytes
map_phase e =
    if eq_bytes e (codes "PreToolUse")
    then some (codes "pre")
    else if eq_bytes e (codes "PostToolUse")
    then some (codes "post")
    else if eq_bytes e (codes "UserPromptSubmit")
    then some (codes "user_prompt")
    else if eq_bytes e (codes "SessionStart")
    then some (codes "session_start")
    else if eq_bytes e (codes "Stop")
    then some (codes "stop")
    else if eq_bytes e (codes "SubagentStop")
    then some (codes "subagent_stop")
    else if eq_bytes e (codes "Notification")
    then some (codes "notification")
    else none

-- The UTF-8 bytes of the horizontal ellipsis.
abbrev pub ellipsis : Bytes
ellipsis = 226 ∷ 128 ∷ 166 ∷ []

pub truncate : Bytes → ℕ → Bytes
truncate s n = if leb (length s) n then s else take n s ++ ellipsis

pub string_field : Option Fields → Bytes → Bytes
string_field none k = []
string_field (some m) k = string_or_empty (as_string (get k m))

is_one_of : Bytes → List Bytes → Bool
is_one_of t [] = false
is_one_of t (u ∷ us) = eq_bytes t u || is_one_of t us

-- Some text after the name of the tool, or the name alone where there is none.
abbrev with_text : Bytes → Bytes → Bytes → Bytes
with_text tool t shown = if eq_bytes t [] then tool else tool ++ codes " " ++ shown

pub summarize_tool : Bytes → Option Fields → Bytes
unfolding is_one_of
summarize_tool tool input =
    if is_one_of tool (codes "Read" ∷ codes "Edit" ∷ codes "Write" ∷ codes "NotebookEdit" ∷ [])
    then (let fp = string_field input (codes "file_path") in with_text tool fp (base fp))
    else if eq_bytes tool (codes "Bash")
    then (let desc = string_field input (codes "description") in
        codes "Bash "
        ++ (if not (eq_bytes desc [])
            then truncate desc 60
            else truncate (string_field input (codes "command")) 60))
    else if is_one_of tool (codes "Grep" ∷ codes "Glob" ∷ [])
    then (let pat = string_field input (codes "pattern") in with_text tool pat (truncate pat 60))
    else if eq_bytes tool (codes "Task")
    then (let st = string_field input (codes "subagent_type") in
        if eq_bytes st [] then codes "Task" else codes "Task[" ++ st ++ codes "]")
    else if eq_bytes tool (codes "WebFetch")
    then codes "WebFetch " ++ truncate (string_field input (codes "url")) 60
    else if eq_bytes tool (codes "WebSearch")
    then codes "WebSearch " ++ truncate (string_field input (codes "query")) 60
    else tool

-- `info` before the switch on the phase.
abbrev pub bare_info : Bytes → Payload → ClaudeInfo
bare_info phase p = record {
  phase = phase;
  tool = [];
  summary = [];
  file_path = [];
  command = [];
  pattern = [];
  subagent_type = [];
  prompt = [];
  session_id = p.session_id;
  cwd = p.cwd;
}

-- The case of "pre" and "post".
pub tool_info : Payload → ClaudeInfo → ClaudeInfo
tool_info p info =
    let sub_prompt = string_field p.tool_input (codes "prompt") in
    record info {
      tool = p.tool_name;
      file_path = string_field p.tool_input (codes "file_path");
      command = string_field p.tool_input (codes "command");
      pattern = string_field p.tool_input (codes "pattern");
      subagent_type = string_field p.tool_input (codes "subagent_type");
      prompt = if not (eq_bytes sub_prompt []) then truncate sub_prompt 240 else info.prompt;
      summary = summarize_tool p.tool_name p.tool_input;
    }

-- `switch phase`
pub fill_info : Bytes → Payload → ClaudeInfo → ClaudeInfo
unfolding is_one_of
fill_info phase p info =
    if eq_bytes phase (codes "user_prompt")
    then record info { prompt = truncate p.prompt 240; summary = truncate p.prompt 80 }
    else if is_one_of phase (codes "pre" ∷ codes "post" ∷ [])
    then tool_info p info
    else if eq_bytes phase (codes "session_start")
    then record info {
      summary =
          if not (eq_bytes p.source [])
          then codes "session start (" ++ p.source ++ codes ")"
          else codes "session start";
    }
    else if eq_bytes phase (codes "stop")
    then record info { summary = codes "stop" }
    else if eq_bytes phase (codes "subagent_stop")
    then record info { summary = codes "subagent stop" }
    else if eq_bytes phase (codes "notification")
    then (let s = truncate p.message 120 in
        record info { summary = if eq_bytes s [] then codes "notification" else s })
    else info

pub build_claude_info : Payload → Option ClaudeInfo
build_claude_info p = elim (map_phase p.hook_event_name) [
  | none ↦ none
  | some phase ↦ some (fill_info phase p (bare_info phase p))
]

module _ (cwd : Option Bytes) where
  pub cwd_inside : Bytes → Bytes → Bool
  cwd_inside dir root_abs = if eq_bytes dir [] then false else elim (abs cwd dir) [
    | none ↦ false
    | some a ↦ if eq_bytes a root_abs then true else elim (rel root_abs a) [
      | none ↦ false
      | some r ↦ not (has_prefix r dot_dot) && not (eq_bytes r dot)
    ]
  ]

-- The event that the handler makes of `info`.
abbrev pub claude_event : ℕ → ClaudeInfo → Event
claude_event now info = record {
  ts = now;
  op = codes "claude";
  path = info.file_path;
  process = [];
  pid = pos 0;
  claude = some info;
}

pub record Request : Type 0 where
  pub method : Bytes
  pub body : Bytes

abbrev or_empty : Option Bytes → Bytes
or_empty none = []
or_empty (some p) = p

-- The hub after a broadcast and the status of the answer; `none` where the broadcast panics.
abbrev pub with_ok : Option Hub → Option (Hub × ℕ)
with_ok none = none
with_ok (some h) = some (h, 200)

module _ (cwd : Option Bytes) (marshal : Event → Option Bytes)
    (decode : Bytes → Option Payload) where
  -- A request handled at time `now`.
  pub claude_hook : Bytes → ℕ → Request → Hub → Option (Hub × ℕ)
  claude_hook watch_dir now r h =
      if not (eq_bytes r.method (codes "POST")) then some (h, 405) else elim (decode r.body) [
        | none ↦ some (h, 400)
        | some p ↦
            if not (cwd_inside cwd p.cwd (or_empty (abs cwd watch_dir)))
            then some (h, 200)
            else elim (build_claude_info p) [
              | none ↦ some (h, 200)
              | some info ↦ with_ok (broadcast marshal (claude_event now info) h)
            ]
      ]
