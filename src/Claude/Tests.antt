-- ===== src/Claude/Tests.antt =====
-- internal/ui/claudehook_test.go, and the handler's theorems at concrete inputs.
use agentflash.Common.{
  true, false, Option, none, some, List, [], ◌∷◌, ◌++◌, ◌≡◌, ◌↔◌, refl, arith, Bytes, codes,
  eq_bytes, has_prefix,
}
use agentflash.Event.{Event, ClaudeInfo, zero_event}
use agentflash.GoPath.{
  split_at, join_elems, clean_elems, clean_elem, go_up, clean, join, abs, unrooted, rel, rel_elems,
  elems, base, last_or,
}
use agentflash.GoPath.Clean.{All, IsName, path_of}
use agentflash.Json.{Fields, string, field, no_fields, get, as_string, string_or_empty}
use agentflash.Hub.{Hub, new_hub}
use agentflash.Hub.Ring.{Holds, new_hub-Holds}
use agentflash.Claude.{
  Payload, Request, map_phase, truncate, string_field, is_one_of, summarize_tool, bare_info,
  tool_info, fill_info, build_claude_info, cwd_inside, claude_event, claude_hook,
}
use agentflash.Claude.Inside.{StartsPlain, cwd_inside_iff}
use agentflash.Claude.Handler.{Reports, claude_hook-stores}

abbrev file_input : Fields
file_input = field (codes "file_path") (string (codes "/a/b/main.go")) no_fields

abbrev one_field : Bytes → Bytes → Option Fields
one_field k v = some (field k (string v) no_fields)

summaries :
    (summarize_tool (codes "Read") (some file_input) ≡ codes "Read main.go")
    × (summarize_tool (codes "Bash") (one_field (codes "description") (codes "run tests"))
        ≡ codes "Bash run tests")
    × (summarize_tool (codes "Bash") (one_field (codes "command") (codes "go test ./..."))
        ≡ codes "Bash go test ./...")
    × (summarize_tool (codes "Grep") (one_field (codes "pattern") (codes "WebSocket"))
        ≡ codes "Grep WebSocket")
    × (summarize_tool (codes "Task") (one_field (codes "subagent_type") (codes "Explore"))
        ≡ codes "Task[Explore]")
    × (summarize_tool (codes "WebSearch") (one_field (codes "query") (codes "fs_usage hooks"))
        ≡ codes "WebSearch fs_usage hooks")
    × (summarize_tool (codes "Custom") none ≡ codes "Custom")
unfolding summarize_tool is_one_of string_field get as_string string_or_empty truncate base last_or
    elems split_at eq_bytes
summaries = (refl, refl, refl, refl, refl, refl, refl)

abbrev pub root : List Bytes
root = codes "dev" ∷ codes "flash" ∷ []

dirs :
    (cwd_inside none (codes "/dev/flash") (path_of root) ≡ true)
    × (cwd_inside none (codes "/dev/flash/internal/ui") (path_of root) ≡ true)
    × (cwd_inside none [] (path_of root) ≡ false)
    × (cwd_inside none (codes "/dev") (path_of root) ≡ false)
    × (cwd_inside none (codes "/dev/flash-other") (path_of root) ≡ false)
    × (cwd_inside none (codes "/tmp") (path_of root) ≡ false)
    × (cwd_inside none (codes "/dev/flash/..cache") (path_of root) ≡ false)
unfolding cwd_inside abs rel rel_elems elems join clean clean_elems clean_elem go_up unrooted
    split_at join_elems eq_bytes has_prefix
dirs = (refl, refl, refl, refl, refl, refl, refl)

pub root-IsName : All IsName root
unfolding eq_bytes
root-IsName = (
  record { ne_nil = refl; ne_dot = refl; ne_dot_dot = refl; no_slash = (refl, (refl, (refl, tt))) },
  (
    record {
      ne_nil = refl;
      ne_dot = refl;
      ne_dot_dot = refl;
      no_slash = (refl, (refl, (refl, (refl, (refl, tt)))));
    },
    tt,
  ),
)

abbrev hidden : List Bytes
hidden = codes "dev" ∷ codes "flash" ∷ codes "..c" ∷ []

hidden-IsName : All IsName hidden
unfolding eq_bytes
hidden-IsName = (
  root-IsName.0,
  (
    root-IsName.1.0,
    (
      record {
        ne_nil = refl;
        ne_dot = refl;
        ne_dot_dot = refl;
        no_slash = (refl, (refl, (refl, tt)));
      },
      tt,
    ),
  ),
)

cwd_inside_iff_example :
    (cwd_inside none (codes "/dev/x/../flash/..c") (path_of root) ≡ true)
    ↔ ((ss : List Bytes) × (hidden ≡ root ++ ss) × StartsPlain ss)
unfolding abs clean clean_elems clean_elem go_up unrooted split_at join_elems eq_bytes has_prefix
cwd_inside_iff_example =
    cwd_inside_iff none root hidden (codes "/dev/x/../flash/..c") root-IsName hidden-IsName refl
      refl

abbrev payload : Payload
payload = record {
  hook_event_name = codes "PreToolUse";
  session_id = codes "s1";
  cwd = codes "/dev/flash";
  tool_name = codes "Edit";
  tool_input = some file_input;
  tool_use_id = [];
  prompt = [];
  source = [];
  message = [];
}

abbrev info : ClaudeInfo
info = record (bare_info (codes "pre") payload) {
  tool = codes "Edit";
  summary = codes "Edit main.go";
  file_path = codes "/a/b/main.go";
}

built : build_claude_info payload ≡ some info
unfolding build_claude_info map_phase fill_info tool_info summarize_tool is_one_of string_field get
    as_string string_or_empty truncate base last_or elems split_at eq_bytes
built = refl

-- Stands for the JSON decoder.
abbrev pub decode : Bytes → Option Payload
decode [] = none
decode (c ∷ cs) = some payload

abbrev pub marshal : Event → Option Bytes
marshal e = some (e.ts ∷ [])

abbrev post : Request
post = record { method = codes "POST"; body = codes "{}" }

post-Reports : Reports none marshal decode root root-IsName post info
unfolding cwd_inside abs clean clean_elems clean_elem go_up unrooted split_at join_elems eq_bytes
    has_prefix
post-Reports = record {
  payload = payload;
  posted = refl;
  decoded = refl;
  inside = refl;
  built = built;
}

abbrev pub hub_two : Hub
hub_two = record {
  ring = zero_event ∷ zero_event ∷ [];
  ring_head = 0;
  ring_size = 2;
  ring_filled = false;
  clients = [];
  bcast_count = 0;
  deliver_count = 0;
  drop_count = 0;
}

pub hub_two-Holds : Holds hub_two []
unfolding new_hub
hub_two-Holds = new_hub-Holds 2 (omega arith) refl

answered :
    (h : Hub) × (claude_hook none marshal decode (path_of root) 5 post hub_two ≡ some (h, 200))
    × Holds h (claude_event 5 info ∷ [])
answered =
    claude_hook-stores none marshal decode root root-IsName 5 post (5 ∷ []) post-Reports refl
      hub_two-Holds
