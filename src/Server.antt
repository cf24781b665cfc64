-- ===== src/Server.antt =====
-- internal/ui/server.go: the routes of `Run` and what a request does, and internal/ui/tree.go,
-- infoHandler. The multiplexer is http.ServeMux as its patterns here need it: `/` is a subtree and
-- the others are single paths, none with a method. A request is one with a path; `upgrade` is the
-- answer of the websocket library to it.
pub mod Requests
pub mod Run
mod Tests
use agentflash.Common.{
  ℕ, ◌+◌, ◌-◌, ◌*◌, Bool, true, false, not, ◌&&◌, Option, none, some, List, [], ◌∷◌, ◌++◌, map,
  reverse, Bytes, codes, leb, ltb, ◌==◌, if◌then◌else◌, eq_bytes, has_prefix, drop,
}
use agentflash.Event.{Event}
use agentflash.GoPath.{slash, clean, split_at}
use agentflash.Hub.{Hub, new_client, register}
use agentflash.Tree.{TreeEntry, TreeResponse, tree_handler}
use agentflash.Claude.{Payload, Request, claude_hook}

-- The value of a hexadecimal digit.
pub unhex : ℕ → Option ℕ
unhex c =
    if leb b'0' c && leb c b'9'
    then some (c - b'0')
    else if leb b'a' c && leb c b'f'
    then some (c - b'a' + 10)
    else if leb b'A' c && leb c b'F'
    then some (c - b'A' + 10)
    else none

abbrev onto_unescaped : ℕ → Option Bytes → Option Bytes
onto_unescaped c none = none
onto_unescaped c (some cs) = some (c ∷ cs)

abbrev hex_byte : Option ℕ → Option ℕ → Option Bytes → Option Bytes
hex_byte (some h) (some l) rest = onto_unescaped (h * 16 + l) rest
hex_byte _ _ rest = none

-- `url.PathUnescape`, `none` for a broken escape.
pub path_unescape : Bytes → Option Bytes
unfolding unhex
path_unescape [] = some []
path_unescape (c ∷ []) = if c == b'%' then none else some (c ∷ [])
path_unescape (c ∷ d ∷ []) =
    let rest = path_unescape (d ∷ []) in if c == b'%' then none else onto_unescaped c rest
path_unescape (c ∷ d ∷ e ∷ cs) =
    let behind = path_unescape cs in
    let rest = path_unescape (d ∷ e ∷ cs) in
    if c == b'%' then hex_byte (unhex d) (unhex e) behind else onto_unescaped c rest

-- A segment as the multiplexer compares it.
pub segment : Bytes → Bytes
segment s = elim (path_unescape s) [ none ↦ s | some t ↦ t ]

-- The segments of a path behind its first slash.
pub segments : Bytes → List Bytes
segments path = map segment (split_at slash (drop 1 path))

pub ends_in_slash : Bytes → Bool
ends_in_slash p = has_prefix (reverse p) (slash ∷ [])

-- `cleanPath` of net/http: rooted and clean, with its last slash.
pub clean_request_path : Bytes → Bytes
clean_request_path [] = slash ∷ []
clean_request_path (c ∷ cs) =
    let p = if c == slash then c ∷ cs else slash ∷ c ∷ cs in
    let np = clean p in
    if ends_in_slash p && not (eq_bytes np (slash ∷ [])) then np ++ slash ∷ [] else np

pub data Route : Type 0 where
  web_files tree_route info_route claude_route ws_route redirected : Route

pub eq_segments : List Bytes → List Bytes → Bool
eq_segments [] [] = true
eq_segments (x ∷ xs) (y ∷ ys) = eq_bytes x y && eq_segments xs ys
eq_segments _ _ = false

-- The handler of the patterns that `Run` registers.
pub match_path : Bytes → Route
match_path path =
    let segs = segments path in
    if eq_segments segs (codes "api" ∷ codes "tree" ∷ [])
    then tree_route
    else if eq_segments segs (codes "api" ∷ codes "info" ∷ [])
    then info_route
    else if eq_segments segs (codes "api" ∷ codes "claude" ∷ codes "event" ∷ [])
    then claude_route
    else if eq_segments segs (codes "ws" ∷ [])
    then ws_route
    else web_files

-- `path` is the path as it was sent; `query_path` is the value of `path` in the query.
pub record HttpRequest : Type 0 where
  pub method : Bytes
  pub path : Bytes
  pub query_path : Bytes
  pub body : Bytes
  pub upgrade : Option ℕ

-- A path that is not clean is redirected, except for CONNECT; there an empty path is.
pub route : HttpRequest → Route
route r =
    if eq_bytes r.method (codes "CONNECT")
    then (if eq_bytes r.path [] then redirected else match_path r.path)
    else if eq_bytes (clean_request_path r.path) r.path
    then match_path r.path
    else redirected

-- What is answered; a tree answer comes with the directory that is read for it.
pub data Answer : Type 0 where
  redirect web_file upgrade_refused : Answer
  info_json : Bytes → Bool → Answer
  tree : Option Bytes → TreeResponse → Answer
  hook : ℕ → Answer
  connected : ℕ → Answer

abbrev hook_answer : Option (Hub × ℕ) → Option (Hub × Answer)
hook_answer none = none
hook_answer (some (h, code)) = some (h, hook code)

-- `infoHandler`: the encoded answer is made of the directory and the flag.
abbrev pub info_handler : Bytes → Bool → Answer
info_handler root auto_pause = info_json root auto_pause

-- The handler of /ws up to the registration of its client; Session goes on from there.
abbrev pub upgraded : Option ℕ → Hub → Hub × Answer
upgraded none h = (h, upgrade_refused)
upgraded (some id) h = (register (new_client id) h, connected id)

module _ (cwd : Option Bytes) (read_dir : Bytes → Option (List TreeEntry))
    (marshal : Event → Option Bytes) (decode : Bytes → Option Payload) (dir : Bytes)
    (auto_pause : Bool) where
  -- A request at time `now`, at its handler; `none` where a handler panics.
  pub handle_route : Route → ℕ → HttpRequest → Hub → Option (Hub × Answer)
  handle_route redirected now r h = some (h, redirect)
  handle_route web_files now r h = some (h, web_file)
  handle_route tree_route now r h =
      let (read, response) = tree_handler cwd read_dir dir r.query_path in
      some (h, tree read response)
  handle_route info_route now r h = some (h, info_handler dir auto_pause)
  handle_route claude_route now r h =
      hook_answer
        (claude_hook cwd marshal decode dir now (record { method = r.method; body = r.body }) h)
  handle_route ws_route now r h = some (upgraded r.upgrade h)

  pub serve_request : ℕ → HttpRequest → Hub → Option (Hub × Answer)
  serve_request now r h = handle_route (route r) now r h

  -- Requests one after the other, with the times at which they are handled.
  pub serve_all : List (ℕ × HttpRequest) → Hub → Option (Hub × List Answer)
  serve_all [] h = some (h, [])
  serve_all ((now, r) ∷ rs) h = elim (serve_request now r h) [
    | none ↦ none
    | some (h', answer) ↦ elim (serve_all rs h') [
      | none ↦ none
      | some (h'', answers) ↦ some (h'', answer ∷ answers)
    ]
  ]
