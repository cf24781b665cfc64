-- ===== src/Server/Tests.antt =====
-- internal/ui/server.go: the routes, and some requests.
use agentflash.Common.{
  ℕ, true, false, Option, none, some, List, [], ◌∷◌, ◌≡◌, refl, Bytes, codes, eq_bytes, has_prefix,
  map,
}
use agentflash.GoPath.{split_at, join_elems, clean_elems, clean_elem, go_up, clean, unrooted}
use agentflash.GoPath.Clean.{All, path_of}
use agentflash.Hub.{Hub}
use agentflash.Event.{Event}
use agentflash.Hub.Ring.{Holds}
use agentflash.Tree.{TreeEntry}
use agentflash.Claude.Tests.{root, root-IsName, decode, marshal, hub_two, hub_two-Holds}
use agentflash.Server.{
  HttpRequest, Answer, web_files, tree_route, info_route, claude_route, ws_route, redirected, unhex,
  path_unescape, segment, segments, ends_in_slash, clean_request_path, eq_segments, match_path,
  route, serve_all,
}
use agentflash.Server.Requests.{ReadsBelow, Recorded, serve_all-Recorded}

abbrev request : Bytes → Bytes → HttpRequest
request method path = record {
  method = method;
  path = path;
  query_path = codes "sub";
  body = codes "{}";
  upgrade = some 3;
}

routes :
    map
      (λ p. route (request (codes "GET") (codes p)))
      ("/" ∷ "/app.js" ∷ "/api/tree" ∷ "/api/%74ree" ∷ "/api/tree/" ∷ "//api/tree" ∷ "/x/../ws"
        ∷ "/ws" ∷ "/api/info" ∷ "/api/claude/event" ∷ "" ∷ [])
    ≡ web_files ∷ web_files ∷ tree_route ∷ tree_route ∷ web_files ∷ redirected ∷ redirected
      ∷ ws_route ∷ info_route ∷ claude_route ∷ redirected ∷ []
unfolding route match_path eq_segments segments clean_request_path ends_in_slash segment
    path_unescape unhex clean clean_elems clean_elem go_up unrooted split_at join_elems eq_bytes
    has_prefix
routes = refl

-- Stands for `os.ReadDir`.
abbrev read_dir : Bytes → Option (List TreeEntry)
read_dir p = some (record { name = codes "f"; is_dir = false } ∷ [])

abbrev requests : List (ℕ × HttpRequest)
requests =
    (1, request (codes "GET") (codes "/ws"))
    ∷ (2, request (codes "POST") (codes "/api/claude/event"))
    ∷ (3, request (codes "GET") (codes "/api/tree"))
    ∷ []

serve_all-Recorded_example :
    (h' : Hub) × (answers : List Answer) × (evs : List Event) × (serve_all none read_dir marshal
        decode
        (path_of root)
        true
        requests
        hub_two
      ≡ some (h', answers))
    × Holds h' evs
    × All (ReadsBelow none read_dir marshal decode true root root-IsName) answers
    × Recorded none read_dir marshal decode true root root-IsName requests evs
serve_all-Recorded_example =
    serve_all-Recorded none read_dir marshal decode true root root-IsName requests hub_two []
      hub_two-Holds
