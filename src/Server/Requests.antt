-- ===== src/Server/Requests.antt =====
-- internal/ui/server.go: what the requests to the server read and change.
use agentflash.Common.{
  ℕ, Bool, Option, none, some, List, [], ◌∷◌, ◌++◌, ◌≡◌, refl, sym, ap, ◌∙◌, inl, inr, Bytes,
  Option-cases, append-nil, append_assoc,
}
use mathlib.Core.Path.{subst}
use agentflash.Event.{Event, ClaudeInfo}
use agentflash.GoPath.Clean.{All, IsName, path_of}
use agentflash.Hub.{Hub, new_client, register}
use agentflash.Hub.Ring.{Holds}
use agentflash.Hub.Replay.{Holds-congr, broadcast_stored, broadcast_unmarshalled}
use agentflash.Tree.{TreeEntry, TreeResponse, tree_handler}
use agentflash.Tree.Confined.{tree_handler-Under}
use agentflash.Claude.{Payload, Request, claude_event}
use agentflash.Claude.Handler.{Reports, Reports-claude_hook, Reports-or_not, Reports-unique}
use agentflash.Server.{
  Route, web_files, tree_route, info_route, claude_route, ws_route, redirected, HttpRequest, Answer,
  redirect, web_file, upgrade_refused, info_json, tree, hook, connected, route, upgraded,
  handle_route, serve_request, serve_all,
}

module _ (cwd : Option Bytes) (read_dir : Bytes → Option (List TreeEntry))
    (marshal : Event → Option Bytes) (decode : Bytes → Option Payload) (auto_pause : Bool)
    (root : List Bytes) (plain : All IsName root) where
  abbrev pub body_of : HttpRequest → Request
  body_of r = record { method = r.method; body = r.body }

  -- The request is one that the endpoint of the hooks takes, and `ev` is its event.
  pub record Accepted (now : ℕ) (r : HttpRequest) (ev : Event) : Type 0 where
    pub claude_info : ClaudeInfo
    pub routed : route r ≡ claude_route
    pub reports : Reports cwd marshal decode root plain (body_of r) claude_info
    pub event : ev ≡ claude_event now claude_info
    pub msg : Bytes
    pub marshalled : marshal ev ≡ some msg

  -- The events of the accepted requests, in order, and of no other.
  pub data Recorded : List (ℕ × HttpRequest) → List Event → Type 0 where
    no_request : Recorded [] []
    accepted :
        {now : ℕ} {r : HttpRequest} {ev : Event} {rs : List (ℕ × HttpRequest)} {evs : List Event}
        → Accepted now r ev
        → Recorded rs evs
        → Recorded ((now, r) ∷ rs) (ev ∷ evs)
    passed_over :
        {now : ℕ} {r : HttpRequest} {rs : List (ℕ × HttpRequest)} {evs : List Event}
        → ((ev : Event) → Accepted now r ev → ⊥)
        → Recorded rs evs
        → Recorded ((now, r) ∷ rs) evs

  -- A directory that is read for an answer is the root or lies below it.
  abbrev pub ReadsBelow : Answer → Type 0
  ReadsBelow (tree (some p) response) =
      (ss : List Bytes) × (p ≡ path_of (root ++ ss)) × All IsName ss
  ReadsBelow (tree none response) = Unit
  ReadsBelow redirect = Unit
  ReadsBelow web_file = Unit
  ReadsBelow upgrade_refused = Unit
  ReadsBelow (info_json d p) = Unit
  ReadsBelow (hook code) = Unit
  ReadsBelow (connected id) = Unit

  -- What one request makes of the events that the hub holds.
  data Makes (now : ℕ) (r : HttpRequest) : List Event → Type 0 where
    one : {ev : Event} → Accepted now r ev → Makes now r (ev ∷ [])
    nothing : ((ev : Event) → Accepted now r ev → ⊥) → Makes now r []

  abbrev Served : ℕ → HttpRequest → List Event → Option (Hub × Answer) → Type 0
  Served now r history o =
      (h' : Hub) × (answer : Answer) × (evs : List Event) × (o ≡ some (h', answer))
      × Holds h' (history ++ evs)
      × ReadsBelow answer
      × Makes now r evs

  module _ (now : ℕ) (r : HttpRequest) (h : Hub) (history : List Event) (s : Holds h history) where
    -- A handler that leaves the ring alone.
    kept :
        (h' : Hub) (answer : Answer) {w : Route}
        → Holds h' history
        → route r ≡ w
        → (w ≡ claude_route → ⊥)
        → ReadsBelow answer
        → Served now r history (some (h', answer))
    kept h' answer held e other below = (
      h',
      answer,
      [],
      refl,
      rw append-nil held,
      below,
      nothing (λ ev a. other (sym e ∙ a.routed)),
    )

    read_tree :
        (read : Option Bytes) (response : TreeResponse)
        → (tree_handler cwd read_dir (path_of root) r.query_path).0 ≡ read
        → ReadsBelow (tree read response)
    read_tree none response e = tt
    read_tree (some p) response e = tree_handler-Under cwd read_dir root r.query_path p plain e

    unsent :
        {ev : Event} (i : ClaudeInfo)
        → Reports cwd marshal decode root plain (body_of r) i
        → marshal (claude_event now i) ≡ none
        → Accepted now r ev
        → ⊥
    unsent i reports no_msg a =
        let same = Reports-unique cwd marshal decode root plain (body_of r) reports a.reports in
        let e = sym (ap marshal (a.event ∙ ap (claude_event now) (sym same))) ∙ a.marshalled in
        cc (no_msg, e)

    hook_served :
        route r ≡ claude_route
        → Served now r history (
            handle_route cwd read_dir marshal decode (path_of root) auto_pause claude_route now r h)
    unfolding handle_route
    hook_served e = elim (Reports-or_not cwd marshal decode root plain now (body_of r) h) [
      | inr (never, code, answered) ↦ rw answered (
        h,
        hook code,
        [],
        refl,
        rw append-nil s,
        tt,
        nothing (λ ev a. never a.claude_info a.reports),
      )
      | inl (i, reports) ↦ elim (Option-cases (marshal (claude_event now i))) [
        | inl no_msg ↦
            rw
              (Reports-claude_hook cwd marshal decode root plain now (body_of r) h reports
                (broadcast_unmarshalled marshal (claude_event now i) h no_msg))
              (
                h,
                hook 200,
                [],
                refl,
                rw append-nil s,
                tt,
                nothing (λ ev a. unsent i reports no_msg a),
              )
        | inr (msg, m) ↦
            let (h', sent, holds, _) = broadcast_stored marshal (claude_event now i) msg m s in
            rw (Reports-claude_hook cwd marshal decode root plain now (body_of r) h reports sent) (
              h',
              hook 200,
              claude_event now i ∷ [],
              refl,
              holds,
              tt,
              one (record {
                claude_info = i;
                routed = e;
                reports = reports;
                event = refl;
                msg = msg;
                marshalled = m;
              }),
            )
      ]
    ]

    handle_route-Served :
        (w : Route)
        → route r ≡ w
        → Served now r history
            (handle_route cwd read_dir marshal decode (path_of root) auto_pause w now r h)
    unfolding handle_route register
    handle_route-Served redirected e = kept h redirect s e (λ w. cc) tt
    handle_route-Served web_files e = kept h web_file s e (λ w. cc) tt
    handle_route-Served tree_route e = kept h (tree _ _) s e (λ w. cc) (read_tree _ _ refl)
    handle_route-Served info_route e = kept h (info_json _ _) s e (λ w. cc) tt
    handle_route-Served claude_route e = hook_served e
    handle_route-Served ws_route e = connection r.upgrade
      where
        connection : (upgrade : Option ℕ) → Served now r history (some (upgraded upgrade h))
        connection none = kept h upgrade_refused s e (λ w. cc) tt
        connection (some id) =
            kept (register (new_client id) h) (connected id)
              (Holds-congr (refl, refl, refl, refl) s) e (λ w. cc) tt

  serve_request-Served :
      (now : ℕ) (r : HttpRequest) (h : Hub) (history : List Event)
      → Holds h history
      → Served now r history
          (serve_request cwd read_dir marshal decode (path_of root) auto_pause now r h)
  unfolding serve_request
  serve_request-Served now r h history s = handle_route-Served now r h history s (route r) refl

  recorded :
      {now : ℕ} {r : HttpRequest} {rs : List (ℕ × HttpRequest)} {evs later : List Event}
      → Makes now r evs
      → Recorded rs later
      → Recorded ((now, r) ∷ rs) (evs ++ later)
  recorded (one a) rest = accepted a rest
  recorded (nothing never) rest = passed_over never rest

  -- Whatever requests the server gets and in whatever order, none makes it panic while its hub holds
  -- a history. Every directory that is read for an answer is the watched one or lies below it. What
  -- the requests add to the hub's history is the event of each request that comes by the route of
  -- the hooks as a POST with a decodable payload of a known hook from inside the watched directory,
  -- and whose event marshals, in their order; no other request adds anything.
  pub serve_all-Recorded :
      (rs : List (ℕ × HttpRequest)) (h : Hub) (history : List Event)
      → Holds h history
      → (h' : Hub) × (answers : List Answer) × (evs : List Event) × (serve_all cwd read_dir marshal
            decode
            (path_of root)
            auto_pause
            rs
            h
          ≡ some (h', answers))
        × Holds h' (history ++ evs)
        × All ReadsBelow answers
        × Recorded rs evs
  unfolding serve_all
  serve_all-Recorded [] h history s = (h, [], [], refl, rw append-nil s, tt, no_request)
  serve_all-Recorded ((now, r) ∷ rs) h history s =
      let (h1, answer, evs, served, holds, below, makes) = serve_request-Served now r h history s in
      let (h2, answers, later, rest, held, all_below, more) =
        serve_all-Recorded rs h1 (history ++ evs) holds in
      (
        h2,
        answer ∷ answers,
        evs ++ later,
        rw (serve_all, served, rest),
        subst (Holds h2) (append_assoc history evs later) held,
        (below, all_below),
        recorded makes more,
      )
