-- ===== src/Claude/Handler.antt =====
-- What a request to /api/claude/event does to the hub.
use mathlib.Core.Option.{some-injective}
use agentflash.Common.{
  ℕ, true, Option, none, some, List, [], ◌∷◌, ◌++◌, ◌≡◌, ◌⊎◌, sym, ap, ◌∙◌, inl, inr, Bytes, codes,
  eq_bytes, Bool-cases, Option-cases,
}
use agentflash.GoPath.Clean.{All, IsName, path_of}
use agentflash.GoPath.Absolute.{abs-path_of}
use agentflash.Event.{Event, ClaudeInfo}
use agentflash.Hub.{Hub, broadcast}
use agentflash.Hub.Ring.{Holds}
use agentflash.Hub.Replay.{broadcast_stored}
use agentflash.Claude.{
  Payload, Request, with_ok, claude_event, build_claude_info, cwd_inside, claude_hook,
}

module _ (cwd : Option Bytes) (marshal : Event → Option Bytes) (decode : Bytes → Option Payload)
    (rs : List Bytes) (hr : All IsName rs) where
  -- A request that passes all tests of the handler.
  pub record Reports (r : Request) (info : ClaudeInfo) : Type 0 where
    pub payload : Payload
    pub posted : eq_bytes r.method (codes "POST") ≡ true
    pub decoded : decode r.body ≡ some payload
    pub inside : cwd_inside cwd payload.cwd (path_of rs) ≡ true
    pub built : build_claude_info payload ≡ some info

  pub Reports-claude_hook :
      (now : ℕ) (r : Request) {info : ClaudeInfo} (h : Hub) {h' : Hub}
      → Reports r info
      → broadcast marshal (claude_event now info) h ≡ some h'
      → claude_hook cwd marshal decode (path_of rs) now r h ≡ some (h', 200)
  unfolding claude_hook
  Reports-claude_hook now r h s b =
      rw (s.posted, s.decoded, abs-path_of cwd rs hr, s.inside, s.built, b)

  -- A request that is a POST with a payload of a known hook, from a session in the watched
  -- directory, is answered with 200, and its event, which marshals, becomes the last of the stored
  -- events that a valid hub holds.
  pub claude_hook-stores :
      (now : ℕ) (r : Request) {info : ClaudeInfo} {h : Hub} {history : List Event} (msg : Bytes)
      → Reports r info
      → marshal (claude_event now info) ≡ some msg
      → Holds h history
      → (h' : Hub) × (claude_hook cwd marshal decode (path_of rs) now r h ≡ some (h', 200))
        × Holds h' (history ++ claude_event now info ∷ [])
  claude_hook-stores now r {info} {h} msg s m v =
      let (h', sent, holds, _) = broadcast_stored marshal (claude_event now info) msg m v in
      (h', Reports-claude_hook now r h s sent, holds)

  abbrev Effect : ℕ → Request → Hub → Hub → Type 0
  Effect now r h h' =
      (h' ≡ h)
      ⊎ ((info : ClaudeInfo) × Reports r info
          × (broadcast marshal (claude_event now info) h ≡ some h'))

  unchanged :
      (now : ℕ) (r : Request) (h h' : Hub) (code st : ℕ)
      → ◌≡◌ {A = Option (Hub × ℕ)} (some (h, code)) (some (h', st))
      → Effect now r h h'
  unchanged now r h h' code st e = inl (sym (ap (λ x. x.0) (some-injective _ _ e)))

  with_ok-sent : (o : Option Hub) (h' : Hub) (st : ℕ) → with_ok o ≡ some (h', st) → o ≡ some h'
  with_ok-sent none h' st e = cc
  with_ok-sent (some h) h' st e = ap (λ x. some (x.0)) (some-injective _ _ e)

  -- Of a request that the handler answers, either nothing reaches the hub, or it was a POST whose
  -- payload decodes, names a known hook and comes from a session that `cwd_inside` lets through,
  -- and the hub has broadcast the info built from that payload.
  claude_hook-broadcast :
      (now : ℕ) (r : Request) (h h' : Hub) (st : ℕ)
      → claude_hook cwd marshal decode (path_of rs) now r h ≡ some (h', st)
      → (h' ≡ h)
        ⊎ ((info : ClaudeInfo) × Reports r info
            × (broadcast marshal (claude_event now info) h ≡ some h'))
  unfolding claude_hook
  claude_hook-broadcast now r h h' st e = elim (Bool-cases (eq_bytes r.method (codes "POST"))) [
    | inr other ↦ unchanged now r h h' 405 st (rw (claude_hook, other) at e)
    | inl posted ↦ elim (Option-cases (decode r.body)) [
      | inl bad ↦ unchanged now r h h' 400 st (rw (claude_hook, posted, bad) at e)
      | inr (p, decoded) ↦ elim (Bool-cases (cwd_inside cwd p.cwd (path_of rs))) [
        | inr outside ↦
            unchanged now r h h' 200 st
              (rw (claude_hook, posted, decoded, abs-path_of cwd rs hr, outside) at e)
        | inl inside ↦ elim (Option-cases (build_claude_info p)) [
          | inl unknown ↦
              unchanged now r h h' 200 st
                (rw (claude_hook, posted, decoded, abs-path_of cwd rs hr, inside, unknown) at e)
          | inr (info, built) ↦ inr (
            info,
            record {
              payload = p;
              posted = posted;
              decoded = decoded;
              inside = inside;
              built = built;
            },
            with_ok-sent (broadcast marshal (claude_event now info) h) h' st
                (rw (claude_hook, posted, decoded, abs-path_of cwd rs hr, inside, built) at e),
          )
        ]
      ]
    ]
  ]

  -- A request that reports nothing is answered with the hub as it was.
  pub Reports-or_not :
      (now : ℕ) (r : Request) (h : Hub)
      → ((i : ClaudeInfo) × Reports r i)
        ⊎ (((i : ClaudeInfo) → Reports r i → ⊥)
            × (code : ℕ) × claude_hook cwd marshal decode (path_of rs) now r h ≡ some (h, code))
  unfolding claude_hook
  Reports-or_not now r h = elim (Bool-cases (eq_bytes r.method (codes "POST"))) [
    | inr other ↦ inr (λ i s. cc (other, s.posted), 405, rw (claude_hook, other))
    | inl posted ↦ elim (Option-cases (decode r.body)) [
      | inl bad ↦ inr (λ i s. cc (bad, s.decoded), 400, rw (claude_hook, posted, bad))
      | inr (p, decoded) ↦ elim (Bool-cases (cwd_inside cwd p.cwd (path_of rs))) [
        | inr outside ↦ inr (
          λ i s. cc (outside, s.inside, s.decoded, decoded),
          200,
          rw (claude_hook, posted, decoded, abs-path_of cwd rs hr, outside),
        )
        | inl inside ↦ elim (Option-cases (build_claude_info p)) [
          | inl unknown ↦ inr (
            λ i s. cc (unknown, s.built, s.decoded, decoded),
            200,
            rw (claude_hook, posted, decoded, abs-path_of cwd rs hr, inside, unknown),
          )
          | inr (i, built) ↦ inl (
            i,
            record {
              payload = p;
              posted = posted;
              decoded = decoded;
              inside = inside;
              built = built;
            },
          )
        ]
      ]
    ]
  ]

  pub Reports-unique : (r : Request) {i j : ClaudeInfo} → Reports r i → Reports r j → i ≡ j
  Reports-unique r {i} {j} s t =
      let same : s.payload ≡ t.payload = some-injective _ _ (sym s.decoded ∙ t.decoded) in
      some-injective _ _ (sym s.built ∙ ap build_claude_info same ∙ t.built)
