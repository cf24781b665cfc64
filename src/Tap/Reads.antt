-- ===== src/Tap/Reads.antt =====
-- The loop over the reads of the fanotify descriptor: pieces, and descriptors.
use agentflash.Common.{
  ◌≤◌, ◌<◌, Option, List, [], ◌∷◌, ◌++◌, map, ◌≡◌, refl, sym, ap, ◌∙◌, arith, inl, Bytes, length,
  append_assoc, append-nil,
}
use agentflash.Common.Int.{ℤ}
use agentflash.Fanotify.{
  FanotifyEvent, parsed, failed, parse_fanotify_events, event_len, metadata_size,
}
use agentflash.Fanotify.Stream.{
  parse_fanotify_events-append, parse_fanotify_events-short, resume, prepend,
}
use agentflash.Fanotify.RoundTrip.{
  Metadata, AllFit, put_events, event_of, parse_fanotify_events-put_events,
}
use agentflash.Tap.Debug.{dump_access}
use agentflash.Tap.{
  Tap, World, Filter, Outcome, ongoing, stopped, and_then, write_event, by_name, by_path,
  handle_event, handle_events, next_tick, handle_read,
}

abbrev pub state : Outcome → Tap
state (ongoing t) = t
state (stopped t) = t

abbrev pub fds : List FanotifyEvent → List ℤ
fds = map (λ e. e.fd)

-- The raw dump behind the lines of the events.
abbrev pub dumps : List FanotifyEvent → Option Bytes → Option Bytes
dumps [] raw = raw
dumps (ev ∷ evs) raw = dumps evs (dump_access ev.mask ev.pid ev.fd raw)

-- The descriptors closed and the lines dumped for `evs` between two states.
abbrev pub Handled : List FanotifyEvent → Tap → Tap → Type 0
Handled evs t t' = (t'.closed ≡ t.closed ++ fds evs) × (t'.raw_dump ≡ dumps evs t.raw_dump)

-- What a loop over `evs` that began at `t` has handled.
abbrev pub Closes : List FanotifyEvent → Tap → Outcome → Type 0
Closes evs t (ongoing t') = Handled evs t t'
Closes evs t (stopped t') = (pre post : List FanotifyEvent) × (evs ≡ pre ++ post) × Handled pre t t'

module _ (w : World) (f : Filter) where
  by_path-closed :
      (path : Bytes) (ev : FanotifyEvent) (t : Tap)
      → (state (by_path w f path ev t)).closed ≡ t.closed
  unfolding by_path by_name write_event
  by_path-closed [] ev t = refl
  by_path-closed (b ∷ bs) ev t = ground arith

  by_path-raw_dump :
      (path : Bytes) (ev : FanotifyEvent) (t : Tap)
      → (state (by_path w f path ev t)).raw_dump ≡ t.raw_dump
  unfolding by_path by_name write_event
  by_path-raw_dump [] ev t = refl
  by_path-raw_dump (b ∷ bs) ev t = ground arith

  next_tick-Handled :
      (evs : List FanotifyEvent) (t : Tap) (o : Outcome)
      → Handled evs t (state o)
      → Handled evs t (state (next_tick o))
  unfolding next_tick
  next_tick-Handled evs t (ongoing u) h = h
  next_tick-Handled evs t (stopped u) h = h

  handle_event-Handled :
      (ev : FanotifyEvent) (t : Tap) → Handled (ev ∷ []) t (state (handle_event w f ev t))
  unfolding handle_event
  handle_event-Handled ev t =
      next_tick-Handled (ev ∷ []) t _ (by_path-closed _ ev _, by_path-raw_dump _ ev _)

  Handled-cons :
      (ev : FanotifyEvent) (evs : List FanotifyEvent) (t t' u : Tap)
      → Handled (ev ∷ []) t t'
      → Handled evs t' u
      → Handled (ev ∷ evs) t u
  Handled-cons ev evs t t' u (e, d) (c, r) = (
    c ∙ ap (λ ds. ds ++ fds evs) e ∙ append_assoc t.closed (ev.fd ∷ []) (fds evs),
    r ∙ ap (dumps evs) d,
  )

  Closes-cons :
      (ev : FanotifyEvent) (evs : List FanotifyEvent) (t t' : Tap) (o : Outcome)
      → Handled (ev ∷ []) t t'
      → Closes evs t' o
      → Closes (ev ∷ evs) t o
  Closes-cons ev evs t t' (ongoing u) h c = Handled-cons ev evs t t' u h c
  Closes-cons ev evs t t' (stopped u) h (pre, post, split, c) =
      (ev ∷ pre, post, ap (◌∷◌ ev) split, Handled-cons ev pre t t' u h c)

  -- Every descriptor that the kernel handed over with an event is closed, in order: by a loop that
  -- ends, those of all its events, once each; by one that a failed write ends, those of the events
  -- up to that one. A raw dump gets one line for each of the same events, in order.
  pub handle_events-Closes :
      (evs : List FanotifyEvent) (t : Tap) → Closes evs t (handle_events w f evs t)
  unfolding handle_events
  handle_events-Closes [] t = (sym (append-nil t.closed), refl)
  handle_events-Closes (ev ∷ evs) t =
      after (handle_event w f ev t) (handle_event-Handled ev t) (λ t'. handle_events-Closes evs t')
    where
      after :
          (o : Outcome)
          → Handled (ev ∷ []) t (state o)
          → ((t' : Tap) → Closes evs t' (handle_events w f evs t'))
          → Closes (ev ∷ evs) t (and_then o (handle_events w f evs))
      after (ongoing t') h rest = Closes-cons ev evs t t' (handle_events w f evs t') h (rest t')
      after (stopped t') h rest = (ev ∷ [], evs, refl, h)

  -- A read that holds whole events and then one whose `event_len` is below 24 is dropped as a whole:
  -- none of its events is written, and none of the descriptors that they carry is closed.
  pub handle_read-drops :
      (ms : List Metadata) (bad : Bytes) (t : Tap)
      → AllFit ms
      → t.leftover ≡ []
      → metadata_size ≤ length bad
      → event_len bad < metadata_size
      → (parse_fanotify_events (put_events ms []) ≡ parsed (map event_of ms) [])
        × (handle_read w f (put_events ms [] ++ bad) t ≡ ongoing (record t { leftover = [] }))
  unfolding handle_read
  handle_read-drops ms bad t fit l h p = (
    good,
    rw (ap (λ x. parse_fanotify_events (x ++ (put_events ms [] ++ bad))) l ∙ whole, handle_read),
  )
    where
      good : parse_fanotify_events (put_events ms []) ≡ parsed (map event_of ms) []
      good = parse_fanotify_events-put_events ms [] fit (inl (omega arith))

      whole :
          parse_fanotify_events (put_events ms [] ++ bad)
          ≡ failed (map event_of ms ++ []) (event_len bad)
      whole =
          parse_fanotify_events-append (put_events ms []) bad
          ∙ ap (λ r. resume r bad) good
          ∙ ap (prepend (map event_of ms)) (parse_fanotify_events-short bad h p)
