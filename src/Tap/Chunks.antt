-- ===== src/Tap/Chunks.antt =====
-- internal/tap/tap_linux.go: the loop of Run and the pieces in which the kernel's stream is read.
use agentflash.Common.{
  List, [], ◌∷◌, ◌++◌, map, ◌≡◌, refl, sym, ap, ◌∙◌, arith, Bytes, append_assoc, append-nil,
}
use agentflash.Fanotify.{FanotifyEvent, ParseResult, parsed, failed, parse_fanotify_events}
use agentflash.Fanotify.Stream.{
  parse_fanotify_events-append, parse_fanotify_events-ends, resume, prepend, IsIncomplete,
  parse_fanotify_events-incomplete,
}
use agentflash.Tap.{
  Tap, World, Filter, Outcome, ongoing, stopped, and_then, write_event, by_name, by_path,
  handle_event, handle_events, next_tick, handle_read, bytes, run_loop,
}

abbrev with_leftover : Bytes → Outcome → Outcome
with_leftover x (ongoing t) = ongoing (record t { leftover = x })
with_leftover x (stopped t) = stopped (record t { leftover = x })

-- What `leftover` holds is of no more use when `Run` has returned.
abbrev pub settle : Outcome → Outcome
settle (ongoing t) = ongoing t
settle (stopped t) = stopped (record t { leftover = [] })

module _ (w : World) (f : Filter) where
  by_path-leftover :
      (x path : Bytes) (ev : FanotifyEvent) (t : Tap)
      → by_path w f path ev (record t { leftover = x }) ≡ with_leftover x (by_path w f path ev t)
  unfolding by_path by_name write_event
  by_path-leftover x [] ev t = refl
  by_path-leftover x (b ∷ bs) ev t = ground arith

  next_tick-leftover :
      (x : Bytes) (o : Outcome) → next_tick (with_leftover x o) ≡ with_leftover x (next_tick o)
  unfolding next_tick
  next_tick-leftover x (ongoing t) = refl
  next_tick-leftover x (stopped t) = refl

  handle_event-leftover :
      (x : Bytes) (ev : FanotifyEvent) (t : Tap)
      → handle_event w f ev (record t { leftover = x }) ≡ with_leftover x (handle_event w f ev t)
  unfolding handle_event
  handle_event-leftover x ev t = ap next_tick (by_path-leftover x _ ev _) ∙ next_tick-leftover x _

  handle_events-leftover :
      (x : Bytes) (evs : List FanotifyEvent) (t : Tap)
      → handle_events w f evs (record t { leftover = x })
        ≡ with_leftover x (handle_events w f evs t)
  unfolding handle_events
  handle_events-leftover x [] t = refl
  handle_events-leftover x (ev ∷ evs) t =
      ap (λ o. and_then o (handle_events w f evs)) (handle_event-leftover x ev t)
      ∙ after (handle_event w f ev t) (λ t'. handle_events-leftover x evs t')
    where
      after :
          (o : Outcome)
          → ((t' : Tap)
              → handle_events w f evs (record t' { leftover = x })
                ≡ with_leftover x (handle_events w f evs t'))
          → and_then (with_leftover x o) (handle_events w f evs)
            ≡ with_leftover x (and_then o (handle_events w f evs))
      after (ongoing t') rest = rest t'
      after (stopped t') rest = refl

  handle_events-append :
      (xs ys : List FanotifyEvent) (t : Tap)
      → handle_events w f (xs ++ ys) t ≡ and_then (handle_events w f xs t) (handle_events w f ys)
  unfolding handle_events
  handle_events-append [] ys t = refl
  handle_events-append (x ∷ xs) ys t =
      after (handle_event w f x t) (λ t'. handle_events-append xs ys t')
    where
      after :
          (o : Outcome)
          → ((t' : Tap)
              → handle_events w f (xs ++ ys) t'
                ≡ and_then (handle_events w f xs t') (handle_events w f ys))
          → and_then o (handle_events w f (xs ++ ys))
            ≡ and_then (and_then o (handle_events w f xs)) (handle_events w f ys)
      after (ongoing t') rest = rest t'
      after (stopped t') rest = refl

  handle_events_none : (t : Tap) → with_leftover t.leftover (handle_events w f [] t) ≡ ongoing t
  unfolding handle_events
  handle_events_none t = refl

  handle_read-parsed :
      (input rest : Bytes) (evs : List FanotifyEvent) (t : Tap)
      → parse_fanotify_events (t.leftover ++ input) ≡ parsed evs rest
      → handle_read w f input t ≡ with_leftover rest (handle_events w f evs t)
  unfolding handle_read
  handle_read-parsed input rest evs t e = rw (e, handle_read) (handle_events-leftover rest evs t)

  handle_read-append :
      (a b ra rb : Bytes) (xs ys : List FanotifyEvent) (t : Tap)
      → parse_fanotify_events (t.leftover ++ a) ≡ parsed xs ra
      → parse_fanotify_events (ra ++ b) ≡ parsed ys rb
      → settle (handle_read w f (a ++ b) t)
        ≡ settle (and_then (handle_read w f a t) (handle_read w f b))
  handle_read-append a b ra rb xs ys t ea eb =
      ap settle (
        handle_read-parsed (a ++ b) rb (xs ++ ys) t whole
        ∙ ap (with_leftover rb) (handle_events-append xs ys t))
      ∙ after (handle_events w f xs t)
      ∙ ap (λ o. settle (and_then o (handle_read w f b))) (sym (handle_read-parsed a ra xs t ea))
    where
      whole : parse_fanotify_events (t.leftover ++ (a ++ b)) ≡ parsed (xs ++ ys) rb
      whole =
          ap parse_fanotify_events (sym (append_assoc t.leftover a b))
          ∙ parse_fanotify_events-append (t.leftover ++ a) b
          ∙ ap (λ r. resume r b) ea
          ∙ ap (prepend xs) eb

      after :
          (o : Outcome)
          → settle (with_leftover rb (and_then o (handle_events w f ys)))
            ≡ settle (and_then (with_leftover ra o) (handle_read w f b))
      after (ongoing u) = ap settle (
          sym (
            handle_read-parsed b rb ys (record u { leftover = ra }) eb
            ∙ ap (with_leftover rb) (handle_events-leftover ra ys u)
            ∙ twice rb ra (handle_events w f ys u)))
        where
          twice :
              (x y : Bytes) (o : Outcome) → with_leftover x (with_leftover y o) ≡ with_leftover x o
          twice x y (ongoing t) = refl
          twice x y (stopped t) = refl
      after (stopped u) = refl

  -- A read after which bytes are left over: what was parsed of it, when the whole can be parsed.
  split_parse :
      (l a b rest : Bytes) (evs : List FanotifyEvent)
      → parse_fanotify_events (l ++ (a ++ b)) ≡ parsed evs rest
      → (xs : List FanotifyEvent) × (ra : Bytes) × (ys : List FanotifyEvent)
        × (parse_fanotify_events (l ++ a) ≡ parsed xs ra)
        × (parse_fanotify_events (ra ++ b) ≡ parsed ys rest)
  split_parse l a b rest evs e = first (parse_fanotify_events (l ++ a)) refl
    where
      whole : (r : ParseResult) → parse_fanotify_events (l ++ a) ≡ r → resume r b ≡ parsed evs rest
      whole r p =
          ap (λ q. resume q b) (sym p)
          ∙ sym (parse_fanotify_events-append (l ++ a) b)
          ∙ ap parse_fanotify_events (append_assoc l a b)
          ∙ e

      second :
          (xs : List FanotifyEvent) (r : ParseResult)
          → prepend xs r ≡ parsed evs rest
          → (ys : List FanotifyEvent) × (r ≡ parsed ys rest)
      second xs (parsed ys rb) q = (ys, cc)
      second xs (failed ys n) q = cc

      first :
          (r : ParseResult)
          → parse_fanotify_events (l ++ a) ≡ r
          → (xs : List FanotifyEvent) × (ra : Bytes) × (ys : List FanotifyEvent)
            × (parse_fanotify_events (l ++ a) ≡ parsed xs ra)
            × (parse_fanotify_events (ra ++ b) ≡ parsed ys rest)
      first (parsed xs ra) p =
          let (ys, q) = second xs (parse_fanotify_events (ra ++ b)) (whole (parsed xs ra) p) in
          (xs, ra, ys, p, q)
      first (failed xs n) p = cc (whole (failed xs n) p)

abbrev pub concat : List Bytes → Bytes
concat [] = []
concat (b ∷ bs) = b ++ concat bs

-- The kernel may cut its stream into reads anywhere: while no read fails and the stream can be
-- parsed, the loop of `Run` over the pieces does what one read of the whole stream does, the same
-- events written and descriptors closed in the same order with the same counters, and leaves the
-- same bytes over.
pub run_loop-concat :
    (w : World) (f : Filter) (pieces : List Bytes) (t : Tap) (evs : List FanotifyEvent)
    (rest : Bytes)
    → IsIncomplete t.leftover
    → parse_fanotify_events (t.leftover ++ concat pieces) ≡ parsed evs rest
    → settle (run_loop w f (map bytes pieces) t) ≡ settle (handle_read w f (concat pieces) t)
unfolding run_loop
run_loop-concat w f [] t evs rest inc e = sym (
    ap settle (
      handle_read-parsed w f [] t.leftover [] t (
        ap parse_fanotify_events (append-nil t.leftover)
        ∙ parse_fanotify_events-incomplete t.leftover inc)
      ∙ handle_events_none w f t))
run_loop-concat w f (a ∷ ps) t evs rest inc e =
    let (xs, ra, ys, p, q) = split_parse w f t.leftover a (concat ps) rest evs e in
    let left = (parse_fanotify_events-ends (t.leftover ++ a)).0 xs ra p in
    ap (λ o. settle (and_then o (run_loop w f (map bytes ps)))) (handle_read-parsed w f a ra xs t p)
    ∙ after xs ra (handle_events w f xs t)
        (λ u. run_loop-concat w f ps (record u { leftover = ra }) ys rest left q)
    ∙ ap (λ o. settle (and_then o (handle_read w f (concat ps))))
        (sym (handle_read-parsed w f a ra xs t p))
    ∙ sym (handle_read-append w f a (concat ps) ra rest xs ys t p q)
  where
    after :
        (xs : List FanotifyEvent) (ra : Bytes) (o : Outcome)
        → ((u : Tap)
            → settle (run_loop w f (map bytes ps) (record u { leftover = ra }))
              ≡ settle (handle_read w f (concat ps) (record u { leftover = ra })))
        → settle (and_then (with_leftover ra o) (run_loop w f (map bytes ps)))
          ≡ settle (and_then (with_leftover ra o) (handle_read w f (concat ps)))
    after xs ra (ongoing u) next = next u
    after xs ra (stopped u) next = refl
