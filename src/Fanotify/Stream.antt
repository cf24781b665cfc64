-- ===== src/Fanotify/Stream.antt =====
-- internal/tap/fanotify_linux.go: the decoder's loop, its end and input in pieces.
use agentflash.Common.{
  ℕ, zero, suc, ◌-◌, ◌≤◌, ◌<◌, false, List, [], ◌∷◌, ◌++◌, ◌≡◌, refl, sym, ap, ◌∙◌, ◌⊎◌, inl, inr,
  arith, Bytes, ltb, ltb→lt, lt→ltb, ltb-false, if◌then◌else◌, Bool-cases, length, drop,
  length-append, length-drop, take-append_le, drop-append_le, append_assoc, append-nil,
}
use agentflash.Fanotify.{
  FanotifyEvent, ParseResult, parsed, failed, slice, event_len, decode, le_uint, metadata_size,
  parse_loop, parse_fanotify_events,
}

length-drop_event :
    (rest : Bytes) (f : ℕ)
    → length rest ≤ suc f
    → ltb (length rest) metadata_size ≡ false
    → ltb (event_len rest) metadata_size ≡ false
    → length (drop (event_len rest) rest) ≤ f
length-drop_event rest f h a b = ground (arith, length-drop (event_len rest) rest)

pub parse_loop-fuel :
    (f g : ℕ) (out : List FanotifyEvent) (rest : Bytes)
    → length rest ≤ f
    → length rest ≤ g
    → parse_loop f out rest ≡ parse_loop g out rest
unfolding parse_loop
parse_loop-fuel zero zero out rest p q = refl
parse_loop-fuel zero (suc g) out rest p q = ground arith
parse_loop-fuel (suc f) zero out rest p q = ground arith
parse_loop-fuel (suc f) (suc g) out rest p q = elim (Bool-cases (ltb (length rest) metadata_size)) [
  | inl a ↦ rw a
  | inr a ↦ elim (Bool-cases (ltb (event_len rest) metadata_size)) [
    | inl b ↦ rw (a, b)
    | inr b ↦
        rw (a, b)
          (ap (λ r. if ltb (length rest) (event_len rest) then parsed out rest else r)
            (parse_loop-fuel f g (out ++ decode rest ∷ []) (drop (event_len rest) rest)
              (length-drop_event rest f p a b) (length-drop_event rest g q a b)))
  ]
]

-- Where the loop stops without an error: no whole event is left.
abbrev pub IsIncomplete : Bytes → Type 0
IsIncomplete rest =
    (length rest < metadata_size)
    ⊎ ((metadata_size ≤ event_len rest) × (length rest < event_len rest))

abbrev Ends : ParseResult → Type 0
Ends (parsed out rest) = IsIncomplete rest
Ends (failed out n) = n < metadata_size

parse_loop-Ends :
    (f : ℕ) (out : List FanotifyEvent) (rest : Bytes)
    → length rest ≤ f
    → Ends (parse_loop f out rest)
unfolding parse_loop
parse_loop-Ends zero out rest p = inl (omega arith)
parse_loop-Ends (suc f) out rest p = elim (Bool-cases (ltb (length rest) metadata_size)) [
  | inl a ↦ rw a (inl (ltb→lt _ _ a))
  | inr a ↦ elim (Bool-cases (ltb (event_len rest) metadata_size)) [
    | inl b ↦ rw (a, b) (ltb→lt _ _ b)
    | inr b ↦ elim (Bool-cases (ltb (length rest) (event_len rest))) [
      | inl c ↦ rw (a, b, c) (inr (ground arith, ltb→lt _ _ c))
      | inr c ↦
          rw (a, b, c)
            (parse_loop-Ends f (out ++ decode rest ∷ []) (drop (event_len rest) rest)
              (length-drop_event rest f p a b))
    ]
  ]
]

-- The decoder stops by its own tests, whatever its input: where it reports no error, no whole
-- event is left over, and where it does, the `event_len` that it names is below 24.
pub parse_fanotify_events-ends :
    (buf : Bytes)
    → ((evs : List FanotifyEvent) (rest : Bytes)
        → parse_fanotify_events buf ≡ parsed evs rest
        → IsIncomplete rest)
      × ((evs : List FanotifyEvent) (n : ℕ)
          → parse_fanotify_events buf ≡ failed evs n
          → n < metadata_size)
unfolding parse_fanotify_events
parse_fanotify_events-ends buf = (
  λ evs rest e. rw e at (parse_loop-Ends (length buf) [] buf (omega arith)),
  λ evs n e. rw e at (parse_loop-Ends (length buf) [] buf (omega arith)),
)

slice-append :
    (lo hi : ℕ) (a b : Bytes) → lo ≤ hi → hi ≤ length a → slice lo hi (a ++ b) ≡ slice lo hi a
slice-append lo hi a b p q =
    rw (drop-append_le lo a b (omega arith))
      (take-append_le (hi - lo) (drop lo a) b (omega (arith, length-drop lo a)))

-- A header is read alike whatever follows the buffer.
event_len-append : (a b : Bytes) → metadata_size ≤ length a → event_len (a ++ b) ≡ event_len a
unfolding event_len
event_len-append a b h = ap le_uint (slice-append 0 4 a b (omega arith) (omega arith))

decode-append : (a b : Bytes) → metadata_size ≤ length a → decode (a ++ b) ≡ decode a
unfolding decode
decode-append a b h = rw (
  slice-append 20 24 a b (omega arith) (omega arith),
  slice-append 8 16 a b (omega arith) (omega arith),
  slice-append 16 20 a b (omega arith) (omega arith),
)

resume_loop : ParseResult → Bytes → ParseResult
resume_loop (parsed out rest) more = parse_loop (length (rest ++ more)) out (rest ++ more)
resume_loop (failed out n) more = failed out n

parse_loop-append :
    (f g : ℕ) (out : List FanotifyEvent) (a b : Bytes)
    → length a ≤ f
    → length (a ++ b) ≤ g
    → parse_loop g out (a ++ b) ≡ resume_loop (parse_loop f out a) b
unfolding parse_loop resume_loop
parse_loop-append zero g out [] b p q = parse_loop-fuel g (length b) out b q (omega arith)
parse_loop-append zero g out (x ∷ a) b p q = absurd (omega arith)
parse_loop-append (suc f) zero out [] b p q = parse_loop-fuel zero (length b) out b q (omega arith)
parse_loop-append (suc f) zero out (x ∷ a) b p q = absurd (omega arith)
parse_loop-append (suc f) (suc g) out a b p q = elim (Bool-cases (ltb (length a) metadata_size)) [
  | inl s ↦ rw s (parse_loop-fuel (suc g) (length (a ++ b)) out (a ++ b) q (omega arith))
  | inr s ↦ elim (Bool-cases (ltb (event_len a) metadata_size)) [
    | inl e ↦ rw (s, e, longer s, event_len-append a b (ground arith), e)
    | inr e ↦ elim (Bool-cases (ltb (length a) (event_len a))) [
      | inl l ↦
          rw (s, e, l) (parse_loop-fuel (suc g) (length (a ++ b)) out (a ++ b) q (omega arith))
      | inr l ↦
          rw
            (
              s,
              longer s,
              event_len-append a b (ground arith),
              e,
              l,
              whole l,
              decode-append a b (ground arith),
              drop-append_le (event_len a) a b (ground arith),
            )
            (parse_loop-append f g (out ++ decode a ∷ []) (drop (event_len a) a) b
              (length-drop_event a f p s e)
              (ground (
                arith,
                length-append a b,
                length-append (drop (event_len a) a) b,
                length-drop (event_len a) a,
              )))
    ]
  ]
]
  where
    longer : ltb (length a) metadata_size ≡ false → ltb (length (a ++ b)) metadata_size ≡ false
    longer s = ground (arith, length-append a b)

    whole : ltb (length a) (event_len a) ≡ false → ltb (length (a ++ b)) (event_len a) ≡ false
    whole l = ground (arith, length-append a b)

-- Events that were decoded before.
abbrev pub prepend : List FanotifyEvent → ParseResult → ParseResult
prepend evs (parsed out rest) = parsed (evs ++ out) rest
prepend evs (failed out n) = failed (evs ++ out) n

-- To go on with more bytes after a result.
abbrev pub resume : ParseResult → Bytes → ParseResult
resume (parsed evs rest) more = prepend evs (parse_fanotify_events (rest ++ more))
resume (failed evs n) more = failed evs n

parse_loop-prepend :
    (f : ℕ) (evs out : List FanotifyEvent) (rest : Bytes)
    → parse_loop f (evs ++ out) rest ≡ prepend evs (parse_loop f out rest)
unfolding parse_loop
parse_loop-prepend zero evs out rest = refl
parse_loop-prepend (suc f) evs out rest = elim (Bool-cases (ltb (length rest) metadata_size)) [
  | inl a ↦ rw a
  | inr a ↦ elim (Bool-cases (ltb (event_len rest) metadata_size)) [
    | inl b ↦ rw (a, b)
    | inr b ↦ elim (Bool-cases (ltb (length rest) (event_len rest))) [
      | inl c ↦ rw (a, b, c)
      | inr c ↦
          rw (a, b, c, append_assoc evs out (decode rest ∷ []))
            (parse_loop-prepend f evs (out ++ decode rest ∷ []) (drop (event_len rest) rest))
    ]
  ]
]

resume_loop-resume : (r : ParseResult) (more : Bytes) → resume_loop r more ≡ resume r more
unfolding resume_loop parse_fanotify_events
resume_loop-resume (parsed evs rest) more =
    ap (λ out. parse_loop (length (rest ++ more)) out (rest ++ more)) (sym (append-nil evs))
    ∙ parse_loop-prepend (length (rest ++ more)) evs [] (rest ++ more)
resume_loop-resume (failed evs n) more = refl

-- Bytes that come later do not change what was decoded before: decoding `a ++ b` is decoding `a`,
-- and then, where that reported no error, decoding what `a` left over followed by `b`, with the
-- events of `a` in front.
pub parse_fanotify_events-append :
    (a b : Bytes) → parse_fanotify_events (a ++ b) ≡ resume (parse_fanotify_events a) b
unfolding parse_fanotify_events
parse_fanotify_events-append a b =
    parse_loop-append (length a) (length (a ++ b)) [] a b (omega arith) (omega arith)
    ∙ resume_loop-resume (parse_loop (length a) [] a) b

pub parse_loop-incomplete :
    (f : ℕ) (out : List FanotifyEvent) (rest : Bytes)
    → IsIncomplete rest
    → parse_loop f out rest ≡ parsed out rest
unfolding parse_loop
parse_loop-incomplete zero out rest h = refl
parse_loop-incomplete (suc f) out rest (inl h) = rw (lt→ltb _ _ h)
parse_loop-incomplete (suc f) out rest (inr (p, q)) =
    elim (Bool-cases (ltb (length rest) metadata_size)) [
      | inl a ↦ rw a
      | inr a ↦ rw (a, ltb-false (event_len rest) metadata_size p, lt→ltb _ _ q)
    ]

pub parse_fanotify_events-incomplete :
    (rest : Bytes) → IsIncomplete rest → parse_fanotify_events rest ≡ parsed [] rest
unfolding parse_fanotify_events
parse_fanotify_events-incomplete rest h = parse_loop-incomplete (length rest) [] rest h

pub parse_fanotify_events-short :
    (bad : Bytes)
    → metadata_size ≤ length bad
    → event_len bad < metadata_size
    → parse_fanotify_events bad ≡ failed [] (event_len bad)
unfolding parse_fanotify_events parse_loop
parse_fanotify_events-short [] h p = absurd (omega arith)
parse_fanotify_events-short (b ∷ bs) h p =
    rw (ltb-false (length (b ∷ bs)) metadata_size h, lt→ltb (event_len (b ∷ bs)) metadata_size p)
