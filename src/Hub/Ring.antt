-- ===== src/Hub/Ring.antt =====
-- The replay ring of internal/ui/hub.go against the list of all events ever stored.
use native.Mathlib.Decide.{dec_lt}
use mathlib.Core.Path.{subst}
use mathlib.Core.Option.{some-injective}
use agentflash.Common.{
  ℕ, suc, ◌+◌, ◌-◌, ◌%◌, ◌≤◌, ◌<◌, Bool, true, false, some, List, [], ◌∷◌, ◌++◌, ◌≡◌, refl, sym, ap,
  ◌∙◌, inl, inr, arith, lt→ltb, ◌==◌, if◌then◌else◌, Bool-cases, length, set, take, drop, replicate,
  length-append, length-set, length-take, length-drop, length-replicate, take_all, drop_all,
  drop-append_le, take-suc-set, drop-suc-set, drop_one-drop, append-nil, append_assoc,
  take-append_length, drop-append_length,
}
use agentflash.Common.Int.{pos}
use agentflash.Event.{Event, zero_event}
use agentflash.Hub.{Hub, new_hub, record_event, copy, snapshot}

-- The last `n` elements.
abbrev pub last_n : ℕ → List Event → List Event
last_n n xs = drop (length xs - n) xs

-- `copy` over a destination of the same length replaces it.
copy-eq : (dst src : List Event) → length dst ≡ length src → copy dst src ≡ src
unfolding copy
copy-eq [] [] h = refl
copy-eq [] (s ∷ ss) h = absurd (omega arith)
copy-eq (d ∷ ds) [] h = absurd (omega arith)
copy-eq (d ∷ ds) (s ∷ ss) h = ap (◌∷◌ s) (copy-eq ds ss (omega arith))

-- `copy` of a shorter source leaves the rest of the destination.
copy-append :
    (dst src : List Event) → length src ≤ length dst → copy dst src ≡ src ++ drop (length src) dst
unfolding copy
copy-append [] [] h = refl
copy-append [] (s ∷ ss) h = absurd (omega arith)
copy-append (d ∷ ds) [] h = refl
copy-append (d ∷ ds) (s ∷ ss) h = ap (◌∷◌ s) (copy-append ds ss (omega arith))

-- The events that the ring holds, oldest first.
abbrev pub contents : Bool → ℕ → List Event → List Event
contents filled head ring = if filled then drop head ring ++ take head ring else take head ring

pub record IsValid (h : Hub) : Type 0 where
  pub storage : length h.ring ≡ h.ring_size
  pub head_in : h.ring_head < h.ring_size

-- The two copies of the filled case put `xs` and `ys` behind one another.
copy_twice :
    (xs ys dst : List Event)
    → length dst ≡ length xs + length ys
    → take (length xs) (copy dst xs) ++ copy (drop (length xs) (copy dst xs)) ys ≡ xs ++ ys
copy_twice xs ys dst h =
    let rest = drop (length xs) dst in
    rw (copy-append dst xs (omega arith), take-append_length xs rest, drop-append_length xs rest)
      (ap (◌++◌ xs) (copy-eq rest ys (omega (arith, length-drop (length xs) dst))))

pub snapshot-contents :
    (h : Hub) → IsValid h → snapshot h ≡ contents h.ring_filled h.ring_head h.ring
unfolding snapshot
snapshot-contents h v = elim (Bool-cases h.ring_filled) [
  | inl full ↦ rw (
    full,
    k,
    copy_twice (drop h.ring_head h.ring) (take h.ring_head h.ring)
        (replicate h.ring_size zero_event)
        (omega (
          arith,
          length-drop h.ring_head h.ring,
          length-take h.ring_head h.ring,
          length-replicate h.ring_size zero_event,
          v.storage,
          v.head_in,
        )),
  )
  | inr part ↦ rw part (
      copy-eq _ _ (
        omega (
          arith,
          length-take h.ring_head h.ring,
          length-replicate h.ring_head zero_event,
          v.storage,
          v.head_in,
        )))
]
  where
    k : h.ring_size - h.ring_head ≡ length (drop h.ring_head h.ring)
    k = omega (arith, length-drop h.ring_head h.ring, v.storage)

-- The ring holds the last `ring_size` of all the events stored since the start.
pub record Holds (h : Hub) (history : List Event) : Type 0 where
  pub valid : IsValid h
  pub held : contents h.ring_filled h.ring_head h.ring ≡ last_n h.ring_size history
  pub part : h.ring_filled ≡ false → h.ring_head ≡ length history
  pub full : h.ring_filled ≡ true → h.ring_size ≤ length history

last_n-concat_lt :
    (n : ℕ) (xs : List Event) (e : Event)
    → length xs < n
    → last_n n (xs ++ e ∷ []) ≡ last_n n xs ++ e ∷ []
last_n-concat_lt n xs e h = rw (z1, z2)
  where
    z1 : length (xs ++ e ∷ []) - n ≡ 0
    z1 = omega (arith, length-append xs (e ∷ []))

    z2 : length xs - n ≡ 0
    z2 = omega arith

last_n-concat_le :
    (n : ℕ) (xs : List Event) (e : Event)
    → 0 < n
    → n ≤ length xs
    → last_n n (xs ++ e ∷ []) ≡ drop 1 (last_n n xs) ++ e ∷ []
last_n-concat_le n xs e p h =
    rw (k, drop_one-drop (length xs - n) xs)
      (drop-append_le (suc (length xs - n)) xs (e ∷ []) (omega arith))
  where
    k : length (xs ++ e ∷ []) - n ≡ suc (length xs - n)
    k = omega (arith, length-append xs (e ∷ []))

-- The contents after one more event, by the position of the head and whether the ring is full.
module _ (ring : List Event) (i : ℕ) (e : Event) where
  set_last : suc i ≡ length ring → set ring i e ≡ take i ring ++ e ∷ []
  set_last h =
      sym (take_all (suc i) (set ring i e) (omega (arith, length-set ring i e)))
      ∙ take-suc-set ring i e (omega arith)

  -- The head moves on inside a full ring: the oldest event goes.
  slide :
      i < length ring
      → drop (suc i) (set ring i e) ++ take (suc i) (set ring i e)
        ≡ drop 1 (drop i ring ++ take i ring) ++ e ∷ []
  slide h =
      rw
        (
          drop-suc-set ring i e,
          take-suc-set ring i e h,
          drop-append_le 1 (drop i ring) (take i ring) (omega (arith, length-drop i ring)),
          drop_one-drop i ring,
        )
        (sym (append_assoc (drop (suc i) ring) (take i ring) (e ∷ [])))

  -- The head of a full ring comes back to the start.
  slide_last :
      suc i ≡ length ring → set ring i e ++ [] ≡ drop 1 (drop i ring ++ take i ring) ++ e ∷ []
  slide_last h = rw (
    append-nil,
    set_last h,
    drop-append_le 1 (drop i ring) (take i ring) (omega (arith, length-drop i ring)),
    drop_one-drop i ring,
    drop_all (suc i) ring (omega arith),
  )

suc_ne_zero : (i : ℕ) → (suc i == 0) ≡ false
suc_ne_zero i = ground arith

module _ (ring history : List Event) (i n : ℕ) (e : Event) (size : length ring ≡ n)
    (inside : i < n) where
  next_in : suc i < n → (i + 1) % n ≡ suc i
  next_in h = grind arith

  next_last : n ≤ suc i → (i + 1) % n ≡ 0
  next_last h = grind arith

  -- One write moves the contents on by one event.
  contents-step :
      (filled : Bool)
      → contents filled i ring ≡ last_n n history
      → (filled ≡ false → i ≡ length history)
      → (filled ≡ true → n ≤ length history)
      → let next = (i + 1) % n in
        contents (if next == 0 then true else filled) next (set ring i e)
        ≡ last_n n (history ++ e ∷ [])
  contents-step false held part full = elim (dec_lt (suc i) n) [
    | yes h ↦
        rw (next_in h, suc_ne_zero i)
          (take-suc-set ring i e (omega arith)
            ∙ ap (λ xs. xs ++ e ∷ []) held
            ∙ sym (last_n-concat_lt n history e (omega (arith, part refl))))
    | no h ↦ rw (next_last (omega arith)) (
        append-nil (set ring i e)
        ∙ set_last ring i e (omega arith)
        ∙ ap (λ xs. xs ++ e ∷ []) held
        ∙ sym (last_n-concat_lt n history e (omega (arith, part refl))))
  ]
  contents-step true held part full = elim (dec_lt (suc i) n) [
    | yes h ↦
        rw (next_in h, suc_ne_zero i)
          (slide ring i e (omega arith)
            ∙ ap (λ xs. drop 1 xs ++ e ∷ []) held
            ∙ sym (last_n-concat_le n history e (omega arith) (full refl)))
    | no h ↦ rw (next_last (omega arith)) (
        slide_last ring i e (omega arith)
        ∙ ap (λ xs. drop 1 xs ++ e ∷ []) held
        ∙ sym (last_n-concat_le n history e (omega arith) (full refl)))
  ]

  length-step :
      (filled : Bool)
      → (filled ≡ false → i ≡ length history)
      → (filled ≡ true → n ≤ length history)
      → let next = (i + 1) % n in
        let filled' = if next == 0 then true else filled in
        (filled' ≡ false → next ≡ length (history ++ e ∷ []))
        × (filled' ≡ true → n ≤ length (history ++ e ∷ []))
  length-step filled part full = elim (dec_lt (suc i) n) [
    | yes h ↦
        rw (next_in h, suc_ne_zero i)
          (
            (λ f. omega (arith, part f, length-append history (e ∷ []))),
            (λ t. omega (arith, full t, length-append history (e ∷ []))),
          )
    | no h ↦ rw (next_last (omega arith)) ((λ f. cc), λ t. reached filled (omega arith) part full)
  ]
    where
      reached :
          (b : Bool)
          → n ≤ suc i
          → (b ≡ false → i ≡ length history)
          → (b ≡ true → n ≤ length history)
          → n ≤ length (history ++ e ∷ [])
      reached false h p f = omega (arith, p refl, length-append history (e ∷ []))
      reached true h p f = omega (arith, f refl, length-append history (e ∷ []))

-- A hub after `ev` is stored.
abbrev pub stored : Event → Hub → Hub
stored ev h =
    let head = (h.ring_head + 1) % h.ring_size in
    record h {
      ring = set h.ring h.ring_head ev;
      ring_head = head;
      ring_filled = if head == 0 then true else h.ring_filled;
    }

pub record_event-stored :
    {h : Hub} (ev : Event) → IsValid h → record_event ev h ≡ some (stored ev h)
unfolding record_event
record_event-stored {h} ev v =
    rw (lt→ltb h.ring_head (length h.ring) (omega (arith, v.storage, v.head_in)))

stored-IsValid : {h : Hub} (ev : Event) → IsValid h → IsValid (stored ev h)
stored-IsValid {h} ev v = record {
  storage = length-set h.ring h.ring_head ev ∙ v.storage;
  head_in = omega (arith, v.head_in);
}

pub stored-Holds :
    {h : Hub} {history : List Event} (ev : Event)
    → Holds h history
    → Holds (stored ev h) (history ++ ev ∷ [])
stored-Holds {h} {history} ev s = record {
  valid = stored-IsValid ev s.valid;
  held =
      contents-step h.ring history h.ring_head h.ring_size ev s.valid.storage s.valid.head_in
        h.ring_filled s.held s.part s.full;
  part = lengths.0;
  full = lengths.1;
}
  where
    lengths :
        ((stored ev h).ring_filled ≡ false → (stored ev h).ring_head ≡ length (history ++ ev ∷ []))
        × ((stored ev h).ring_filled ≡ true → h.ring_size ≤ length (history ++ ev ∷ []))
    lengths =
        length-step h.ring history h.ring_head h.ring_size ev s.valid.storage s.valid.head_in
          h.ring_filled s.part s.full

-- The ring of a new hub is empty.
pub new_hub-Holds : (n : ℕ) {h : Hub} → 0 < n → new_hub (pos n) ≡ some h → Holds h []
unfolding new_hub
new_hub-Holds n {h} p e =
    subst (λ h. Holds h []) (some-injective _ _ e)
      (record {
        valid = record { storage = length-replicate n zero_event; head_in = p };
        held = sym (drop_all (0 - n) [] (omega arith));
        part = λ _. refl;
        full = λ t. cc;
      })

pub new_hub-size : (n : ℕ) {h : Hub} → new_hub (pos n) ≡ some h → h.ring_size ≡ n
unfolding new_hub
new_hub-size n e = sym (ap (λ (h : Hub). h.ring_size) (some-injective _ _ e))
