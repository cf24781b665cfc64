-- ===== src/Watcher/Coalesce.antt =====
-- The deduplication of runFSEventsWatcher against its meaning: an event is left out exactly when
-- one with the same path and kind was passed on less than the window before it.
use agentflash.Common.{
  ℕ, ◌-◌, ◌≤◌, Bool, true, false, ◌&&◌, ◌||◌, Option, none, some, List, [], ◌∷◌, ◌++◌, ◌≡◌, refl,
  sym, ap, ◌∙◌, arith, inl, inr, ltb, Bool-cases, Option-cases, if◌then◌else◌,
}
use agentflash.Hub.{Call}
use agentflash.TreeWatch.{WatchEvent}
use agentflash.Watcher.{
  DedupeKey, eq_key, key_of, Recent, last_seen, see, prune, prune_age, dedupe_window, is_repeated,
  calls_of, watch_event, watch,
}
use agentflash.Watcher.Dedupe.{
  eq_key_iff, Distinct, last_seen-see_same, last_seen-see_other, see-Distinct, young,
  prune-Distinct, last_seen-prune,
}

abbrev pub Timed : Type 0
Timed = ℕ × WatchEvent

-- Was an event with this key passed on within the window before `now`?
abbrev pub passed_within : DedupeKey → ℕ → List Timed → Bool
passed_within k now [] = false
passed_within k now ((t, e) ∷ passed) =
    eq_key k (key_of e) && ltb (now - t) dedupe_window || passed_within k now passed

-- The events that are to be passed on after those already passed on.
abbrev pub coalesce : List Timed → List Timed → List Timed
coalesce [] passed = []
coalesce ((now, ev) ∷ evs) passed =
    if passed_within (key_of ev) now passed
    then coalesce evs passed
    else (now, ev) ∷ coalesce evs ((now, ev) ∷ passed)

abbrev pub calls_of_all : List Timed → List Call
calls_of_all [] = []
calls_of_all ((now, ev) ∷ evs) = calls_of now ev ++ calls_of_all evs

-- The clock does not run backwards.
abbrev pub Monotone : ℕ → List Timed → Type 0
Monotone last [] = Unit
Monotone last ((t, e) ∷ evs) = (last ≤ t) × Monotone t evs

abbrev pub Past : ℕ → List Timed → Type 0
Past last [] = Unit
Past last ((t, e) ∷ passed) = (t ≤ last) × Past last passed

pub Past-le : (a b : ℕ) (passed : List Timed) → a ≤ b → Past a passed → Past b passed
Past-le a b [] h p = tt
Past-le a b ((t, e) ∷ passed) h (le, p) = (omega arith, Past-le a b passed h p)

abbrev near : ℕ → Option ℕ → Bool
near now none = false
near now (some t) = ltb (now - t) dedupe_window

near-young : (a b : ℕ) (o : Option ℕ) → a ≤ b → near b (young a o) ≡ near b o
near-young a b none h = refl
near-young a b (some t) h = elim (Bool-cases (ltb prune_age (a - t))) [
  | inl old ↦ rw old (ground arith)
  | inr recent ↦ rw recent
]

-- Of the events passed on, a later one is at least as near.
passed_within-near :
    (k : DedupeKey) (last now : ℕ) (passed : List Timed)
    → Past last passed
    → last ≤ now
    → passed_within k now passed ≡ true
    → ltb (now - last) dedupe_window ≡ true
passed_within-near k last now [] p h e = cc
passed_within-near k last now ((t, ev) ∷ passed) (le, p) h e =
    let earlier = passed_within-near k last now passed p h in ground (arith, earlier)

record Agrees (last : ℕ) (recent : Recent) (passed : List Timed) : Type 0 where
  distinct : Distinct recent
  past : Past last passed
  agree :
      (k : DedupeKey) (now : ℕ) → last ≤ now → is_repeated k now recent ≡ passed_within k now passed

is_repeated-near :
    (k : DedupeKey) (now : ℕ) (r : Recent) → is_repeated k now r ≡ near now (last_seen k r)
unfolding is_repeated
is_repeated-near k now r = elim (Option-cases (last_seen k r)) [
  | inl e ↦ rw (e, is_repeated)
  | inr (t, e) ↦ rw (e, is_repeated)
]

near-prune :
    (k : DedupeKey) (a b : ℕ) (r : Recent)
    → Distinct r
    → a ≤ b
    → near b (last_seen k (prune a r)) ≡ near b (last_seen k r)
near-prune k a b r d h = elim (last_seen-prune k a r d) [
  | inl kept ↦ ap (near b) kept
  | inr left ↦ ap (near b) left ∙ near-young a b (last_seen k r) h
]

Agrees-later :
    {last : ℕ} {r : Recent} {passed : List Timed} (now : ℕ)
    → last ≤ now
    → Agrees last r passed
    → Agrees now r passed
Agrees-later {last} {r} {passed} now h s = record {
  distinct = s.distinct;
  past = Past-le last now passed h s.past;
  agree = λ k later g. s.agree k later (omega arith);
}

absorb : (a b : Bool) → (b ≡ true → a ≡ true) → a ≡ (a || b)
absorb true b h = refl
absorb false true h = h refl
absorb false false h = refl

Agrees-see :
    {last : ℕ} {r : Recent} {passed : List Timed} (now : ℕ) (ev : WatchEvent)
    → last ≤ now
    → Agrees last r passed
    → Agrees now (prune now (see (key_of ev) now r)) ((now, ev) ∷ passed)
Agrees-see {last} {r} {passed} now ev h s =
    let d = see-Distinct (key_of ev) now r s.distinct in
    record {
      distinct = prune-Distinct now (see (key_of ev) now r) d;
      past = (omega arith, Past-le last now passed h s.past);
      agree = λ k later g.
          is_repeated-near k later _
          ∙ near-prune k now later (see (key_of ev) now r) d g
          ∙ read k later g;
    }
  where
    read :
        (k : DedupeKey) (later : ℕ)
        → now ≤ later
        → near later (last_seen k (see (key_of ev) now r))
          ≡ passed_within k later ((now, ev) ∷ passed)
    read k later g = elim (Bool-cases (eq_key k (key_of ev))) [
      | inl same ↦
          let found =
            ap (λ x. last_seen x (see (key_of ev) now r)) ((eq_key_iff k (key_of ev)).0 same)
            ∙ last_seen-see_same (key_of ev) now r in
          rw (found, same)
            (absorb (ltb (later - now) dedupe_window) (passed_within k later passed)
              (passed_within-near k now later passed (Past-le last now passed h s.past) g))
      | inr other ↦
          rw (last_seen-see_other k (key_of ev) now r other, other)
            (sym (is_repeated-near k later r) ∙ s.agree k later (omega arith))
    ]

watch-Agrees :
    (evs : List Timed) {last : ℕ} {r : Recent} {passed : List Timed}
    → Monotone last evs
    → Agrees last r passed
    → watch evs r ≡ calls_of_all (coalesce evs passed)
unfolding watch watch_event
watch-Agrees [] m s = refl
watch-Agrees ((now, ev) ∷ evs) {last} {r} {passed} (le, m) s =
    elim (Bool-cases (passed_within (key_of ev) now passed)) [
      | inl repeated ↦ rw (same ∙ repeated, repeated) (watch-Agrees evs m (Agrees-later now le s))
      | inr new ↦
          rw (same ∙ new, new)
            (ap (λ cs. calls_of now ev ++ cs) (watch-Agrees evs m (Agrees-see now ev le s)))
    ]
  where
    same : is_repeated (key_of ev) now r ≡ passed_within (key_of ev) now passed
    same = s.agree (key_of ev) now le

-- With a clock that does not run backwards, the watcher asks the hub for the calls of exactly the
-- events that have no earlier event with the same path and kind passed on within the window before
-- them. Deleting the old entries of the map changes nothing of that.
pub watch-coalesce :
    (evs : List Timed) → Monotone 0 evs → watch evs [] ≡ calls_of_all (coalesce evs [])
unfolding is_repeated last_seen
watch-coalesce evs m = watch-Agrees evs m fresh
  where
    fresh : Agrees 0 [] []
    fresh = record { distinct = tt; past = tt; agree = λ k now h. refl }
