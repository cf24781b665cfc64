-- ===== src/TreeWatch/Loop/Faithful.antt =====
-- internal/treewatch/treewatch.go: what the reader of a watcher gets, and how it is closed.
use mathlib.Core.Path.{subst}
use mathlib.Core.Option.{some-injective}
use agentflash.Common.{
  ℕ, ◌+◌, ◌≤◌, Bool, true, false, not, some, List, [], ◌∷◌, ◌++◌, map, map-append, ◌≡◌, ◌⊎◌, inl,
  inr, refl, sym, ap, ◌∙◌, arith, Bytes, codes, length, length-append, append_assoc, ltb, ltb→lt,
  Bool-cases,
}
use agentflash.Common.Interleaves.{
  Interleaves, nothing, Interleaves-snoc_first, Interleaves-append_second,
}
use agentflash.TreeWatch.{EventInfo, WatchEvent, classify, forward, out_capacity}
use agentflash.TreeWatch.Loop.{
  Watch, in_capacity, begun, new_watch, Step, report, take_event, see_stop, receive_event,
  close_stop, Reach, here, later,
}

abbrev pub Bounded : Watch → Type 0
Bounded w = (length w.c ≤ in_capacity) × (length w.out ≤ out_capacity)

-- `out` is closed and notify is stopped when the loop ends, and it ends only after a Close.
abbrev pub Closes : Watch → Type 0
Closes w =
    (w.out_closed ≡ w.closed)
    × (w.notifying ≡ not w.closed)
    × ((w.closed ≡ false) ⊎ (w.stop ≡ true))

module _ (normalize_path : Bytes → Bytes) where
  -- The event that the loop makes of one of notify.
  abbrev pub event_of : EventInfo → WatchEvent
  event_of e = record { kind = classify e; path = normalize_path e.raw_path }

  -- All that the reader got and that waits for it, in order; the rest is lost.
  abbrev pub passed_on : Watch → List WatchEvent
  passed_on w = w.received ++ w.out

  -- The events that the loop took are those passed on and those lost, each in their order; none is
  -- lost before the channel is full.
  pub record Accounts (w : Watch) : Type 0 where
    pub taken : List EventInfo
    pub lost : List WatchEvent
    pub in_order : w.reported ≡ taken ++ w.c
    pub woven : Interleaves (passed_on w) lost (map event_of taken)
    pub full : (lost ≡ []) ⊎ (out_capacity ≤ length (passed_on w))

  still_full :
      (got out : List WatchEvent) (ev : WatchEvent) {lost : List WatchEvent}
      → (lost ≡ []) ⊎ (out_capacity ≤ length (got ++ out))
      → (lost ≡ []) ⊎ (out_capacity ≤ length (got ++ (out ++ ev ∷ [])))
  still_full got out ev (inl none_lost) = inl none_lost
  still_full got out ev (inr f) = inr (
      omega (
        arith,
        f,
        length-append got out,
        length-append got (out ++ ev ∷ []),
        length-append out (ev ∷ []),
      ))

  no_room-full :
      (got out : List WatchEvent)
      → ltb (length out) out_capacity ≡ false
      → out_capacity ≤ length (got ++ out)
  no_room-full got out n = rw (length-append got out) (above (length out) n)
    where
      above : (k : ℕ) → ltb k out_capacity ≡ false → out_capacity ≤ length got + k
      above k n = ground arith

  forward-Accounts :
      (w : Watch) (e : EventInfo) (rest : List EventInfo)
      → w.c ≡ e ∷ rest
      → Accounts w
      → Accounts (record w { c = rest; out = forward normalize_path e w.out })
  unfolding forward
  forward-Accounts w e rest q a =
      let ordered =
        a.in_order ∙ ap (λ x. a.taken ++ x) q ∙ sym (append_assoc a.taken (e ∷ []) rest) in
      elim (Bool-cases (ltb (length w.out) out_capacity)) [
        | inl room ↦ rw room (record {
          taken = a.taken ++ e ∷ [];
          lost = a.lost;
          in_order = ordered;
          woven =
              rw
                (
                  map-append event_of a.taken (e ∷ []),
                  ← append_assoc w.received w.out (event_of e ∷ []),
                )
                (Interleaves-snoc_first (event_of e) a.woven);
          full = still_full w.received w.out (event_of e) a.full;
        })
        | inr no_room ↦ rw no_room (record {
          taken = a.taken ++ e ∷ [];
          lost = a.lost ++ event_of e ∷ [];
          in_order = ordered;
          woven =
              rw (map-append event_of a.taken (e ∷ []))
                (Interleaves-append_second (event_of e ∷ []) a.woven);
          full = inr (no_room-full w.received w.out no_room);
        })
      ]

  Step-Accounts : {w v : Watch} → Step normalize_path w v → Accounts w → Accounts v
  Step-Accounts {w} (report e on room) a = record {
    taken = a.taken;
    lost = a.lost;
    in_order = ap (λ x. x ++ e ∷ []) a.in_order ∙ append_assoc a.taken w.c (e ∷ []);
    woven = a.woven;
    full = a.full;
  }
  Step-Accounts {w} (take_event e rest on q) a = forward-Accounts w e rest q a
  Step-Accounts (see_stop on s) a = record {
    taken = a.taken;
    lost = a.lost;
    in_order = a.in_order;
    woven = a.woven;
    full = a.full;
  }
  Step-Accounts {w} (receive_event ev rest q) a =
      let same = append_assoc w.received (ev ∷ []) rest ∙ ap (λ x. w.received ++ x) (sym q) in
      record {
        taken = a.taken;
        lost = a.lost;
        in_order = a.in_order;
        woven = rw same a.woven;
        full = rw same a.full;
      }
  Step-Accounts (close_stop s) a = record {
    taken = a.taken;
    lost = a.lost;
    in_order = a.in_order;
    woven = a.woven;
    full = a.full;
  }

  forward-bound :
      (e : EventInfo) (out : List WatchEvent)
      → length out ≤ out_capacity
      → length (forward normalize_path e out) ≤ out_capacity
  unfolding forward
  forward-bound e out b = elim (Bool-cases (ltb (length out) out_capacity)) [
    | inl room ↦
        rw room (
          omega (arith, ltb→lt (length out) out_capacity room, length-append out (event_of e ∷ [])))
    | inr no_room ↦ rw no_room b
  ]

  Step-Bounded : {w v : Watch} → Step normalize_path w v → Bounded w → Bounded v
  Step-Bounded {w} (report e on room) (c, o) = (omega (arith, room, length-append w.c (e ∷ [])), o)
  Step-Bounded {w} (take_event e rest on q) (c, o) = (below (rw q at c), forward-bound e w.out o)
    where
      below : length (e ∷ rest) ≤ in_capacity → length rest ≤ in_capacity
      below b = omega arith
  Step-Bounded (see_stop on s) b = b
  Step-Bounded {w} (receive_event ev rest q) (c, o) = (c, below (rw q at o))
    where
      below : length (ev ∷ rest) ≤ out_capacity → length rest ≤ out_capacity
      below b = omega arith
  Step-Bounded (close_stop s) b = b

  Step-Closes : {w v : Watch} → Step normalize_path w v → Closes w → Closes v
  Step-Closes (report e on room) f = f
  Step-Closes (take_event e rest on q) f = f
  Step-Closes (see_stop on s) f = (refl, refl, inr s)
  Step-Closes (receive_event ev rest q) f = f
  Step-Closes (close_stop s) (o, n, _) = (o, n, inr refl)

module _ (normalize_path : Bytes → Bytes) (watch : Bytes → Bool) (root : Bytes) where
  begun-state : Accounts normalize_path begun × Bounded begun × Closes begun
  begun-state = (
    record { taken = []; lost = []; in_order = refl; woven = nothing; full = inl refl },
    (omega arith, omega arith),
    (refl, refl, inl refl),
  )

  new_watch-state :
      (w : Watch) → new_watch watch root ≡ some w → Accounts normalize_path w × Bounded w × Closes w
  unfolding new_watch
  new_watch-state w n = elim (Bool-cases (watch (root ++ codes "/..."))) [
    | inl on ↦
        subst (λ x. Accounts normalize_path x × Bounded x × Closes x)
          (some-injective _ _ (rw (new_watch, on) at n)) begun-state
    | inr off ↦ cc (rw (new_watch, off) at n)
  ]

  -- In whatever order notify, the loop, the reader and the caller of Close move on from a new
  -- watcher: the events that the reader has got and those that wait for it are events that notify
  -- reported, classified and with their paths normalized, in the order of the reports, and the
  -- others that the loop took are lost; none is lost as long as there are fewer than 256 passed on. Both
  -- channels keep to their capacity. `out` is closed, and notify stopped, exactly when the loop has
  -- ended, and it ends only after a Close.
  pub Reach-state :
      {w0 w : Watch}
      → new_watch watch root ≡ some w0
      → Reach normalize_path w0 w
      → Accounts normalize_path w × Bounded w × Closes w
  Reach-state {w0} n here = new_watch-state w0 n
  Reach-state n (later r st) =
      let (a, b, c) = Reach-state n r in
      (
        Step-Accounts normalize_path st a,
        Step-Bounded normalize_path st b,
        Step-Closes normalize_path st c,
      )
