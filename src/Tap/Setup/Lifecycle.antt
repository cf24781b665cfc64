-- ===== src/Tap/Setup/Lifecycle.antt =====
-- internal/tap/tap_linux.go, Run: the life of the fanotify descriptor.
use agentflash.Common.{
  ℕ, ◌≢◌, true, false, Option, none, some, List, [], ◌∷◌, ◌++◌, ◌≡◌, ◌⊎◌, refl, ap, ◌∙◌, arith, inl,
  inr, Bytes, ◌==◌, if◌then◌else◌, Bool-cases,
}
use agentflash.Common.Int.{ℤ, eq_ℤ, eq_ℤ_iff}
use agentflash.GoPath.{abs}
use agentflash.Fanotify.Device.{
  Errno, einval, Kernel, Syscall, fanotify_init, fanotify_mark, close, mark_filesystem, mark_mount,
  new_fanotify_device, mark, mark_fallback, mark_answered, close_device,
}
use agentflash.Tap.{
  Config, World, Outcome, ongoing, stopped, ReadResult, make_filter, run_loop, initial,
}
use agentflash.Tap.Admitted.{SoundOutcome, run_loop-Sound}
use agentflash.Tap.Setup.{
  Process, run_mask, Progress, resolve_error, init_error, mark_error, fallback_error, looped, Ran,
  Dump, no_dump, new_dump, still_open, dump_shut, close_after, run_marked, run_opened, run_resolved,
  run,
}

-- The states of the descriptor; `misused` is a call that does not fit the state.
pub data Device : Type 0 where
  unopened : Device
  opened : ℤ → Device
  watching : ℤ → Device
  closed : Device
  misused : Device

-- The kernel's view of the calls.
abbrev pub after_call : Device → Syscall → Device
after_call unopened (fanotify_init none) = unopened
after_call unopened (fanotify_init (some fd)) = opened fd
after_call (opened fd) (fanotify_mark j flags mask path none) =
    if eq_ℤ fd j then watching fd else misused
after_call (opened fd) (fanotify_mark j flags mask path (some e)) =
    if eq_ℤ fd j then opened fd else misused
after_call (opened fd) (close j) = if eq_ℤ fd j then closed else misused
after_call (watching fd) (close j) = if eq_ℤ fd j then closed else misused
after_call _ _ = misused

abbrev pub after_calls : Device → List Syscall → Device
after_calls d [] = d
after_calls d (c ∷ cs) = after_calls (after_call d c) cs

abbrev pub device_of : List Syscall → Device
device_of = after_calls unopened

-- The descriptor and the raw dump, which was opened as `raw`.
abbrev HoldsAfter : Outcome → ℤ → Option Bytes → Device → Dump → Type 0
HoldsAfter (ongoing t) fd raw d u = (d ≡ watching fd) × (u ≡ still_open raw)
HoldsAfter (stopped t) fd raw d u = (d ≡ closed) × (u ≡ dump_shut raw)

-- The kernel takes the mark on the file system, or has no such mark and takes the one on the mount.
abbrev Accepts : Kernel → ℤ → Bytes → Type 0
Accepts k fd dir =
    (k.mark fd mark_filesystem run_mask dir ≡ none)
    ⊎ ((k.mark fd mark_filesystem run_mask dir ≡ some einval)
        × (k.mark fd mark_mount run_mask dir ≡ none))

after_calls-append :
    (d : Device) (xs ys : List Syscall)
    → after_calls d (xs ++ ys) ≡ after_calls (after_calls d xs) ys
after_calls-append d [] ys = refl
after_calls-append d (x ∷ xs) ys = after_calls-append (after_call d x) xs ys

device_of-snoc :
    (log : List Syscall) (c : Syscall) {d : Device}
    → device_of log ≡ d
    → device_of (log ++ c ∷ []) ≡ after_call d c
device_of-snoc log c e = after_calls-append unopened log (c ∷ []) ∙ ap (λ d. after_call d c) e

eq_ℤ_refl : (a : ℤ) → eq_ℤ a a ≡ true
eq_ℤ_refl a = (eq_ℤ_iff a a).1 refl

is_einval : (e : Errno) → (e == einval) ≡ true → e ≡ einval
is_einval e t = ground arith

not_einval : (e : Errno) → (e == einval) ≡ false → e ≢ einval
not_einval e t = ground arith

-- The calls that fit the state of the descriptor, behind any others.
module _ (log : List Syscall) (fd : ℤ) where
  device_of-close :
      {d : Device}
      → device_of log ≡ d
      → (d ≡ opened fd) ⊎ (d ≡ watching fd)
      → device_of (log ++ close fd ∷ []) ≡ closed
  device_of-close e (inl o) =
      device_of-snoc log (close fd) (e ∙ o) ∙ ap (λ b. if b then closed else misused) (eq_ℤ_refl fd)
  device_of-close e (inr o) =
      device_of-snoc log (close fd) (e ∙ o) ∙ ap (λ b. if b then closed else misused) (eq_ℤ_refl fd)

  device_of-mark :
      (flags mask : ℕ) (path : Bytes)
      → device_of log ≡ opened fd
      → device_of (log ++ fanotify_mark fd flags mask path none ∷ []) ≡ watching fd
  device_of-mark flags mask path e =
      device_of-snoc log (fanotify_mark fd flags mask path none) e
      ∙ ap (λ b. if b then watching fd else misused) (eq_ℤ_refl fd)

  device_of-mark_error :
      (flags mask : ℕ) (path : Bytes) (n : Errno)
      → device_of log ≡ opened fd
      → device_of (log ++ fanotify_mark fd flags mask path (some n) ∷ []) ≡ opened fd
  device_of-mark_error flags mask path n e =
      device_of-snoc log (fanotify_mark fd flags mask path (some n)) e
      ∙ ap (λ b. if b then opened fd else misused) (eq_ℤ_refl fd)

device_of-refused :
    (log : List Syscall) (fd : ℤ) (flags mask : ℕ) (path : Bytes) (n : Errno)
    → device_of log ≡ opened fd
    → device_of ((log ++ fanotify_mark fd flags mask path (some n) ∷ []) ++ close fd ∷ []) ≡ closed
device_of-refused log fd flags mask path n e =
    device_of-close (log ++ fanotify_mark fd flags mask path (some n) ∷ []) fd
      (device_of-mark_error log fd flags mask path n e) (inl refl)

module _ (k : Kernel) (p : Process) (w : World) (cfg : Config) (rs : List ReadResult) where
  -- What each way in which `Run` can have got on means, with the descriptor it then has.
  abbrev pub Ends : Progress → Device → Dump → Type 0
  Ends resolve_error d u = (abs p.getwd cfg.watch_dir ≡ none) × (d ≡ unopened) × (u ≡ no_dump)
  Ends init_error d u = (k.init ≡ none) × (d ≡ unopened) × (u ≡ no_dump)
  Ends (mark_error e) d u = (e ≢ einval) × (d ≡ closed) × (u ≡ no_dump)
  Ends (fallback_error e e2) d u = (e ≡ einval) × (d ≡ closed) × (u ≡ no_dump)
  Ends (looped o) d u =
      (dir : Bytes) × (fd : ℤ) × (abs p.getwd cfg.watch_dir ≡ some dir)
      × (k.init ≡ some fd)
      × Accepts k fd dir
      × SoundOutcome (make_filter cfg dir p.getpid p.getppid) o
      × HoldsAfter o fd (new_dump cfg.raw_dump_file p.create_ok) d u

  abbrev EndsWell : Ran → Type 0
  EndsWell r = Ends r.progress (device_of r.log) r.dump

  module _ (dir warned : Bytes) (fd : ℤ) (a : abs p.getwd cfg.watch_dir ≡ some dir)
      (i : k.init ≡ some fd) where
    close_after-Ends :
        (o : Outcome) (log : List Syscall)
        → SoundOutcome (make_filter cfg dir p.getpid p.getppid) o
        → Accepts k fd dir
        → after_calls unopened log ≡ watching fd
        → EndsWell (close_after fd warned (new_dump cfg.raw_dump_file p.create_ok) o log)
    unfolding close_after close_device
    close_after-Ends (ongoing t) log s acc d = (dir, fd, a, i, acc, s, (d, refl))
    close_after-Ends (stopped t) log s acc d =
        (dir, fd, a, i, acc, s, (device_of-close log fd d (inr refl), refl))

    sound : SoundOutcome (make_filter cfg dir p.getpid p.getppid) (
        run_loop w
          (make_filter cfg dir p.getpid p.getppid)
          rs
          (initial (new_dump cfg.raw_dump_file p.create_ok)))
    sound =
        run_loop-Sound w (make_filter cfg dir p.getpid p.getppid)
          (new_dump cfg.raw_dump_file p.create_ok) rs

    module _ (log : List Syscall) (d : device_of log ≡ opened fd) where
      fallback-Ends :
          (e : Errno) (answer : Option Errno)
          → e ≡ einval
          → k.mark fd mark_filesystem run_mask dir ≡ some e
          → k.mark fd mark_mount run_mask dir ≡ answer
          → EndsWell
              (run_marked k p w cfg rs fd dir warned (mark_fallback k fd dir run_mask e log answer))
      unfolding mark_fallback run_marked close_device
      fallback-Ends e none q refused taken =
          close_after-Ends _ _ sound (inr (refused ∙ ap some q, taken))
            (device_of-mark log fd mark_mount run_mask dir d)
      fallback-Ends e (some e2) q refused again =
          (q, device_of-refused log fd mark_mount run_mask dir e2 d, refl)

    mark-Ends :
        (log : List Syscall) (answer : Option Errno)
        → device_of log ≡ opened fd
        → k.mark fd mark_filesystem run_mask dir ≡ answer
        → EndsWell
            (run_marked k p w cfg rs fd dir warned (mark_answered k fd dir run_mask log answer))
    unfolding mark_answered run_marked close_device
    mark-Ends log none d taken =
        close_after-Ends _ _ sound (inl taken)
          (device_of-mark log fd mark_filesystem run_mask dir d)
    mark-Ends log (some e) d refused = elim (Bool-cases (e == einval)) [
      | inr other ↦
          rw other
            (not_einval e other, device_of-refused log fd mark_filesystem run_mask dir e d, refl)
      | inl invalid ↦ rw invalid (
          fallback-Ends _ (device_of-mark_error log fd mark_filesystem run_mask dir e d) e _
            (is_einval e invalid) refused refl)
    ]

  run_opened-Ends :
      (dir warned : Bytes) (answer : Option ℤ)
      → abs p.getwd cfg.watch_dir ≡ some dir
      → k.init ≡ answer
      → EndsWell (run_opened k p w cfg rs dir warned (answer, fanotify_init answer ∷ []))
  unfolding run_opened mark
  run_opened-Ends dir warned none a i = (i, refl, refl)
  run_opened-Ends dir warned (some fd) a i =
      mark-Ends dir warned fd a i (fanotify_init (some fd) ∷ []) _ refl refl

  run_resolved-Ends :
      (resolved : Option Bytes)
      → abs p.getwd cfg.watch_dir ≡ resolved
      → EndsWell (run_resolved k p w cfg rs resolved)
  unfolding run_resolved new_fanotify_device
  run_resolved-Ends none a = (a, refl, refl)
  run_resolved-Ends (some dir) a = run_opened-Ends dir _ _ a refl

  -- However the kernel answers, of the calls that `Run` makes on the descriptor none comes before it
  -- is opened, after it is closed or on another, and it is closed once `Run` has returned. `Run`
  -- returns before it opens the descriptor only where the watch dir cannot be resolved, and without
  -- it only where the kernel refuses it. It gives up after one mark only for an error other than
  -- EINVAL, and after the mark on the mount only where the first error was EINVAL. It reads events
  -- only with the descriptor on the file system or, where the kernel does not know this mark, on the
  -- mount, and then every event it writes is admitted and its counters add up. A raw dump that is
  -- asked for and can be created is open while the loop runs, and closed once it has returned.
  pub run-Ends :
      Ends (run k p w cfg rs).progress (device_of (run k p w cfg rs).log) (run k p w cfg rs).dump
  unfolding run
  run-Ends = run_resolved-Ends _ refl
