-- ===== src/Flags/Spawn.antt =====
-- main.go and internal/ui/spawn.go: the arguments between the UI and the tap that it starts.
use agentflash.Common.{
  ℕ, ◌^◌, ◌<◌, ◌≢◌, Bool, true, false, not, ◌||◌, List, [], ◌∷◌, ◌++◌, ◌≡◌, refl, sym, ap, ◌∙◌,
  Bytes, codes, drop, eq_bytes, if◌then◌else◌, ◌==◌, ltb, append_assoc, eq_bytes_refl,
}
use agentflash.Common.Int.{ℤ, pos, eq_ℤ, eq_ℤ_iff}
use agentflash.GoPath.{split_at, base}
use agentflash.GoPath.Clean.{All}
use agentflash.Tap.{Config, make_filter, has_pid, has_name, exclude_processes}
use agentflash.Flags.{dispatch, tap, comma, trim_space, parse_names, names_of, itoa, spawn_args}
use agentflash.Flags.Pids.{parse_pids-itoa}
use agentflash.Flags.Parse.{
  values, parse_flags, form_of, form_of_name, cut_value, declared, fits, parse_bool, value_of,
}
use agentflash.Flags.Start.{tap_flags, start, tap_start, run_tap}

-- A name that the list of --exclude-name passes on: not empty, without a comma and without white
-- space around it.
pub record IsListName (s : Bytes) : Type 0 where
  pub not_empty : s ≢ []
  pub no_comma : All (λ c. (c == comma) ≡ false) s
  pub trimmed : trim_space s ≡ s

-- What the arguments behind the subcommand set.
spawned : Bytes → Bytes → ℕ → Bytes → Bool → List (Bytes × Bytes)
spawned self dir pid raw debug =
    (codes "dir", dir)
    ∷ (codes "exclude-pid", itoa pid)
    ∷ (codes "exclude-name", base self)
    ∷ ((if not (eq_bytes raw []) then (codes "raw-dump", raw) ∷ [] else [])
        ++ (if debug then (codes "debug", codes "true") ∷ [] else []))

parse_flags-spawn_args :
    (self dir : Bytes) (pid : ℕ) (raw : Bytes) (debug : Bool)
    → parse_flags tap_flags (drop 3 (spawn_args self dir pid raw debug))
      ≡ values (spawned self dir pid raw debug)
unfolding parse_flags form_of form_of_name cut_value declared fits parse_bool spawn_args spawned
    eq_bytes
parse_flags-spawn_args self dir pid [] true = refl
parse_flags-spawn_args self dir pid [] false = refl
parse_flags-spawn_args self dir pid (c ∷ cs) true = refl
parse_flags-spawn_args self dir pid (c ∷ cs) false = refl

split_at_none : (s : Bytes) → All (λ c. (c == comma) ≡ false) s → split_at comma s ≡ s ∷ []
unfolding split_at
split_at_none [] h = refl
split_at_none (c ∷ cs) (n, h) = rw (n, split_at_none cs h) refl

parse_names-IsListName : (s : Bytes) → IsListName s → parse_names s ≡ s ∷ []
unfolding parse_names names_of eq_bytes
parse_names-IsListName [] h = absurd (h.not_empty refl)
parse_names-IsListName (c ∷ cs) h = rw (split_at_none (c ∷ cs) h.no_comma, h.trimmed) refl

-- The tap reads its configuration from the values set.
tap_start-spawned :
    (self dir : Bytes) (pid : ℕ) (raw : Bytes) (debug : Bool)
    → dir ≢ []
    → IsListName (base self)
    → pid < 2 ^ 63
    → tap_start (spawned self dir pid raw debug)
      ≡ start (record {
        watch_dir = dir;
        exclude_pid = pos pid ∷ [];
        exclude_name = base self ∷ [];
        raw_dump_file = raw;
        debug = debug;
      })
unfolding tap_start spawned value_of eq_bytes parse_bool
tap_start-spawned self [] pid raw debug d n r = absurd (d refl)
tap_start-spawned self (e ∷ es) pid [] true d n r =
    rw (parse_pids-itoa pid r, parse_names-IsListName (base self) n) refl
tap_start-spawned self (e ∷ es) pid [] false d n r =
    rw (parse_pids-itoa pid r, parse_names-IsListName (base self) n) refl
tap_start-spawned self (e ∷ es) pid (c ∷ cs) true d n r =
    rw (parse_pids-itoa pid r, parse_names-IsListName (base self) n) refl
tap_start-spawned self (e ∷ es) pid (c ∷ cs) false d n r =
    rw (parse_pids-itoa pid r, parse_names-IsListName (base self) n) refl

run_tap-values :
    (args : List Bytes) {vs : List (Bytes × Bytes)}
    → parse_flags tap_flags args ≡ values vs
    → run_tap args ≡ tap_start vs
unfolding run_tap
run_tap-values args e = rw (run_tap, e) refl

or_true : (b : Bool) → (b || true) ≡ true
or_true true = refl
or_true false = refl

-- A set of the filter keeps what stands at its end.
has_pid-append : (qs : List ℤ) (p : ℤ) → has_pid p (qs ++ p ∷ []) ≡ true
unfolding has_pid
has_pid-append [] p = ap (λ b. b || false) ((eq_ℤ_iff p p).1 refl)
has_pid-append (q ∷ qs) p = ap (λ b. eq_ℤ p q || b) (has_pid-append qs p) ∙ or_true (eq_ℤ p q)

has_name-append : (ms : List Bytes) (n : Bytes) → has_name n (ms ++ n ∷ []) ≡ true
unfolding has_name
has_name-append [] n = ap (λ b. b || false) (eq_bytes_refl n)
has_name-append (m ∷ ms) n =
    ap (λ b. eq_bytes n m || b) (has_name-append ms n) ∙ or_true (eq_bytes n m)

-- Let the UI of the program `self` with the process ID `pid` start the tap for the directory `dir`,
-- where the base name of `self` is not empty, has no comma in it and no white space around it. Then
-- the program that sudo runs takes its arguments for those of the tap, and the tap runs: it watches
-- `dir`, takes over the raw dump and the debug flag, and the sets that it then builds have the
-- process ID of the UI and the name of the program in them.
pub run_tap-spawn_args :
    (self dir : Bytes) (pid : ℕ) (raw : Bytes) (debug : Bool) (resolved : Bytes)
    (getpid getppid : ℕ)
    → dir ≢ []
    → IsListName (base self)
    → pid < 2 ^ 63
    → (args : List Bytes) × (cfg : Config) × (dispatch (drop 2 (spawn_args self dir pid raw debug))
        ≡ tap args)
      × (run_tap args ≡ start cfg)
      × (cfg.watch_dir ≡ dir)
      × (cfg.raw_dump_file ≡ raw)
      × (cfg.debug ≡ debug)
      × (has_pid (pos pid) (make_filter cfg resolved getpid getppid).pids ≡ true)
      × (has_name (base self) (make_filter cfg resolved getpid getppid).names ≡ true)
unfolding dispatch spawn_args make_filter eq_bytes
run_tap-spawn_args self dir pid raw debug resolved getpid getppid d n r =
    let sudo = if ltb 1 getppid then pos getppid ∷ [] else [] in
    (
      drop 3 (spawn_args self dir pid raw debug),
      record {
        watch_dir = dir;
        exclude_pid = pos pid ∷ [];
        exclude_name = base self ∷ [];
        raw_dump_file = raw;
        debug = debug;
      },
      refl,
      run_tap-values _ (parse_flags-spawn_args self dir pid raw debug)
          ∙ tap_start-spawned self dir pid raw debug d n r,
      refl,
      refl,
      refl,
      ap (has_pid (pos pid)) (sym (append_assoc sudo (pos getpid ∷ []) (pos pid ∷ [])))
          ∙ has_pid-append (sudo ++ pos getpid ∷ []) (pos pid),
      has_name-append exclude_processes (base self),
    )
