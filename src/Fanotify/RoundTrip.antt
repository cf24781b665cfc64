-- ===== src/Fanotify/RoundTrip.antt =====
-- The decoder against the kernel's layout of `struct fanotify_event_metadata`, as the helper
-- makeFanotifyEvent of internal/tap/fanotify_linux_test.go writes it.
use agentflash.Common.{
  ℕ, zero, suc, ◌+◌, ◌*◌, ◌/◌, ◌%◌, ◌^◌, ◌≤◌, ◌<◌, List, [], ◌∷◌, ◌++◌, map, ◌≡◌, refl, sym, ap,
  ◌∙◌, arith, Bytes, ltb-false, length, drop, length-append, drop-append_length, append_assoc,
  append-nil,
}
use agentflash.Common.Int.{signed32}
use agentflash.Fanotify.{
  FanotifyEvent, parsed, event_len, decode, le_uint, metadata_size, parse_loop,
  parse_fanotify_events,
}
use agentflash.Fanotify.Stream.{IsIncomplete, parse_loop-incomplete}

-- The `k` little-endian bytes of `n`.
abbrev pub put_le : ℕ → ℕ → Bytes
put_le zero n = []
put_le (suc k) n = n % 256 ∷ put_le k (n / 256)

abbrev pow256 : ℕ → ℕ
pow256 zero = 1
pow256 (suc k) = 256 * pow256 k

le_uint-put_le : (k n : ℕ) → n < pow256 k → le_uint (put_le k n) ≡ n
unfolding le_uint
le_uint-put_le zero n h = omega arith
le_uint-put_le (suc k) n h = omega (arith, le_uint-put_le k (n / 256) (omega arith))

-- One event as the kernel writes it. `extra` holds the information records behind the metadata.
pub record Metadata : Type 0 where
  pub vers : ℕ
  pub reserved : ℕ
  pub metadata_len_low : ℕ
  pub metadata_len_high : ℕ
  pub mask : ℕ
  pub fd : ℕ
  pub pid : ℕ
  pub extra : Bytes

pub record Fits (m : Metadata) : Type 0 where
  pub mask_fits : m.mask < 2 ^ 64
  pub fd_fits : m.fd < 2 ^ 32
  pub pid_fits : m.pid < 2 ^ 32
  pub length_fits : metadata_size + length m.extra < 2 ^ 32

abbrev pub AllFit : List Metadata → Type 0
AllFit [] = Unit
AllFit (m ∷ ms) = Fits m × AllFit ms

abbrev pub event_of : Metadata → FanotifyEvent
event_of m = record { pid = signed32 m.pid; mask = m.mask; fd = signed32 m.fd }

-- `rest` is what follows the event in the buffer.
abbrev pub put_event : Metadata → Bytes → Bytes
put_event m rest =
    put_le 4 (metadata_size + length m.extra)
    ++ (m.vers ∷ m.reserved ∷ m.metadata_len_low ∷ m.metadata_len_high ∷ [])
    ++ (put_le 8 m.mask ++ (put_le 4 m.fd ++ (put_le 4 m.pid ++ (m.extra ++ rest))))

abbrev pub put_events : List Metadata → Bytes → Bytes
put_events [] rest = rest
put_events (m ∷ ms) rest = put_event m (put_events ms rest)

event_len-put_event :
    (m : Metadata) (rest : Bytes)
    → Fits m
    → event_len (put_event m rest) ≡ metadata_size + length m.extra
unfolding event_len
event_len-put_event m rest f =
    le_uint-put_le 4 (metadata_size + length m.extra) (omega (arith, f.length_fits))

decode-put_event : (m : Metadata) (rest : Bytes) → Fits m → decode (put_event m rest) ≡ event_of m
unfolding decode
decode-put_event m rest f =
    ap₃ (le_uint-put_le 4 m.pid (omega (arith, f.pid_fits)))
      (le_uint-put_le 8 m.mask (omega (arith, f.mask_fits)))
      (le_uint-put_le 4 m.fd (omega (arith, f.fd_fits)))
  where
    ap₃ :
        {p k d : ℕ}
        → p ≡ m.pid
        → k ≡ m.mask
        → d ≡ m.fd
        → let e : FanotifyEvent = record { pid = signed32 p; mask = k; fd = signed32 d } in
          e ≡ event_of m
    ap₃ a b c = rw (a, b, c)

drop-nil : (n : ℕ) → drop {A = ℕ} n [] ≡ []
drop-nil zero = refl
drop-nil (suc n) = refl

drop-add : (k n : ℕ) (xs : Bytes) → drop (k + n) xs ≡ drop n (drop k xs)
drop-add zero n xs = let e : 0 + n ≡ n = omega arith in ap (λ i. drop i xs) e
drop-add (suc k) n [] = drop-nil (suc k + n) ∙ sym (drop-nil n)
drop-add (suc k) n (x ∷ xs) =
    let e : suc k + n ≡ suc (k + n) = omega arith in ap (λ i. drop i (x ∷ xs)) e ∙ drop-add k n xs

drop-put_event :
    (m : Metadata) (rest : Bytes) → drop (metadata_size + length m.extra) (put_event m rest) ≡ rest
drop-put_event m rest =
    drop-add metadata_size (length m.extra) (put_event m rest) ∙ drop-append_length m.extra rest

length-put_event :
    (m : Metadata) (rest : Bytes)
    → length (put_event m rest) ≡ metadata_size + length m.extra + length rest
length-put_event m rest = omega (arith, length-append m.extra rest)

parse_loop-put_event :
    (f : ℕ) (out : List FanotifyEvent) (m : Metadata) (rest : Bytes)
    → Fits m
    → parse_loop (suc f) out (put_event m rest) ≡ parse_loop f (out ++ event_of m ∷ []) rest
unfolding parse_loop
parse_loop-put_event f out m rest fit = rw (
  event_len-put_event m rest fit,
  decode-put_event m rest fit,
  drop-put_event m rest,
  ltb-false (length (put_event m rest)) metadata_size (omega (arith, length-put_event m rest)),
  ltb-false (metadata_size + length m.extra) metadata_size (omega arith),
  ltb-false (length (put_event m rest)) (metadata_size + length m.extra)
      (omega (arith, length-put_event m rest)),
)

parse_loop-put_events :
    (ms : List Metadata) (f : ℕ) (out : List FanotifyEvent) (tail : Bytes)
    → length (put_events ms tail) ≤ f
    → AllFit ms
    → IsIncomplete tail
    → parse_loop f out (put_events ms tail) ≡ parsed (out ++ map event_of ms) tail
parse_loop-put_events [] f out tail h fit t = rw append-nil (parse_loop-incomplete f out tail t)
parse_loop-put_events (m ∷ ms) zero out tail h fit t = absurd (omega arith)
parse_loop-put_events (m ∷ ms) (suc f) out tail h (fm, fms) t =
    parse_loop-put_event f out m (put_events ms tail) fm
    ∙ parse_loop-put_events ms f (out ++ event_of m ∷ []) tail
        (omega (arith, length-put_event m (put_events ms tail))) fms t
    ∙ ap (λ evs. parsed evs tail) (append_assoc out (event_of m ∷ []) (map event_of ms))

-- A buffer of whole events, each in the kernel's layout with any version bytes and any extra
-- records behind the metadata, followed by bytes that make up no whole event, decodes to exactly
-- the pid, mask and fd of each event in order, and leaves over exactly the bytes behind them.
pub parse_fanotify_events-put_events :
    (ms : List Metadata) (tail : Bytes)
    → AllFit ms
    → IsIncomplete tail
    → parse_fanotify_events (put_events ms tail) ≡ parsed (map event_of ms) tail
unfolding parse_fanotify_events
parse_fanotify_events-put_events ms tail fit t =
    parse_loop-put_events ms (length (put_events ms tail)) [] tail (omega arith) fit t
