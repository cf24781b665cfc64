-- ===== src/Fanotify/Tests.antt =====
-- internal/tap/fanotify_linux_test.go, and the decoder's theorems at concrete inputs.
use agentflash.Common.{ℕ, ◌≡◌, refl, List, [], ◌∷◌, Bytes, arith, inl, ◌<◌, replicate}
use agentflash.Common.Int.{pos, negsuc}
use agentflash.Fanotify.{
  FanotifyEvent, parsed, failed, parse_fanotify_events, parse_loop, le_uint, event_len, decode,
}
use agentflash.Fanotify.Stream.{IsIncomplete, parse_fanotify_events-ends}
use agentflash.Fanotify.RoundTrip.{Metadata, put_events, parse_fanotify_events-put_events}

abbrev written : ℕ → ℕ → ℕ → Bytes → Metadata
written mask fd pid extra = record {
  vers = 3;
  reserved = 0;
  metadata_len_low = 24;
  metadata_len_high = 0;
  mask = mask;
  fd = fd;
  pid = pid;
  extra = extra;
}

abbrev batch : List Metadata
batch = written 0x20 3 100 [] ∷ written 0x2 0xffff_ffff 200 (1 ∷ 2 ∷ []) ∷ []

abbrev decoded : List FanotifyEvent
decoded =
    record { pid = pos 100; mask = 0x20; fd = pos 3 }
    ∷ record { pid = pos 200; mask = 0x2; fd = negsuc 0 }
    ∷ []

parse-batch :
    parse_fanotify_events (put_events batch (replicate 10 0)) ≡ parsed decoded (replicate 10 0)
unfolding parse_fanotify_events parse_loop event_len decode le_uint
parse-batch = refl

parse_short_length : parse_fanotify_events (replicate 24 0) ≡ failed [] 0
unfolding parse_fanotify_events parse_loop event_len decode le_uint
parse_short_length = refl

parse_fanotify_events-put_events_example :
    parse_fanotify_events (put_events batch (replicate 10 0)) ≡ parsed decoded (replicate 10 0)
parse_fanotify_events-put_events_example =
    parse_fanotify_events-put_events batch (replicate 10 0) (omega arith) (inl (omega arith))

parse_fanotify_events-ends_example :
    ((evs : List FanotifyEvent) (rest : Bytes)
      → parse_fanotify_events (put_events batch (replicate 10 0)) ≡ parsed evs rest
      → IsIncomplete rest)
    × ((evs : List FanotifyEvent) (n : ℕ)
        → parse_fanotify_events (put_events batch (replicate 10 0)) ≡ failed evs n
        → n < 24)
parse_fanotify_events-ends_example = parse_fanotify_events-ends (put_events batch (replicate 10 0))
