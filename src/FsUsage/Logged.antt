-- ===== src/FsUsage/Logged.antt =====
-- internal/tap/tap_darwin.go, Run: how much the loop logs.
use agentflash.Common.{
  ◌+◌, ◌*◌, ◌≤◌, false, ◌&&◌, [], ◌∷◌, ◌≡◌, arith, Bytes, length, length-append, ltb,
}
use agentflash.Event.{Event}
use agentflash.Tap.Debug.{if_either, and_left, below, loud}
use agentflash.FsUsage.Loop.{
  interesting_line, unparsed_line, filtered_event, kept_event, Samples, Debug, max_samples,
  max_interesting, sample_interesting, sample_unparsed, sample_filtered, sample_kept,
}

-- What is logged is what the counts of samples say; nothing without the debug flag.
pub record Logged (d : Debug) (s : Samples) : Type 0 where
  pub silent : d.on ≡ false → s.logged ≡ []
  pub total : length s.logged ≡ s.unparsed + s.kept + s.filtered + s.interesting
  pub unparsed_few : s.unparsed ≤ max_samples
  pub kept_few : s.kept ≤ max_samples
  pub filtered_few : s.filtered ≤ max_samples
  pub interesting_few : s.interesting ≤ max_interesting

pub few :
    {d : Debug} {s : Samples} → Logged d s → length s.logged ≤ max_interesting + 3 * max_samples
few l = omega (arith, l.total, l.unparsed_few, l.kept_few, l.filtered_few, l.interesting_few)

module _ (d : Debug) (s : Samples) (l : Logged d s) where
  pub sample_interesting-Logged : (line : Bytes) → Logged d (sample_interesting d line s)
  unfolding sample_interesting
  sample_interesting-Logged line =
      if_either (Logged d) _
        (λ c.
          let go = and_left (d.on && ltb s.interesting max_interesting) _ c in
          record {
            silent = loud d.on s.interesting max_interesting go;
            total = omega (arith, length-append s.logged (interesting_line line ∷ []));
            interesting_few = below d.on s.interesting max_interesting go;
            unparsed_few = l.unparsed_few;
            kept_few = l.kept_few;
            filtered_few = l.filtered_few;
          })
        l

  pub sample_filtered-Logged : (ev : Event) → Logged d (sample_filtered d ev s)
  unfolding sample_filtered
  sample_filtered-Logged ev =
      if_either (Logged d) _
        (λ go. record {
          silent = loud d.on s.filtered max_samples go;
          total = omega (arith, length-append s.logged (filtered_event ev ∷ []));
          filtered_few = below d.on s.filtered max_samples go;
          unparsed_few = l.unparsed_few;
          kept_few = l.kept_few;
          interesting_few = l.interesting_few;
        })
        l

  pub sample_kept-Logged : (ev : Event) → Logged d (sample_kept d ev s)
  unfolding sample_kept
  sample_kept-Logged ev =
      if_either (Logged d) _
        (λ go. record {
          silent = loud d.on s.kept max_samples go;
          total = omega (arith, length-append s.logged (kept_event ev ∷ []));
          kept_few = below d.on s.kept max_samples go;
          unparsed_few = l.unparsed_few;
          filtered_few = l.filtered_few;
          interesting_few = l.interesting_few;
        })
        l

  pub sample_unparsed-Logged : (line : Bytes) → Logged d (sample_unparsed d line s)
  unfolding sample_unparsed
  sample_unparsed-Logged line =
      if_either (Logged d) _
        (λ c.
          let go = and_left (d.on && ltb s.unparsed max_samples) _ (and_left _ _ c) in
          record {
            silent = loud d.on s.unparsed max_samples go;
            total = omega (arith, length-append s.logged (unparsed_line line ∷ []));
            unparsed_few = below d.on s.unparsed max_samples go;
            kept_few = l.kept_few;
            filtered_few = l.filtered_few;
            interesting_few = l.interesting_few;
          })
        l
