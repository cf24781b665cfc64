-- ===== src/Tap/Stats.antt =====
-- internal/tap/tap.go: statsTicker, shared by both systems. Counters are as the loop loads them.
use agentflash.Common.{ℕ, List}
use agentflash.Common.Ticks.{logged_ticks, Moves, logged_ticks-Moves}

pub record Counters : Type 0 where
  pub lines : ℕ
  pub parsed : ℕ
  pub kept : ℕ
  pub dropped : ℕ
  pub excluded : ℕ

-- The counters logged, of those at each tick.
stats_ticker : List Counters → List Counters
stats_ticker = logged_ticks (λ c. c.lines) 0

-- Each line of statistics shows another count of lines than the one before it.
stats_ticker-Moves : (ticks : List Counters) → Moves (λ c. c.lines) 0 (stats_ticker ticks)
unfolding stats_ticker
stats_ticker-Moves ticks = (logged_ticks-Moves (λ c. c.lines) 0 ticks).0
