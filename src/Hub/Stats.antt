-- ===== src/Hub/Stats.antt =====
-- internal/ui/hub.go: statsTicker of the hub, which reads its counters at once.
use agentflash.Common.{ℕ, List, length, map}
use agentflash.Common.Ticks.{logged_ticks, Moves, logged_ticks-Moves}
use agentflash.Hub.{Hub}

-- A line of statistics.
pub record HubCounters : Type 0 where
  pub bcast : ℕ
  pub delivered : ℕ
  pub dropped : ℕ
  pub clients : ℕ

pub hub_counters : Hub → HubCounters
hub_counters h = record {
  bcast = h.bcast_count;
  delivered = h.deliver_count;
  dropped = h.drop_count;
  clients = length h.clients;
}

-- The lines logged, of the hub at each tick.
hub_stats_ticker : List Hub → List HubCounters
unfolding hub_counters
hub_stats_ticker hubs = logged_ticks (λ c. c.bcast) 0 (map hub_counters hubs)

-- Each line of statistics shows another count of broadcasts than the one before it.
hub_stats_ticker-Moves : (hubs : List Hub) → Moves (λ c. c.bcast) 0 (hub_stats_ticker hubs)
unfolding hub_stats_ticker
hub_stats_ticker-Moves hubs = (logged_ticks-Moves (λ c. c.bcast) 0 (map hub_counters hubs)).0
