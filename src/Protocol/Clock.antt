-- ===== src/Protocol/Clock.antt =====
-- crates/protocol/src/clock/mod.rs: the time of each chain. The system time is the argument `now`.
use stroemnet.Common.{ℕ, Option, none, some, if◌then◌else◌}
use stroemnet.Common.Dict.{Dict, get}
use stroemnet.Protocol.Channel.{ChannelId, channel_eq, uses_synthetic_clock}

pub record ChainClock : Type 0 where
  pub times : Dict ChannelId ℕ

-- ChainClock::now.
unfoldable pub chain_now : ℕ → ChainClock → ChannelId → ℕ
chain_now now clock channel = elim (get channel clock.times) [ some ts ↦ ts | none ↦ now ]

-- A chain with a synthetic clock has no fallback to the system time.
unfoldable pub now_checked : ℕ → ChainClock → ChannelId → Option ℕ
unfolding uses_synthetic_clock
now_checked now clock channel = elim (get channel clock.times) [
  | some ts ↦ some ts
  | none ↦ if uses_synthetic_clock channel then none else some now
]
