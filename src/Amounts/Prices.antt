-- ===== src/Amounts/Prices.antt =====
-- amounts/src/storage.rs: the last price of each chain's coin. The locks guard the two maps; a call
-- is one step, and `now` is the system time that it reads (`set` reads it twice, once for each map).
use stroemnet.Common.{
  ℕ, ◌-◌, Bool, false, not, ◌&&◌, ◌||◌, Option, none, some, List, [], ◌∷◌, ◌++◌, ◌==◌, any, leb,
  if◌then◌else◌,
}
use stroemnet.Common.Dict.{Dict, get, insert}
use stroemnet.Protocol.Channel.{ChannelId, channel_eq}
use stroemnet.Amounts.Numbers.{Float64}

abbrev pub default_max_age_secs : ℕ
default_max_age_secs = 300

pub record PriceStorage (F : Type 0) : Type 0 where
  pub tracked : List ChannelId
  pub prices : Dict ChannelId (F × ℕ)
  pub max_age_secs : ℕ

-- A set of channels, as a list that holds each of them once.
unfoldable pub set_insert : ChannelId → List ChannelId → List ChannelId
set_insert c s = if any (λ d. c == d) s then s else s ++ c ∷ []

unfoldable pub set_of : List ChannelId → List ChannelId → List ChannelId
unfolding set_insert
set_of [] s = s
set_of (c ∷ cs) s = set_of cs (set_insert c s)

module _ {F : Type 0} (f : Float64 F) where
  unfoldable pub with_max_age : List ChannelId → ℕ → PriceStorage F
  unfolding set_of
  with_max_age cs max_age_secs = record {
    tracked = set_of cs [];
    prices = [];
    max_age_secs = max_age_secs;
  }

  unfoldable pub new : List ChannelId → PriceStorage F
  unfolding with_max_age
  new cs = with_max_age cs default_max_age_secs

  -- PriceStorage::get.
  unfoldable pub price : ℕ → PriceStorage F → ChannelId → Option F
  price now s channel = elim (get channel s.prices) [
    | none ↦ none
    | some (p, ts) ↦
        if f.is_finite p && f.lt f.zero p && leb (now - ts) s.max_age_secs then some p else none
  ]

  -- PriceStorage::channels.
  abbrev pub channels : PriceStorage F → List ChannelId
  channels s = s.tracked

  -- The price is further than MAX_JUMP_RATIO from the last one.
  abbrev pub jumps : Option F → F → Bool
  jumps none p = false
  jumps (some last) p = f.lt f.half (f.div (f.abs (f.sub p last)) last)

  -- PriceStorage::set. The time `later` is that of the write.
  unfoldable pub set_price : ℕ → ℕ → ChannelId → F → PriceStorage F → PriceStorage F
  unfolding price set_insert
  set_price now later channel p s =
      if not (f.is_finite p) || f.le p f.zero
      then s
      else (if jumps (price now s channel) p then s else record s {
        tracked = set_insert channel s.tracked;
        prices = insert channel (p, later) s.prices;
      })
