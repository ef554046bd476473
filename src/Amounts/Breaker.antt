-- ===== src/Amounts/Breaker.antt =====
-- About `set` and `get` of amounts/src/storage.rs.
use stroemnet.Common.{ℕ, ◌-◌, ◌≡◌, ◌⊎◌, true, false, none, some, ◌==◌, leb, if◌then◌else◌, arith}
use stroemnet.Common.Dict.{get-insert}
use stroemnet.Protocol.Channel.{ChannelId, channel_eq, channel_beq_iff}
use stroemnet.Amounts.Numbers.{Float64}
use stroemnet.Amounts.Prices.{PriceStorage, price, jumps, set_price}

module _ {F : Type 0} (f : Float64 F) where
  -- The price is finite and positive, and near the price that the storage has.
  abbrev pub IsAccepted : ℕ → PriceStorage F → ChannelId → F → Type 0
  IsAccepted now s c p =
      (f.is_finite p ≡ true) × (f.le p f.zero ≡ false) × (jumps f (price f now s c) p ≡ false)

  -- An accepted price is what a lookup of that channel finds until it is older than the maximal
  -- age, other channels keep theirs, and a price that is not accepted changes nothing. A finite
  -- number that is not at most 0 is above 0.
  price-set_price :
      (now later t : ℕ) (c d : ChannelId) (p : F) (s : PriceStorage F)
      → ((x : F) → f.le x f.zero ≡ false → f.is_finite x ≡ true → f.lt f.zero x ≡ true)
      → (IsAccepted now s c p
          × (price f t (set_price f now later c p s) d ≡ (
              if d == c
              then (if leb (t - later) s.max_age_secs then some p else none)
              else price f t s d)))
        ⊎ ((¬ IsAccepted now s c p) × (set_price f now later c p s ≡ s))
  unfolding price set_price
  price-set_price now later t c d p s law =
      ground (arith, law p, channel_beq_iff d c, get-insert d c (p, later) s.prices)
