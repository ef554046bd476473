-- ===== src/Handler/Timelock.antt =====
-- About the times and amounts of a counter commitment (mirror.rs) and of the quote before it
-- (proposal.rs).
use stroemnet.Common.{
  map_err-ok, ok_inj, ℕ, ◌+◌, ◌-◌, ◌*◌, ◌^◌, ◌%◌, ◌≤◌, ◌<◌, ◌≡◌, sym, ◌∙◌, ap, true, false, Option,
  some, Bytes, ok, ok_or, fail_if, map_err, >>=-eq-ok, arith, ltb, u64_mod,
}
use stroemnet.Common.Dict.{get}
use stroemnet.Protocol.Channel.{ChannelId, channel_eq, try_from, decimals, lock_time_secs}
use stroemnet.Protocol.V1.{CommitmentV1}
use stroemnet.Protocol.Clock.{ChainClock, now_checked}
use stroemnet.Amounts.Prices
use stroemnet.Amounts.Quote.{amount_out}
use stroemnet.Handler.Quoting.{amount_usd, SwapRequest, TradeProposal, create_proposal}
use stroemnet.Handler.Mirror.{build_counter_commitment}
use stroemnet.Handler.Config.{Handler, Outside, required_init_lock_secs}
use stroemnet.Protocol.Channel.{lock_time_pos}
use stroemnet.Amounts.Quote.{price_fixed, spread_bps}
use stroemnet.Amounts.Fair.{amount_out-fair}
use stroemnet.Handler.Built.{build-Built}

decimals_near : (c d : ChannelId) → decimals c ≤ decimals d + 77
unfolding decimals
decimals_near c d = ground arith

module _ {F : Type 0} (o : Outside F) (h : Handler F) where
  -- The node's own lock ends at least one lock time of its chain before the user's does, up to
  -- the difference of the two chains' clocks. The sum of the time and the lock time fits a u64.
  pub build-timelock :
      (now : ℕ) (clock : ChainClock) (swap_id : Bytes) (init : CommitmentV1)
      (source destination : ChannelId) (counter : CommitmentV1) (source_now dest_now : ℕ)
      → build_counter_commitment o h now clock swap_id init source destination ≡ ok counter
      → now_checked now clock source ≡ some source_now
      → now_checked now clock destination ≡ some dest_now
      → dest_now + lock_time_secs destination < u64_mod
      → counter.unlock_ts + lock_time_secs destination + source_now ≤ init.unlock_ts + dest_now
  build-timelock now clock swap_id init source destination counter sn dn e s d fits =
      let b = build-Built o h now clock swap_id init source destination counter e in
      let same_source : b.source_now ≡ sn = some_inj (sym b.source_time ∙ s) in
      let same_dest : b.dest_now ≡ dn = some_inj (sym b.dest_time ∙ d) in
      let until : counter.unlock_ts ≡ (b.dest_now + lock_time_secs destination) % u64_mod =
        ap (λ (c : CommitmentV1). c.unlock_ts) b.is_counter in
      let enough = b.enough in omega (arith, lock_time_pos destination)
    where
      some_inj : {a b : ℕ} → ◌≡◌ {A = Option ℕ} (some a) (some b) → a ≡ b
      some_inj e = cc

  -- The amount in a counter commitment prints a number that is worth no more than the amount of
  -- the first commitment, less the spread, at the stored prices.
  build-fair :
      (now : ℕ) (clock : ChainClock) (swap_id : Bytes) (init : CommitmentV1)
      (source destination : ChannelId) (counter : CommitmentV1)
      → build_counter_commitment o h now clock swap_id init source destination ≡ ok counter
      → (amount_in : ℕ) × (out : ℕ) × (source_price : F) × (dest_price : F) × (o.parse_u256
            init.amount.value
          ≡ ok amount_in)
        × (counter.amount.value ≡ o.print_u256 out)
        × (Prices.price o.float now h.price_storage source ≡ some source_price)
        × (Prices.price o.float now h.price_storage destination ≡ some dest_price)
        × (out * 10 ^ decimals source * (10000 * price_fixed o.uint o.float dest_price)
            ≤ amount_in
              * price_fixed o.uint o.float source_price
              * (10000 - spread_bps o.uint o.float h.config.spread_percent)
              * 10 ^ decimals destination)
  build-fair now clock swap_id init source destination counter e =
      let b = build-Built o h now clock swap_id init source destination counter e in
      (
        b.amount_in,
        b.out,
        b.source_price,
        b.dest_price,
        b.parsed,
        ap (λ (c : CommitmentV1). c.amount.value) b.is_counter,
        b.source_priced,
        b.dest_priced,
        amount_out-fair o.uint o.float b.amount_in (decimals source) (decimals destination) b.out
            b.source_price b.dest_price h.config.spread_percent (decimals_near source destination)
            (decimals_near destination source) b.quoted,
      )

  -- What a proposal takes from its request: the two sides are swapped.
  pub record Proposed (request : SwapRequest) (p : TradeProposal) : Type 0 where
    pub destination : try_from request.origin ≡ ok p.destination
    pub origin : try_from request.destination ≡ ok p.origin
    pub amount : p.amount_out ≡ request.amount
    pub offset :
        p.commit_unlock_offset_secs
        ≡ required_init_lock_secs p.origin h.config.commit_buffer_secs true

  pub create_proposal-Proposed :
      (now : ℕ) (request : SwapRequest) (p : TradeProposal)
      → create_proposal o h now request ≡ ok p
      → Proposed request p
  unfolding create_proposal
  create_proposal-Proposed now request p e =
      let (origin, a, e1) = >>=-eq-ok (map_err _ (try_from request.origin)) _ e in
      let (dest, b, e2) = >>=-eq-ok (map_err _ (try_from request.destination)) _ e1 in
      let (sp, c, e3) =
        >>=-eq-ok (ok_or (Prices.price o.float now h.price_storage origin) _) _ e2 in
      let (dp, d, e4) = >>=-eq-ok (ok_or (Prices.price o.float now h.price_storage dest) _) _ e3 in
      let (amount_in, g, e5) = >>=-eq-ok (map_err _ (o.parse_u256 request.amount)) _ e4 in
      let (af, i, e6) = >>=-eq-ok (map_err _ (o.parse_f64 (o.print_u256 amount_in))) _ e5 in
      let usd = amount_usd o h af (decimals origin) sp in
      let (_, j, e7) = >>=-eq-ok (fail_if (o.float.lt usd h.config.min_trade_usd) _) _ e6 in
      let (_, k, e8) = >>=-eq-ok (fail_if (o.float.lt h.config.max_trade_usd usd) _) _ e7 in
      let (out, l, e9) =
        >>=-eq-ok
          (map_err _ (
            amount_out o.uint o.float amount_in sp (decimals origin) dp (decimals dest)
              h.config.spread_percent))
          _ e8 in
      let (address, m, e10) = >>=-eq-ok (ok_or (get origin h.address_lookup_table) _) _ e9 in
      let same = ok_inj e10 in
      record {
        destination = map_err-ok _ _ a ∙ ap (λ (q : TradeProposal). ok q.destination) same;
        origin = map_err-ok _ _ b ∙ ap (λ (q : TradeProposal). ok q.origin) same;
        amount = sym (ap (λ (q : TradeProposal). q.amount_out) same);
        offset =
            sym (ap (λ (q : TradeProposal). q.commit_unlock_offset_secs) same)
            ∙ ap (λ d. required_init_lock_secs d h.config.commit_buffer_secs true)
                (ap (λ (q : TradeProposal). q.origin) same);
      }

  -- The guard of build_counter_commitment on the time that is left.
  abbrev pub TooShort : ChannelId → ℕ → Type 0
  TooShort destination remaining =
      ltb remaining (required_init_lock_secs destination h.config.commit_buffer_secs false) ≡ true

  -- A user who locks for the offset that a proposal names is not refused for lack of time, if
  -- the commitment arrives within the buffer. The offset fits a u64.
  create_proposal-in_time :
      (now : ℕ) (request : SwapRequest) (p : TradeProposal) (destination : ChannelId)
      (committed_at source_now : ℕ)
      → create_proposal o h now request ≡ ok p
      → try_from request.destination ≡ ok destination
      → lock_time_secs destination * 2 + h.config.commit_buffer_secs < u64_mod
      → source_now ≤ committed_at + h.config.commit_buffer_secs
      → ¬ TooShort destination (committed_at + p.commit_unlock_offset_secs - source_now)
  unfolding required_init_lock_secs
  create_proposal-in_time now request p destination at sn e d fits l short =
      let made = create_proposal-Proposed now request p e in
      let same : p.origin ≡ destination = ok_inj (sym made.origin ∙ d) in
      let offset = made.offset in absurd (ground (arith, lock_time_pos destination))
