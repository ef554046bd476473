-- ===== src/Handler/Built.antt =====
-- About build_counter_commitment of handler/src/handle/commitment/mirror.rs: its steps, read off.
use stroemnet.Common.{
  map_err-ok, ℕ, ◌+◌, ◌-◌, ◌*◌, ◌%◌, ◌≤◌, ◌≡◌, sym, false, ◌||◌, Option, some, none, Bytes, Result,
  ok, ok_or, fail_if, map_err, >>=-eq-ok, arith, ltb, u64_mod,
}
use stroemnet.Common.Dict.{get}
use stroemnet.Protocol.Channel.{ChannelId, channel_eq, to_u8, decimals, lock_time_secs}
use stroemnet.Protocol.V1.{CommitmentV1}
use stroemnet.Protocol.Clock.{ChainClock, now_checked}
use stroemnet.Amounts.Prices
use stroemnet.Amounts.Quote.{amount_out}
use stroemnet.Handler.Quoting.{amount_usd}
use stroemnet.Handler.Mirror.{build_counter_commitment}
use stroemnet.Handler.Config.{Handler, HandlerError, Outside, required_init_lock_secs}

pub ok_or-some {ℓ κ} :
    {E : Type ℓ} {A : Type κ} (m : Option A) (e : E) {a : A} → ok_or m e ≡ ok a → m ≡ some a
ok_or-some none e h = absurd (ground arith)
ok_or-some (some b) e h = cc

module _ {F : Type 0} (o : Outside F) (h : Handler F) where
  -- What a counter commitment is made of.
  pub record Built (now : ℕ) (clock : ChainClock) (swap_id : Bytes) (init : CommitmentV1)
      (source destination : ChannelId) (counter : CommitmentV1) : Type 0 where
    pub source_now : ℕ
    pub dest_now : ℕ
    pub amount_in : ℕ
    pub source_price : F
    pub dest_price : F
    pub out : ℕ
    pub source_time : now_checked now clock source ≡ some source_now
    pub dest_time : now_checked now clock destination ≡ some dest_now
    pub parsed : o.parse_u256 init.amount.value ≡ ok amount_in
    pub source_priced : Prices.price o.float now h.price_storage source ≡ some source_price
    pub dest_priced : Prices.price o.float now h.price_storage destination ≡ some dest_price
    pub quoted :
        amount_out o.uint o.float amount_in source_price
          (decimals source)
          dest_price
          (decimals destination)
          h.config.spread_percent
        ≡ ok out
    pub enough : lock_time_secs destination * 2 ≤ init.unlock_ts - source_now
    pub our_source : Bytes
    pub our_destination : Bytes
    pub at_source : get source h.address_lookup_table ≡ some our_source
    pub at_destination : get destination h.address_lookup_table ≡ some our_destination
    pub is_counter : counter ≡ record {
      swap_id = swap_id;
      addresses = record {
        sender = our_destination;
        receiver = init.addresses.sender_destination;
        sender_destination = our_source;
      };
      amount = record { value = o.print_u256 out; decimals = decimals destination };
      secret_hash = init.secret_hash;
      unlock_ts = (dest_now + lock_time_secs destination) % u64_mod;
      source = to_u8 destination;
      destination = to_u8 source;
    }

  pub build-Built :
      (now : ℕ) (clock : ChainClock) (swap_id : Bytes) (init : CommitmentV1)
      (source destination : ChannelId) (counter : CommitmentV1)
      → build_counter_commitment o h now clock swap_id init source destination ≡ ok counter
      → Built now clock swap_id init source destination counter
  unfolding build_counter_commitment required_init_lock_secs
  build-Built now clock swap_id init source destination counter e =
      let (amount_in, a, e1) = >>=-eq-ok (map_err _ (o.parse_u256 init.amount.value)) _ e in
      let (sp, b, e2) =
        >>=-eq-ok (ok_or (Prices.price o.float now h.price_storage source) _) _ e1 in
      let (af, c, e3) = >>=-eq-ok (map_err _ (o.parse_f64 (o.print_u256 amount_in))) _ e2 in
      let usd = amount_usd o h af init.amount.decimals sp in
      let (_, d, e4) =
        >>=-eq-ok
          (fail_if (o.float.lt usd h.config.min_trade_usd || o.float.lt h.config.max_trade_usd usd)
            _)
          _ e3 in
      let (dp, g, e5) =
        >>=-eq-ok (ok_or (Prices.price o.float now h.price_storage destination) _) _ e4 in
      let (out, i, e6) =
        >>=-eq-ok
          (map_err _ (
            amount_out o.uint o.float amount_in sp (decimals source) dp (decimals destination)
              h.config.spread_percent))
          _ e5 in
      let (sn, j, e7) = >>=-eq-ok (ok_or (now_checked now clock source) _) _ e6 in
      let (_, k, e8) =
        >>=-eq-ok
          (fail_if
            (ltb (init.unlock_ts - sn)
              (required_init_lock_secs destination h.config.commit_buffer_secs false))
            _)
          _ e7 in
      let (dn, l, e9) = >>=-eq-ok (ok_or (now_checked now clock destination) _) _ e8 in
      let (od, m, e10) = >>=-eq-ok (ok_or (get destination h.address_lookup_table) _) _ e9 in
      let (os, n, e11) = >>=-eq-ok (ok_or (get source h.address_lookup_table) _) _ e10 in
      record {
        source_now = sn;
        dest_now = dn;
        amount_in = amount_in;
        source_price = sp;
        dest_price = dp;
        out = out;
        source_time = ok_or-some _ _ j;
        dest_time = ok_or-some _ _ l;
        parsed = map_err-ok _ _ a;
        source_priced = ok_or-some _ _ b;
        dest_priced = ok_or-some _ _ g;
        quoted = map_err-ok _ _ i;
        enough = ground arith;
        our_source = os;
        our_destination = od;
        at_source = ok_or-some _ _ n;
        at_destination = ok_or-some _ _ m;
        is_counter = sym (ok_inj e11);
      }
    where
      ok_inj :
          {a b : CommitmentV1}
          → ◌≡◌ {A = Result (HandlerError F) CommitmentV1} (ok a) (ok b)
          → a ≡ b
      ok_inj e = cc
