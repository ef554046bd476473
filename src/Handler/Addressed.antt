-- ===== src/Handler/Addressed.antt =====
-- About handle_internal_commitment of handler/src/handle/commitment/internal.rs.
use stroemnet.Common.{
  map_err-ok, ℕ, ◌≡◌, ◌↔◌, sym, ◌∙◌, ap, true, not, ◌||◌, some, none, Bytes, bytes_eq, Result, ok,
  ok_or, fail_if, map_err, >>=-eq-ok, arith, ◌==◌, is_some, some_inj, ok_inj,
}
use stroemnet.Common.Dict.{get}
use stroemnet.Protocol.Channel.{ChannelId, channel_eq, channel_beq_iff, try_from, try_from_iff}
use stroemnet.Protocol.V1.{CommitmentV1}
use stroemnet.Protocol.Clock.{ChainClock}
use stroemnet.Tracker.Record.{SwapTracker, SwapRecord, get_swap}
use stroemnet.Tracker.Commit.{set_counter_commitment}
use stroemnet.Tracker.History.{Mirrors}
use stroemnet.Tracker.Acceptance.{Succeeds, set_counter_commitment_iff}
use stroemnet.Handler.Mirror.{handle_internal_commitment}
use stroemnet.Handler.Mirror
use stroemnet.Handler.Built.{Built, build-Built, ok_or-some}
use stroemnet.Handler.Config.{Handler, HandlerError, Outside, normalised_address_eq}

module _ {F : Type 0} (o : Outside F) (h : Handler F) where
  -- What has been checked when a commitment is answered.
  pub record Answered (now : ℕ) (clock : ChainClock) (t : SwapTracker) (c : CommitmentV1)
      (channel : ChannelId) (counter : CommitmentV1) : Type 0 where
    pub swap : SwapRecord
    pub source : ChannelId
    pub ours : Bytes
    pub known : get_swap t c.swap_id ≡ some swap
    pub unlocked : swap.counter_commitment ≡ none
    pub pending : swap.resolution ≡ none
    pub source_parsed : try_from swap.init_commitment.source ≡ ok source
    pub destination_parsed : try_from swap.init_commitment.destination ≡ ok channel
    pub at_source : get source h.address_lookup_table ≡ some ours
    pub to_us : normalised_address_eq o source swap.init_commitment.addresses.receiver ours ≡ true
    pub built : Built o h now clock c.swap_id swap.init_commitment source channel counter

  pub internal-Answered :
      (now : ℕ) (clock : ChainClock) (t : SwapTracker) (c : CommitmentV1) (channel : ChannelId)
      (counter : CommitmentV1)
      → handle_internal_commitment o h now clock t c channel ≡ ok counter
      → Answered now clock t c channel counter
  unfolding handle_internal_commitment
  internal-Answered now clock t c channel counter e =
      let (r, a, e1) = >>=-eq-ok (ok_or (get_swap t c.swap_id) _) _ e in
      let (_, b, e2) =
        >>=-eq-ok (fail_if (is_some r.counter_commitment || is_some r.resolution) _) _ e1 in
      let (source, d, e3) = >>=-eq-ok (map_err _ (try_from r.init_commitment.source)) _ e2 in
      let (destination, f, e4) =
        >>=-eq-ok (map_err _ (try_from r.init_commitment.destination)) _ e3 in
      let (_, g, e5) = >>=-eq-ok (fail_if (not (destination == channel)) _) _ e4 in
      let (ours, i, e6) = >>=-eq-ok (ok_or (get source h.address_lookup_table) _) _ e5 in
      let (_, j, e7) =
        >>=-eq-ok
          (fail_if (not (normalised_address_eq o source r.init_commitment.addresses.receiver ours))
            _)
          _ e6 in
      let same : destination ≡ channel = ground (arith, channel_beq_iff destination channel) in
      record {
        swap = r;
        source = source;
        ours = ours;
        known = ok_or-some _ _ a;
        unlocked = ground arith;
        pending = ground arith;
        source_parsed = map_err-ok _ _ d;
        destination_parsed = map_err-ok _ _ f ∙ ap (λ x. ok x) same;
        at_source = ok_or-some _ _ i;
        to_us = ground arith;
        built =
            build-Built o h now clock c.swap_id r.init_commitment source channel counter
              (ap (build_at r source) (sym same) ∙ e7);
      }
    where
      build_at : SwapRecord → ChannelId → ChannelId → Result (HandlerError F) CommitmentV1
      build_at r source d =
          Mirror.build_counter_commitment o h now clock c.swap_id r.init_commitment source d

  -- The answer mirrors the first commitment if our address stands in it letter by letter.
  Answered-Mirrors :
      {now : ℕ} {clock : ChainClock} {t : SwapTracker} {c : CommitmentV1} {channel : ChannelId}
      {counter : CommitmentV1} (a : Answered now clock t c channel counter)
      → a.swap.init_commitment.swap_id ≡ c.swap_id
      → a.swap.init_commitment.addresses.receiver ≡ a.built.our_source
      → Mirrors a.swap.init_commitment counter
  Answered-Mirrors {channel = channel} a named ours =
      let b = a.built in
      record {
        same_swap = named ∙ sym (ap (λ (x : CommitmentV1). x.swap_id) b.is_counter);
        receiver_is_sender = sym (ap (λ (x : CommitmentV1). x.addresses.receiver) b.is_counter);
        sender_is_receiver =
            ours ∙ sym (ap (λ (x : CommitmentV1). x.addresses.sender_destination) b.is_counter);
        same_secret = sym (ap (λ (x : CommitmentV1). x.secret_hash) b.is_counter);
        source_crossed =
            (try_from_iff a.swap.init_commitment.source a.source).0 a.source_parsed
            ∙ sym (ap (λ (x : CommitmentV1). x.destination) b.is_counter);
        destination_crossed =
            (try_from_iff a.swap.init_commitment.destination channel).0 a.destination_parsed
            ∙ sym (ap (λ (x : CommitmentV1). x.source) b.is_counter);
      }

  -- The tracker accepts the counter commitment that the handler has built exactly when the user
  -- wrote our address letter by letter as the lookup table has it. The swap is recorded under
  -- its own id.
  pub own_counter_iff :
      (now : ℕ) (clock : ChainClock) (t : SwapTracker) (c : CommitmentV1)
      (channel source : ChannelId) (counter : CommitmentV1) (r : SwapRecord)
      → handle_internal_commitment o h now clock t c channel ≡ ok counter
      → get_swap t c.swap_id ≡ some r
      → r.init_commitment.swap_id ≡ c.swap_id
      → try_from r.init_commitment.source ≡ ok source
      → Succeeds (set_counter_commitment t c.swap_id counter)
        ↔ (get source h.address_lookup_table ≡ some r.init_commitment.addresses.receiver)
  own_counter_iff now clock t c channel source counter r e known named parsed =
      let a = internal-Answered now clock t c channel counter e in
      let same : a.swap ≡ r = some_inj (sym a.known ∙ known) in
      let chain : a.source ≡ source = ok_inj (
        sym a.source_parsed
        ∙ ap (λ (x : SwapRecord). try_from x.init_commitment.source) same
        ∙ parsed) in
      let sent : counter.addresses.sender_destination ≡ a.built.our_source =
        ap (λ (x : CommitmentV1). x.addresses.sender_destination) a.built.is_counter in
      let ours : get source h.address_lookup_table ≡ some a.built.our_source =
        rw (← chain) a.built.at_source in
      (
        λ accepted.
            let (r', at, _, _, m) = (set_counter_commitment_iff t c.swap_id counter).0 accepted in
            let same' : r' ≡ r = some_inj (sym at ∙ known) in
            ours
            ∙ ap (λ x. some x) (sym (m.sender_is_receiver ∙ sent))
            ∙ ap (λ (x : SwapRecord). some x.init_commitment.addresses.receiver) same',
        λ text. (set_counter_commitment_iff t c.swap_id counter).1 (
          a.swap,
          a.known,
          a.unlocked,
          a.pending,
          Answered-Mirrors a (ap (λ (x : SwapRecord). x.init_commitment.swap_id) same ∙ named) (
              ap (λ (x : SwapRecord). x.init_commitment.addresses.receiver) same
              ∙ some_inj (sym text ∙ ours)),
        ),
      )
