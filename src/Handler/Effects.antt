-- ===== src/Handler/Effects.antt =====
-- About on_chain_event of handler/src/dispatch.rs: what follows from a reveal.
use stroemnet.Common.{
  ℕ, ◌≡◌, refl, sym, ◌∙◌, ◌⊎◌, inl, inr, some, none, [], ◌∷◌, Bytes, bytes_eq, nat_eq, list_beq_iff,
  ok, arith, ◌==◌, Bool-cases, beq_refl, if◌then◌else◌, some_inj,
}
use stroemnet.Protocol.Channel.{ChannelId, channel_eq, channel_beq_iff, try_from}
use stroemnet.Protocol.V1.{CommitmentV1, RevealV1, reveal}
use stroemnet.Protocol.Clock.{ChainClock}
use stroemnet.Tracker.Record.{SwapTracker, SwapRecord, get_swap}
use stroemnet.Tracker.History.{set_revealed-ok}
use stroemnet.Tracker.Acceptance.{set_revealed_iff}
use stroemnet.Tracker.Valid.{IsValid}
use stroemnet.Handler.Config.{Handler, Outside}
use stroemnet.Handler.Dispatch.{
  broadcast, handle_external_reveal, on_chain_event, reveal_effects, get_counterparty_channel_id,
  get_commitment_for_channel,
}

module _ {F : Type 0} (o : Outside F) (h : Handler F) where
  other_side :
      (t : SwapTracker) (id : Bytes) (source a b : ChannelId) (r : SwapRecord) (c : CommitmentV1)
      → get_swap t id ≡ some r
      → r.counter_commitment ≡ some c
      → try_from r.init_commitment.source ≡ ok a
      → try_from c.source ≡ ok b
      → get_counterparty_channel_id {F = F} t id source ≡ ok (some (if a == source then b else a))
  unfolding get_counterparty_channel_id
  other_side t id source a b r c at held pa pb = ground (arith, at, held, pa, pb)

  theirs :
      (t : SwapTracker) (id : Bytes) (channel a b : ChannelId) (r : SwapRecord) (c : CommitmentV1)
      → get_swap t id ≡ some r
      → r.counter_commitment ≡ some c
      → try_from r.init_commitment.source ≡ ok a
      → try_from c.source ≡ ok b
      → (channel ≡ a) ⊎ (channel ≡ b)
      → get_commitment_for_channel {F = F} t id channel
        ≡ ok (some (if a == channel then r.init_commitment else c))
  unfolding get_commitment_for_channel
  theirs t id channel a b r c at held pa pb side =
      ground (arith, at, held, pa, pb, channel_beq_iff a channel, channel_beq_iff b channel)

  reveal_goes_on :
      (source a b : ChannelId) (ev : RevealV1) (t : SwapTracker) (r : SwapRecord) (c : CommitmentV1)
      → get_swap t ev.swap_id ≡ some r
      → r.counter_commitment ≡ some c
      → try_from r.init_commitment.source ≡ ok a
      → try_from c.source ≡ ok b
      → r.init_commitment.secret_hash ≡ c.secret_hash
      → o.crypto.sha256 ev.secret ≡ c.secret_hash
      → reveal_effects o h source ev t
        ≡ ok (broadcast (if a == source then b else a) (reveal ev) ∷ [])
  unfolding reveal_effects
  reveal_goes_on source a b ev t r c at held pa pb hash opens = elim (Bool-cases (a == source)) [
    | inl here ↦ ground (
      arith,
      other_side t ev.swap_id source a b r c at held pa pb,
      theirs t ev.swap_id b a b r c at held pa pb (inr refl),
      list_beq_iff (o.crypto.sha256 ev.secret) c.secret_hash,
    )
    | inr there ↦ ground (
      arith,
      other_side t ev.swap_id source a b r c at held pa pb,
      theirs t ev.swap_id a a b r c at held pa pb (inl refl),
      list_beq_iff (o.crypto.sha256 ev.secret) c.secret_hash,
      channel_beq_iff a a,
    )
  ]

  -- A reveal whose secret opens the lock of a pending swap is broadcast on the other chain, and
  -- is the only effect. The tracker is valid and both commitments name channels.
  pub on_chain_event-reveal :
      (now : ℕ) (clock : ChainClock) (source init_source counter_source : ChannelId) (ev : RevealV1)
      (t : SwapTracker) (r : SwapRecord) (c : CommitmentV1)
      → IsValid o.crypto t
      → get_swap t ev.swap_id ≡ some r
      → r.counter_commitment ≡ some c
      → r.resolution ≡ none
      → o.crypto.sha256 ev.secret ≡ c.secret_hash
      → try_from r.init_commitment.source ≡ ok init_source
      → try_from c.source ≡ ok counter_source
      → (on_chain_event o h now clock source (reveal ev) t).1
        ≡ ok (
            broadcast (if init_source == source then counter_source else init_source) (reveal ev)
            ∷ [])
  unfolding on_chain_event handle_external_reveal
  on_chain_event-reveal now clock source a b ev t r c v at held pending opens pa pb =
      let (t', done) =
        (set_revealed_iff t ev.swap_id o.crypto ev.secret).1 (c, (r, at, held, pending), opens) in
      let (r', c', at', held', _, _, w) = set_revealed-ok t ev.swap_id o.crypto ev.secret done in
      let same : r' ≡ r = some_inj (sym at' ∙ at) in
      let now_at : get_swap t' ev.swap_id
          ≡ some (record r { resolution = some (o.crypto.hex_encode ev.secret) }) =
        ground (arith, w ev.swap_id, beq_refl ev.swap_id) in
      rw done (
        reveal_goes_on source a b ev t'
          (record r { resolution = some (o.crypto.hex_encode ev.secret) }) c now_at held pa pb
          ((v.sound ev.swap_id r at).mirrored c held).same_secret opens)
