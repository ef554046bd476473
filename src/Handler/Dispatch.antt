-- ===== src/Handler/Dispatch.antt =====
-- handler/src/dispatch.rs, get.rs, and the external handlers of handle/: each event of a chain. A
-- handler takes the write lock for one call of the tracker, so a call is one step. An error leaves
-- the tracker as the calls before it have made it.
use stroemnet.Common.{
  ℕ, ◌||◌, not, Bool, false, Option, none, some, List, [], ◌∷◌, Bytes, bytes_eq, nat_eq, Result, ok,
  err, map_err, ◌>>=◌, ◌==◌, if◌then◌else◌,
}
use stroemnet.Protocol.Channel.{ChannelId, channel_eq, try_from}
use stroemnet.Protocol.V1.{
  CommitmentV1, RevealV1, RefundV1, ChainEvent, commitment, reveal, refund, commitment_eq,
}
use stroemnet.Protocol.Clock.{ChainClock}
use stroemnet.Tracker.Record.{SwapTracker, SwapRecord, get_swap}
use stroemnet.Tracker.Commit.{set_init_commitment, set_counter_commitment}
use stroemnet.Tracker.Resolve.{set_revealed, set_refunded}
use stroemnet.Handler.Config.{Handler, HandlerError, Outside, other, swap_tracker}
use stroemnet.Handler.Mirror.{handle_internal_commitment}

pub data Effect : Type 0 where
  broadcast : ChannelId → ChainEvent → Effect
  transmit_reveal : CommitmentV1 → Effect

unfoldable pub is_counter : SwapRecord → CommitmentV1 → Bool
is_counter r c = elim r.counter_commitment [ none ↦ false | some d ↦ d == c ]

unfoldable pub handle_external_commitment :
    {F : Type 0} → ℕ → SwapTracker → CommitmentV1 → Result (HandlerError F) SwapTracker
unfolding is_counter
handle_external_commitment now tracker c = elim (get_swap tracker c.swap_id) [
  | none ↦ map_err swap_tracker (set_init_commitment now tracker c.swap_id c)
  | some r ↦
      if (r.init_commitment == c) || is_counter r c || r.init_commitment.source == c.source
      then ok tracker
      else map_err swap_tracker (set_counter_commitment tracker c.swap_id c)
]

unfoldable pub get_counterparty_channel_id :
    {F : Type 0} → SwapTracker → Bytes → ChannelId → Result (HandlerError F) (Option ChannelId)
get_counterparty_channel_id tracker swap_id our_channel = elim (get_swap tracker swap_id) [
  | none ↦ ok none
  | some r ↦ do
    init_source ← map_err other (try_from r.init_commitment.source)
    elim r.counter_commitment [
      | none ↦ ok none
      | some counter ↦ do
        counter_source ← map_err other (try_from counter.source)
        ok (if init_source == our_channel then some counter_source else some init_source)
    ]
]

unfoldable pub get_commitment_for_channel :
    {F : Type 0} → SwapTracker → Bytes → ChannelId → Result (HandlerError F) (Option CommitmentV1)
get_commitment_for_channel tracker swap_id channel = elim (get_swap tracker swap_id) [
  | none ↦ ok none
  | some r ↦ do
    init_source ← map_err other (try_from r.init_commitment.source)
    if init_source == channel then ok (some r.init_commitment) else elim r.counter_commitment [
      | none ↦ ok none
      | some counter ↦ do
        counter_source ← map_err other (try_from counter.source)
        ok (if counter_source == channel then some counter else none)
    ]
]

module _ {F : Type 0} (o : Outside F) (h : Handler F) where
  unfoldable pub handle_external_reveal :
      SwapTracker → RevealV1 → Result (HandlerError F) SwapTracker
  handle_external_reveal tracker r =
      map_err swap_tracker (set_revealed o.crypto tracker r.swap_id r.secret)

  unfoldable pub handle_external_refund :
      SwapTracker → RefundV1 → Result (HandlerError F) SwapTracker
  handle_external_refund tracker r = map_err swap_tracker (set_refunded tracker r.swap_id)

  -- The broadcast of a counter commitment, where there is one. The match drops every error.
  unfoldable pub counter_effects : ChannelId → Result (HandlerError F) CommitmentV1 → List Effect
  counter_effects destination (ok counter) = broadcast destination (commitment counter) ∷ []
  counter_effects destination (err e) = []

  unfoldable pub commitment_effects :
      ℕ
      → ChainClock
      → ChannelId
      → CommitmentV1
      → SwapTracker
      → Result (HandlerError F) (List Effect)
  unfolding counter_effects
  commitment_effects now clock source c tracker = do
    destination ← map_err other (try_from c.destination)
    ok (
        transmit_reveal c
        ∷ (if not (destination == source)
            then counter_effects destination
                (handle_internal_commitment o h now clock tracker c destination)
            else []))

  unfoldable pub reveal_effects :
      ChannelId → RevealV1 → SwapTracker → Result (HandlerError F) (List Effect)
  reveal_effects source r tracker = do
    other_side ← get_counterparty_channel_id tracker r.swap_id source
    elim other_side [
      | none ↦ ok []
      | some counterparty ↦ do
        theirs ← get_commitment_for_channel tracker r.swap_id counterparty
        elim theirs [
          | none ↦ ok []
          | some c ↦ ok (
              if o.crypto.sha256 r.secret == c.secret_hash
              then broadcast counterparty (reveal r) ∷ []
              else [])
        ]
    ]

  unfoldable pub after_write :
      SwapTracker
      → (SwapTracker → Result (HandlerError F) (List Effect))
      → Result (HandlerError F) SwapTracker
      → SwapTracker × Result (HandlerError F) (List Effect)
  after_write tracker effects (err e) = (tracker, err e)
  after_write tracker effects (ok tracker') = (tracker', effects tracker')

  unfoldable pub on_chain_event :
      ℕ
      → ChainClock
      → ChannelId
      → ChainEvent
      → SwapTracker
      → SwapTracker × Result (HandlerError F) (List Effect)
  unfolding after_write commitment_effects reveal_effects handle_external_reveal
      handle_external_refund
  on_chain_event now clock source (commitment c) tracker =
      after_write tracker (commitment_effects now clock source c)
        (handle_external_commitment now tracker c)
  on_chain_event now clock source (reveal r) tracker =
      after_write tracker (reveal_effects source r) (handle_external_reveal tracker r)
  on_chain_event now clock source (refund r) tracker =
      after_write tracker (λ t. ok []) (handle_external_refund tracker r)
