-- ===== src/Kaspa/Spend.antt =====
-- chains/kaspa/decode/classify.rs and inputs.rs: what the inputs of a transaction say of the scripts
-- that the node knows. A transaction's inputs are their signature scripts; the lock of the scripts is
-- left out, a scan is one step.
use stroemnet.Common.{
  Bool, true, false, Option, none, some, List, [], ◌∷◌, ◌++◌, Bytes, Result, ok, err, map_err,
  ◌>>=◌, bytes_eq, is_some, if◌then◌else◌,
}
use stroemnet.Common.Dict.{Dict, get, insert, remove}
use stroemnet.Protocol.Channel.{ChannelId}
use stroemnet.Protocol.V1.{ChainEvent, commitment, reveal, refund, CommitmentV1}
use stroemnet.Records.Swap.{UtxoScript}
use stroemnet.Kaspa.Ops.{
  KaspaError, tx_script, ParsedOp, extract_reveal_secret, validate_refund_sig,
}
use stroemnet.Kaspa.Extract.{Prefix, Crates, extract_commitment}

-- `opcodes.last()`, and its data where there is any.
abbrev last_data : List ParsedOp → Option Bytes
last_data [] = none
last_data (op ∷ []) = elim op.get_data [ [] ↦ none | b ∷ bs ↦ some (b ∷ bs) ]
last_data (op ∷ next ∷ ops) = last_data (next ∷ ops)

-- `extract_commitment(..).ok().map(|c| c.swap_id)`
abbrev id_of : Result KaspaError CommitmentV1 → Option Bytes
id_of (ok c) = some c.swap_id
id_of (err e) = none

abbrev spend_event : (Bytes → ChainEvent) → Option Bytes → Option ChainEvent × Bool
spend_event event none = (none, false)
spend_event event (some id) = (some (event id), true)

unfoldable pub event_swap_id : ChainEvent → Option Bytes
event_swap_id (reveal r) = some r.swap_id
event_swap_id (refund r) = some r.swap_id
event_swap_id (commitment c) = none

-- The three collections of scan_inputs.
pub record Scanned : Type 0 where
  pub closed_addrs : List Bytes
  pub emit_dedup : Dict Bytes Bool
  pub events : List ChainEvent

-- The event of a classified spend at an address.
unfoldable pub emit : ChainEvent → Bool → Bytes → Scanned → Scanned
emit event closed addr st =
    let closed_now = if closed then st.closed_addrs ++ (addr ∷ []) else st.closed_addrs in
    elim (event_swap_id event) [
      | none ↦ record st { closed_addrs = closed_now; events = st.events ++ (event ∷ []) }
      | some id ↦ record {
        closed_addrs = closed_now;
        emit_dedup = insert id true st.emit_dedup;
        events = if is_some (get id st.emit_dedup) then st.events else st.events ++ (event ∷ []);
      }
    ]

module _ (crates : Crates) where
  unfoldable pub last_redeem : Bytes → Option Bytes
  last_redeem sig_script = elim (crates.parse_script sig_script) [
    | ok opcodes ↦ last_data opcodes
    | err e ↦ none
  ]

  unfoldable pub derive_p2sh_addr : Bytes → Prefix → Option Bytes
  derive_p2sh_addr redeem_script prefix =
      elim (crates.address_of_spk (crates.pay_to_script_hash_script redeem_script) prefix) [
        | ok address ↦ some address
        | err e ↦ none
      ]

  -- classify_spend, from the opcodes of the two scripts on.
  unfoldable pub classify_ops : List ParsedOp → Option Bytes → Option ChainEvent × Bool
  classify_ops sig_opcodes swap_id = elim (extract_reveal_secret crates.code sig_opcodes) [
    | ok secret ↦ spend_event (λ id. reveal record { swap_id = id; secret = secret }) swap_id
    | err e ↦ elim (validate_refund_sig crates.code sig_opcodes) [
      | ok done ↦ spend_event (λ id. refund record { swap_id = id }) swap_id
      | err e2 ↦ (none, false)
    ]
  ]

  unfoldable pub classify_spend :
      Bytes → UtxoScript → Prefix → ChannelId → Result KaspaError (Option ChainEvent × Bool)
  classify_spend sig_script utxo_script prefix channel_id = do
    sig_opcodes ← map_err tx_script (crates.parse_script sig_script)
    redeem_opcodes ← map_err tx_script (crates.parse_script utxo_script.redeem_script)
    ok (
        classify_ops sig_opcodes (
          id_of (
            extract_commitment crates redeem_opcodes utxo_script.deposit_target prefix channel_id)))

  -- One turn of the loop over the inputs.
  unfoldable pub scan_input : Dict Bytes UtxoScript → Prefix → ChannelId → Bytes → Scanned → Scanned
  scan_input scripts prefix channel_id sig_script st = elim (last_redeem sig_script) [
    | none ↦ st
    | some redeem_script ↦ elim (derive_p2sh_addr redeem_script prefix) [
      | none ↦ st
      | some addr ↦ elim (get addr scripts) [
        | none ↦ st
        | some utxo_script ↦ elim (classify_spend sig_script utxo_script prefix channel_id) [
          | ok (some event, closed) ↦ emit event closed addr st
          | ok (none, closed) ↦ st
          | err e ↦ st
        ]
      ]
    ]
  ]

  unfoldable pub scan_each :
      Dict Bytes UtxoScript → Prefix → ChannelId → List Bytes → Scanned → Scanned
  scan_each scripts prefix channel_id [] st = st
  scan_each scripts prefix channel_id (sig ∷ sigs) st =
      scan_each scripts prefix channel_id sigs (scan_input scripts prefix channel_id sig st)

  unfoldable pub remove_all : List Bytes → Dict Bytes UtxoScript → Dict Bytes UtxoScript
  remove_all [] scripts = scripts
  remove_all (addr ∷ addrs) scripts = remove_all addrs (remove addr scripts)

  unfoldable pub scan_inputs :
      List Bytes
      → Dict Bytes UtxoScript
      → Prefix
      → ChannelId
      → List ChainEvent
      → Dict Bytes UtxoScript × List ChainEvent
  scan_inputs inputs scripts prefix channel_id events =
      let st =
        scan_each scripts prefix channel_id inputs
          record { closed_addrs = []; emit_dedup = []; events = events } in
      (remove_all st.closed_addrs scripts, st.events)
