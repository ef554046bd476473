-- ===== src/Tests/Tries.antt =====
-- The theorems about the buffer of Kaspa and its attempts at concrete inputs.
use stroemnet.Common.{◌≡◌, refl, true, some, List, [], ◌∷◌, arith, Bytes, Result, ok, length}
use stroemnet.Common.Equality.{list_beq}
use stroemnet.Common.Dict.{get}
use stroemnet.Protocol.Channel.{kaspa_tn10}
use stroemnet.Protocol.V1.{CommitmentV1, RevealV1, reveal}
use stroemnet.Settlement.Queue.{default_queue, refund_key}
use stroemnet.Kaspa.Ops.{KaspaError}
use stroemnet.Kaspa.Extract.{testnet, ScriptPublicKey}
use stroemnet.Kaspa.Spend.{scan_inputs, scan_each, remove_all}
use stroemnet.Kaspa.Scan.{Transaction, handle_block_added, handle_transactions}
use stroemnet.Kaspa.Buffer.{Kaspa, key, commitment_of_swap, record_failure}
use stroemnet.Kaspa.Events.{take_outcomes, emit_event}
use stroemnet.Kaspa.Settle.{Client, submit_reveal, settle_claim}
use stroemnet.Kaspa.Settled.{emit_event-settle_claim}
use stroemnet.Kaspa.Scheduled.{IsScheduled}
use stroemnet.Kaspa.Moves.{Runs, took_block, emitted, failed, here, then_move, runs-IsScheduled}
use stroemnet.Tests.Data.{swap_1, secret_9, first_commitment, thirty_two}
use stroemnet.Tests.Crates.{toy_crates}
use stroemnet.Tests.Formats.{toy_borsh}
use stroemnet.Tests.Scripts.{redeem, stored, paying, deposit_found, found, testnet_id}

-- A node that takes part in refunds and watches one script.
abbrev idle : Kaspa
idle = record {
  channel_id = kaspa_tn10;
  network_id = testnet_id;
  prefix = testnet;
  script_ttl_secs = 600;
  participate_ccr = true;
  private_key = some (7 ∷ []);
  utxo_scripts = (length redeem ∷ [], stored) ∷ [];
  safe_blocks = [];
  commitments = (swap_1, first_commitment) ∷ [];
  pending_refunds = [];
  pending_claims = [];
  announcements = [];
  scripts = [];
  swap_store = some [];
  queue = default_queue;
}

abbrev deposits : List Transaction
deposits = record { inputs = []; outputs = paying ∷ [] } ∷ []

scanned :
    (handle_block_added toy_crates deposits idle.utxo_scripts testnet kaspa_tn10).1
    ≡ ok deposit_found
unfolding handle_block_added handle_transactions scan_inputs scan_each remove_all
scanned = rw (handle_transactions, found) refl

abbrev submit : Bytes → CommitmentV1 → Result KaspaError (Bytes × Bytes)
submit pk c = ok (3 ∷ [], 4 ∷ [])

abbrev told : RevealV1
told = record { swap_id = swap_1; secret = secret_9 }

abbrev paid : Kaspa
paid = take_outcomes toy_borsh 1000 deposit_found (record idle {
  utxo_scripts = (handle_block_added toy_crates deposits idle.utxo_scripts testnet kaspa_tn10).0;
})

abbrev asked : Kaspa
asked = (emit_event toy_borsh 1010 submit (reveal told) paid).0

abbrev tried : Kaspa
tried = record_failure toy_borsh asked (refund_key (thirty_two 1)) 1020

run : Runs toy_crates toy_borsh idle tried
run =
    then_move _ asked _
      (then_move _ paid _
        (then_move _ idle _ (here idle) (took_block 1000 deposits deposit_found idle scanned tt))
        (emitted 1010 submit (reveal told) paid))
      (failed (refund_key (thirty_two 1)) 1020 asked)

runs-IsScheduled_example : IsScheduled tried
runs-IsScheduled_example = runs-IsScheduled toy_crates toy_borsh idle tried run (record {
  refund_queued = λ id h. absurd (ground arith);
  claim_queued = λ id h. absurd (ground arith);
})

abbrev client : Client
client = record {
  past_median_time = some 2900000;
  submits = λ s. true;
  parse_address = λ text. true;
  utxo_count = λ text. some 1;
}

abbrev our_spk : ScriptPublicKey
our_spk = record { version = 0; script = 8 ∷ [] }

abbrev their_spk : ScriptPublicKey
their_spk = record { version = 0; script = 9 ∷ [] }

emit_event-settle_claim_example :
    (settle_claim client swap_1 (emit_event toy_borsh 1010 submit (reveal told) idle).0).1
    ≡ submit_reveal (7 ∷ []) first_commitment told ∷ []
unfolding commitment_of_swap key get list_beq
emit_event-settle_claim_example =
    emit_event-settle_claim client toy_borsh 1010 submit told idle first_commitment (7 ∷ []) refl
      refl refl refl
