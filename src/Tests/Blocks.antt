-- ===== src/Tests/Blocks.antt =====
-- The theorems about the intake of blocks and the buffer of Kaspa at concrete inputs.
use stroemnet.Common.{
  Option, some, ℕ, ◌≡◌, ◌+◌, refl, none, [], ◌∷◌, ◌++◌, arith, List, Bytes, bytes_eq, length,
}
use stroemnet.Common.Equality.{list_beq}
use stroemnet.Common.Dict.{Dict}
use stroemnet.Kaspa.Intake.{RpcBlock, Sender, Intake, Page, Rpc, poll_once, flush_loop, unconfirmed}
use stroemnet.Kaspa.Confirmed.{
  values, cursor_after, confirmed, up_to_chain, settled, flush_loop-settled,
}
use stroemnet.Kaspa.Unsent.{flush_loop-sent}
use stroemnet.Kaspa.Polled.{Polled, poll_once-Polled}

abbrev block : ℕ → RpcBlock
block n = record { daa_score = n; transactions = [] }

abbrev dag : Dict Bytes RpcBlock
dag = (1 ∷ [], block 1) ∷ (2 ∷ [], block 2) ∷ (3 ∷ [], block 3) ∷ (4 ∷ [], block 9) ∷ []

abbrev open_sender : Sender
open_sender = record { sent = []; takes = 10 }

-- Block 2 lies on the chain, block 3 aside of it, and block 4 is too young.
flush_loop-settled_example :
    let flushed = flush_loop [] ((2 ∷ []) ∷ []) 10 5 dag [] open_sender none in
    (flushed.0.sent ≡ [] ++ values (settled [] ((2 ∷ []) ∷ []) 10 5 dag))
    × (flushed.1 ≡ cursor_after none (settled [] ((2 ∷ []) ∷ []) 10 5 dag))
    × (flushed.0.takes + length (values (settled [] ((2 ∷ []) ∷ []) 10 5 dag)) ≡ 10)
flush_loop-settled_example =
    flush_loop-settled [] ((2 ∷ []) ∷ []) 10 5 dag open_sender (omega arith)

settled_blocks : settled [] ((2 ∷ []) ∷ []) 10 5 dag ≡ (1 ∷ [], block 1) ∷ (2 ∷ [], block 2) ∷ []
unfolding confirmed up_to_chain unconfirmed list_beq
settled_blocks = refl

-- The receiver closes after one block.
flush_loop-sent_example :
    let closing : Sender = record { sent = []; takes = 1 } in
    let flushed = flush_loop [] ((2 ∷ []) ∷ []) 10 5 dag [] closing none in
    (kept : Dict Bytes RpcBlock) × (rest : Dict Bytes RpcBlock) × (more : List RpcBlock) × (dag
      ≡ kept ++ rest)
    × (flushed.1 ≡ cursor_after none kept)
    × (flushed.0.sent ≡ [] ++ (values kept ++ more))
flush_loop-sent_example =
    flush_loop-sent [] ((2 ∷ []) ∷ []) 10 5 dag (record { sent = []; takes = 1 }) none

-- A node whose only page holds the blocks after the cursor.
abbrev node : Option Page → Rpc
node page = record {
  get_block_dag_info = some record { virtual_daa_score = 10; sink = 4 ∷ [] };
  get_blocks = λ low. page;
  get_virtual_chain_from_block = λ low.
      some record { removed_chain_block_hashes = []; added_chain_block_hashes = (2 ∷ []) ∷ [] };
}

abbrev page : Page
page = record {
  block_hashes = (1 ∷ []) ∷ (2 ∷ []) ∷ (3 ∷ []) ∷ (4 ∷ []) ∷ [];
  blocks = block 1 ∷ block 2 ∷ block 3 ∷ block 9 ∷ [];
}

abbrev intake : Intake
intake = record {
  sender = open_sender;
  minimum_block_confirmations = 5;
  pending_blocks = [];
  max_seen_daa = 0;
  cursor = some (1 ∷ []);
  cursor_store = some none;
}

poll_once-Polled_example : Polled (node (some page)) intake (poll_once (node (some page)) intake)
poll_once-Polled_example = poll_once-Polled (node (some page)) intake
