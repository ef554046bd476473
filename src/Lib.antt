-- ===== src/Lib.antt =====
-- A model of the core of stroemnet, a network of nodes that swap coins between chains by hash time
-- locks, and theorems about it.
--
-- A user locks coins on one chain (the first commitment), a market maker's node locks the other
-- coin on the other chain (the counter commitment), the user reveals the secret there, and each
-- side claims with it; or both take a refund after their time. The parts and their models:
--
-- crates/protocol/src/channels.rs, v1 and clock: Protocol. The chains, the messages and the time of
-- each chain.
-- crates/protocol/src/swap_tracker: Tracker. What a node knows of each swap. SwapTracker's map is
-- an association list, an operation takes the tracker and returns the new one or an error
-- (set_init_commitment, set_counter_commitment, set_revealed, set_refunded, cleanup_old_swaps).
-- crates/amounts/src: Amounts. Amounts::amount_out and rescale are Quote, PriceStorage is Prices.
-- crates/handler/src: Handler. create_proposal is Quoting, handle_internal_commitment and
-- build_counter_commitment are Mirror, on_chain_event and the external handlers are Dispatch. An
-- event goes to the tracker, and its effects (a broadcast, the signal to reveal) come back as a
-- list.
-- crates/data/src/chains/record and store.rs: Records. The versioned codec and the restore.
-- crates/data/src/chains/settlement and record/attempt.rs: Settlement. The retry queue, the pass
-- `drive` over the keys that are due, and the reconciliation at boot. Settler is the trait that a
-- chain fills, QueueBacked what a pass relies on.
-- crates/data/src/chains/mod.rs and evm/{persist,settler,reconcile}.rs: Chains. The buffer of an
-- EVM chain and its copy on disk. evm/finality.rs and the arithmetic of evm/replace.rs are Polling:
-- PollState::next_range, advance and poll_once, and the gas price of a replacement. Settle is
-- evm/settle.rs, replace.rs and broadcast, Settling the Settler of the engine, Replaced, Resent and
-- Claimable are about its attempts. Events is evm/poll.rs, emit.rs and buffer.rs; Moves is the step
-- relation of all that happens to the buffer, and Synced ties each step to the copy on disk.
-- crates/data/src/chains/kaspa: Kaspa. Script is create_htlc_script as the builder's calls, Layout
-- is EXPECTED_OPCODES, Ops and Extract are contracts/extract, Announce is signing/p2sh.rs, Spend
-- and Scan are decode (classify, inputs, outputs, block), Recognised has the signature scripts of
-- reveal.rs and refund.rs, Funding and Payout are utxo.rs, txbuild.rs and spend.rs of broadcast,
-- and Spending is about the transactions that Payout makes.
-- Intake is intake: Intake::poll_once, flush_confirmed_blocks and the cursor; Confirmed and Unsent
-- are about the blocks that a flush hands on, and Polled is about how a poll ends. Buffer is mod.rs, accessors.rs, persist.rs and the
-- records of settler.rs, Events is poll.rs, emit.rs and detector.rs, Settle is settle.rs and
-- reconcile.rs with the Settler of the engine. Scheduled is the invariant that ties the pending
-- lists to the retry queue, Outcomes, Pushed and Attempted carry it through a block, Moves is the
-- step relation of all that happens to the buffer, and Settled is about the attempts.
-- crates/p2p/src: Network. Seen is gossip, Digest is identity.rs, Relay is addr.rs and the state,
-- relay and discovery of network; Window and Recent are about the set of seen messages. What a node
-- sends is a list of the peers that it goes to.
-- crates/node/src: Node. Wire has the messages between peers (p2p/src/wire), Coordinator and
-- Proposals are coordinator, Taker is node/taker.rs and node/deposit.rs, Claims is claim.rs and
-- node/apply.rs: the claims that a taker waits to reveal. Signed, Forwarded, Replay, Spent and
-- Registered hold proofs. Proposals gives what the coordinator reads of the chains as a record,
-- Sink, and Taker gives what it stores there as Deposits; of the answer to a response Proposals has
-- the branch of the wasm build.
--
-- Tests holds concrete inputs and applies the theorems of the list below to them.
--
-- State behind a lock is passed from call to call, and a call is one step. The system time is an
-- argument; where one call reads it several times, one reading stands for them, but for set_price,
-- which tells the two apart. All loops are structural, but for that over the pages of a poll, which
-- counts down the source's own limit of 10 000 pages. Texts and byte arrays are lists of numbers.
-- Saturating and wrapping arithmetic is written out; a sum of u64 that the source leaves to the
-- build's overflow mode wraps around, as in a release build.
--
-- Not under src/, and so arguments: U256 of alloy and f64 (Amounts.Numbers), SHA-256 and hex
-- (Crypto), Borsh on a swap record (Borsh), the parsers and printers of numbers, str::trim and
-- alloy's address parser (Outside); of Kaspa's crates the opcodes' bytes, the script builder and
-- parser, addresses and the fee of a transaction (Crates); the answers of an EVM node (Answers,
-- Provider), the signatures of its contract (Htlc) and of a Kaspa node (Rpc and Client). The laws
-- that theorems use of them are hypotheses.
--
-- Not modelled: the transactions that a chain signs and sends, the connection to a node, the
-- handshake and transports of peers, the price oracles, the database, the wiring of the node and
-- the browser bindings, most of which are I/O; the execution of a Kaspa script, which is the
-- chain's; the Unicode conversions of names.
pub mod Common
pub mod Protocol
pub mod Tracker
pub mod Records
pub mod Settlement
pub mod Amounts
pub mod Handler
pub mod Chains
pub mod Kaspa
pub mod Network
pub mod Node
mod Tests
