-- ===== src/Kaspa/Intake.antt =====
-- chains/kaspa/intake: how blocks are fetched, confirmed and handed on. The answers of the node are
-- arguments: `none` where the retries of a call have run out. The channel to the next stage is the list
-- of what went through it and the number of blocks that its receiver still takes before it is dropped.
use stroemnet.Common.{
  ℕ, zero, suc, ◌-◌, Bool, true, false, not, ◌||◌, Option, none, some, List, [], ◌∷◌, ◌++◌, Bytes,
  bytes_eq, ◌==◌, any, codes, Result, ok, err, ltb, nat_beq, length, is_some, if◌then◌else◌,
}
use stroemnet.Common.Dict.{Dict, get}
use stroemnet.Kaspa.Scan.{Transaction}
use stroemnet.Kaspa.Ops.{KaspaError, other}

-- RpcBlock, by the fields that are read.
pub record RpcBlock : Type 0 where
  pub daa_score : ℕ
  pub transactions : List Transaction

pub record Sender : Type 0 where
  pub sent : List RpcBlock
  pub takes : ℕ

pub record Intake : Type 0 where
  pub sender : Sender
  pub minimum_block_confirmations : ℕ
  pub pending_blocks : Dict Bytes RpcBlock
  pub max_seen_daa : ℕ
  pub cursor : Option Bytes
  pub cursor_store : Option (Option Bytes)

unfoldable pub send : RpcBlock → Sender → Sender × Bool
send block s = elim s.takes [
  | zero ↦ (s, false)
  | suc n ↦ (record { sent = s.sent ++ (block ∷ []); takes = n }, true)
]

-- The loop over `buffer.drain(..)`, with `all_sent`.
unfoldable pub drain : List RpcBlock → Sender → Sender × Bool
unfolding send
drain [] s = (s, true)
drain (block ∷ blocks) s =
    let tried = send block s in
    elim tried.1 [ true ↦ drain blocks tried.0 | false ↦ (tried.0, false) ]

unfoldable pub unconfirmed : List Bytes → Bytes → ℕ → ℕ → ℕ → Bool
unconfirmed removed hash block_daa virtual_daa threshold =
    any (λ h. hash == h) removed || ltb (virtual_daa - block_daa) threshold

module _ (removed chain_blocks : List Bytes) (virtual_daa threshold : ℕ) where
  -- The loop of flush_confirmed_blocks, with the blocks that wait in `buffer` and `new_cursor`.
  unfoldable pub flush_loop :
      Dict Bytes RpcBlock → List RpcBlock → Sender → Option Bytes → Sender × Option Bytes
  unfolding drain unconfirmed
  flush_loop [] buffer s new_cursor = (s, new_cursor)
  flush_loop ((hash, block) ∷ pending) buffer s new_cursor =
      elim (unconfirmed removed hash block.daa_score virtual_daa threshold) [
        | true ↦ (s, new_cursor)
        | false ↦ elim (any (λ h. hash == h) chain_blocks) [
          | false ↦ flush_loop pending (buffer ++ (block ∷ [])) s new_cursor
          | true ↦
              let drained = drain (buffer ++ (block ∷ [])) s in
              elim drained.1 [
                | false ↦ (drained.0, new_cursor)
                | true ↦ flush_loop pending [] drained.0 (some hash)
              ]
        ]
      ]

unfoldable pub set_cursor : Bytes → Intake → Intake
set_cursor hash st = record st {
  cursor = some hash;
  cursor_store = elim st.cursor_store [ none ↦ none | some row ↦ some (some hash) ];
}

abbrev pub moved : Option Bytes → Intake → Intake
moved none st = st
moved (some hash) st = set_cursor hash st

-- The blocks that are not handed on are forgotten: the next poll fetches them again.
unfoldable pub flush_confirmed_blocks : List Bytes → List Bytes → Intake → Intake
unfolding flush_loop set_cursor
flush_confirmed_blocks removed chain_blocks st =
    let flushed =
      flush_loop removed chain_blocks st.max_seen_daa st.minimum_block_confirmations
        st.pending_blocks [] st.sender none in
    moved flushed.1 (record st { pending_blocks = []; sender = flushed.0 })

pub data PageStep : Type 0 where
  stop : PageStep
  advance : Bytes → PageStep

unfoldable pub next_page : Option Bytes → Bytes → Bool → PageStep
next_page last page_low reached_sink =
    if reached_sink
    then stop
    else elim last [ none ↦ stop | some h ↦ if not (h == page_low) then advance h else stop ]

-- Vec::last.
unfoldable pub last : List Bytes → Option Bytes
last [] = none
last (x ∷ []) = some x
last (x ∷ y ∷ xs) = last (y ∷ xs)

-- `entry(hash).or_insert_with(..)` of an IndexMap, which keeps the order of insertion.
abbrev pub or_insert : Bytes → RpcBlock → Dict Bytes RpcBlock → Dict Bytes RpcBlock
or_insert hash block pending =
    if is_some (get hash pending) then pending else pending ++ ((hash, block) ∷ [])

-- The loop over the blocks zipped with their hashes.
unfoldable pub take_page :
    Bytes → List RpcBlock → List Bytes → Dict Bytes RpcBlock → Dict Bytes RpcBlock
take_page page_low (block ∷ blocks) (hash ∷ hashes) pending =
    take_page page_low blocks hashes
      (if hash == page_low then pending else or_insert hash block pending)
take_page page_low [] hashes pending = pending
take_page page_low (block ∷ blocks) [] pending = pending

-- The answers to get_blocks, get_block_dag_info and get_virtual_chain_from_block.
pub record Page : Type 0 where
  pub block_hashes : List Bytes
  pub blocks : List RpcBlock

pub record DagInfo : Type 0 where
  pub virtual_daa_score : ℕ
  pub sink : Bytes

pub record VirtualChain : Type 0 where
  pub removed_chain_block_hashes : List Bytes
  pub added_chain_block_hashes : List Bytes

pub record Rpc : Type 0 where
  pub get_block_dag_info : Option DagInfo
  pub get_blocks : Bytes → Option Page
  pub get_virtual_chain_from_block : Bytes → Option VirtualChain

-- After 10_000 pages the loop goes on with what it has.
abbrev pub max_pages : ℕ
max_pages = 10000

module _ (rpc : Rpc) where
  -- The loop over the pages, with the number of pages that it may still fetch.
  unfoldable pub fetch :
      ℕ → Bytes → Bytes → Dict Bytes RpcBlock → Dict Bytes RpcBlock × Result KaspaError (Unit {0})
  unfolding take_page next_page last
  fetch zero sink page_low pending = (pending, ok tt)
  fetch (suc n) sink page_low pending = elim (rpc.get_blocks page_low) [
    | none ↦ (pending, err (other (codes "get_blocks: timed out")))
    | some page ↦ elim (nat_beq (length page.blocks) (length page.block_hashes)) [
      | false ↦ (pending, err (other (codes "get_blocks: blocks/hashes length mismatch")))
      | true ↦
          let pending' = take_page page_low page.blocks page.block_hashes pending in
          elim (next_page (last page.block_hashes) page_low
            (any (λ h. h == sink) page.block_hashes)) [
              | stop ↦ (pending', ok tt)
              | advance h ↦ fetch n sink h pending'
            ]
    ]
  ]

  -- From the cursor on.
  unfoldable pub poll_from : ℕ → Bytes → Bytes → Intake → Intake × Result KaspaError (Unit {0})
  unfolding fetch flush_confirmed_blocks
  poll_from pages sink low st =
      let pages = fetch pages sink low [] in
      let fetched = record st { pending_blocks = pages.0 } in
      elim pages.1 [
        | err e ↦ (fetched, err e)
        | ok nothing ↦ elim (rpc.get_virtual_chain_from_block low) [
          | none ↦ (fetched, err (other (codes "get_virtual_chain_from_block: timed out")))
          | some vc ↦ (
            flush_confirmed_blocks vc.removed_chain_block_hashes vc.added_chain_block_hashes
                fetched,
            ok tt,
          )
        ]
      ]

  unfoldable pub poll_once : Intake → Intake × Result KaspaError (Unit {0})
  unfolding poll_from set_cursor
  poll_once st = elim rpc.get_block_dag_info [
    | none ↦ (st, err (other (codes "get_block_dag_info: timed out")))
    | some dag ↦
        let seen = record st { max_seen_daa = dag.virtual_daa_score } in
        elim st.cursor [
          | none ↦ (set_cursor dag.sink seen, ok tt)
          | some low ↦ poll_from max_pages dag.sink low seen
        ]
  ]
