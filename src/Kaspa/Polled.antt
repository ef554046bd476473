-- ===== src/Kaspa/Polled.antt =====
-- chains/kaspa/intake/read.rs: what a poll does, whatever the node answers.
use mathlib.Core.Path.{subst}
use stroemnet.Common.{
  ◌≡◌, ◌∙◌, refl, sym, ap, inl, inr, Option, none, some, List, [], ◌∷◌, ◌++◌, Bytes, Result, ok,
  err, codes, Option-cases, Result-cases,
}
use stroemnet.Common.Dict.{Dict}
use stroemnet.Kaspa.Ops.{KaspaError, other}
use stroemnet.Kaspa.Intake.{
  RpcBlock, DagInfo, Rpc, Intake, max_pages, moved, fetch, flush_loop, flush_confirmed_blocks,
  set_cursor, poll_from, poll_once,
}
use stroemnet.Kaspa.Confirmed.{values, cursor_after}
use stroemnet.Kaspa.Unsent.{flush_loop-sent}

-- Nothing is handed on and the cursor stays, in memory and on disk.
pub record Stays (st next : Intake) : Type 0 where
  pub sender : next.sender ≡ st.sender
  pub cursor : next.cursor ≡ st.cursor
  pub cursor_store : next.cursor_store ≡ st.cursor_store

-- The cursor has moved over `kept`, the first of the blocks that were fetched, and what was handed on
-- begins with them.
pub record Follows (st next : Intake) (fetched : Dict Bytes RpcBlock) : Type 0 where
  pub kept : Dict Bytes RpcBlock
  pub rest : Dict Bytes RpcBlock
  pub more : List RpcBlock
  pub split : fetched ≡ kept ++ rest
  pub cursor : next.cursor ≡ cursor_after st.cursor kept
  pub out : next.sender.sent ≡ st.sender.sent ++ (values kept ++ more)

from_none :
    (cursor : Option Bytes) (kept : Dict Bytes RpcBlock) (st : Intake)
    → st.cursor ≡ cursor
    → (moved (cursor_after none kept) st).cursor ≡ cursor_after cursor kept
unfolding set_cursor
from_none cursor [] st at = at
from_none cursor ((hash, block) ∷ kept) st at = from_some hash kept
  where
    from_some :
        (hash : Bytes) (kept : Dict Bytes RpcBlock)
        → (moved (cursor_after (some hash) kept) st).cursor ≡ cursor_after (some hash) kept
    from_some hash [] = refl
    from_some hash ((later, b) ∷ kept) = from_some later kept

sender-moved : (cursor : Option Bytes) (st : Intake) → (moved cursor st).sender ≡ st.sender
unfolding set_cursor
sender-moved none st = refl
sender-moved (some hash) st = refl

flush-Follows :
    (removed chain_blocks : List Bytes) (fetched : Dict Bytes RpcBlock) (st : Intake)
    → Follows st
        (flush_confirmed_blocks removed chain_blocks (record st { pending_blocks = fetched }))
        fetched
unfolding flush_confirmed_blocks
flush-Follows removed chain_blocks fetched st =
    let flushed =
      flush_loop removed chain_blocks st.max_seen_daa st.minimum_block_confirmations fetched []
        st.sender none in
    let (kept, rest, more, split, at, out) =
      flush_loop-sent removed chain_blocks st.max_seen_daa st.minimum_block_confirmations fetched
        st.sender none in
    let left : Intake = record st { pending_blocks = []; sender = flushed.0 } in
    record {
      kept = kept;
      rest = rest;
      more = more;
      split = split;
      cursor =
          ap (λ (c : Option Bytes). (moved c left).cursor) at ∙ from_none st.cursor kept left refl;
      out = ap (λ s. s.sent) (sender-moved flushed.1 left) ∙ out;
    }

module _ (rpc : Rpc) where
  -- How a poll ends: with an error and nothing done, with the sink as its first cursor, or with the
  -- blocks that were fetched from the cursor on, of which it has handed on the first.
  pub data Polled (st : Intake) (next : Intake × Result KaspaError (Unit {0})) : Type 0 where
    failed : (e : KaspaError) → next.1 ≡ err e → Stays st next.0 → Polled st next
    started :
        (dag : DagInfo)
        → rpc.get_block_dag_info ≡ some dag
        → st.cursor ≡ none
        → next.1 ≡ ok tt
        → next.0.cursor ≡ some dag.sink
        → next.0.sender ≡ st.sender
        → Polled st next
    followed :
        (dag : DagInfo) (low : Bytes) (fetched : Dict Bytes RpcBlock)
        → rpc.get_block_dag_info ≡ some dag
        → st.cursor ≡ some low
        → fetch rpc max_pages dag.sink low [] ≡ (fetched, ok tt)
        → next.1 ≡ ok tt
        → Follows st next.0 fetched
        → Polled st next

  poll_from-Polled :
      (dag : DagInfo) (low : Bytes) (st seen : Intake)
      → rpc.get_block_dag_info ≡ some dag
      → st.cursor ≡ some low
      → seen ≡ record st { max_seen_daa = dag.virtual_daa_score }
      → Polled st (poll_from rpc max_pages dag.sink low seen)
  unfolding poll_from
  poll_from-Polled dag low st seen answered at same =
      let pages = fetch rpc max_pages dag.sink low [] in
      elim (Result-cases pages.1) [
        | inr (e, cut) ↦
            rw (poll_from, cut, same)
              (failed e refl (record { sender = refl; cursor = refl; cursor_store = refl }))
        | inl (done, whole) ↦ elim (Option-cases (rpc.get_virtual_chain_from_block low)) [
          | inl silent ↦
              rw (poll_from, whole, silent, same)
                (failed _ refl (record { sender = refl; cursor = refl; cursor_store = refl }))
          | inr (vc, told) ↦
              let f =
                flush-Follows vc.removed_chain_block_hashes vc.added_chain_block_hashes pages.0
                  (record st { max_seen_daa = dag.virtual_daa_score }) in
              rw (poll_from, whole, told, same)
                (followed dag low pages.0 answered at (ap (λ r. (pages.0, r)) whole) refl (record {
                  kept = f.kept;
                  rest = f.rest;
                  more = f.more;
                  split = f.split;
                  cursor = f.cursor;
                  out = f.out;
                }))
        ]
      ]

  -- Whatever the node answers, a poll ends in one of three ways. It fails, and then nothing is handed
  -- on and the cursor stays, in memory and on disk, so that the next poll asks for the same blocks. Or
  -- there was no cursor, and it becomes the sink that the node names, and nothing is handed on. Or the
  -- fetching of pages from the cursor on ended without an error: then the cursor moves over the first of
  -- the fetched blocks, which may be none, and what is handed on begins with just these, in the order of
  -- their arrival.
  pub poll_once-Polled : (st : Intake) → Polled st (poll_once rpc st)
  unfolding poll_once set_cursor
  poll_once-Polled st = elim (Option-cases rpc.get_block_dag_info) [
    | inl silent ↦
        let timed_out : KaspaError = other (codes "get_block_dag_info: timed out") in
        let same : poll_once rpc st ≡ (st, err timed_out) = rw (poll_once, silent) refl in
        subst (Polled st) (sym same)
          (failed timed_out refl (record { sender = refl; cursor = refl; cursor_store = refl }))
    | inr (dag, answered) ↦
        let seen : Intake = record st { max_seen_daa = dag.virtual_daa_score } in
        elim (Option-cases st.cursor) [
          | inl first ↦
              let same : poll_once rpc st ≡ (set_cursor dag.sink seen, ok tt) =
                rw (poll_once, answered, first) refl in
              subst (Polled st) (sym same) (started dag answered first refl refl refl)
          | inr (low, at) ↦
              let same : poll_once rpc st ≡ poll_from rpc max_pages dag.sink low seen =
                rw (poll_once, answered, at) refl in
              subst (Polled st) (sym same) (poll_from-Polled dag low st seen answered at refl)
        ]
  ]
