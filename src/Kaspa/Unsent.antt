-- ===== src/Kaspa/Unsent.antt =====
-- chains/kaspa/intake/confirm.rs: a flush whose receiver may close before it has taken all the blocks.
use mathlib.Core.List.{append_assoc, append-nil}
use stroemnet.Common.{
  ℕ, ◌≡◌, ◌∙◌, sym, ap, refl, true, false, Option, some, List, [], ◌∷◌, ◌++◌, arith, Bytes,
  bytes_eq, ◌==◌, any, zero, suc, Bool-cases, inl, inr,
}
use stroemnet.Common.Dict.{Dict}
use stroemnet.Kaspa.Intake.{RpcBlock, Sender, send, drain, unconfirmed, flush_loop}
use stroemnet.Kaspa.Confirmed.{
  values, cursor_after, ahead, ahead-empty, loop-shallow, loop-aside, loop-on_chain,
}

-- What a drain hands on: all the blocks, if it says so.
drain_sent :
    (blocks sent : List RpcBlock) (takes : ℕ)
    → let drained = drain blocks (record { sent = sent; takes = takes }) in
      (more : List RpcBlock) × (drained.0.sent ≡ sent ++ more) × (drained.1 ≡ true → more ≡ blocks)
unfolding drain send
drain_sent [] sent takes = ([], sym (append-nil sent), λ h. refl)
drain_sent (block ∷ blocks) sent zero = ([], sym (append-nil sent), λ h. absurd (ground (arith, h)))
drain_sent (block ∷ blocks) sent (suc n) =
    let (more, out, all) = drain_sent blocks (sent ++ (block ∷ [])) n in
    (block ∷ more, out ∙ append_assoc sent (block ∷ []) more, λ h. ap (λ bs. block ∷ bs) (all h))

module _ (removed chain_blocks : List Bytes) (virtual_daa threshold : ℕ) where
  -- The cursor has followed `kept`, and these blocks have been handed on, if not more.
  record Covers (flushed : Sender × Option Bytes) (pending : Dict Bytes RpcBlock)
      (buffer : List RpcBlock) (s : Sender) (cursor : Option Bytes) : Type 0 where
    pub kept : Dict Bytes RpcBlock
    pub rest : Dict Bytes RpcBlock
    pub more : List RpcBlock
    pub split : pending ≡ kept ++ rest
    pub out :
        flushed.0.sent
        ≡ s.sent ++ (ahead removed chain_blocks virtual_daa threshold buffer kept ++ more)
    pub at : flushed.1 ≡ cursor_after cursor kept

  nothing_kept :
      (flushed : Sender × Option Bytes) (pending : Dict Bytes RpcBlock) (buffer : List RpcBlock)
      (s : Sender) (cursor : Option Bytes) (more : List RpcBlock)
      → flushed.0.sent ≡ s.sent ++ more
      → flushed.1 ≡ cursor
      → Covers flushed pending buffer s cursor
  nothing_kept flushed pending buffer s cursor more out at = record {
    kept = [];
    rest = pending;
    more = more;
    split = refl;
    out = out;
    at = at;
  }

  module _ (flushed : Sender × Option Bytes) (hash : Bytes) (block : RpcBlock)
      (pending : Dict Bytes RpcBlock) (buffer : List RpcBlock) (s : Sender)
      (cursor : Option Bytes) where
    aside_out :
        (kept rest : Dict Bytes RpcBlock) (more : List RpcBlock)
        → pending ≡ kept ++ rest
        → flushed.0.sent
          ≡ s.sent
            ++ (ahead removed chain_blocks virtual_daa threshold (buffer ++ (block ∷ [])) kept
                ++ more)
        → flushed.1 ≡ cursor_after cursor kept
        → Covers flushed ((hash, block) ∷ pending) buffer s cursor
    aside_out [] rest more split out at = nothing_kept flushed _ buffer s cursor more out at
    aside_out (e ∷ es) rest more split out at = record {
      kept = (hash, block) ∷ e ∷ es;
      rest = rest;
      more = more;
      split = ap (λ bs. (hash, block) ∷ bs) split;
      out =
          out
          ∙ ap (λ bs. s.sent ++ (bs ++ more)) (append_assoc buffer (block ∷ []) (values (e ∷ es)));
      at = at;
    }

  loop-cut :
      (hash : Bytes) (block : RpcBlock) (pending : Dict Bytes RpcBlock) (buffer : List RpcBlock)
      (s : Sender) (cursor : Option Bytes)
      → unconfirmed removed hash block.daa_score virtual_daa threshold ≡ false
      → any (λ h. hash == h) chain_blocks ≡ true
      → (drain (buffer ++ (block ∷ [])) s).1 ≡ false
      → flush_loop removed chain_blocks virtual_daa threshold
          ((hash, block) ∷ pending)
          buffer
          s
          cursor
        ≡ ((drain (buffer ++ (block ∷ [])) s).0, cursor)
  unfolding flush_loop
  loop-cut hash block pending buffer s cursor h g d = rw (flush_loop, h, g, d) refl

  flush_loop-Covers :
      (pending : Dict Bytes RpcBlock) (buffer : List RpcBlock) (s : Sender) (cursor : Option Bytes)
      → Covers
          (flush_loop removed chain_blocks virtual_daa threshold pending buffer s cursor)
          pending
          buffer
          s
          cursor
  unfolding flush_loop
  flush_loop-Covers [] buffer s cursor =
      nothing_kept _ [] buffer s cursor [] (sym (append-nil s.sent)) refl
  flush_loop-Covers ((hash, block) ∷ pending) buffer s cursor =
      elim (Bool-cases (unconfirmed removed hash block.daa_score virtual_daa threshold)) [
        | inl up ↦
            rw
              (loop-shallow removed chain_blocks virtual_daa threshold hash block pending buffer s
                cursor up)
              (nothing_kept _ _ buffer s cursor [] (sym (append-nil s.sent)) refl)
        | inr down ↦ elim (Bool-cases (any (λ h. hash == h) chain_blocks)) [
          | inr off ↦
              let ih = flush_loop-Covers pending (buffer ++ (block ∷ [])) s cursor in
              rw
                (loop-aside removed chain_blocks virtual_daa threshold hash block pending buffer s
                  cursor down off)
                (aside_out _ hash block pending buffer s cursor ih.kept ih.rest ih.more ih.split
                  ih.out ih.at)
          | inl on ↦
              let blocks = buffer ++ (block ∷ []) in
              let (more, out, all) = drain_sent blocks s.sent s.takes in
              elim (Bool-cases (drain blocks s).1) [
                | inr closed ↦
                    rw (loop-cut hash block pending buffer s cursor down on closed)
                      (nothing_kept _ _ buffer s cursor more out refl)
                | inl sent ↦
                    let ih = flush_loop-Covers pending [] (drain blocks s).0 (some hash) in
                    rw
                      (loop-on_chain removed chain_blocks virtual_daa threshold hash block pending
                        buffer s cursor down on sent)
                      (record {
                        kept = (hash, block) ∷ ih.kept;
                        rest = ih.rest;
                        more = ih.more;
                        split = ap (λ bs. (hash, block) ∷ bs) ih.split;
                        out =
                            ih.out
                            ∙ (ap (λ bs. (drain blocks s).0.sent ++ (bs ++ ih.more))
                                  (ahead-empty removed chain_blocks virtual_daa threshold ih.kept)
                                ∙ (ap (λ bs. bs ++ (values ih.kept ++ ih.more))
                                      (out ∙ ap (λ bs. s.sent ++ bs) (all sent))
                                    ∙ (append_assoc s.sent blocks (values ih.kept ++ ih.more)
                                        ∙ ap (λ bs. s.sent ++ bs)
                                            (append_assoc buffer (block ∷ [])
                                                (values ih.kept ++ ih.more)
                                              ∙ sym (
                                                  append_assoc buffer (block ∷ values ih.kept)
                                                    ih.more)))));
                        at = ih.at;
                      })
              ]
        ]
      ]

  -- However many blocks the receiver takes before it closes, the cursor does not pass a block that has
  -- not been handed on: what a flush hands on begins with the fetched blocks up to the new cursor, each
  -- once and in the order of their arrival.
  pub flush_loop-sent :
      (pending : Dict Bytes RpcBlock) (s : Sender) (cursor : Option Bytes)
      → let flushed = flush_loop removed chain_blocks virtual_daa threshold pending [] s cursor in
        (kept : Dict Bytes RpcBlock) × (rest : Dict Bytes RpcBlock) × (more : List RpcBlock)
        × (pending ≡ kept ++ rest)
        × (flushed.1 ≡ cursor_after cursor kept)
        × (flushed.0.sent ≡ s.sent ++ (values kept ++ more))
  flush_loop-sent pending s cursor =
      let c = flush_loop-Covers pending [] s cursor in
      (
        c.kept,
        c.rest,
        c.more,
        c.split,
        c.at,
        c.out
            ∙ ap (λ bs. s.sent ++ (bs ++ c.more))
                (ahead-empty removed chain_blocks virtual_daa threshold c.kept),
      )
