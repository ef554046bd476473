-- ===== src/Kaspa/Confirmed.antt =====
-- chains/kaspa/intake/confirm.rs: which blocks a flush hands on, and where it leaves the cursor.
use stroemnet.Common.{
  ℕ, ◌+◌, ◌≤◌, ◌≡◌, ◌∙◌, sym, ap, refl, Bool, true, false, not, ◌&&◌, ◌-◌, leb, Option, none, some,
  List, [], ◌∷◌, ◌++◌, arith, Bytes, bytes_eq, ◌==◌, any, length, length-append, if◌then◌else◌,
  Bool-cases, inl, inr, zero, suc,
}
use stroemnet.Common.Dict.{Dict}
use mathlib.Core.List.{append_assoc, append-nil}
use stroemnet.Kaspa.Intake.{RpcBlock, Sender, send, drain, unconfirmed, flush_loop}

abbrev pub values : Dict Bytes RpcBlock → List RpcBlock
values [] = []
values ((hash, block) ∷ blocks) = block ∷ values blocks

-- The hash of the last block, or `cursor` if there is none.
abbrev pub cursor_after : Option Bytes → Dict Bytes RpcBlock → Option Bytes
cursor_after cursor [] = cursor
cursor_after cursor ((hash, block) ∷ blocks) = cursor_after (some hash) blocks

drain-open :
    (blocks sent : List RpcBlock) (takes : ℕ)
    → length blocks ≤ takes
    → let drained = drain blocks (record { sent = sent; takes = takes }) in
      (drained.1 ≡ true)
      × (drained.0.sent ≡ sent ++ blocks)
      × (drained.0.takes + length blocks ≡ takes)
unfolding drain send
drain-open [] sent takes h = (refl, sym (append-nil sent), omega arith)
drain-open (block ∷ blocks) sent zero h = absurd (omega arith)
drain-open (block ∷ blocks) sent (suc n) h =
    let (all, out, left) = drain-open blocks (sent ++ (block ∷ [])) n (omega arith) in
    (all, out ∙ append_assoc sent (block ∷ []) blocks, omega (arith, left))

module _ (removed chain_blocks : List Bytes) (virtual_daa threshold : ℕ) where
  -- Whether a block still belongs to the DAG and is old enough.
  abbrev pub deep : Bytes → RpcBlock → Bool
  deep hash block =
      not (any (λ h. hash == h) removed) && leb threshold (virtual_daa - block.daa_score)

  deep-unconfirmed :
      (hash : Bytes) (block : RpcBlock)
      → deep hash block ≡ not (unconfirmed removed hash block.daa_score virtual_daa threshold)
  unfolding unconfirmed
  deep-unconfirmed hash block = ground arith

  -- The blocks before the first one that is not deep.
  unfoldable pub confirmed : Dict Bytes RpcBlock → Dict Bytes RpcBlock
  confirmed [] = []
  confirmed ((hash, block) ∷ blocks) =
      if deep hash block then (hash, block) ∷ confirmed blocks else []

  -- A block before others that are kept is kept, and so is one on the chain.
  abbrev pub keep : Bytes → RpcBlock → Dict Bytes RpcBlock → Dict Bytes RpcBlock
  keep hash block [] = if any (λ h. hash == h) chain_blocks then (hash, block) ∷ [] else []
  keep hash block (e ∷ es) = (hash, block) ∷ e ∷ es

  -- The blocks up to the last one that lies on the chain.
  unfoldable pub up_to_chain : Dict Bytes RpcBlock → Dict Bytes RpcBlock
  up_to_chain [] = []
  up_to_chain ((hash, block) ∷ blocks) = keep hash block (up_to_chain blocks)

  abbrev pub settled : Dict Bytes RpcBlock → Dict Bytes RpcBlock
  settled pending = up_to_chain (confirmed pending)

  -- What goes out with the blocks of the buffer ahead: nothing where no block is settled.
  abbrev pub ahead : List RpcBlock → Dict Bytes RpcBlock → List RpcBlock
  ahead buffer [] = []
  ahead buffer (e ∷ es) = buffer ++ values (e ∷ es)

  module _ (hash : Bytes) (block : RpcBlock) (pending : Dict Bytes RpcBlock)
      (buffer : List RpcBlock) (s : Sender) (cursor : Option Bytes) where
    abbrev pub shallow : Bool
    shallow = unconfirmed removed hash block.daa_score virtual_daa threshold

    abbrev pub on_chain : Bool
    on_chain = any (λ h. hash == h) chain_blocks

    abbrev pub loop :
        Dict Bytes RpcBlock → List RpcBlock → Sender → Option Bytes → Sender × Option Bytes
    loop = flush_loop removed chain_blocks virtual_daa threshold

    pub loop-shallow : shallow ≡ true → loop ((hash, block) ∷ pending) buffer s cursor ≡ (s, cursor)
    unfolding flush_loop
    loop-shallow h = rw (flush_loop, h) refl

    pub loop-aside :
        shallow ≡ false
        → on_chain ≡ false
        → loop ((hash, block) ∷ pending) buffer s cursor
          ≡ loop pending (buffer ++ (block ∷ [])) s cursor
    unfolding flush_loop
    loop-aside h g = rw (flush_loop, h, g) refl

    pub loop-on_chain :
        shallow ≡ false
        → on_chain ≡ true
        → (drain (buffer ++ (block ∷ [])) s).1 ≡ true
        → loop ((hash, block) ∷ pending) buffer s cursor
          ≡ loop pending [] (drain (buffer ++ (block ∷ [])) s).0 (some hash)
    unfolding flush_loop
    loop-on_chain h g d = rw (flush_loop, h, g, d) refl

    settled-shallow : shallow ≡ true → settled ((hash, block) ∷ pending) ≡ []
    unfolding confirmed up_to_chain
    settled-shallow h = rw (confirmed, deep-unconfirmed hash block, h) refl

    settled-deep :
        shallow ≡ false → settled ((hash, block) ∷ pending) ≡ keep hash block (settled pending)
    unfolding confirmed up_to_chain
    settled-deep h = rw (confirmed, deep-unconfirmed hash block, h) refl

  keep-ahead :
      (hash : Bytes) (block : RpcBlock) (buffer : List RpcBlock) (kept : Dict Bytes RpcBlock)
      → any (λ h. hash == h) chain_blocks ≡ false
      → (ahead (buffer ++ (block ∷ [])) kept ≡ ahead buffer (keep hash block kept))
        × ((cursor : Option Bytes)
            → cursor_after cursor kept ≡ cursor_after cursor (keep hash block kept))
  keep-ahead hash block buffer [] h = rw h (refl, λ cursor. refl)
  keep-ahead hash block buffer (e ∷ es) h =
      (append_assoc buffer (block ∷ []) (values (e ∷ es)), λ cursor. refl)

  keep-on_chain :
      (hash : Bytes) (block : RpcBlock) (kept : Dict Bytes RpcBlock)
      → any (λ h. hash == h) chain_blocks ≡ true
      → keep hash block kept ≡ (hash, block) ∷ kept
  keep-on_chain hash block [] h = rw h refl
  keep-on_chain hash block (e ∷ es) h = refl

  pub ahead-empty : (kept : Dict Bytes RpcBlock) → ahead [] kept ≡ values kept
  ahead-empty [] = refl
  ahead-empty (e ∷ es) = refl

  -- What the loop leaves, where `kept` are the blocks that it hands on.
  record Flushes (flushed : Sender × Option Bytes) (buffer : List RpcBlock) (s : Sender)
      (cursor : Option Bytes) (kept : Dict Bytes RpcBlock) : Type 0 where
    pub out : flushed.0.sent ≡ s.sent ++ ahead buffer kept
    pub at : flushed.1 ≡ cursor_after cursor kept
    pub left : flushed.0.takes + length (ahead buffer kept) ≡ s.takes

  flush_loop-Flushes :
      (pending : Dict Bytes RpcBlock) (buffer : List RpcBlock) (s : Sender) (cursor : Option Bytes)
      → length buffer + length pending ≤ s.takes
      → Flushes
          (flush_loop removed chain_blocks virtual_daa threshold pending buffer s cursor)
          buffer
          s
          cursor
          (settled pending)
  unfolding flush_loop confirmed up_to_chain
  flush_loop-Flushes [] buffer s cursor h = record {
    out = sym (append-nil s.sent);
    at = refl;
    left = omega arith;
  }
  flush_loop-Flushes ((hash, block) ∷ pending) buffer s cursor h =
      elim (Bool-cases (shallow hash block pending buffer s cursor)) [
        | inl up ↦
            rw
              (
                loop-shallow hash block pending buffer s cursor up,
                settled-shallow hash block pending buffer s cursor up,
              )
              (record { out = sym (append-nil s.sent); at = refl; left = omega arith })
        | inr down ↦ elim (Bool-cases (on_chain hash block pending buffer s cursor)) [
          | inr off ↦
              let ih =
                flush_loop-Flushes pending (buffer ++ (block ∷ [])) s cursor
                  (omega (arith, length-append buffer (block ∷ []))) in
              let (same, at) = keep-ahead hash block buffer (settled pending) off in
              rw
                (
                  loop-aside hash block pending buffer s cursor down off,
                  settled-deep hash block pending buffer s cursor down,
                )
                (record {
                  out = ih.out ∙ ap (λ bs. s.sent ++ bs) same;
                  at = ih.at ∙ at cursor;
                  left = omega (arith, ih.left, ap length same);
                })
          | inl on ↦
              let blocks = buffer ++ (block ∷ []) in
              let (all, out, left) =
                drain-open blocks s.sent s.takes
                  (omega (arith, length-append buffer (block ∷ []))) in
              let s' = (drain blocks s).0 in
              let rest = values (settled pending) in
              let ih =
                flush_loop-Flushes pending [] s' (some hash)
                  (omega (arith, left, length-append buffer (block ∷ []))) in
              rw
                (
                  loop-on_chain hash block pending buffer s cursor down on all,
                  settled-deep hash block pending buffer s cursor down,
                  keep-on_chain hash block (settled pending) on,
                )
                (record {
                  out =
                      ih.out
                      ∙ (ap (λ bs. s'.sent ++ bs) (ahead-empty (settled pending))
                          ∙ (ap (λ bs. bs ++ rest) out
                              ∙ (append_assoc s.sent blocks rest
                                  ∙ ap (λ bs. s.sent ++ bs)
                                      (append_assoc buffer (block ∷ []) rest))));
                  at = ih.at;
                  left = omega (
                    arith,
                    ih.left,
                    left,
                    ap length (ahead-empty (settled pending)),
                    length-append blocks rest,
                    ap length (append_assoc buffer (block ∷ []) rest),
                  );
                })
        ]
      ]

  -- A flush whose receiver stays open hands on, in the order of their arrival, exactly the blocks up to
  -- the last chain block before the first block that is removed or not deep enough, and the cursor is
  -- the hash of the last block that it has handed on, or stays where none is.
  pub flush_loop-settled :
      (pending : Dict Bytes RpcBlock) (s : Sender)
      → length pending ≤ s.takes
      → let flushed = flush_loop removed chain_blocks virtual_daa threshold pending [] s none in
        (flushed.0.sent ≡ s.sent ++ values (settled pending))
        × (flushed.1 ≡ cursor_after none (settled pending))
        × (flushed.0.takes + length (values (settled pending)) ≡ s.takes)
  flush_loop-settled pending s h =
      let f = flush_loop-Flushes pending [] s none (omega (arith, h)) in
      (
        f.out ∙ ap (λ bs. s.sent ++ bs) (ahead-empty (settled pending)),
        f.at,
        omega (arith, f.left, ap length (ahead-empty (settled pending))),
      )
