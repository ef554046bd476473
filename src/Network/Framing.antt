-- ===== src/Network/Framing.antt =====
-- p2p/src/identity.rs: the bytes that proposal_digest hashes determine the proposal.
use stroemnet.Common.{
  ℕ, zero, suc, ◌/◌, ◌<◌, ◌≡◌, ◌≢◌, ◌⊎◌, inl, inr, refl, sym, ap, ◌∙◌, [], ◌∷◌, ◌++◌, arith, Bytes,
  codes, length, le_bytes, le_value, le_value-le_bytes, u64_mod, list_beq, list_beq_iff, Bool-cases,
  bytes_eq,
}
use stroemnet.Network.Digest.{Proposal, framed, preimage, proposal_digest}

append-split :
    (xs ys as_ bs : Bytes) → length xs ≡ length ys → xs ++ as_ ≡ ys ++ bs → (xs ≡ ys) × (as_ ≡ bs)
append-split [] [] as_ bs h e = (refl, e)
append-split [] (y ∷ ys) as_ bs h e = absurd (ground arith)
append-split (x ∷ xs) [] as_ bs h e = absurd (ground arith)
append-split (x ∷ xs) (y ∷ ys) as_ bs h e =
    let (same, rest) = append-split xs ys as_ bs (omega arith) cc in (cc, rest)

length-le_bytes : (count n : ℕ) → length (le_bytes count n) ≡ count
length-le_bytes zero n = refl
length-le_bytes (suc count) n = ap suc (length-le_bytes count (n / 256))

le_bytes-injective : (m n : ℕ) → m < u64_mod → n < u64_mod → le_bytes 8 m ≡ le_bytes 8 n → m ≡ n
le_bytes-injective m n hm hn bytes =
    sym (le_value-le_bytes 8 m (omega arith))
    ∙ ap le_value bytes
    ∙ le_value-le_bytes 8 n (omega arith)

le_bytes-split :
    (m n : ℕ) (xs ys : Bytes)
    → m < u64_mod
    → n < u64_mod
    → le_bytes 8 m ++ xs ≡ le_bytes 8 n ++ ys
    → (m ≡ n) × (xs ≡ ys)
le_bytes-split m n xs ys hm hn e =
    let (bytes, rest) =
      append-split (le_bytes 8 m) (le_bytes 8 n) xs ys
        (length-le_bytes 8 m ∙ sym (length-le_bytes 8 n)) e in
    (le_bytes-injective m n hm hn bytes, rest)

framed-split :
    (a b xs ys : Bytes)
    → length a < u64_mod
    → length b < u64_mod
    → framed a ++ xs ≡ framed b ++ ys
    → (a ≡ b) × (xs ≡ ys)
unfolding framed
framed-split a b xs ys ha hb e =
    let (sizes, rest) = le_bytes-split (length a) (length b) (a ++ xs) (b ++ ys) ha hb e in
    append-split a b xs ys sizes rest

-- What the types of the arguments say: a 32-byte id, lengths and numbers of 64 bits.
pub record IsTyped (p : Proposal) : Type 0 where
  pub id : length p.swap_id ≡ 32
  pub paid : length p.amount_in < u64_mod
  pub received : length p.amount_out < u64_mod
  pub sender : length p.sender_destination_address < u64_mod
  pub lp : length p.lp_sender_address < u64_mod
  pub offset : p.commit_unlock_offset_secs < u64_mod
  pub depth : p.lp_block_confirmations < u64_mod

preimage-injective : (p q : Proposal) → IsTyped p → IsTyped q → preimage p ≡ preimage q → p ≡ q
unfolding preimage
preimage-injective p q hp hq e =
    let (tag, e0) =
      append-split (codes "stroemnet:proposal:v3") (codes "stroemnet:proposal:v3") _ _ refl e in
    let (id, e1) = append-split p.swap_id q.swap_id _ _ (hp.id ∙ sym hq.id) e0 in
    let (channels, e2) =
      append-split (p.origin ∷ p.destination ∷ []) (q.origin ∷ q.destination ∷ []) _ _ refl e1 in
    let (paid, e3) = framed-split p.amount_in q.amount_in _ _ hp.paid hq.paid e2 in
    let (received, e4) = framed-split p.amount_out q.amount_out _ _ hp.received hq.received e3 in
    let (sender, e5) =
      framed-split p.sender_destination_address q.sender_destination_address _ _ hp.sender hq.sender
        e4 in
    let (lp, e6) = framed-split p.lp_sender_address q.lp_sender_address _ _ hp.lp hq.lp e5 in
    let (offset, e7) =
      le_bytes-split p.commit_unlock_offset_secs q.commit_unlock_offset_secs _ _ hp.offset hq.offset
        e6 in
    let depth =
      le_bytes-injective p.lp_block_confirmations q.lp_block_confirmations hp.depth hq.depth e7 in
    cc

-- Two proposals with the same digest are the same proposal, or else they show two different byte
-- strings that the hash takes to one: no other reading of the fields' boundaries gives the same bytes.
pub proposal_digest-injective :
    (sha256 : Bytes → Bytes) (p q : Proposal)
    → IsTyped p
    → IsTyped q
    → proposal_digest sha256 p ≡ proposal_digest sha256 q
    → (p ≡ q) ⊎ ((x : Bytes) × (y : Bytes) × (x ≢ y) × (sha256 x ≡ sha256 y))
unfolding proposal_digest
proposal_digest-injective sha256 p q hp hq e =
    elim (Bool-cases (list_beq (preimage p) (preimage q))) [
      | inl same ↦
          inl (preimage-injective p q hp hq ((list_beq_iff (preimage p) (preimage q)).0 same))
      | inr apart ↦
          inr (preimage p, preimage q, ground (arith, list_beq_iff (preimage p) (preimage q)), e)
    ]
