-- ===== src/Chains/Pending.antt =====
-- chains/mod.rs: the lists of pending claims and refunds that both chains keep.
use stroemnet.Common.{
  ℕ, Bool, true, false, not, ◌&&◌, ◌==◌, if◌then◌else◌, List, [], ◌∷◌, ◌++◌, Bytes, bytes_eq, any,
  retain,
}
use stroemnet.Protocol.V1.{RevealV1, RefundV1, ChainEvent, commitment, reveal, refund}

abbrev pub is_refund_of : Bytes → RefundV1 × ℕ → Bool
is_refund_of id (r, unlock) = r.swap_id == id

abbrev pub is_claim_of : Bytes → RevealV1 → Bool
is_claim_of id c = c.swap_id == id

unfoldable pub queue_dequeue_refund_event :
    List (RefundV1 × ℕ) → ChainEvent → Bool → List (RefundV1 × ℕ)
queue_dequeue_refund_event pending (commitment c) participate_ccr =
    if participate_ccr && not (any (is_refund_of c.swap_id) pending)
    then pending ++ (record { swap_id = c.swap_id }, c.unlock_ts) ∷ []
    else pending
queue_dequeue_refund_event pending (reveal r) participate_ccr =
    retain (λ p. not (is_refund_of r.swap_id p)) pending
queue_dequeue_refund_event pending (refund r) participate_ccr =
    retain (λ p. not (is_refund_of r.swap_id p)) pending

unfoldable pub event_swap_id : ChainEvent → Bytes
event_swap_id (commitment c) = c.swap_id
event_swap_id (reveal r) = r.swap_id
event_swap_id (refund r) = r.swap_id

unfoldable pub push_pending_claim : List RevealV1 → RevealV1 → List RevealV1
push_pending_claim pending r =
    if not (any (is_claim_of r.swap_id) pending) then pending ++ r ∷ [] else pending

-- The Boolean says whether the refund is new.
unfoldable pub push_pending_refund : List (RefundV1 × ℕ) → Bytes → ℕ → List (RefundV1 × ℕ) × Bool
push_pending_refund pending swap_id unlock =
    if any (is_refund_of swap_id) pending
    then (pending, false)
    else (pending ++ (record { swap_id = swap_id }, unlock) ∷ [], true)
