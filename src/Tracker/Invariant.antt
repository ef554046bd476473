-- ===== src/Tracker/Invariant.antt =====
-- About the records of swap_tracker: an invariant, and the writes of the operations.
use stroemnet.Common.{
  ℕ, ◌≡◌, refl, inl, inr, Option, none, some, arith, Bytes, ◌==◌, bytes_eq, Bool-cases,
}
use stroemnet.Protocol.V1.{CommitmentV1}
use stroemnet.Tracker.Record.{SwapRecord, SwapTracker, Crypto, get_swap, refunded_text}
use stroemnet.Tracker.History.{Mirrors, Writes, fresh_record}

-- What a resolution may be: nothing, a refund, or a secret that opens the hash lock.
pub data Outcome (k : Crypto) (hash : Bytes) : Option Bytes → Type 0 where
  unresolved : Outcome k hash none
  refunded : Outcome k hash (some refunded_text)
  revealed : (secret : Bytes) → k.sha256 secret ≡ hash → Outcome k hash (some (k.hex_encode secret))

pub record IsSound (k : Crypto) (r : SwapRecord) : Type 0 where
  pub mirrored : (c : CommitmentV1) → r.counter_commitment ≡ some c → Mirrors r.init_commitment c
  pub locked_first : r.counter_commitment ≡ none → r.resolution ≡ none
  pub outcome : Outcome k r.init_commitment.secret_hash r.resolution

abbrev pub AllSound : Crypto → SwapTracker → Type 0
AllSound k t = (id : Bytes) (r : SwapRecord) → get_swap t id ≡ some r → IsSound k r

pub fresh_record-IsSound :
    (k : Crypto) (now : ℕ) (c : CommitmentV1) → IsSound k (fresh_record now c)
fresh_record-IsSound k now c = record {
  mirrored = λ d h. cc;
  locked_first = λ h. refl;
  outcome = unresolved;
}

Outcome-none : (k : Crypto) (hash : Bytes) (o : Option Bytes) → o ≡ none → Outcome k hash o
Outcome-none k hash o h = rw h unresolved

pub counter-IsSound :
    (k : Crypto) (r : SwapRecord) (c : CommitmentV1)
    → r.resolution ≡ none
    → Mirrors r.init_commitment c
    → IsSound k (record r { counter_commitment = some c })
counter-IsSound k r c h m = record {
  mirrored = λ d e. rw (← some_inj c d e) m;
  locked_first = λ e. h;
  outcome = Outcome-none k r.init_commitment.secret_hash r.resolution h;
}
  where
    some_inj : (a b : CommitmentV1) → ◌≡◌ {A = Option CommitmentV1} (some a) (some b) → a ≡ b
    some_inj a b e = cc

pub resolved-IsSound :
    (k : Crypto) (r : SwapRecord) (c : CommitmentV1) (text : Bytes)
    → IsSound k r
    → r.counter_commitment ≡ some c
    → Outcome k r.init_commitment.secret_hash (some text)
    → IsSound k (record r { resolution = some text })
resolved-IsSound k r c text s locked o = record {
  mirrored = s.mirrored;
  locked_first = λ e. cc;
  outcome = o;
}

-- A write of a sound record keeps the others.
pub Writes-AllSound :
    (k : Crypto) (t t' : SwapTracker) (id : Bytes) (r : SwapRecord)
    → AllSound k t
    → IsSound k r
    → Writes t id r t'
    → AllSound k t'
Writes-AllSound k t t' id r all s w j q h = elim (Bool-cases (j == id)) [
  | inl e ↦ rw (← some_inj r q (ground (arith, w j))) s
  | inr e ↦ all j q (ground (arith, w j))
]
  where
    some_inj : (a b : SwapRecord) → ◌≡◌ {A = Option SwapRecord} (some a) (some b) → a ≡ b
    some_inj a b e = cc
