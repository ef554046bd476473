-- ===== src/Chains/Coverage.antt =====
-- chains/evm/finality.rs: the blocks that a sequence of polls delivers.
use mathlib.Core.List.{append_assoc}
use stroemnet.Common.{
  ℕ, zero, suc, ◌+◌, ◌-◌, ◌*◌, ◌^◌, ◌≤◌, ◌<◌, ◌≡◌, refl, sym, ap, ◌∙◌, min, max, Option, some, List,
  [], ◌∷◌, ◌++◌, arith, leb, sat_add64, Bytes, Bool-cases, Option-cases, inl, inr,
}
use stroemnet.Chains.Polling.{
  PollState, Htlc, Filter, filter_of, confirmed_end, next_range, advance, poll_once,
}

-- A range to fetch starts at the cursor, is not empty, holds at most the allowed number of blocks (one
-- at least is allowed), and each of its blocks has the asked confirmations below the head.
next_range-bounds :
    (st : PollState) (head confirmations max_blocks first last : ℕ)
    → next_range st head confirmations max_blocks ≡ some (first, last)
    → (first ≡ st.cursor)
      × (first < last)
      × (last - first ≤ max max_blocks 1)
      × (last + confirmations ≤ head + 1)
unfolding next_range
next_range-bounds st head confirmations max_blocks first last h = ground arith

unfoldable pub repeat : ℕ → (PollState → PollState) → PollState → PollState
repeat zero f st = st
repeat (suc n) f st = repeat n f (f st)

module _ {Log : Type 0} (chain : ℕ → List Log) where
  -- The logs of `count` blocks from `first` on.
  pub span : ℕ → ℕ → List Log
  span first zero = []
  span first (suc count) = chain first ++ span (first + 1) count

  span-append : (first a b : ℕ) → span first (a + b) ≡ span first a ++ span (first + a) b
  unfolding span
  span-append first zero b =
      let same : first + 0 ≡ first = omega arith in
      let drop : 0 + b ≡ b = omega arith in rw (same, drop) refl
  span-append first (suc a) b =
      let next : suc a + b ≡ suc (a + b) = omega arith in
      let later : first + suc a ≡ first + 1 + a = omega arith in
      rw (next, later)
        (ap (λ (logs : List Log). chain first ++ logs) (span-append (first + 1) a b)
          ∙ sym (append_assoc (chain first) (span (first + 1) a) (span (first + 1 + a) b)))

  span-join : (a b c : ℕ) → a ≤ b → b ≤ c → span a (b - a) ++ span b (c - b) ≡ span a (c - a)
  span-join a b c low high =
      let whole : c - a ≡ (b - a) + (c - b) = omega arith in
      let middle : a + (b - a) ≡ b = omega arith in
      rw whole (sym (rw middle at (span-append a (b - a) (c - b))))

  span-empty : (first : ℕ) → [] ≡ span first (first - first)
  unfolding span
  span-empty first = let nothing : first - first ≡ 0 = omega arith in rw nothing refl

module _ {Log : Type 0} (logged : Bytes → List Bytes → ℕ → List Log) where
  -- eth_getLogs answers with the logs of the blocks from the first to the last of the filter, both
  -- inclusive, that are of the address and one of the events, or not at all.
  abbrev pub Honest : (Filter → Option (List Log)) → Type 0
  Honest get_logs =
      (f : Filter) (logs : List Log)
      → f.from_block ≤ f.to_block
      → get_logs f ≡ some logs
      → logs ≡ span (logged f.address f.events) f.from_block (f.to_block + 1 - f.from_block)

  -- The answers that one poll gets.
  pub record Answers : Type 0 where
    pub head : Option ℕ
    pub get_logs : Filter → Option (List Log)
    pub honest : Honest get_logs

  module _ (htlc : Htlc) where
    -- The logs of a block that are of the contract and one of its three events.
    abbrev pub contract_logs : ℕ → List Log
    contract_logs = logged htlc.address (htlc.commitment ∷ htlc.claim ∷ htlc.refund ∷ [])

    -- Polls one after the other, from the cursor that the last one left, and all that they deliver.
    unfoldable pub run_polls :
        (confirmations max_blocks : ℕ) → List Answers → PollState → PollState × List Log
    run_polls confirmations max_blocks [] st = (st, [])
    run_polls confirmations max_blocks (a ∷ answers) st =
        let now = poll_once a.head a.get_logs htlc confirmations max_blocks st in
        let later = run_polls confirmations max_blocks answers now.0 in (later.0, now.1 ++ later.1)

    poll_once-span :
        (a : Answers) (confirmations max_blocks : ℕ) (st : PollState)
        → let now = poll_once a.head a.get_logs htlc confirmations max_blocks st in
          (st.cursor ≤ now.0.cursor)
          × (now.1 ≡ span contract_logs st.cursor (now.0.cursor - st.cursor))
    unfolding poll_once advance
    poll_once-span a confirmations max_blocks st = elim (Option-cases a.head) [
      | inl e ↦ rw (poll_once, e) (omega arith, span-empty contract_logs st.cursor)
      | inr (head, e) ↦ elim (Option-cases (next_range st head confirmations max_blocks)) [
        | inl e2 ↦ rw (poll_once, e, e2) (omega arith, span-empty contract_logs st.cursor)
        | inr ((first, last), e2) ↦
            let asked = filter_of htlc first last in
            let (starts, grows, narrow, deep) =
              next_range-bounds st head confirmations max_blocks first last e2 in
            elim (Option-cases (a.get_logs asked)) [
              | inl e3 ↦ rw (poll_once, e, e2, e3) (omega arith, span-empty contract_logs st.cursor)
              | inr (logs, e3) ↦
                  let inclusive : last - 1 + 1 - first ≡ last - first = omega arith in
                  let found : logs ≡ span contract_logs first (last - first) =
                    rw inclusive at (a.honest asked logs (omega arith) e3) in
                  rw (poll_once, e, e2, e3) (omega arith, found ∙ rw starts refl)
            ]
      ]
    ]

    -- However many of the answers are missing, a sequence of polls delivers the contract's logs of the
    -- three events in every block from the first cursor up to the last one once and in order, and the
    -- cursor never moves back; eth_getLogs answers either with the logs that its filter describes, whose
    -- last block is inclusive, or not at all.
    pub run_polls-span :
        (confirmations max_blocks : ℕ) (answers : List Answers) (st : PollState)
        → let result = run_polls confirmations max_blocks answers st in
          (st.cursor ≤ result.0.cursor)
          × (result.1 ≡ span contract_logs st.cursor (result.0.cursor - st.cursor))
    unfolding run_polls
    run_polls-span confirmations max_blocks [] st =
        (omega arith, span-empty contract_logs st.cursor)
    run_polls-span confirmations max_blocks (a ∷ answers) st =
        let now = poll_once a.head a.get_logs htlc confirmations max_blocks st in
        let later = run_polls confirmations max_blocks answers now.0 in
        let (up, first) = poll_once-span a confirmations max_blocks st in
        let (more, rest) = run_polls-span confirmations max_blocks answers now.0 in
        (
          omega arith,
          ap (λ (logs : List Log). logs ++ later.1) first
              ∙ ap
                  (λ (logs : List Log).
                    span contract_logs st.cursor (now.0.cursor - st.cursor) ++ logs)
                  rest
              ∙ span-join contract_logs st.cursor now.0.cursor later.0.cursor up more,
        )

suc_times : (n m : ℕ) → suc n * m ≡ m + n * m
suc_times n m = grind arith

one_poll :
    {Log : Type 0} (get_logs : Filter → Option (List Log)) (htlc : Htlc)
    (head confirmations max_blocks last : ℕ) (st : PollState)
    → ((f : Filter) → (logs : List Log) × (get_logs f ≡ some logs))
    → head < 2 ^ 63
    → max_blocks < 2 ^ 63
    → confirmed_end head confirmations ≡ some last
    → st.cursor ≤ last
    → (poll_once (some head) get_logs htlc confirmations max_blocks st).0.cursor
      ≡ min last (st.cursor + max max_blocks 1)
unfolding poll_once next_range advance
one_poll get_logs htlc head confirmations max_blocks last st answered h m e low =
    elim (Bool-cases (leb last st.cursor)) [
      | inl done ↦ rw (poll_once, next_range, e, done) (ground arith)
      | inr more ↦
          let (logs, there) =
            answered
              (filter_of htlc st.cursor (min last (sat_add64 st.cursor (max max_blocks 1)))) in
          rw (poll_once, next_range, e, more, there) (ground arith)
    ]

-- Where every call is answered and the head stays the same, `n` polls bring the cursor forward by up to
-- `n` times the allowed number of blocks, to the end of the confirmed blocks and not past it. The
-- head is below 2^63, and so is the number of blocks allowed.
pub catch_up :
    {Log : Type 0} (get_logs : Filter → Option (List Log)) (htlc : Htlc)
    (head confirmations max_blocks last n : ℕ) (st : PollState)
    → ((f : Filter) → (logs : List Log) × (get_logs f ≡ some logs))
    → head < 2 ^ 63
    → max_blocks < 2 ^ 63
    → confirmed_end head confirmations ≡ some last
    → st.cursor ≤ last
    → (repeat n
        (λ (s : PollState). (poll_once (some head) get_logs htlc confirmations max_blocks s).0)
        st).cursor
      ≡ min last (st.cursor + n * max max_blocks 1)
unfolding repeat
catch_up get_logs htlc head confirmations max_blocks last zero st answered h m e low = omega arith
catch_up get_logs htlc head confirmations max_blocks last (suc n) st answered h m e low =
    let step = one_poll get_logs htlc head confirmations max_blocks last st answered h m e low in
    let next = (poll_once (some head) get_logs htlc confirmations max_blocks st).0 in
    let rest =
      catch_up get_logs htlc head confirmations max_blocks last n next answered h m e
        (omega arith) in
    omega (arith, rest, step, suc_times n (max max_blocks 1))
