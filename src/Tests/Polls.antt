-- ===== src/Tests/Polls.antt =====
-- The theorems about the polling of an EVM chain at concrete inputs.
use stroemnet.Common.{
  ℕ, ◌+◌, ◌-◌, ◌*◌, ◌≤◌, ◌≡◌, refl, min, max, Option, none, some, List, [], ◌∷◌, arith, sym,
  some_inj, Bytes,
}
use stroemnet.Chains.Polling.{PollState, Htlc, Filter, poll_once}
use stroemnet.Chains.Coverage.{
  span, contract_logs, Answers, run_polls, run_polls-span, repeat, catch_up,
}

-- A chain whose block n holds one log, n, of every contract and event.
abbrev chain : Bytes → List Bytes → ℕ → List ℕ
chain address events n = n ∷ []

abbrev htlc : Htlc
htlc = record { address = 1 ∷ []; commitment = 2 ∷ []; claim = 3 ∷ []; refund = 4 ∷ [] }

abbrev logs_of : Filter → List ℕ
logs_of f = span (chain f.address f.events) f.from_block (f.to_block + 1 - f.from_block)

abbrev served : Option ℕ → Answers chain
served head = record {
  head = head;
  get_logs = λ f. some (logs_of f);
  honest = λ f logs ordered h. sym (some_inj h);
}

no_answer :
    {logs : List ℕ} {said : List ℕ} → ◌≡◌ {A = Option (List ℕ)} none (some logs) → logs ≡ said
no_answer h = absurd (ground arith)

abbrev silent : Answers chain
silent = record { head = some 30; get_logs = λ f. none; honest = λ f logs ordered h. no_answer h }

run_polls-span_example :
    let result =
      run_polls chain htlc 12 5
        (served (some 20) ∷ silent ∷ served none ∷ served (some 30) ∷ [])
        record { cursor = 3 } in
    (3 ≤ result.0.cursor) × (result.1 ≡ span (contract_logs chain htlc) 3 (result.0.cursor - 3))
run_polls-span_example =
    run_polls-span chain htlc 12 5 (served (some 20) ∷ silent ∷ served none ∷ served (some 30) ∷ [])
      record { cursor = 3 }

catch_up_example :
    (repeat 4
      (λ (s : PollState). (poll_once (some 40) (λ f. some (logs_of f)) htlc 12 6 s).0)
      record { cursor = 3 }).cursor
    ≡ min 29 (3 + 4 * max 6 1)
catch_up_example =
    catch_up (λ f. some (logs_of f)) htlc 40 12 6 29 4 record { cursor = 3 }
      (λ f. (logs_of f, refl)) (omega arith) (omega arith) refl (omega arith)
