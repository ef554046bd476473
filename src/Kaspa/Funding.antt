-- ===== src/Kaspa/Funding.antt =====
-- chains/kaspa/broadcast/utxo.rs: the coins that pay for a transaction.
use stroemnet.Common.{
  ℕ, ◌+◌, ◌%◌, ◌≤◌, ◌<◌, ◌≡◌, refl, ◌⊎◌, inl, inr, not, ◌||◌, Bool, true, false, List, [], ◌∷◌,
  ◌++◌, arith, Bytes, Result, ok, err, leb, ltb, leb→le, lt→ltb, u64_mod, if◌then◌else◌, Bool-cases,
}
use stroemnet.Kaspa.Ops.{KaspaError, insufficient_funds}

-- RpcUtxosByAddressesEntry, by the fields that the code reads.
pub record Utxo : Type 0 where
  pub transaction_id : Bytes
  pub index : ℕ
  pub amount : ℕ
  pub block_daa_score : ℕ
  pub is_coinbase : Bool

unfoldable pub utxo_is_mature : ℕ → ℕ → Utxo → Bool
utxo_is_mature coinbase_maturity current_daa utxo =
    not utxo.is_coinbase || leb ((utxo.block_daa_score + coinbase_maturity) % u64_mod) current_daa

-- The loop of select_funding_utxos, with what it has selected and its total.
unfoldable pub select_from : List Utxo → ℕ → (Utxo → Bool) → List Utxo → ℕ → List Utxo × ℕ
select_from [] amount mature selected total = (selected, total)
select_from (utxo ∷ utxos) amount mature selected total = elim (mature utxo) [
  | false ↦ select_from utxos amount mature selected total
  | true ↦
      let sum = (total + utxo.amount) % u64_mod in
      elim (leb amount sum) [
        | true ↦ (selected ++ (utxo ∷ []), sum)
        | false ↦ select_from utxos amount mature (selected ++ (utxo ∷ [])) sum
      ]
]

unfoldable pub select_funding_utxos : List Utxo → ℕ → ℕ → ℕ → Result KaspaError (List Utxo × ℕ)
select_funding_utxos utxos amount coinbase_maturity current_daa =
    let found = select_from utxos amount (utxo_is_mature coinbase_maturity current_daa) [] 0 in
    if ltb found.1 amount then err (insufficient_funds amount found.1) else ok found

unfoldable pub total_of : (Utxo → Bool) → List Utxo → ℕ
total_of mature [] = 0
total_of mature (utxo ∷ utxos) = (if mature utxo then utxo.amount else 0) + total_of mature utxos

unfoldable pub sum_of : List Utxo → ℕ
sum_of [] = 0
sum_of (utxo ∷ utxos) = utxo.amount + sum_of utxos

sum_of-append : (xs ys : List Utxo) → sum_of (xs ++ ys) ≡ sum_of xs + sum_of ys
unfolding sum_of
sum_of-append [] ys = omega arith
sum_of-append (x ∷ xs) ys = omega (arith, sum_of-append xs ys)

sum_of-append-one : (xs : List Utxo) (y : Utxo) → sum_of (xs ++ (y ∷ [])) ≡ sum_of xs + y.amount
unfolding sum_of
sum_of-append-one xs y = omega (arith, sum_of-append xs (y ∷ []))

-- All coins of the list that may be spent.
abbrev pub AllMature : (Utxo → Bool) → List Utxo → Type 0
AllMature mature [] = Unit
AllMature mature (utxo ∷ utxos) = (mature utxo ≡ true) × AllMature mature utxos

AllMature-append :
    (mature : Utxo → Bool) (xs : List Utxo) (y : Utxo)
    → AllMature mature xs
    → mature y ≡ true
    → AllMature mature (xs ++ (y ∷ []))
AllMature-append mature [] y h e = (e, tt)
AllMature-append mature (x ∷ xs) y (first, h) e = (first, AllMature-append mature xs y h e)

-- What the loop leaves: the sum of mature coins, at the amount or above it where all of them reach it,
-- and all of them where they do not.
abbrev Selected : (Utxo → Bool) → ℕ → ℕ → List Utxo × ℕ → Type 0
Selected mature amount available found =
    (sum_of found.0 ≡ found.1)
    × AllMature mature found.0
    × (((amount ≤ found.1) × (found.1 ≤ available))
        ⊎ ((found.1 ≡ available) × (available < amount)))

select_from-Selected :
    (utxos : List Utxo) (amount : ℕ) (mature : Utxo → Bool) (selected : List Utxo) (total : ℕ)
    → sum_of selected ≡ total
    → AllMature mature selected
    → total < amount
    → total + total_of mature utxos < u64_mod
    → Selected mature amount
        (total + total_of mature utxos)
        (select_from utxos amount mature selected total)
unfolding select_from total_of
select_from-Selected [] amount mature selected total e all low room =
    (e, all, inr (omega arith, omega arith))
select_from-Selected (utxo ∷ utxos) amount mature selected total e all low room =
    elim (Bool-cases (mature utxo)) [
      | inr unripe ↦
          let room2 : total + (0 + total_of mature utxos) < u64_mod = rw unripe at room in
          let drop : total + (0 + total_of mature utxos) ≡ total + total_of mature utxos =
            omega arith in
          rw (select_from, unripe, drop)
            (select_from-Selected utxos amount mature selected total e all low (omega arith))
      | inl ripe ↦
          let inside : total + (utxo.amount + total_of mature utxos) < u64_mod = rw ripe at room in
          let sum : (total + utxo.amount) % u64_mod ≡ total + utxo.amount = omega arith in
          let more = sum_of-append-one selected utxo in
          let all_more = AllMature-append mature selected utxo all ripe in
          let rest = total_of mature utxos in
          let whole : (total + utxo.amount) % u64_mod + rest ≡ total + (utxo.amount + rest) =
            omega arith in
          elim (Bool-cases (leb amount ((total + utxo.amount) % u64_mod))) [
            | inl reached ↦
                rw (select_from, ripe, reached)
                  (omega (arith, more), all_more, inl (leb→le amount _ reached, omega arith))
            | inr short ↦
                let later =
                  select_from-Selected utxos amount mature (selected ++ (utxo ∷ []))
                    ((total + utxo.amount) % u64_mod) (omega (arith, more)) all_more (ground arith)
                    (omega arith) in
                rw (select_from, ripe, short) (rw whole at later)
          ]
    ]

le-ltb : {a b : ℕ} → a ≤ b → ltb b a ≡ false
le-ltb h = ground arith

-- Which coins may be spent: those that are not of a coinbase, and of a coinbase those whose block lies the
-- maturity below the current score, a sum that wraps around at 64 bits.
unfoldable pub may_spend : ℕ → ℕ → Utxo → Bool
may_spend coinbase_maturity current_daa utxo =
    if utxo.is_coinbase
    then not (ltb current_daa ((utxo.block_daa_score + coinbase_maturity) % u64_mod))
    else true

same_test :
    (coinbase_maturity current_daa : ℕ) (utxo : Utxo)
    → utxo_is_mature coinbase_maturity current_daa utxo
      ≡ may_spend coinbase_maturity current_daa utxo
unfolding utxo_is_mature may_spend
same_test coinbase_maturity current_daa utxo = ground arith

utxo_is_mature-may_spend :
    (coinbase_maturity current_daa : ℕ)
    → utxo_is_mature coinbase_maturity current_daa ≡ may_spend coinbase_maturity current_daa
utxo_is_mature-may_spend coinbase_maturity current_daa =
    λ i. λ (utxo : Utxo). same_test coinbase_maturity current_daa utxo i

-- With the coins' amounts within 64 bits and an amount above zero to cover, select_funding_utxos
-- returns coins that may be spent, whose amounts sum to the total that it returns, a total that covers the amount,
-- exactly when the coins that may be spent together cover it; otherwise its error names their sum.
pub select_funding_utxos-total :
    (utxos : List Utxo) (amount coinbase_maturity current_daa : ℕ)
    → let mature = may_spend coinbase_maturity current_daa in
      0 < amount
      → total_of mature utxos < u64_mod
      → let result = select_funding_utxos utxos amount coinbase_maturity current_daa in
        ((selected : List Utxo) × (total : ℕ) × (amount ≤ total_of mature utxos)
          × (result ≡ ok (selected, total))
          × (sum_of selected ≡ total)
          × AllMature mature selected
          × (amount ≤ total))
        ⊎ ((total_of mature utxos < amount)
            × (result ≡ err (insufficient_funds amount (total_of mature utxos))))
unfolding select_funding_utxos sum_of
select_funding_utxos-total utxos amount coinbase_maturity current_daa some_needed room =
    let mature = may_spend coinbase_maturity current_daa in
    let same = utxo_is_mature-may_spend coinbase_maturity current_daa in
    let found = select_from-Selected utxos amount mature [] 0 refl tt some_needed (omega arith) in
    let result = select_from utxos amount mature [] 0 in
    let (sum, all, either) = found in
    elim either [
      | inl (reached, within) ↦
          inl (result.0, result.1, omega arith, rw (same, le-ltb reached) refl, sum, all, reached)
      | inr (everything, low) ↦
          let all_of_it : result.1 ≡ total_of mature utxos = omega arith in
          inr (
            omega arith,
            rw (same, all_of_it, lt→ltb (total_of mature utxos) amount (omega arith)) refl,
          )
    ]
