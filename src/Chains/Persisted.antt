-- ===== src/Chains/Persisted.antt =====
-- About persist_swap of chains/evm/persist.rs and a restart from its rows.
use stroemnet.Common.{
  ◌≡◌, refl, sym, ◌∙◌, ◌⊎◌, inl, inr, true, false, Option, none, some, ◌∷◌, arith, Bytes, bytes_eq,
  ◌==◌, beq_sound, beq_refl, ok, Bool-cases, Option-cases, some_inj,
}
use stroemnet.Common.Dict.{Dict, get, IsUnique, get-insert, get-remove}
use stroemnet.Common.Dict.Unique.{insert-IsUnique, remove-IsUnique}
use stroemnet.Records.Swap.{PersistedSwap, is_empty}
use stroemnet.Records.Codec.{Borsh, encode, decode, current, magic, version_1}
use stroemnet.Records.Keeping.{decode-encode, fields, row_fields, restore-fields}
use stroemnet.Records.Restore.{restore}
use stroemnet.Settlement.Queue.{claim_key, refund_key, attempt}
use stroemnet.Chains.Evm.{Evm, swap_record, save_row, persist_swap}

-- Borsh writes every record, and reads back what it has written.
abbrev pub Lossless : Borsh → Type 0
Lossless borsh =
    (p : PersistedSwap)
    → (body : Bytes) × (borsh.to_vec p ≡ ok body) × (borsh.try_from_slice body ≡ ok p)

module _ (borsh : Borsh) where
  -- The row of a swap is missing if the record is empty, and else decodes to the record.
  abbrev pub Holds : Option Bytes → PersistedSwap → Type 0
  Holds row p =
      ((is_empty p ≡ true) × (row ≡ none))
      ⊎ ((is_empty p ≡ false)
          × ((bytes : Bytes) × (row ≡ some bytes) × (decode borsh bytes ≡ current p)))

  -- The disk has the rows of the buffer, for every swap.
  abbrev pub IsSynced : Evm → Type 0
  IsSynced st =
      (rows : Dict Bytes Bytes) × (st.swap_store ≡ some rows)
      × IsUnique rows
      × ((id : Bytes) → Holds (get id rows) (swap_record st id))

  encodes : Lossless borsh → (p : PersistedSwap) → (bytes : Bytes) × (encode borsh p ≡ ok bytes)
  unfolding encode
  encodes law p = let (body, e, f) = law p in (magic ∷ version_1 ∷ body, rw (encode, e) refl)

  same_slice :
      Lossless borsh
      → (p : PersistedSwap) (body : Bytes) → borsh.to_vec p ≡ ok body
      → borsh.try_from_slice body ≡ ok p
  same_slice law p body e = let (other, f, g) = law p in ground arith

  save_row-Holds :
      Lossless borsh
      → (id : Bytes) (p : PersistedSwap) (rows : Dict Bytes Bytes)
      → Holds (get id (save_row borsh id p rows)) p
  unfolding save_row
  save_row-Holds law id p rows = elim (Bool-cases (is_empty p)) [
    | inl gone ↦ inl (gone, rw gone (get-remove id id rows ∙ (rw (beq_refl id) refl)))
    | inr left ↦
        let (bytes, e) = encodes law p in
        inr (
          left,
          (
            bytes,
            rw (left, e) (get-insert id id bytes rows ∙ (rw (beq_refl id) refl)),
            decode-encode borsh p bytes (same_slice law p) e,
          ),
        )
  ]

  save_row-ne :
      Lossless borsh
      → (id j : Bytes) (p : PersistedSwap) (rows : Dict Bytes Bytes) → (j == id) ≡ false
      → get j (save_row borsh id p rows) ≡ get j rows
  unfolding save_row
  save_row-ne law id j p rows ne = elim (Bool-cases (is_empty p)) [
    | inl gone ↦ rw gone (get-remove j id rows ∙ (rw ne refl))
    | inr left ↦
        let (bytes, e) = encodes law p in rw (left, e) (get-insert j id bytes rows ∙ (rw ne refl))
  ]

  save_row-IsUnique :
      Lossless borsh
      → (id : Bytes) (p : PersistedSwap) (rows : Dict Bytes Bytes) → IsUnique rows
      → IsUnique (save_row borsh id p rows)
  unfolding save_row
  save_row-IsUnique law id p rows u = elim (Bool-cases (is_empty p)) [
    | inl gone ↦ rw gone (remove-IsUnique id rows u)
    | inr left ↦ let (bytes, e) = encodes law p in rw (left, e) (insert-IsUnique id bytes rows u)
  ]

  -- The buffer with other rows.
  with_rows : Evm → Dict Bytes Bytes → Evm
  with_rows st rows = record st { swap_store = some rows }

  persist_swap_rows :
      (id : Bytes) (st : Evm) (rows : Dict Bytes Bytes)
      → st.swap_store ≡ some rows
      → persist_swap borsh id st ≡ with_rows st (save_row borsh id (swap_record st id) rows)
  unfolding persist_swap with_rows
  persist_swap_rows id st rows e = rw e refl

  swap_record-with_rows :
      (st : Evm) (rows : Dict Bytes Bytes) (id : Bytes)
      → swap_record (with_rows st rows) id ≡ swap_record st id
  unfolding swap_record with_rows
  swap_record-with_rows st rows id = refl

  -- A change of one swap, then its row: the disk is in step again.
  pub persist_swap-IsSynced :
      Lossless borsh
      → (id : Bytes) (st st' : Evm) → IsSynced st
      → st'.swap_store ≡ st.swap_store
      → ((j : Bytes) → (j == id) ≡ false → swap_record st' j ≡ swap_record st j)
      → IsSynced (persist_swap borsh id st')
  unfolding with_rows
  persist_swap-IsSynced law id st st' (rows, stored, u, holds) same frame =
      let saved = save_row borsh id (swap_record st' id) rows in
      rw (persist_swap_rows id st' rows (same ∙ stored)) (
        saved,
        refl,
        save_row-IsUnique law id (swap_record st' id) rows u,
        λ j. rw (swap_record-with_rows st' saved j) (elim (Bool-cases (j == id)) [
          | inl here ↦ rw (beq_sound j id here) (save_row-Holds law id (swap_record st' id) rows)
          | inr there ↦
              rw (save_row-ne law id j (swap_record st' id) rows there, frame j there) (holds j)
        ]),
      )

  -- The fields of a row that holds a record are those of the record.
  Holds-fields :
      (row : Option Bytes) (p : PersistedSwap)
      → Holds row p
      → row_fields borsh row ≡ (p.script, p.claim_attempt, p.refund_attempt)
  unfolding is_empty
  Holds-fields row p (inl (gone, missing)) = rw missing (
      ground
        (arith, Option-cases p.script, Option-cases p.claim_attempt, Option-cases p.refund_attempt))
  Holds-fields row p (inr (left, (bytes, at, read))) = rw (at, read) refl

  -- A restart finds for each swap the attempts that the buffer had, and no script. The disk is
  -- in step with the buffer.
  pub restart-fields :
      (st : Evm) (rows : Dict Bytes Bytes) (id : Bytes)
      → IsSynced st
      → st.swap_store ≡ some rows
      → fields id (restore borsh (some rows)).0
        ≡ (none, attempt st.queue (claim_key id), attempt st.queue (refund_key id))
  unfolding swap_record
  restart-fields st rows id (rows', stored, u, holds) same =
      let same_rows : rows' ≡ rows = some_inj (sym stored ∙ same) in
      rw (← same_rows) (
        restore-fields borsh id rows' u
        ∙ Holds-fields (get id rows') (swap_record st id) (holds id))
