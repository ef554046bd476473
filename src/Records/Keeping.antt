-- ===== src/Records/Keeping.antt =====
-- About the codec and the restore of chains/record.
use mathlib.Core.List.{append-nil, append_assoc}
use stroemnet.Common.{
  ◌≡◌, refl, sym, ◌∙◌, ap, ◌↔◌, inl, inr, false, Option, none, some, List, [], ◌∷◌, ◌++◌, arith,
  Bytes, bytes_eq, ◌==◌, ok, Bool-cases, Result-cases, beq_refl, beq_sound, nat_beq_iff,
}
use stroemnet.Common.Dict.{Dict, get, IsUnique, get-insert}
use stroemnet.Records.Swap.{PersistedSwap, RestoredSwaps, nothing_restored, UtxoScript}
use stroemnet.Settlement.Attempt.{AttemptState}
use stroemnet.Records.Codec.{
  Borsh, DecodeOutcome, current, corrupt, encode, decode_versioned, decode, magic, version_1,
}
use stroemnet.Records.Restore.{
  add_record, insert_some, Quarantined, restore_row, restore_rows, restore,
}

-- What a row adds to the rows that are set aside.
unfoldable pub quarantine_of : Bytes → Bytes → DecodeOutcome → List Quarantined → List Quarantined
quarantine_of id raw (current r) more = more
quarantine_of id raw (corrupt e) more = record { swap_id = id; raw = raw; error = e } ∷ more

-- A swap's script and attempts.
abbrev pub Fields : Type 0
Fields = Option UtxoScript × Option AttemptState × Option AttemptState

abbrev pub fields : Bytes → RestoredSwaps → Fields
fields id out = (get id out.scripts, get id out.claim_attempts, get id out.refund_attempts)

abbrev pub outcome_fields : DecodeOutcome → Fields
outcome_fields (current r) = (r.script, r.claim_attempt, r.refund_attempt)
outcome_fields (corrupt e) = (none, none, none)

insert_some-ne {ℓ} :
    {V : Type ℓ} (id j : Bytes) (o : Option V) (m : Dict Bytes V)
    → (id == j) ≡ false
    → get id (insert_some j o m) ≡ get id m
insert_some-ne id j none m h = refl
insert_some-ne id j (some v) m h = get-insert id j v m ∙ (rw h refl)

insert_some_self {ℓ} :
    {V : Type ℓ} (id : Bytes) (o : Option V) (m : Dict Bytes V)
    → get id m ≡ none
    → get id (insert_some id o m) ≡ o
insert_some_self id none m h = h
insert_some_self id (some v) m h = get-insert id id v m ∙ (rw (beq_refl id) refl)

ap-fields :
    {a a' : Option UtxoScript} {b b' c c' : Option AttemptState}
    → a ≡ a'
    → b ≡ b'
    → c ≡ c'
    → Path (Option UtxoScript × Option AttemptState × Option AttemptState) (a, b, c) (a', b', c')
ap-fields p q r = rw (p, q, r) refl

module _ (borsh : Borsh) where
  -- A record that is encoded decodes to itself. The hypothesis: Borsh reads back what it writes
  -- of this record.
  pub decode-encode :
      (p : PersistedSwap) (bytes : Bytes)
      → ((body : Bytes) → borsh.to_vec p ≡ ok body → borsh.try_from_slice body ≡ ok p)
      → encode borsh p ≡ ok bytes
      → decode borsh bytes ≡ current p
  unfolding encode decode decode_versioned
  decode-encode p bytes law h = elim (Result-cases (borsh.to_vec p)) [
    | inl (body, e) ↦ ground (arith, law body e)
    | inr (e, f) ↦ absurd (ground arith)
  ]

  -- Bytes decode to a record exactly when they are the magic byte, the version byte 1, and bytes
  -- that Borsh reads as the record.
  decode_iff :
      (bytes : Bytes) (p : PersistedSwap)
      → (decode borsh bytes ≡ current p)
        ↔ ((body : Bytes) × (bytes ≡ magic ∷ version_1 ∷ body) × (borsh.try_from_slice body ≡ ok p))
  unfolding decode decode_versioned
  decode_iff [] p = ground arith
  decode_iff (m ∷ []) p = ground arith
  decode_iff (m ∷ v ∷ body) p = (
    λ h. (
      body,
      ground (arith, nat_beq_iff m magic, nat_beq_iff v version_1),
      ground (arith, nat_beq_iff m magic, nat_beq_iff v version_1),
    ),
    λ (b, e, f). ground (arith, nat_beq_iff m magic, nat_beq_iff v version_1),
  )

  -- The rows that do not decode, in the order of the store.
  unfoldable pub corrupt_rows : List (Bytes × Bytes) → List Quarantined
  unfolding quarantine_of
  corrupt_rows [] = []
  corrupt_rows ((id, raw) ∷ rows) = quarantine_of id raw (decode borsh raw) (corrupt_rows rows)

  restore_row-quarantined :
      (id raw : Bytes) (o : DecodeOutcome) (acc : RestoredSwaps × List Quarantined)
      (more : List Quarantined)
      → (restore_row borsh id raw o acc).1 ++ more ≡ acc.1 ++ quarantine_of id raw o more
  unfolding restore_row quarantine_of
  restore_row-quarantined id raw (current r) (out, bad) more = refl
  restore_row-quarantined id raw (corrupt e) (out, bad) more =
      append_assoc bad (record { swap_id = id; raw = raw; error = e } ∷ []) more

  restore_rows-quarantined :
      (rows : List (Bytes × Bytes)) (acc : RestoredSwaps × List Quarantined)
      → (restore_rows borsh rows acc).1 ≡ acc.1 ++ corrupt_rows rows
  unfolding restore_rows corrupt_rows
  restore_rows-quarantined [] acc = sym (append-nil acc.1)
  restore_rows-quarantined ((id, raw) ∷ rows) acc =
      restore_rows-quarantined rows (restore_row borsh id raw (decode borsh raw) acc)
      ∙ restore_row-quarantined id raw (decode borsh raw) acc (corrupt_rows rows)

  -- A restart sets aside exactly the rows that do not decode, in the order of the store.
  restore-quarantined :
      (rows : List (Bytes × Bytes)) → (restore borsh (some rows)).1 ≡ corrupt_rows rows
  unfolding restore
  restore-quarantined rows = restore_rows-quarantined rows (nothing_restored, [])

  -- The fields of what a row decodes to.
  abbrev pub row_fields : Option Bytes → Fields
  row_fields none = (none, none, none)
  row_fields (some raw) = outcome_fields (decode borsh raw)

  restore_row-ne :
      (id j raw : Bytes) (o : DecodeOutcome) (acc : RestoredSwaps × List Quarantined)
      → (id == j) ≡ false
      → fields id (restore_row borsh j raw o acc).0 ≡ fields id acc.0
  unfolding restore_row add_record
  restore_row-ne id j raw (current r) (out, bad) h =
      ap-fields (insert_some-ne id j r.script out.scripts h)
        (insert_some-ne id j r.claim_attempt out.claim_attempts h)
        (insert_some-ne id j r.refund_attempt out.refund_attempts h)
  restore_row-ne id j raw (corrupt e) (out, bad) h = refl

  restore_rows-absent :
      (id : Bytes) (rows : List (Bytes × Bytes)) (acc : RestoredSwaps × List Quarantined)
      → get id rows ≡ none
      → fields id (restore_rows borsh rows acc).0 ≡ fields id acc.0
  unfolding restore_rows get
  restore_rows-absent id [] acc h = refl
  restore_rows-absent id ((j, raw) ∷ rows) acc h = elim (Bool-cases (id == j)) [
    | inl here ↦ absurd (ground arith)
    | inr there ↦
        restore_rows-absent id rows (restore_row borsh j raw (decode borsh raw) acc) (rw there at h)
        ∙ restore_row-ne id j raw (decode borsh raw) acc there
  ]

  restore_row_self :
      (id raw : Bytes) (o : DecodeOutcome) (acc : RestoredSwaps × List Quarantined)
      → fields id acc.0 ≡ (none, none, none)
      → fields id (restore_row borsh id raw o acc).0 ≡ outcome_fields o
  unfolding restore_row add_record
  restore_row_self id raw (current r) (out, bad) h =
      ap-fields (insert_some_self id r.script out.scripts (ap (λ x. x.0) h))
        (insert_some_self id r.claim_attempt out.claim_attempts (ap (λ x. x.1) h))
        (insert_some_self id r.refund_attempt out.refund_attempts (ap (λ x. x.2) h))
  restore_row_self id raw (corrupt e) (out, bad) h = h

  restore_rows-fields :
      (id : Bytes) (rows : List (Bytes × Bytes)) (acc : RestoredSwaps × List Quarantined)
      → IsUnique rows
      → fields id acc.0 ≡ (none, none, none)
      → fields id (restore_rows borsh rows acc).0 ≡ row_fields (get id rows)
  unfolding restore_rows get
  restore_rows-fields id [] acc u h = h
  restore_rows-fields id ((j, raw) ∷ rows) acc u h = elim (Bool-cases (id == j)) [
    | inl here ↦ rw here (
        restore_rows-absent id rows (restore_row borsh j raw (decode borsh raw) acc)
          (rw (beq_sound id j here) u.0)
        ∙ (rw (beq_sound id j here)
            (restore_row_self j raw (decode borsh raw) acc (rw (beq_sound id j here) at h))))
    | inr there ↦ rw there (
        restore_rows-fields id rows (restore_row borsh j raw (decode borsh raw) acc) u.1
          (restore_row-ne id j raw (decode borsh raw) acc there ∙ h))
  ]

  -- After a restart a swap has the script and the attempts that its row decodes to, and none
  -- without a row that decodes. The store has one row for each swap.
  pub restore-fields :
      (id : Bytes) (rows : List (Bytes × Bytes))
      → IsUnique rows
      → fields id (restore borsh (some rows)).0 ≡ row_fields (get id rows)
  unfolding restore get
  restore-fields id rows u = restore_rows-fields id rows (nothing_restored, []) u refl
