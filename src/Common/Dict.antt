-- ===== src/Common/Dict.antt =====
-- AHashMap as an association list. The program never depends on the order of iteration; a model
-- iterates in the order of the list. A map that the operations build holds each key once.
pub mod Unique
use mathlib.Core.Option
use stroemnet.Common.Tests.{if◌then◌else◌, is_some}
use stroemnet.Common.Equality.{Eq, ◌==◌, beq_refl}
use Prim.Native.Nat.{ℕ}
use mathlib.Core.Path.{◌≡◌, refl}
use mathlib.Core.Bool.{Bool, true, false}
use mathlib.Core.Option.{Option, none, some}
use mathlib.Core.List.{List, [], ◌∷◌}
use native.Mathlib.Omega.{arith}

abbrev pub Dict {ℓ κ} : Type ℓ → Type κ → Type (ℓ ⊔ κ)
Dict K V = List (K × V)

-- What `retain` leaves of an entry.
abbrev pub keep_if {ℓ} : {V : Type ℓ} → (V → Bool) → Option V → Option V
keep_if p none = none
keep_if p (some v) = if p v then some v else none

module _ {ℓ κ} {K : Type ℓ} {V : Type κ} ⦃e : Eq K⦄ where
  unfoldable pub get : K → Dict K V → Option V
  get k [] = none
  get k ((j, v) ∷ m) = if k == j then some v else get k m

  unfoldable pub insert : K → V → Dict K V → Dict K V
  insert k v [] = (k, v) ∷ []
  insert k v ((j, w) ∷ m) = if k == j then (j, v) ∷ m else (j, w) ∷ insert k v m

  unfoldable pub remove : K → Dict K V → Dict K V
  remove k [] = []
  remove k ((j, w) ∷ m) = if k == j then remove k m else (j, w) ∷ remove k m

  -- A write through `get_mut`: nothing is written where the key is missing.
  unfoldable pub update : K → (V → V) → Dict K V → Dict K V
  update k f [] = []
  update k f ((j, w) ∷ m) = if k == j then (j, f w) ∷ m else (j, w) ∷ update k f m

  -- AHashMap::retain, by the value.
  unfoldable pub retain : (V → Bool) → Dict K V → Dict K V
  retain p [] = []
  retain p ((j, w) ∷ m) = if p w then (j, w) ∷ retain p m else retain p m

  -- Each key stands once.
  abbrev pub IsUnique : Dict K V → Type (ℓ ⊔ κ)
  IsUnique [] = Unit
  IsUnique ((j, w) ∷ m) = (get j m ≡ none) × IsUnique m

  pub get-insert :
      (j k : K) (v : V) (m : Dict K V) → get j (insert k v m) ≡ (if j == k then some v else get j m)
  unfolding get insert
  get-insert j k v [] = refl
  get-insert j k v ((i, w) ∷ m) =
      ground (arith, e.beq_iff j k, e.beq_iff k i, e.beq_iff j i, get-insert j k v m)

  pub get-remove :
      (j k : K) (m : Dict K V) → get j (remove k m) ≡ (if j == k then none else get j m)
  unfolding get remove
  get-remove j k [] = ground arith
  get-remove j k ((i, w) ∷ m) =
      ground (arith, e.beq_iff j k, e.beq_iff k i, e.beq_iff j i, get-remove j k m)

  pub get-update :
      (j k : K) (f : V → V) (m : Dict K V)
      → get j (update k f m) ≡ (if j == k then Option.map f (get j m) else get j m)
  unfolding get update
  get-update j k f [] = ground arith
  get-update j k f ((i, w) ∷ m) =
      ground (arith, e.beq_iff j k, e.beq_iff k i, e.beq_iff j i, get-update j k f m)
