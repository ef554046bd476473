-- ===== src/Common/Dict/Unique.antt =====
-- About maps that hold each key once, and `retain`.
use mathlib.Core.Path.{◌≡◌, refl}
use mathlib.Core.Bool.{Bool}
use mathlib.Core.Option.{none}
use mathlib.Core.List.{[], ◌∷◌}
use native.Mathlib.Omega.{arith}
use stroemnet.Common.Equality.{Eq}
use stroemnet.Common.Dict.{
  Dict, keep_if, get, insert, remove, update, retain, IsUnique, get-insert, get-remove, get-update,
}

module _ {ℓ κ} {K : Type ℓ} {V : Type κ} ⦃e : Eq K⦄ where
  pub insert-IsUnique : (k : K) (v : V) (m : Dict K V) → IsUnique m → IsUnique (insert k v m)
  unfolding insert get
  insert-IsUnique k v [] h = (refl, tt)
  insert-IsUnique k v ((j, w) ∷ m) h =
      ground (arith, e.beq_iff k j, e.beq_iff j k, get-insert j k v m, insert-IsUnique k v m h.1)

  pub remove-IsUnique : (k : K) (m : Dict K V) → IsUnique m → IsUnique (remove k m)
  unfolding remove
  remove-IsUnique k [] h = tt
  remove-IsUnique k ((j, w) ∷ m) h =
      ground (arith, e.beq_iff k j, e.beq_iff j k, get-remove j k m, remove-IsUnique k m h.1)

  pub update-IsUnique : (k : K) (f : V → V) (m : Dict K V) → IsUnique m → IsUnique (update k f m)
  unfolding update
  update-IsUnique k f [] h = tt
  update-IsUnique k f ((j, w) ∷ m) h =
      ground (arith, e.beq_iff k j, e.beq_iff j k, get-update j k f m, update-IsUnique k f m h.1)

  pub get-retain-none :
      (j : K) (p : V → Bool) (m : Dict K V) → get j m ≡ none → get j (retain p m) ≡ none
  unfolding get retain
  get-retain-none j p [] h = refl
  get-retain-none j p ((i, w) ∷ m) h = ground (arith, get-retain-none j p m)

  pub get-retain :
      (j : K) (p : V → Bool) (m : Dict K V) → IsUnique m → get j (retain p m) ≡ keep_if p (get j m)
  unfolding get retain
  get-retain j p [] h = refl
  get-retain j p ((i, w) ∷ m) h =
      ground (arith, e.beq_iff j i, get-retain-none j p m, get-retain j p m h.1)

  pub retain-IsUnique : (p : V → Bool) (m : Dict K V) → IsUnique m → IsUnique (retain p m)
  unfolding retain
  retain-IsUnique p [] h = tt
  retain-IsUnique p ((j, w) ∷ m) h =
      ground (arith, get-retain-none j p m h.0, retain-IsUnique p m h.1)
