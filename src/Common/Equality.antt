-- ===== src/Common/Equality.antt =====
-- Equality tests (Rust's PartialEq and Eq) as an interface, with those of numbers and byte strings.
use Prim.Native.Nat.{ℕ}
use mathlib.Core.Path.{◌≡◌, refl}
use mathlib.Core.Logic.{◌↔◌, ◌≢◌}
use mathlib.Core.Bool.{Bool, true, false, ◌&&◌}
use mathlib.Core.List.{List, [], ◌∷◌}
use native.Mathlib.Omega.{arith}
use stroemnet.Common.Tests.{nat_beq, nat_beq_iff}

-- Texts and byte arrays. A String is its UTF-8 bytes; a [u8; 32] is a list of 32 bytes.
abbrev pub Bytes : Type 0
Bytes = List ℕ

unfoldable pub list_beq : Bytes → Bytes → Bool
list_beq [] [] = true
list_beq (x ∷ xs) (y ∷ ys) = nat_beq x y && list_beq xs ys
list_beq _ _ = false

pub list_beq_iff : (xs ys : Bytes) → (list_beq xs ys ≡ true) ↔ (xs ≡ ys)
unfolding list_beq
list_beq_iff [] [] = (λ h. refl, λ h. refl)
list_beq_iff [] (y ∷ ys) = (λ h. cc, λ h. cc)
list_beq_iff (x ∷ xs) [] = (λ h. cc, λ h. cc)
list_beq_iff (x ∷ xs) (y ∷ ys) = ground (arith, list_beq_iff xs ys, nat_beq_iff x y)

-- str::starts_with, the prefix first.
abbrev pub starts_with : Bytes → Bytes → Bool
starts_with [] s = true
starts_with (c ∷ cs) [] = false
starts_with (c ∷ cs) (d ∷ ds) = nat_beq c d && starts_with cs ds

-- PartialEq with what Eq promises of it: the test decides equality.
pub record Eq {κ} (K : Type κ) : Type κ where
  pub beq : K → K → Bool
  pub beq_iff : (x y : K) → (beq x y ≡ true) ↔ (x ≡ y)

module _ {κ} {K : Type κ} ⦃e : Eq K⦄ where
  infix 50 ◌==◌
  -- Rust's `==` on the type.
  abbrev pub ◌==◌ : K → K → Bool
  a == b = e.beq a b

  pub beq_refl : (a : K) → (a == a) ≡ true
  beq_refl a = (e.beq_iff a a).1 refl

  pub beq-ne : (a b : K) → a ≢ b → (a == b) ≡ false
  beq-ne a b h = ground (arith, e.beq_iff a b)

  pub beq_sound : (a b : K) → (a == b) ≡ true → a ≡ b
  beq_sound a b h = (e.beq_iff a b).0 h

instance abbrev pub nat_eq : Eq ℕ
nat_eq = record { beq = nat_beq; beq_iff = nat_beq_iff }

instance abbrev pub bytes_eq : Eq Bytes
bytes_eq = record { beq = list_beq; beq_iff = list_beq_iff }
