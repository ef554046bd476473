-- ===== src/Common/Results.antt =====
-- Rust's Result, with the `?` operator as the bind of `do` blocks.
use mathlib.Core.Path.{◌≡◌, refl}
use mathlib.Core.Bool.{Bool, true, false}
use mathlib.Core.Logic.{◌⊎◌, inl, inr}
use mathlib.Core.Option.{Option, none, some}
use native.Mathlib.Omega.{arith}

pub data Result {ε α} (F : Type ε) (V : Type α) : Type (ε ⊔ α) where
  err : F → Result F V
  ok : V → Result F V

module _ {ε α β} {F : Type ε} {V : Type α} {W : Type β} where
  infixl 5 ◌>>=◌
  -- Result::and_then.
  abbrev pub ◌>>=◌ : Result F V → (V → Result F W) → Result F W
  (err failure) >>= next = err failure
  (ok value) >>= next = next value

  pub >>=-eq-ok :
      (first : Result F V) (next : V → Result F W) {w : W}
      → (first >>= next) ≡ ok w
      → (v : V) × (first ≡ ok v) × (next v ≡ ok w)
  >>=-eq-ok (err failure) next done = absurd (ground arith)
  >>=-eq-ok (ok value) next done = (value, refl, done)

infixl 5 ◌>>◌
-- A line of a `do` block that returns nothing.
abbrev pub ◌>>◌ {ε β} : {F : Type ε} {W : Type β} → Result F (Unit {0}) → Result F W → Result F W
first >> next = first >>= (λ nothing. next)

-- Option::ok_or.
abbrev pub ok_or {ℓ κ} : {E : Type ℓ} {A : Type κ} → Option A → E → Result E A
ok_or none e = err e
ok_or (some a) e = ok a

-- `if cond { return Err(e); }`
abbrev pub fail_if {ℓ} : {E : Type ℓ} → Bool → E → Result E (Unit {0})
fail_if true e = err e
fail_if false e = ok tt

-- Result::map_err, or the From that `?` applies.
abbrev pub map_err {ℓ κ μ} :
    {E : Type ℓ} {F : Type κ} {A : Type μ} → (E → F) → Result E A → Result F A
map_err f (ok a) = ok a
map_err f (err e) = err (f e)

pub map_err-ok {ℓ κ μ} :
    {E : Type ℓ} {F : Type κ} {A : Type μ} (f : E → F) (m : Result E A) {a : A}
    → map_err f m ≡ ok a
    → m ≡ ok a
map_err-ok f (ok a) h = cc
map_err-ok f (err e) h = absurd (ground arith)

pub Result-cases {ℓ κ} :
    {E : Type ℓ} {A : Type κ} (m : Result E A) → ((a : A) × (m ≡ ok a)) ⊎ ((e : E) × (m ≡ err e))
Result-cases (ok a) = inl (a, refl)
Result-cases (err e) = inr (e, refl)

pub some_inj {ℓ} : {A : Type ℓ} {x y : A} → ◌≡◌ {A = Option A} (some x) (some y) → x ≡ y
some_inj e = cc

pub ok_inj {ℓ κ} : {E : Type ℓ} {A : Type κ} {x y : A} → ◌≡◌ {A = Result E A} (ok x) (ok y) → x ≡ y
ok_inj e = cc
