-- ===== src/Base/Results.antt =====
-- Outcomes of Go code: a value, an error value, or a run-time panic.
use mathlib.Core.Path.{◌≡◌, refl, subst}
use mathlib.Core.Bool.{Bool, true, false}
use phev2mqtt.Base.Tests.{if◌then◌else◌}
use mathlib.Core.Option.{Option, none, some}

pub data Outcome {ℓ} (A : Type ℓ) : Type ℓ where
  ok : A → Outcome A
  err : Outcome A
  panic : Outcome A

-- An error and a panic both end the chain.
infixl 5 ◌>>=◌
abbrev pub ◌>>=◌ {ℓ κ} : {X : Type ℓ} {Y : Type κ} → Outcome X → (X → Outcome Y) → Outcome Y
panic >>= next = panic
err >>= next = err
ok x >>= next = next x

-- An index or slice expression: out of range it panics.
abbrev pub in_range {ℓ} : {A : Type ℓ} → Option A → Outcome A
in_range none = panic
in_range (some a) = ok a

-- A chain that ends well had a first step that did.
pub >>=-eq-ok {ℓ κ} :
    {X : Type ℓ} {Y : Type κ} (step : Outcome X) (next : X → Outcome Y) {y : Y}
    → (step >>= next) ≡ ok y
    → (x : X) × (step ≡ ok x) × (next x ≡ ok y)
>>=-eq-ok panic next e = cc
>>=-eq-ok err next e = cc
>>=-eq-ok (ok x) next e = (x, refl, e)

-- What the chain ends with, if it ends well, is good.
unfoldable pub Gives {ℓ κ} : {Y : Type ℓ} → (Y → Type κ) → Outcome Y → Type κ
Gives Good (ok y) = Good y
Gives Good err = Unit
Gives Good panic = Unit

module _ {ℓ κ} {Y : Type ℓ} (Good : Y → Type κ) where
  pub >>=-Gives {ℓ'} :
      {X : Type ℓ'} (step : Outcome X) (next : X → Outcome Y)
      → ((x : X) → Gives Good (next x))
      → Gives Good (step >>= next)
  unfolding Gives
  >>=-Gives (ok x) next h = h x
  >>=-Gives err next h = tt
  >>=-Gives panic next h = tt

  -- The next step may use what the first one gives.
  pub >>=-Gives_from {ℓ' κ'} :
      {X : Type ℓ'} (From : X → Type κ') (step : Outcome X) (next : X → Outcome Y)
      → Gives From step
      → ((x : X) → From x → Gives Good (next x))
      → Gives Good (step >>= next)
  unfolding Gives
  >>=-Gives_from From (ok x) next f h = h x f
  >>=-Gives_from From err next f h = tt
  >>=-Gives_from From panic next f h = tt

  pub if-Gives :
      (b : Bool) (x y : Outcome Y) → Gives Good x → Gives Good y → Gives Good (if b then x else y)
  if-Gives true x y h k = h
  if-Gives false x y h k = k

  pub ok-Gives : (y : Y) → Good y → Gives Good (ok y)
  unfolding Gives
  ok-Gives y h = h

  pub err-Gives : Gives Good err
  unfolding Gives
  err-Gives = tt

  pub Gives-ok : (o : Outcome Y) (y : Y) → Gives Good o → o ≡ ok y → Good y
  unfolding Gives
  Gives-ok o y h e = taken (subst (Gives Good) e h)
    where
      taken : Gives Good (ok y) → Good y
      taken h = h

  pub panic-Gives : Gives Good panic
  unfolding Gives
  panic-Gives = tt
