-- ===== src/Base/Ends.antt =====
-- How a function ends: `msg_panic` and `msg_fatal` of src/util/msg.c do not return, so a function
-- that may call them returns an outcome.
use Prim.Native.String.{String}
use mathlib.Core.Path.{◌≡◌, refl, ap, subst}
use mathlib.Core.Option.{Option, some}
use mathlib.Core.Bool.{Bool, true, false}
use nowra.Base.Tests.{if◌then◌else◌}

-- The message's fixed text says which call it was. `undefined` is behaviour that C leaves undefined.
pub data Abort : Type 0 where
  panic : String → Abort
  fatal : String → Abort
  undefined : Abort

pub data Outcome {ℓ} (A : Type ℓ) : Type ℓ where
  ok : A → Outcome A
  abort : Abort → Outcome A

infixl 5 ◌>>=◌
abbrev pub ◌>>=◌ {ℓ κ} : {A : Type ℓ} {B : Type κ} → Outcome A → (A → Outcome B) → Outcome B
ok a >>= f = f a
abort e >>= f = abort e

-- The call returns, in a value that satisfies `P`.
abbrev pub Returns {ℓ κ} : {A : Type ℓ} → Outcome A → (A → Type κ) → Type (ℓ ⊔ κ)
Returns {A} r P = (a : A) × (r ≡ ok a) × P a

pub Returns-if {ℓ κ} :
    {A : Type ℓ} (P : A → Type κ) (b : Bool) (x y : A)
    → (b ≡ true → P x)
    → (b ≡ false → P y)
    → Returns (if b then ok x else ok y) P
Returns-if P true x y h k = (x, refl, h refl)
Returns-if P false x y h k = (y, refl, k refl)

-- Whatever the call returns satisfies `P`.
abbrev pub Ensures {ℓ κ} : {A : Type ℓ} → (A → Type κ) → Outcome A → Type (ℓ ⊔ κ)
Ensures {A = A} P r = (a : A) → r ≡ ok a → P a

-- The fuel is enough, and whatever the call returns satisfies `P`.
abbrev pub Concludes {ℓ κ} : {A : Type ℓ} → (A → Type κ) → Option (Outcome A) → Type (ℓ ⊔ κ)
Concludes {A = A} P r = (o : Outcome A) × (r ≡ some o) × Ensures P o

module _ {ℓ κ} {A : Type ℓ} (P : A → Type κ) where
  ok_injective : (a b : A) → ok a ≡ ok b → a ≡ b
  ok_injective a b e = ap (λ r. elim r [ ok x ↦ x | abort x ↦ a ]) e

  pub Ensures-ok : (a : A) → P a → Ensures P (ok a)
  Ensures-ok a h b e = subst P (ok_injective a b e) h

  pub Ensures-abort : (x : Abort) → Ensures P (abort x)
  Ensures-abort x b e = cc

  pub Ensures-if :
      (b : Bool) (x y : Outcome A) → Ensures P x → Ensures P y → Ensures P (if b then x else y)
  Ensures-if true x y h k = h
  Ensures-if false x y h k = k

  pub Ensures-Returns : (r : Outcome A) → Returns r P → Ensures P r
  Ensures-Returns r (a, e, h) b run = Ensures-ok a h b (subst (λ r'. r' ≡ ok b) e run)

  pub Ensures-bind {μ} :
      {B : Type μ} (r : Outcome B) (f : B → Outcome A)
      → ((b : B) → Ensures P (f b))
      → Ensures P (r >>= f)
  Ensures-bind (ok b) f h = h b
  Ensures-bind (abort x) f h = Ensures-abort x

  pub Ensures-then {μ ν} :
      {B : Type μ} (Q : B → Type ν) (r : Outcome B) (f : B → Outcome A)
      → Ensures Q r
      → ((b : B) → Q b → Ensures P (f b))
      → Ensures P (r >>= f)
  Ensures-then Q (ok b) f q h = h b (q b refl)
  Ensures-then Q (abort x) f q h = Ensures-abort x
