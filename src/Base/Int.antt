-- ===== src/Base/Int.antt =====
-- C's signed integers over the native numbers, under the library's name: what the code does with
-- an `int` that may be negative.
use Prim.Native.Nat.{ℕ, ◌+◌, ◌-◌, ◌%◌, ◌≤◌, ◌<◌}
use mathlib.Core.Path.{◌≡◌}
use mathlib.Core.Bool.{Bool, true, false}
use native.Mathlib.Omega.{arith}
use nowra.Base.Tests.{ltb, leb, ◌==◌, if◌then◌else◌}

-- `negsuc n` is -(n + 1).
pub data ℤ : Type 0 where
  pos : ℕ → ℤ
  negsuc : ℕ → ℤ

-- `i++` and `i--`
abbrev pub incr : ℤ → ℤ
incr (pos n) = pos (n + 1)
incr (negsuc n) = if n == 0 then pos 0 else negsuc (n - 1)

abbrev pub decr : ℤ → ℤ
decr (pos n) = if n == 0 then negsuc 0 else pos (n - 1)
decr (negsuc n) = negsuc (n + 1)

-- a - b, of two numbers
abbrev pub sub_ℕ : ℕ → ℕ → ℤ
sub_ℕ a b = if leb b a then pos (a - b) else negsuc (b - a - 1)

-- a < b
abbrev pub ltb_ℤ : ℤ → ℤ → Bool
ltb_ℤ (pos a) (pos b) = ltb a b
ltb_ℤ (pos a) (negsuc b) = false
ltb_ℤ (negsuc a) (pos b) = true
ltb_ℤ (negsuc a) (negsuc b) = ltb b a

abbrev pub eqb_ℤ : ℤ → ℤ → Bool
eqb_ℤ (pos a) (pos b) = a == b
eqb_ℤ (negsuc a) (negsuc b) = a == b
eqb_ℤ _ _ = false

pub decr-pos : (n : ℕ) → 0 < n → decr (pos n) ≡ pos (n - 1)
decr-pos n h = ground arith

-- The `int` that a longer unsigned number is converted to.
abbrev pub int_of : ℕ → ℤ
int_of n =
    if ltb (n % 4294967296) 2147483648
    then pos (n % 4294967296)
    else negsuc (4294967295 - n % 4294967296)

pub int_of-pos : (n : ℕ) → n < 2147483648 → int_of n ≡ pos n
int_of-pos n h = ground arith

pub int_of-negsuc :
    (n : ℕ) → 2147483648 ≤ n % 4294967296 → int_of n ≡ negsuc (4294967295 - n % 4294967296)
int_of-negsuc n h = ground arith
