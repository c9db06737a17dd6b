-- ===== src/Base/Int.antt =====
-- Signed integers over the native numbers: the program's `int`, `short`, `long` and `time_t`, in
-- the ranges where they do not overflow.
use Prim.Native.Nat.{ℕ, suc, ◌+◌, ◌-◌, ◌%◌, ◌^◌, ◌≤◌, ◌<◌}
use mathlib.Core.Path.{◌≡◌}
use mathlib.Core.Bool.{Bool, true, false}
use native.Mathlib.Omega.{arith}
use atomicles.Base.Tests.{ltb, leb, if◌then◌else◌}

-- `negsuc n` is -(n + 1).
pub data ℤ : Type 0 where
  pos : ℕ → ℤ
  negsuc : ℕ → ℤ

abbrev pub pos_part : ℤ → ℕ
pos_part (pos n) = n
pos_part (negsuc n) = 0

abbrev pub neg_part : ℤ → ℕ
neg_part (pos n) = 0
neg_part (negsuc n) = suc n

-- a - b, as an integer.
abbrev pub sub_ℕ : ℕ → ℕ → ℤ
sub_ℕ a b = if leb b a then pos (a - b) else negsuc (b - a - 1)

abbrev pub ltb_ℤ : ℤ → ℤ → Bool
ltb_ℤ a b = ltb (pos_part a + neg_part b) (pos_part b + neg_part a)

abbrev pub minus_one : ℤ
minus_one = negsuc 0

-- `min` of lock.h
abbrev pub min_ℤ : ℤ → ℤ → ℤ
min_ℤ x y = if ltb_ℤ x y then x else y

-- `x == 0`
abbrev pub is_zero_ℤ : ℤ → Bool
is_zero_ℤ (pos n) = leb n 0
is_zero_ℤ (negsuc n) = false

-- The conversions to `unsigned int` and to `int` of 32 bits.
abbrev pub to_u32 : ℤ → ℕ
to_u32 (pos n) = n % 2 ^ 32
to_u32 (negsuc n) = 2 ^ 32 - 1 - n % 2 ^ 32

abbrev pub signed32 : ℕ → ℤ
signed32 w = if ltb w (2 ^ 31) then pos w else negsuc (2 ^ 32 - w - 1)

abbrev pub signed16 : ℕ → ℤ
signed16 w = if ltb w (2 ^ 15) then pos w else negsuc (2 ^ 16 - w - 1)

unfoldable pub to_int : ℤ → ℤ
to_int a = signed32 (to_u32 a)

pub to_int-pos : (n : ℕ) → n < 2 ^ 31 → to_int (pos n) ≡ pos n
unfolding to_int
to_int-pos n h = ground arith

pub sub_ℕ-positive : (a b : ℕ) → b < a → ltb_ℤ (pos 0) (sub_ℕ a b) ≡ true
sub_ℕ-positive a b h = ground arith

pub sub_ℕ-not_positive : (a b : ℕ) → a ≤ b → ltb_ℤ (pos 0) (sub_ℕ a b) ≡ false
sub_ℕ-not_positive a b h = ground arith
