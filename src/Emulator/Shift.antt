-- ===== src/Emulator/Shift.antt =====
-- `shift` of src/ia32emu.c: the loop against multiplication and division by a power of two.
use Prim.Native.Nat.{bit_and}
use native.Mathlib.Nat.{pow-suc, pow-succ', mul_assoc, div-div-eq-div-mul}
use atomicles.Base.{
  ap, sym, ℕ, zero, suc, ◌*◌, ◌/◌, ◌%◌, ◌^◌, ◌<◌, ◌≡◌, refl, ◌∙◌, arith, ◌==◌, Bool-cases, inl, inr,
}
use atomicles.Bits.{u32, lsb, msb}
use atomicles.Bits.Digits.{lsb_lem, msb_lem, all_below, all_below_lem, equal}
use atomicles.Registers.{flag, set_flag, cf_bit, of_bit}
use atomicles.Emulator.{
  Opcode, shl, shr, Machine, shift_loop, shift, shift_overflow, put_flag, eflags_of,
}

-- The count is cut to its five lowest bits.
count_mask : (n : ℕ) → n < 32 → bit_and n 31 ≡ n
unfolding all_below
count_mask n h = equal (bit_and n 31) n (all_below_lem 32 (λ n. bit_and n 31 == n) refl n h)

pow_step : (x n : ℕ) → x * 2 ^ suc n ≡ x * 2 ^ n * 2
pow_step x n = rw (pow-suc 2 n) (sym (mul_assoc x (2 ^ n) 2))

double : (x n : ℕ) → x * 2 * 2 ^ n ≡ x * 2 ^ suc n
double x n = mul_assoc x 2 (2 ^ n) ∙ ap (λ p. x * p) (sym (pow-succ' 2 n))

-- A cut to 32 bits before a shift to the left is no matter.
u32-pow : (x n : ℕ) → u32 (u32 x * 2 ^ n) ≡ u32 (x * 2 ^ n)
u32-pow x zero = omega arith
u32-pow x (suc n) =
    let before : u32 (u32 x * 2 ^ n) ≡ u32 (x * 2 ^ n) = u32-pow x n in
    rw (pow_step (u32 x) n, pow_step x n) (omega (arith, before))

halve : (x n : ℕ) → x / 2 / 2 ^ n ≡ x / 2 ^ suc n
halve x n = div-div-eq-div-mul x 2 (2 ^ n) ∙ ap (λ p. x / p) (sym (pow-succ' 2 n))

shift_loop-shl :
    (m : Machine) (dst n : ℕ) → dst < 2 ^ 32 → (shift_loop shl n m dst).0 ≡ u32 (dst * 2 ^ n)
unfolding shift_loop
shift_loop-shl m dst zero h = omega arith
shift_loop-shl m dst (suc n) h =
    shift_loop-shl (put_flag cf_bit (msb dst) m) (u32 (dst * 2)) n (omega arith)
    ∙ u32-pow (dst * 2) n
    ∙ ap u32 (double dst n)

shift_loop-shr : (m : Machine) (dst n : ℕ) → (shift_loop shr n m dst).0 ≡ dst / 2 ^ n
unfolding shift_loop
shift_loop-shr m dst zero = omega arith
shift_loop-shr m dst (suc n) =
    shift_loop-shr (put_flag cf_bit (lsb dst) m) (dst / 2) n ∙ halve dst n

cf_set : (n e : ℕ) → flag cf_bit (set_flag cf_bit n e) ≡ n % 2
cf_set n e = omega arith

-- CF is the last bit that went out on the right.
shift_loop-shr_cf :
    (m : Machine) (dst n : ℕ)
    → dst < 2 ^ 32
    → flag cf_bit (eflags_of (shift_loop shr (suc n) m dst).1) ≡ dst / 2 ^ n % 2
unfolding shift_loop
shift_loop-shr_cf m dst zero h = cf_set (lsb dst) (eflags_of m) ∙ rw (lsb_lem dst h) (omega arith)
shift_loop-shr_cf m dst (suc n) h =
    shift_loop-shr_cf (put_flag cf_bit (lsb dst) m) (dst / 2) n (omega (arith, h))
    ∙ ap (λ q. q % 2) (halve dst n)

-- CF is the last bit that went out on the left.
shift_loop-shl_cf :
    (m : Machine) (dst n : ℕ)
    → dst < 2 ^ 32
    → flag cf_bit (eflags_of (shift_loop shl (suc n) m dst).1) ≡ u32 (dst * 2 ^ n) / 2 ^ 31
unfolding shift_loop
shift_loop-shl_cf m dst zero h =
    cf_set (msb dst) (eflags_of m) ∙ rw (msb_lem dst h) (omega (arith, h))
shift_loop-shl_cf m dst (suc n) h =
    shift_loop-shl_cf (put_flag cf_bit (msb dst) m) (u32 (dst * 2)) n (omega arith)
    ∙ ap (λ q. q / 2 ^ 31) (u32-pow (dst * 2) n ∙ ap u32 (double dst n))

cf_of : (n e : ℕ) → flag cf_bit (set_flag of_bit n e) ≡ flag cf_bit e
cf_of n e = omega arith

-- What follows the loop changes neither the word nor CF.
shift-loop :
    (ins : Opcode) (m : Machine) (dst n : ℕ)
    → n < 32
    → ((shift ins m dst n).0 ≡ (shift_loop ins n m dst).0)
      × (flag cf_bit (eflags_of (shift ins m dst n).1)
          ≡ flag cf_bit (eflags_of (shift_loop ins n m dst).1))
unfolding shift
shift-loop ins m dst n few = rw (count_mask n few) (elim (Bool-cases (n == 1)) [
  | inl one ↦
      let (dst', m') = shift_loop ins n m dst in
      rw one (refl, cf_of (shift_overflow ins dst' m') (eflags_of m'))
  | inr more ↦ rw more (refl, refl)
])

-- `shift` with SHL by 1 to 31 multiplies a word modulo 2^32, and CF is the bit that was the
-- highest before the last round.
pub shift-shl :
    (m : Machine) (dst n : ℕ)
    → dst < 2 ^ 32
    → suc n < 32
    → ((shift shl m dst (suc n)).0 ≡ u32 (dst * 2 ^ suc n))
      × (flag cf_bit (eflags_of (shift shl m dst (suc n)).1) ≡ u32 (dst * 2 ^ n) / 2 ^ 31)
shift-shl m dst n h few =
    let (word, carry) = shift-loop shl m dst (suc n) few in
    (word ∙ shift_loop-shl m dst (suc n) h, carry ∙ shift_loop-shl_cf m dst n h)

-- `shift` with SHR by 1 to 31 divides a word by the power of two, and CF is the last bit that
-- went out.
pub shift-shr :
    (m : Machine) (dst n : ℕ)
    → dst < 2 ^ 32
    → suc n < 32
    → ((shift shr m dst (suc n)).0 ≡ dst / 2 ^ suc n)
      × (flag cf_bit (eflags_of (shift shr m dst (suc n)).1) ≡ dst / 2 ^ n % 2)
shift-shr m dst n h few =
    let (word, carry) = shift-loop shr m dst (suc n) few in
    (word ∙ shift_loop-shr m dst (suc n), carry ∙ shift_loop-shr_cf m dst n h)
