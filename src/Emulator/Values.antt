-- ===== src/Emulator/Values.antt =====
-- The values of the option `-v` of src/ia32emu.c: what its loop makes of hexadecimal digits.
use Prim.Native.Nat.{bit_or, digits, max, bit_or-bitwise}
use atomicles.Base.{
  ℕ, zero, suc, ◌+◌, ◌*◌, ◌/◌, ◌%◌, ◌^◌, ◌≤◌, ◌<◌, ◌≡◌, refl, ◌==◌, Bool, true, false, arith, leb,
  some, List, [], ◌∷◌,
}
use atomicles.Bits.{u32, hctoc}
use atomicles.Bits.Digits.{hex_digit, hctoc-hex_digit}
use atomicles.Registers.{Pointer, same_text, load, size_of}
use atomicles.Emulator.{to_register}
use atomicles.Emulator.Options.{
  Options, valued, hex_from, read_value, read_sized, give_value, apply_argument, operand_at,
  register_at, reset_text, store_value,
}

or_zero : (n a : ℕ) → a ≤ n → digits (λ b. b) max n a 0 ≡ a
or_zero zero zero h = refl
or_zero zero (suc a) h = absurd (omega (arith, h))
or_zero (suc n) zero h = refl
or_zero (suc n) (suc a) h = rw (or_zero n (suc a / 2) (omega (arith, h))) (omega arith)

-- One digit of each number.
or_step :
    (n a b : ℕ)
    → a ≤ n
    → a % 2 ≡ 0
    → ((m : ℕ) → a / 2 ≤ m → digits (λ b. b) max m (a / 2) (b / 2) ≡ a / 2 + b / 2)
    → digits (λ b. b) max n a b ≡ a + b
or_step zero zero b h even rest = omega arith
or_step zero (suc a) b h even rest = absurd (omega (arith, h))
or_step (suc n) zero b h even rest = omega arith
or_step (suc n) (suc a) b h even rest = rw (rest n (omega (arith, h)), even) (omega (arith, even))

or_2 : (n a b : ℕ) → a ≤ n → a % 2 ≡ 0 → b < 2 → digits (λ b. b) max n a b ≡ a + b
or_2 n a b h even small = or_step n a b h even λ m h'.
    let none_left : b / 2 ≡ 0 = omega (arith, small) in
    rw (none_left, or_zero m (a / 2) h') (omega arith)

or_4 : (n a b : ℕ) → a ≤ n → a % 4 ≡ 0 → b < 4 → digits (λ b. b) max n a b ≡ a + b
or_4 n a b h even small =
    or_step n a b h (omega (arith, even))
      λ m h'. or_2 m (a / 2) (b / 2) h' (omega (arith, even)) (omega (arith, small))

or_8 : (n a b : ℕ) → a ≤ n → a % 8 ≡ 0 → b < 8 → digits (λ b. b) max n a b ≡ a + b
or_8 n a b h even small =
    or_step n a b h (omega (arith, even))
      λ m h'. or_4 m (a / 2) (b / 2) h' (omega (arith, even)) (omega (arith, small))

or_16 : (n a b : ℕ) → a ≤ n → a % 16 ≡ 0 → b < 16 → digits (λ b. b) max n a b ≡ a + b
or_16 n a b h even small =
    or_step n a b h (omega (arith, even))
      λ m h'. or_8 m (a / 2) (b / 2) h' (omega (arith, even)) (omega (arith, small))

-- A digit is or'ed into the place that the shift made free.
bit_or-digit : (a b : ℕ) → a % 16 ≡ 0 → b < 16 → bit_or a b ≡ a + b
bit_or-digit a b even small = rw bit_or-bitwise (or_16 a a b (omega arith) even small)

-- The digits of a hexadecimal number, the first one of the highest value.
abbrev pub AreDigits : List ℕ → Type 0
AreDigits [] = Unit {0}
AreDigits (d ∷ ds) = (d < 16) × AreDigits ds

abbrev pub value_from : ℕ → List ℕ → ℕ
value_from n [] = n
value_from n (d ∷ ds) = value_from (n * 16 + d) ds

-- The digits as text, with capital letters.
abbrev pub hex_text : List ℕ → List ℕ
hex_text [] = []
hex_text (d ∷ ds) = hex_digit 65 d ∷ hex_text ds

read_digit : (n d : ℕ) → d < 16 → bit_or (u32 (n * 16)) (hctoc (hex_digit 65 d)) ≡ u32 (n * 16) + d
read_digit n d small =
    rw (hctoc-hex_digit d small).1 (bit_or-digit (u32 (n * 16)) d (omega arith) small)

hex_from-hex_text :
    (d : ℕ) (ds : List ℕ) (n : ℕ)
    → d < 16
    → AreDigits ds
    → hex_from (u32 (n * 16)) (hex_text (d ∷ ds)) ≡ value_from n (d ∷ ds) % 2 ^ 32
unfolding hex_from
hex_from-hex_text d [] n small _ = rw (read_digit n d small) (omega (arith, small))
hex_from-hex_text d (d' ∷ ds) n small (small', rest) =
    let shifted : u32 ((u32 (n * 16) + d) * 16) ≡ u32 ((n * 16 + d) * 16) = omega arith in
    rw (read_digit n d small, shifted) (hex_from-hex_text d' ds (n * 16 + d) small' rest)

not_reset : (d : ℕ) (ds : List ℕ) → d < 16 → same_text (hex_text (d ∷ ds)) reset_text ≡ false
not_reset d ds small =
    let other : (hex_digit 65 d == 82) ≡ false = ground (arith, small) in rw other refl

module _ (strtoul : List ℕ → ℕ × Bool) (unwritten : Options → ℕ) where
  -- Where an operand is chosen and points at its register, and `strtoul` reads a part of the text,
  -- as a number that the register's size allows: `-v` with a text of hexadecimal digits in capitals
  -- stores the value of the digits modulo 2^32, and reports nothing.
  pub apply_argument-hex_text :
      (o : Options) (p : Pointer) (d : ℕ) (ds : List ℕ)
      → o.pointed ≡ true
      → operand_at o.machine o.target ≡ some (to_register p)
      → register_at o.machine o.target ≡ some p
      → u32 (strtoul (hex_text (d ∷ ds))).0 ≤ 2 ^ size_of (load o.machine.regs p)
      → (strtoul (hex_text (d ∷ ds))).1 ≡ false
      → AreDigits (d ∷ ds)
      → apply_argument strtoul unwritten o (valued (hex_text (d ∷ ds)))
        ≡ some (store_value o (to_register p) (value_from 0 (d ∷ ds) % 2 ^ 32))
  unfolding apply_argument give_value read_sized read_value
  apply_argument-hex_text o p d ds pointed operand register small partial (digit, rest) =
      let allowed : leb (u32 (strtoul (hex_text (d ∷ ds))).0) (2 ^ size_of (load o.machine.regs p))
          ≡ true =
        ground (arith, small) in
      let read : hex_from 0 (hex_text (d ∷ ds)) ≡ value_from 0 (d ∷ ds) % 2 ^ 32 =
        hex_from-hex_text d ds 0 digit rest in
      rw (pointed, operand, not_reset d ds digit, register, allowed, partial, read) refl
