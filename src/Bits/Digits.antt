-- ===== src/Bits/Digits.antt =====
-- What LSB, MSB and `hctoc` compute.
use Prim.Native.Nat.{bit_or, bit_and, digits, differ, max, bit_xor-bitwise, bit_or-bitwise}
use atomicles.Base.{
  ◌∙◌, Bool-cases, inl, inr, Bool, true, false, ℕ, zero, suc, ◌+◌, ◌-◌, ◌*◌, ◌/◌, ◌%◌, ◌^◌, ◌≤◌,
  ◌<◌, ◌≡◌, refl, arith, ltb, ◌==◌, ◌&&◌, if◌then◌else◌,
}
use atomicles.Bits.{u32, lsb, hctoc, msb, bitwise_reverse, entry, bit_reverse_table}

-- The digit that prints a value below 16, in lower case or in upper case.
abbrev pub hex_digit : (lower : ℕ) → ℕ → ℕ
hex_digit lower n = if ltb n 10 then 48 + n else lower - 10 + n

-- `hctoc` reads the hexadecimal digit of every number below 16, in lower and in upper case.
pub hctoc-hex_digit : (n : ℕ) → n < 16 → (hctoc (hex_digit 97 n) ≡ n) × (hctoc (hex_digit 65 n) ≡ n)
unfolding hctoc
hctoc-hex_digit n h = (ground arith, ground arith)

differ_self : (a : ℕ) → differ a a ≡ 0
differ_self zero = refl
differ_self (suc a) = differ_self a

xor_self : (n a : ℕ) → a ≤ n → digits (λ b. b) differ n a a ≡ 0
xor_self zero zero h = refl
xor_self zero (suc a) h = absurd (omega (arith, h))
xor_self (suc n) zero h = refl
xor_self (suc n) (suc a) h =
    rw (xor_self n (suc a / 2) (omega (arith, h)), differ_self (suc a % 2)) refl

-- A number and the even number below it differ in the lowest bit.
xor_even : (n a b : ℕ) → a ≤ n → a ≡ 2 * (b / 2) → digits (λ b. b) differ n a b ≡ b % 2
xor_even zero zero b h e = omega arith
xor_even zero (suc a) b h e = absurd (omega (arith, h))
xor_even (suc n) zero b h e = omega arith
xor_even (suc n) (suc a) b h e =
    let half : suc a / 2 ≡ b / 2 = omega (arith, e) in
    let even : suc a % 2 ≡ 0 = omega (arith, e) in
    rw (half, even, xor_self n (b / 2) (omega (arith, h, e))) (omega arith)

-- LSB of a word below 2^32 is the remainder by 2.
pub lsb_lem : (v : ℕ) → v < 2 ^ 32 → lsb v ≡ v % 2
unfolding lsb
lsb_lem v h =
    let cut : u32 ((v / 2) * 2) ≡ (v / 2) * 2 = omega arith in
    rw (cut, bit_xor-bitwise) (xor_even ((v / 2) * 2) ((v / 2) * 2) v (omega arith) (omega arith))

zero_max : (n : ℕ) → max 0 n ≡ n
zero_max n = omega arith

-- The lowest bit of an even number or'ed with another is the other's.
or_even : (n a b : ℕ) → a ≤ n → a % 2 ≡ 0 → digits (λ b. b) max n a b % 2 ≡ b % 2
or_even zero zero b h e = refl
or_even zero (suc a) b h e = absurd (omega (arith, h))
or_even (suc n) zero b h e = refl
or_even (suc n) (suc a) b h e = rw (e, zero_max (b % 2)) (omega arith)

bit_or-even : (a b : ℕ) → a % 2 ≡ 0 → bit_or a b % 2 ≡ b % 2
bit_or-even a b e = rw bit_or-bitwise (or_even a a b (omega arith) e)

unfoldable pub all_below : ℕ → (ℕ → Bool) → Bool
all_below zero p = true
all_below (suc n) p = p n && all_below n p

both : (a b : Bool) → (a && b) ≡ true → (a ≡ true) × (b ≡ true)
both true true h = (refl, refl)
both true false h = (refl, h)
both false b h = (h, cc)

pub equal : (a b : ℕ) → (a == b) ≡ true → a ≡ b
equal a b h = ground (arith, h)

pub all_below_lem : (n : ℕ) (p : ℕ → Bool) → all_below n p ≡ true → (i : ℕ) → i < n → p i ≡ true
unfolding all_below
all_below_lem zero p all i h = absurd (omega (arith, h))
all_below_lem (suc n) p all i h =
    let (here, below) = both (p n) (all_below n p) all in
    elim (Bool-cases (i == n)) [
      | inl e ↦ let at : i ≡ n = ground (arith, e) in rw at here
      | inr e ↦ let under : i < n = ground (arith, e, h) in all_below_lem n p below i under
    ]

-- The byte on the left comes out with its highest bit on the right.
entry_low : (w : ℕ) → w < 256 → entry (bit_and w 255) % 2 ≡ w / 128
unfolding bit_reverse_table all_below
entry_low w h =
    let b : (entry (bit_and w 255) % 2 == w / 128) ≡ true =
      all_below_lem 256 (λ w. entry (bit_and w 255) % 2 == w / 128) refl w h in
    equal (entry (bit_and w 255) % 2) (w / 128) b

-- MSB of a word below 2^32, which goes through the table of reversed bytes, is the bit of value
-- 2^31.
pub msb_lem : (v : ℕ) → v < 2 ^ 32 → msb v ≡ v / 2 ^ 31
unfolding msb bitwise_reverse
msb_lem v h =
    let w = v / 2 ^ 24 in
    let b0 = entry (bit_and v 255) in
    let b1 = entry (bit_and (v / 2 ^ 8) 255) in
    let b2 = entry (bit_and (v / 2 ^ 16) 255) in
    let b3 = entry (bit_and w 255) in
    let third = bit_or (b2 * 2 ^ 8) b3 in
    let second = bit_or (b1 * 2 ^ 16) third in
    let low : bitwise_reverse v % 2 ≡ v / 2 ^ 31 =
      let e0 : bit_or (u32 (b0 * 2 ^ 24)) second % 2 ≡ second % 2 =
        bit_or-even (u32 (b0 * 2 ^ 24)) second (omega arith) in
      let e1 : second % 2 ≡ third % 2 = bit_or-even (b1 * 2 ^ 16) third (omega arith) in
      let e2 : third % 2 ≡ b3 % 2 = bit_or-even (b2 * 2 ^ 8) b3 (omega arith) in
      let e3 : b3 % 2 ≡ w / 128 = entry_low w (omega (arith, h)) in omega (arith, e0, e1, e2, e3) in
    lsb_lem (bitwise_reverse v) (omega arith) ∙ low
