-- ===== src/Bits.antt =====
-- src/bits.h and src/bits.c: the lowest and the highest bit of a 32-bit word, its parity, and the
-- value of a hexadecimal digit. A word is a number below 2^32; the shifts of C are written out as
-- multiplication and division, cut to 32 bits.
pub mod Digits
use Prim.Native.Nat.{bit_and, bit_or, bit_xor}
use atomicles.Base.{
  ℕ, zero, suc, ◌+◌, ◌-◌, ◌*◌, ◌/◌, ◌%◌, ◌^◌, Bool, ◌&&◌, ◌++◌, List, [], ◌∷◌, leb, if◌then◌else◌,
  Option, none, some, get_elem?,
}

-- The conversion to `uint32_t`.
abbrev pub u32 : ℕ → ℕ
u32 n = n % 2 ^ 32

-- The macros R2, R4 and R6, and the table.
unfoldable pub r2 : ℕ → List ℕ
r2 n = n ∷ (n + 2 * 64) ∷ (n + 1 * 64) ∷ (n + 3 * 64) ∷ []

unfoldable pub r4 : ℕ → List ℕ
unfolding r2
r4 n = r2 n ++ r2 (n + 2 * 16) ++ r2 (n + 1 * 16) ++ r2 (n + 3 * 16)

unfoldable pub r6 : ℕ → List ℕ
unfolding r4
r6 n = r4 n ++ r4 (n + 2 * 4) ++ r4 (n + 1 * 4) ++ r4 (n + 3 * 4)

unfoldable pub bit_reverse_table : List ℕ
unfolding r6
bit_reverse_table = r6 0 ++ r6 2 ++ r6 1 ++ r6 3

-- An entry of the table; every index of the program is below 256.
abbrev pub entry : ℕ → ℕ
entry i = elim (get_elem? bit_reverse_table i) [ none ↦ 0 | some n ↦ n ]

unfoldable pub bitwise_reverse : ℕ → ℕ
bitwise_reverse v = u32 (
    bit_or (u32 (entry (bit_and v 255) * 2 ^ 24)) (
      bit_or (entry (bit_and (v / 2 ^ 8) 255) * 2 ^ 16)
        (bit_or (entry (bit_and (v / 2 ^ 16) 255) * 2 ^ 8) (entry (bit_and (v / 2 ^ 24) 255)))))

-- LSB and MSB
unfoldable pub lsb : ℕ → ℕ
lsb v = bit_xor (u32 ((v / 2) * 2)) v

unfoldable pub msb : ℕ → ℕ
unfolding bitwise_reverse lsb
msb v = lsb (bitwise_reverse v)

-- The exclusive or of the lowest `n` bits.
unfoldable pub parity : (n : ℕ) → ℕ → ℕ
parity zero v = 0
parity (suc n) v = bit_xor (v % 2) (parity n (v / 2))

-- BitwiseXNOR8, BitwiseXNOR16 and BitwiseXNOR32
unfoldable pub bitwise_xnor8 : ℕ → ℕ
unfolding parity
bitwise_xnor8 v = 1 - parity 8 v

unfoldable pub bitwise_xnor16 : ℕ → ℕ
unfolding parity
bitwise_xnor16 v = 1 - parity 16 v

unfoldable pub bitwise_xnor32 : ℕ → ℕ
unfolding parity
bitwise_xnor32 v = 1 - parity 32 v

unfoldable pub hctoc : ℕ → ℕ
hctoc c =
    if leb 48 c && leb c 57
    then c - 48
    else if leb 97 c && leb c 102
    then c - 87
    else if leb 65 c && leb c 70
    then c - 55
    else c
