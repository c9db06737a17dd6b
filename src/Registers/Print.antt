-- ===== src/Registers/Print.antt =====
-- registers$print of src/registers.c: what it shows of the registers. The layout of the lines is left
-- out.
use atomicles.Base.{
  ℕ, Bool, true, false, ◌&&◌, ◌==◌, Option, none, some, List, [], ◌∷◌, if◌then◌else◌,
}
use atomicles.Registers.{
  Registers, Pointer, to_eflags, to_eax, to_ebx, to_ecx, to_edx, flag, cf_bit, pf_bit, zf_bit,
  sf_bit, of_bit,
}

abbrev pub same_pointer : Pointer → Pointer → Bool
same_pointer to_eflags to_eflags = true
same_pointer to_eax to_eax = true
same_pointer to_ebx to_ebx = true
same_pointer to_ecx to_ecx = true
same_pointer to_edx to_edx = true
same_pointer _ _ = false

-- Whether an operand is the word of a register; `none` is an operand elsewhere, or NULL.
abbrev pub is_at : Option Pointer → Pointer → Bool
is_at none p = false
is_at (some q) p = same_pointer q p

-- A letter in upper case where the bit is set.
abbrev pub letter : (bit upper lower : ℕ) → ℕ → ℕ
letter bit upper lower dword = if flag bit dword == 1 then upper else lower

-- The letters of `status` and of `control`.
unfoldable pub status_letters : ℕ → List ℕ
status_letters dword =
    letter cf_bit b'C' b'c' dword
    ∷ letter pf_bit b'P' b'p' dword
    ∷ letter 4 b'A' b'a' dword
    ∷ letter zf_bit b'Z' b'z' dword
    ∷ letter sf_bit b'S' b's' dword
    ∷ letter of_bit b'O' b'o' dword
    ∷ []

unfoldable pub control_letter : ℕ → ℕ
control_letter dword = letter 10 b'D' b'd' dword

-- The mark of __registers$printGPR, for the operands `dst` and `src`.
unfoldable pub mark : (dst src : Option Pointer) → Pointer → ℕ
mark dst src p =
    if is_at dst p && is_at src p
    then b'*'
    else if is_at src p
    then b'S'
    else if is_at dst p
    then b'D'
    else b' '

pub record Shown : Type 0 where
  pub eflags : ℕ
  pub status : List ℕ
  pub control : ℕ
  pub immediate : ℕ
  pub general : List (ℕ × ℕ)

unfoldable pub print : (dst src : Option Pointer) (immediate : ℕ) → Registers → Shown
unfolding status_letters control_letter mark
print dst src immediate rs = record {
  eflags = rs.eflags.dword;
  status = status_letters rs.eflags.dword;
  control = control_letter rs.eflags.dword;
  immediate = immediate;
  general =
      (mark dst src to_eax, rs.eax.dword)
      ∷ (mark dst src to_ebx, rs.ebx.dword)
      ∷ (mark dst src to_ecx, rs.ecx.dword)
      ∷ (mark dst src to_edx, rs.edx.dword)
      ∷ [];
}
