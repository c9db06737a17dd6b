-- ===== src/Emulator.antt =====
-- src/ia32emu.c: one IA-32 instruction on the register file. The globals are a value that each
-- function passes on; messages and the final print are left out. A read through NULL is `none`.
pub mod Parse
pub mod Jumps
pub mod Shift
pub mod Exec
pub mod Options
pub mod Values
use Prim.Native.Nat.{bit_and, bit_or, bit_xor}
use atomicles.Base.{
  ℕ, zero, suc, ◌+◌, ◌-◌, ◌*◌, ◌/◌, ◌%◌, ◌^◌, Bool, true, false, not, ◌&&◌, ◌||◌, ◌==◌, ltb,
  if◌then◌else◌, Option, none, some,
}
use atomicles.Bits.{u32, lsb, msb, bitwise_xnor32}
use atomicles.Registers.{
  Registers, Register, Pointer, to_eflags, to_ecx, load, store, flag, set_flag, cf_bit, pf_bit,
  zf_bit, sf_bit, of_bit, register, size_of,
}

-- OPCODE
pub data Opcode : Type 0 where
  sal sar shl shr mov add sub or and xor : Opcode
  ja jae jb jbe jc jcxz jecxz je jg jge jl jle jna jnae jnb : Opcode
  jnbe jnc jne jng jnge jnl jnle jno jnp jns jnz jo jp jpe : Opcode
  jpo js jz test cmp : Opcode

-- What an operand pointer points at, besides NULL.
pub data Operand : Type 0 where
  to_register : Pointer → Operand
  to_immediate : Operand

-- The globals of the file: `operands` and `registers` by their slots, and what they point at.
pub record Machine : Type 0 where
  pub regs : Registers
  pub buffer : ℕ
  pub immediate : ℕ
  pub dst : Option Operand
  pub src : Option Operand
  pub dst_register : Option Pointer
  pub src_register : Option Pointer

abbrev pub eflags_of : Machine → ℕ
eflags_of m = m.regs.eflags.dword

abbrev pub put_dword : Registers → Pointer → ℕ → Registers
put_dword rs p n = store rs p (record (load rs p) { dword = n })

abbrev pub put_flag : ℕ → ℕ → Machine → Machine
put_flag i n m = record m { regs = put_dword m.regs to_eflags (set_flag i n (eflags_of m)) }

-- `*operands[i]` and an assignment to it.
abbrev pub value : Machine → Operand → ℕ
value m (to_register p) = (load m.regs p).dword
value m to_immediate = m.immediate

abbrev pub assign : Machine → Operand → ℕ → Machine
assign m (to_register p) n = record m { regs = put_dword m.regs p n }
assign m to_immediate n = record m { immediate = n }

-- One round of the loop of `shift`: the new word, and what CF is set to.
abbrev pub shift_word : Opcode → ℕ → ℕ
shift_word sal dst = u32 (dst * 2)
shift_word shl dst = u32 (dst * 2)
shift_word sar dst = bit_or (dst / 2) (bit_and dst (2 ^ 31))
shift_word _ dst = dst / 2

abbrev pub shift_carry : Opcode → ℕ → ℕ
shift_carry sal dst = msb dst
shift_carry shl dst = msb dst
shift_carry _ dst = lsb dst

-- The loop, with the count that is left.
unfoldable pub shift_loop : Opcode → ℕ → Machine → ℕ → ℕ × Machine
shift_loop ins zero m dst = (dst, m)
shift_loop ins (suc n) m dst =
    shift_loop ins n (put_flag cf_bit (shift_carry ins dst) m) (shift_word ins dst)

-- OF after a shift by one.
abbrev pub shift_overflow : Opcode → ℕ → Machine → ℕ
shift_overflow sal dst m = bit_xor (msb dst) (flag cf_bit (eflags_of m))
shift_overflow shl dst m = bit_xor (msb dst) (flag cf_bit (eflags_of m))
shift_overflow sar dst m = 0
shift_overflow _ dst m = msb dst

unfoldable pub shift : Opcode → Machine → (dst cnt : ℕ) → ℕ × Machine
unfolding shift_loop
shift ins m dst cnt =
    let (dst', m') = shift_loop ins (bit_and cnt 31) m dst in
    if bit_and cnt 31 == 1
    then (dst', put_flag of_bit (shift_overflow ins dst' m') m')
    else (dst', m')

abbrev pub is_zero : ℕ → ℕ
is_zero n = if n == 0 then 1 else 0

-- The case TEST of setEFLAGS, which ADD falls into.
unfoldable pub set_test_flags : Machine → Machine
set_test_flags m = put_flag pf_bit (bitwise_xnor32 m.buffer) (
    put_flag zf_bit (is_zero m.buffer)
      (put_flag sf_bit (msb m.buffer) (put_flag of_bit 0 (put_flag cf_bit 0 m))))

-- The switch of setEFLAGS, for operands that are not NULL.
unfoldable pub set_case_flags : Opcode → (dst src : Operand) → Machine → Machine
unfolding set_test_flags
set_case_flags sub dst src m = if ltb (value m dst) (value m src) then put_flag cf_bit 1 m else m
set_case_flags cmp dst src m = if ltb (value m dst) (value m src) then put_flag cf_bit 1 m else m
set_case_flags add dst src m =
    set_test_flags (if ltb m.buffer (value m dst) then put_flag cf_bit 1 m else m)
set_case_flags test dst src m = set_test_flags m
set_case_flags _ dst src m = m

-- setEFLAGS
unfoldable pub set_eflags : Opcode → (dst src : Operand) → Machine → Machine
unfolding set_case_flags
set_eflags opcode dst src m =
    let m' = set_case_flags opcode dst src m in put_flag zf_bit (is_zero m'.buffer) m'

unfoldable pub commit : Operand → Machine → Machine
commit dst m = record (assign m dst m.buffer) { buffer = 2 ^ 32 - 1 }

-- registers$size of `registers[i]`, which is NULL for a slot that no `-r` has filled.
abbrev pub slot_size : Machine → Option Pointer → Option ℕ
slot_size m none = none
slot_size m (some p) = some (size_of (load m.regs p))

-- The default case of check_operands, for operands that are not NULL. `none` is a read through NULL,
-- and EXIT_SUCCESS is `true`.
unfoldable pub same_sizes : Machine → Option Bool
same_sizes m = elim (slot_size m m.src_register) [
  | none ↦ none
  | some a ↦ elim (slot_size m m.dst_register) [ none ↦ none | some b ↦ some (a == b) ]
]

-- How a run of the instruction ends: done with success, refused with EXIT_FAILURE, told whether it
-- would jump, or dead.
pub data Outcome : Type 0 where
  ran : Machine → Outcome
  refused : Machine → Outcome
  jumps : Bool → Machine → Outcome
  crashed : Outcome

-- check_operands, and what `main` does behind it when it succeeds.
unfoldable pub with_dst : Machine → (Operand → Outcome) → Outcome
with_dst m f = elim m.dst [ none ↦ refused m | some d ↦ f d ]

unfoldable pub with_operands : Machine → (Operand → Operand → Outcome) → Outcome
unfolding same_sizes
with_operands m f = elim m.dst [
  | none ↦ refused m
  | some d ↦ elim m.src [
    | none ↦ refused m
    | some s ↦ elim (same_sizes m) [
      | none ↦ crashed
      | some same ↦ if same then f d s else refused m
    ]
  ]
]

-- The buffer is computed, the flags are set, and the result is committed.
unfoldable pub compute : Opcode → (Machine → Operand → Operand → ℕ) → Machine → Outcome
unfolding with_operands set_eflags commit
compute opcode f m =
    with_operands m λ d s. ran (commit d (set_eflags opcode d s (record m { buffer = f m d s })))

-- The same without the commit.
unfoldable pub compare_only : Opcode → (Machine → Operand → Operand → ℕ) → Machine → Outcome
unfolding with_operands set_eflags
compare_only opcode f m =
    with_operands m λ d s. ran (set_eflags opcode d s (record m { buffer = f m d s }))

-- The four shifts: `main` passes SAR to `shift` for each of them. The source operand, which may be
-- NULL, is not looked at by setEFLAGS in this case.
unfoldable pub shift_dst : Opcode → (count : ℕ) → Machine → Outcome
unfolding with_dst shift set_eflags commit
shift_dst opcode count m = with_dst m λ d.
    let (n, m') = shift sar m (value m d) count in
    ran (commit d (set_eflags opcode d d (record m' { buffer = n })))

-- The conditions of the jumps, on the word of `eflags`.
unfoldable pub condition : Opcode → ℕ → Option Bool
condition jnb e = some (flag cf_bit e == 0)
condition jnc e = some (flag cf_bit e == 0)
condition jae e = some (flag cf_bit e == 0)
condition jno e = some (flag of_bit e == 0)
condition jpo e = some (flag pf_bit e == 0)
condition jnp e = some (flag pf_bit e == 0)
condition jns e = some (flag sf_bit e == 0)
condition jne e = some (flag zf_bit e == 0)
condition jnz e = some (flag zf_bit e == 0)
condition jc e = some (flag cf_bit e == 1)
condition jnae e = some (flag cf_bit e == 1)
condition jb e = some (flag cf_bit e == 1)
condition jo e = some (flag of_bit e == 1)
condition jpe e = some (flag pf_bit e == 1)
condition jp e = some (flag pf_bit e == 1)
condition js e = some (flag sf_bit e == 1)
condition je e = some (flag zf_bit e == 1)
condition jz e = some (flag zf_bit e == 1)
condition jnbe e = some (flag cf_bit e == 0 && flag zf_bit e == 0)
condition ja e = some (flag cf_bit e == 0 && flag zf_bit e == 0)
condition jbe e = some (flag cf_bit e == 1 || flag zf_bit e == 1)
condition jna e = some (flag cf_bit e == 1 || flag zf_bit e == 1)
condition jnle e = some (flag zf_bit e == 0 && flag sf_bit e == flag of_bit e)
condition jg e = some (flag zf_bit e == 0 && flag sf_bit e == flag of_bit e)
condition jng e = some (flag zf_bit e == 1 || not (flag sf_bit e == flag of_bit e))
condition jle e = some (flag zf_bit e == 1 || not (flag sf_bit e == flag of_bit e))
condition jnl e = some (flag sf_bit e == flag of_bit e)
condition jge e = some (flag sf_bit e == flag of_bit e)
condition jnge e = some (not (flag sf_bit e == flag of_bit e))
condition jl e = some (not (flag sf_bit e == flag of_bit e))
condition _ e = none

-- JECXZ reads ECX under its 32-bit id; JCXZ asks for CX, and then reads through `r32`, still NULL.
unfoldable pub jump_on_ecx : Machine → Outcome
jump_on_ecx m = elim (register 292 m.regs) [
  | none ↦ crashed
  | some found ↦ jumps ((load found.1 found.0).dword == 0) (record m { regs = found.1 })
]

-- The other opcodes.
unfoldable pub jump_if : Opcode → Machine → Outcome
unfolding condition
jump_if opcode m = elim (condition opcode (eflags_of m)) [
  | none ↦ refused m
  | some taken ↦ jumps taken m
]

-- The switch of `main`.
unfoldable pub exec : Opcode → (count : ℕ) → Machine → Outcome
unfolding shift_dst compute compare_only jump_on_ecx jump_if
exec sar count m = shift_dst sar count m
exec shr count m = shift_dst shr count m
exec sal count m = shift_dst sal count m
exec shl count m = shift_dst shl count m
exec mov count m = compute mov (λ m d s. value m s) m
exec sub count m = compute sub (λ m d s. u32 (2 ^ 32 + m.buffer - value m s)) m
exec cmp count m = compare_only cmp (λ m d s. u32 (2 ^ 32 + m.buffer - value m s)) m
exec and count m = compute and (λ m d s. bit_and (value m d) (value m s)) m
exec test count m = compare_only test (λ m d s. bit_and (value m d) (value m s)) m
exec add count m = compute add (λ m d s. u32 (m.buffer + value m s)) m
exec or count m = compute or (λ m d s. bit_or m.buffer (value m s)) m
exec xor count m = compute xor (λ m d s. bit_xor m.buffer (value m s)) m
exec jcxz count m = crashed
exec jecxz count m = jump_on_ecx m
exec opcode count m = jump_if opcode m
