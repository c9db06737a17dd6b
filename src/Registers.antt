-- ===== src/Registers.antt =====
-- src/registers.c and src/registers.h: the register file of the emulator, five words kept in a
-- shared segment between two runs. A register is its `id` and its 32-bit word; the pointers of the
-- source are the names of the five registers, and the bit fields of `eflags32_t` are digits of the
-- word.
pub mod Names
pub mod Kept
pub mod Print
use Prim.Native.Nat.{bit_or}
use atomicles.Base.{
  ℕ, ◌+◌, ◌-◌, ◌*◌, ◌/◌, ◌%◌, ◌^◌, Bool, ◌&&◌, ◌||◌, ◌==◌, ltb, leb, if◌then◌else◌, Option, none,
  some, List, [], ◌∷◌, length, get_elem?,
}
use atomicles.Sys.{Kernel}
use atomicles.Sys.Run.{Cmd, pure, ◌>>=◌, ◌>>◌, assert}
use atomicles.Semaphore.{crash}
use atomicles.SharedMemory as Shm
use atomicles.SharedMemory.{SharedMemory}

pub record Register : Type 0 where
  pub id : ℕ
  pub dword : ℕ

pub record Registers : Type 0 where
  pub eflags : Register
  pub eax : Register
  pub ebx : Register
  pub ecx : Register
  pub edx : Register

-- One of the five pointers `__registers$eflags` to `__registers$edx`.
pub data Pointer : Type 0 where
  to_eflags to_eax to_ebx to_ecx to_edx : Pointer

abbrev pub load : Registers → Pointer → Register
load rs to_eflags = rs.eflags
load rs to_eax = rs.eax
load rs to_ebx = rs.ebx
load rs to_ecx = rs.ecx
load rs to_edx = rs.edx

abbrev pub store : Registers → Pointer → Register → Registers
store rs to_eflags r = record rs { eflags = r }
store rs to_eax r = record rs { eax = r }
store rs to_ebx r = record rs { ebx = r }
store rs to_ecx r = record rs { ecx = r }
store rs to_edx r = record rs { edx = r }

-- The bit fields of `eflags32_t`: the value of bit `i`, and an assignment to it, which takes the
-- lowest bit of what is assigned.
abbrev pub flag : ℕ → ℕ → ℕ
flag i dword = (dword / 2 ^ i) % 2

abbrev pub set_flag : ℕ → ℕ → ℕ → ℕ
set_flag i n dword = dword - flag i dword * 2 ^ i + (n % 2) * 2 ^ i

abbrev pub cf_bit : ℕ
cf_bit = 0

abbrev pub pf_bit : ℕ
pf_bit = 2

abbrev pub zf_bit : ℕ
zf_bit = 6

abbrev pub sf_bit : ℕ
sf_bit = 7

abbrev pub of_bit : ℕ
of_bit = 11

-- The entries that `registers$init` puts into `__registers$REGISTERS`; any other index reads NULL,
-- or past the array.
unfoldable pub entry_of : ℕ → Option Pointer
entry_of id =
    if id == 16
    then some to_eflags
    else if id == 260 || id == 258 || id == 257 || id == 321
    then some to_eax
    else if id == 276 || id == 274 || id == 273 || id == 337
    then some to_ebx
    else if id == 292 || id == 290 || id == 289 || id == 353
    then some to_ecx
    else if id == 308 || id == 306 || id == 305 || id == 369
    then some to_edx
    else none

-- registers$register: the register is marked with the id that it was asked for by. `none` is a read
-- through NULL.
unfoldable pub register : ℕ → Registers → Option (Pointer × Registers)
unfolding entry_of
register id rs = elim (entry_of id) [
  | none ↦ none
  | some p ↦ some (p, store rs p (record (load rs p) { id = id }))
]

-- registers$size, in bits
unfoldable pub size_of : Register → ℕ
size_of r = (r.id % 16) * 8

abbrev pub eflags_name : List ℕ
eflags_name = 101 ∷ 102 ∷ 108 ∷ 97 ∷ 103 ∷ 115 ∷ []

abbrev pub same_text : List ℕ → List ℕ → Bool
same_text [] [] = Bool.true
same_text [] (_ ∷ _) = Bool.false
same_text (_ ∷ _) [] = Bool.false
same_text (a ∷ rest) (b ∷ others) = a == b && same_text rest others

-- `0x100 | ((c - 'a') << 4)` as a `uint32_t`
unfoldable pub class_of : ℕ → ℕ
class_of c = bit_or 256 (if leb 97 c then (c - 97) * 16 else 2 ^ 32 - (97 - c) * 16)

unfoldable pub size_code : ℕ → ℕ
size_code c = if c == 108 || c == 104 then 1 else if c == 120 then 2 else 4

-- The id that a name stands for. A name of one letter or none is read in front of its beginning,
-- which is `none`.
unfoldable pub id_of_name : List ℕ → Option ℕ
unfolding class_of size_code
id_of_name operand =
    if same_text operand eflags_name
    then some 16
    else if ltb (length operand) 2
    then none
    else elim (get_elem? operand (length operand - 2)) [
      | none ↦ none
      | some c ↦ elim (get_elem? operand 1) [
        | none ↦ none
        | some d ↦ some (bit_or (class_of c) (size_code d))
      ]
    ]

unfoldable pub register_by_name : List ℕ → Registers → Option (Pointer × Registers)
unfolding id_of_name register
register_by_name operand rs = elim (id_of_name operand) [ none ↦ none | some id ↦ register id rs ]

-- `SHMEM_KEY`
abbrev pub shmem_key : ℕ
shmem_key = 32

-- The word that `registers$init` makes of the one it read: four reserved bits are set or cleared.
unfoldable pub reserve : ℕ → ℕ
reserve dword = set_flag 15 0 (set_flag 5 0 (set_flag 3 0 (set_flag 1 1 dword)))

module _ {W : Type 0} ⦃k : Kernel W⦄ where
  -- The five words of the segment; `malloc` is not checked.
  unfoldable pub read_register : SharedMemory → (offset id : ℕ) → Cmd W Register
  read_register shmem offset id = do
    block ← k.malloc
    elim block [
      | none ↦ crash
      | some _ ↦ do n ← Shm.read_uint32 shmem offset; pure (record { id = id; dword = n })
    ]

  unfoldable pub read_registers : SharedMemory → Cmd W Registers
  read_registers shmem = do
    eflags ← read_register shmem 0 16
    eax ← read_register shmem 1 260
    ebx ← read_register shmem 2 276
    ecx ← read_register shmem 3 292
    edx ← read_register shmem 4 308
    pure (record {
      eflags = record eflags { dword = reserve eflags.dword };
      eax = eax;
      ebx = ebx;
      ecx = ecx;
      edx = edx;
    })

  unfoldable pub init : Cmd W (SharedMemory × Registers)
  init = do
    m ← Shm.new shmem_key (5 * 4) Bool.true
    elim m [
      | none ↦ do assert Bool.false; crash
      | some shmem ↦ do rs ← read_registers shmem; pure (shmem, rs)
    ]

  unfoldable pub delete : SharedMemory → Registers → Cmd W (Unit {0})
  delete shmem rs = do
    Shm.write_uint32 shmem 0 rs.eflags.dword
    Shm.write_uint32 shmem 1 rs.eax.dword
    Shm.write_uint32 shmem 2 rs.ebx.dword
    Shm.write_uint32 shmem 3 rs.ecx.dword
    Shm.write_uint32 shmem 4 rs.edx.dword
    Shm.delete shmem Bool.false
