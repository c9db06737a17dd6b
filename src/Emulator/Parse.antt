-- ===== src/Emulator/Parse.antt =====
-- `set_instruction` of src/ia32emu.c: an opcode by its name.
use atomicles.Base.{ℕ, ◌≡◌, refl, if◌then◌else◌, Option, none, some, List, [], ◌∷◌}
use atomicles.Registers.{same_text}
use atomicles.Emulator.{
  Opcode, sal, sar, shl, shr, mov, add, sub, or, and, xor, ja, jae, jb, jbe, jc, jcxz, jecxz, je,
  jg, jge, jl, jle, jna, jnae, jnb, jnbe, jnc, jne, jng, jnge, jnl, jnle, jno, jnp, jns, jnz, jo,
  jp, jpe, jpo, js, jz, test, cmp,
}

-- The macro argument of `IS` as text.
abbrev pub text_of : Opcode → List ℕ
text_of sal = 83 ∷ 65 ∷ 76 ∷ []
text_of sar = 83 ∷ 65 ∷ 82 ∷ []
text_of shl = 83 ∷ 72 ∷ 76 ∷ []
text_of shr = 83 ∷ 72 ∷ 82 ∷ []
text_of ja = 74 ∷ 65 ∷ []
text_of jae = 74 ∷ 65 ∷ 69 ∷ []
text_of jb = 74 ∷ 66 ∷ []
text_of jbe = 74 ∷ 66 ∷ 69 ∷ []
text_of jc = 74 ∷ 67 ∷ []
text_of jcxz = 74 ∷ 67 ∷ 88 ∷ 90 ∷ []
text_of jecxz = 74 ∷ 69 ∷ 67 ∷ 88 ∷ 90 ∷ []
text_of je = 74 ∷ 69 ∷ []
text_of jg = 74 ∷ 71 ∷ []
text_of jge = 74 ∷ 71 ∷ 69 ∷ []
text_of jl = 74 ∷ 76 ∷ []
text_of jle = 74 ∷ 76 ∷ 69 ∷ []
text_of jna = 74 ∷ 78 ∷ 65 ∷ []
text_of jnae = 74 ∷ 78 ∷ 65 ∷ 69 ∷ []
text_of jnb = 74 ∷ 78 ∷ 66 ∷ []
text_of jnbe = 74 ∷ 78 ∷ 66 ∷ 69 ∷ []
text_of jnc = 74 ∷ 78 ∷ 67 ∷ []
text_of jne = 74 ∷ 78 ∷ 69 ∷ []
text_of jng = 74 ∷ 78 ∷ 71 ∷ []
text_of jnge = 74 ∷ 78 ∷ 71 ∷ 69 ∷ []
text_of jnl = 74 ∷ 78 ∷ 76 ∷ []
text_of jnle = 74 ∷ 78 ∷ 76 ∷ 69 ∷ []
text_of jno = 74 ∷ 78 ∷ 79 ∷ []
text_of jnp = 74 ∷ 78 ∷ 80 ∷ []
text_of jns = 74 ∷ 78 ∷ 83 ∷ []
text_of jnz = 74 ∷ 78 ∷ 90 ∷ []
text_of jo = 74 ∷ 79 ∷ []
text_of jp = 74 ∷ 80 ∷ []
text_of jpe = 74 ∷ 80 ∷ 69 ∷ []
text_of jpo = 74 ∷ 80 ∷ 79 ∷ []
text_of js = 74 ∷ 83 ∷ []
text_of jz = 74 ∷ 90 ∷ []
text_of mov = 77 ∷ 79 ∷ 86 ∷ []
text_of and = 65 ∷ 78 ∷ 68 ∷ []
text_of xor = 88 ∷ 79 ∷ 82 ∷ []
text_of or = 79 ∷ 82 ∷ []
text_of add = 65 ∷ 68 ∷ 68 ∷ []
text_of sub = 83 ∷ 85 ∷ 66 ∷ []
text_of test = 84 ∷ 69 ∷ 83 ∷ 84 ∷ []
text_of cmp = 67 ∷ 77 ∷ 80 ∷ []

-- `none` is EXIT_FAILURE, where the opcode is set to 0.
unfoldable pub set_instruction : List ℕ → Option Opcode
set_instruction name =
    if same_text name (text_of sal)
    then some sal
    else if same_text name (text_of sar)
    then some sar
    else if same_text name (text_of shl)
    then some shl
    else if same_text name (text_of shr)
    then some shr
    else if same_text name (text_of ja)
    then some ja
    else if same_text name (text_of jae)
    then some jae
    else if same_text name (text_of jb)
    then some jb
    else if same_text name (text_of jbe)
    then some jbe
    else if same_text name (text_of jc)
    then some jc
    else if same_text name (text_of jcxz)
    then some jcxz
    else if same_text name (text_of jecxz)
    then some jecxz
    else if same_text name (text_of je)
    then some je
    else if same_text name (text_of jg)
    then some jg
    else if same_text name (text_of jge)
    then some jge
    else if same_text name (text_of jl)
    then some jl
    else if same_text name (text_of jle)
    then some jle
    else if same_text name (text_of jna)
    then some jna
    else if same_text name (text_of jnae)
    then some jnae
    else if same_text name (text_of jnb)
    then some jnb
    else if same_text name (text_of jnbe)
    then some jnbe
    else if same_text name (text_of jnc)
    then some jnc
    else if same_text name (text_of jne)
    then some jne
    else if same_text name (text_of jng)
    then some jng
    else if same_text name (text_of jnge)
    then some jnge
    else if same_text name (text_of jnl)
    then some jnl
    else if same_text name (text_of jnle)
    then some jnle
    else if same_text name (text_of jno)
    then some jno
    else if same_text name (text_of jnp)
    then some jnp
    else if same_text name (text_of jns)
    then some jns
    else if same_text name (text_of jnz)
    then some jnz
    else if same_text name (text_of jo)
    then some jo
    else if same_text name (text_of jp)
    then some jp
    else if same_text name (text_of jpe)
    then some jpe
    else if same_text name (text_of jpo)
    then some jpo
    else if same_text name (text_of js)
    then some js
    else if same_text name (text_of jz)
    then some jz
    else if same_text name (text_of mov)
    then some mov
    else if same_text name (text_of and)
    then some and
    else if same_text name (text_of xor)
    then some xor
    else if same_text name (text_of or)
    then some or
    else if same_text name (text_of add)
    then some add
    else if same_text name (text_of sub)
    then some sub
    else if same_text name (text_of test)
    then some test
    else none

-- The opcodes that the program's syntax has.
abbrev pub supported : Opcode → Option Opcode
supported cmp = none
supported o = some o

-- Every opcode but CMP is found by its name; CMP, which `main` could execute, is refused.
pub set_instruction-text_of : (o : Opcode) → set_instruction (text_of o) ≡ supported o
unfolding set_instruction
set_instruction-text_of sal = refl
set_instruction-text_of sar = refl
set_instruction-text_of shl = refl
set_instruction-text_of shr = refl
set_instruction-text_of ja = refl
set_instruction-text_of jae = refl
set_instruction-text_of jb = refl
set_instruction-text_of jbe = refl
set_instruction-text_of jc = refl
set_instruction-text_of jcxz = refl
set_instruction-text_of jecxz = refl
set_instruction-text_of je = refl
set_instruction-text_of jg = refl
set_instruction-text_of jge = refl
set_instruction-text_of jl = refl
set_instruction-text_of jle = refl
set_instruction-text_of jna = refl
set_instruction-text_of jnae = refl
set_instruction-text_of jnb = refl
set_instruction-text_of jnbe = refl
set_instruction-text_of jnc = refl
set_instruction-text_of jne = refl
set_instruction-text_of jng = refl
set_instruction-text_of jnge = refl
set_instruction-text_of jnl = refl
set_instruction-text_of jnle = refl
set_instruction-text_of jno = refl
set_instruction-text_of jnp = refl
set_instruction-text_of jns = refl
set_instruction-text_of jnz = refl
set_instruction-text_of jo = refl
set_instruction-text_of jp = refl
set_instruction-text_of jpe = refl
set_instruction-text_of jpo = refl
set_instruction-text_of js = refl
set_instruction-text_of jz = refl
set_instruction-text_of mov = refl
set_instruction-text_of and = refl
set_instruction-text_of xor = refl
set_instruction-text_of or = refl
set_instruction-text_of add = refl
set_instruction-text_of sub = refl
set_instruction-text_of test = refl
set_instruction-text_of cmp = refl
